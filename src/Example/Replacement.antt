-- ===== src/Example/Replacement.antt =====
-- A replacement that is parsed, and facts that are not.
use souper.Prelude.{ℕ, ◌≡◌, refl, List, [], All, some, Bool, true, false}
use souper.Inst.Context.Built.{empty_context, start, Built-IsValid}
use souper.Inst.Context.Valid.{IsValid}
use souper.Parser.Token.{comma}
use souper.Parser.Lexer.{plain}
use souper.Parser.Message.{Checked, ok, err}
use souper.Parser.State.{codes, State, Stop, out_of_fuel, ParsedReplacement, Input}
use souper.Parser.Facts.{parse_facts}
use souper.Inst.Names.{kind_cases, string_switch}
use souper.Parser.Greatest.{greatest}
use souper.Parser.Definition.{
  parse_definition, parse_right_side, parse_kind, parse_var, make_var, parse_block,
}
use souper.Parser.Facts.Hang.{parse_facts_hangs}
use souper.Parser.Sound.Line.{
  Reached, started, parsed, Reached-greatest, IsParsed, parse_replacements-IsParsed,
  parse_replacements-Asserted,
}
use souper.Parser.Sound.{Asserted}
use souper.Parser.State.{parse_lhs}
use souper.Example.Bits.{Bits, bits_ApInt}
use souper.Example.BitsLaws.{bits_laws}
use souper.Example.Context.{list_library, list_laws}
use souper.Example.Built.{facts}
use souper.Parser.Lexer.{
  get_next_token, skip_blank, lex_found, lex_word, lex_value, value_token, skip_run, run_of,
  lex_number, width_suffix, read_width, int_token,
}
use souper.Parser.State.{consume_token, parse_inst_of, parse_inst_mapping, next_replacement}
use souper.Parser.Attribute.{parse_inst_attribute, parse_attributes}
use souper.Parser.Statement.{find_index, parse_cand, parse_infer, parse_blockpc, raise_index}
use souper.Parser.Line.{
  parse_replacements, parse_replacements_from, replacements_loop, parse_line_of, parse_line,
  parse_statement, new_parser, both_input, lhs_input,
}
use souper.Parser.TypeCheck.{type_check_ops_matching_widths, scan_widths, type_ops, is_overflow}
use souper.Inst.Context.{create_var, create_block, create_pred_vars, Context}

abbrev text : List ℕ
text = codes "%a:i4 = var\ncand %a %a"

abbrev no_insts : Context Bits
no_insts = empty_context bits_ApInt list_library

abbrev run : Checked Stop (List ParsedReplacement × Context Bits)
run = parse_replacements bits_ApInt list_library 4 text no_insts

abbrev parsed_text : List ParsedReplacement × Context Bits
parsed_text = elim run [ ok r ↦ r | err e ↦ ([], no_insts) ]

run-parsed : run ≡ ok parsed_text
unfolding get_next_token skip_blank lex_found lex_word skip_run run_of lex_number width_suffix
    read_width int_token consume_token parse_inst_of parse_inst_mapping next_replacement
    parse_inst_attribute parse_attributes parse_cand parse_replacements parse_replacements_from
    replacements_loop parse_line_of parse_statement new_parser create_var parse_definition
    parse_right_side parse_kind parse_var parse_facts make_var string_switch kind_cases lex_value
    value_token type_check_ops_matching_widths scan_widths type_ops is_overflow
run-parsed = refl

no_insts-IsValid : IsValid bits_ApInt no_insts
no_insts-IsValid = Built-IsValid bits_ApInt list_library list_laws start

parse_replacements-IsParsed_example :
    IsParsed bits_ApInt list_library list_laws bits_laws parsed_text
parse_replacements-IsParsed_example =
    parse_replacements-IsParsed bits_ApInt list_library list_laws bits_laws 4 text no_insts
      parsed_text no_insts-IsValid run-parsed

-- The state in which a comma follows `var`.
abbrev at_comma : State Bits
at_comma =
    record (new_parser bits_ApInt list_library (both_input bits_ApInt list_library text) no_insts) {
      cur_tok = plain comma 0 1;
    }

parse_facts_hangs_example :
    parse_facts bits_ApInt list_library
      (record { line = 1; col = 1 })
      4
      1000
      (both_input bits_ApInt list_library text)
      facts
      at_comma
    ≡ err out_of_fuel
parse_facts_hangs_example =
    parse_facts_hangs bits_ApInt list_library (record { line = 1; col = 1 }) 4 1000
      (both_input bits_ApInt list_library text) facts at_comma refl refl

abbrev lhs_text : List ℕ
lhs_text = codes "%a:i4 = var\ninfer %a"

abbrev lhs_run : Checked Stop (State Bits)
lhs_run =
    parse_replacements_from bits_ApInt list_library 4 (lhs_input bits_ApInt list_library lhs_text)
      (new_parser bits_ApInt list_library (lhs_input bits_ApInt list_library lhs_text) no_insts)

abbrev lhs_state : State Bits
lhs_state = elim lhs_run [ ok s ↦ s | err e ↦ at_comma ]

lhs_run-parsed : lhs_run ≡ ok lhs_state
unfolding get_next_token skip_blank lex_found lex_word skip_run run_of lex_number width_suffix
    read_width int_token consume_token parse_inst_of next_replacement parse_inst_attribute
    parse_attributes parse_infer parse_replacements_from replacements_loop parse_line_of
    parse_statement new_parser create_var parse_definition parse_right_side parse_kind parse_var
    parse_facts make_var string_switch kind_cases lex_value value_token is_overflow
lhs_run-parsed = refl

parse_replacements-Asserted_example :
    All (λ (r : ParsedReplacement). Asserted parse_lhs r.mapping) lhs_state.reps
parse_replacements-Asserted_example =
    parse_replacements-Asserted bits_ApInt list_library list_laws bits_laws 4
      (lhs_input bits_ApInt list_library lhs_text) no_insts lhs_state no_insts-IsValid tt
      lhs_run-parsed

-- The states between the lines of a text with a block path condition.
abbrev blockpc_input : Input
blockpc_input =
    both_input bits_ApInt list_library (codes "%b = block 2\n%x:i4 = var\nblockpc %b 1 %x %x")

abbrev is_ok : Checked Stop (State Bits) → Bool
is_ok r = elim r [ ok s ↦ true | err e ↦ false ]

abbrev result : State Bits → Checked Stop (State Bits) → State Bits
result s r = elim r [ ok t ↦ t | err e ↦ s ]

ok_result : (s : State Bits) (r : Checked Stop (State Bits)) → is_ok r ≡ true → r ≡ ok (result s r)
ok_result s (ok t) h = refl
ok_result s (err e) h = absurd (cc h)

abbrev next_state : ℕ → State Bits → State Bits
next_state fuel s = result s (parse_line bits_ApInt list_library fuel blockpc_input s)

abbrev at_start : State Bits
at_start = new_parser bits_ApInt list_library blockpc_input no_insts

abbrev at_block : State Bits
at_block = result at_start (consume_token bits_ApInt list_library at_start)

abbrev at_var : State Bits
at_var = next_state 4 at_block

abbrev at_blockpc : State Bits
at_blockpc = next_state 4 at_var

abbrev after_blockpc : State Bits
after_blockpc = next_state 4 at_blockpc

at_block-read : consume_token bits_ApInt list_library at_start ≡ ok at_block
unfolding get_next_token skip_blank lex_found skip_run run_of lex_value value_token consume_token
    new_parser
at_block-read = refl

at_var-parsed : is_ok (parse_line bits_ApInt list_library 4 blockpc_input at_block) ≡ true
unfolding get_next_token skip_blank lex_found lex_word skip_run run_of lex_number lex_value
    value_token width_suffix read_width int_token consume_token parse_inst_of parse_inst_mapping
    new_parser parse_line_of parse_statement parse_definition parse_right_side parse_kind
    parse_block create_block create_pred_vars create_var string_switch kind_cases
at_var-parsed = refl

at_blockpc-parsed : is_ok (parse_line bits_ApInt list_library 4 blockpc_input at_var) ≡ true
unfolding get_next_token skip_blank lex_found lex_word skip_run run_of lex_number lex_value
    value_token width_suffix read_width int_token consume_token parse_inst_of parse_inst_mapping
    new_parser parse_line_of parse_statement parse_definition parse_right_side parse_kind
    parse_block create_block create_pred_vars create_var string_switch kind_cases parse_var
    parse_facts make_var
at_blockpc-parsed = refl

after_blockpc-parsed : is_ok (parse_line bits_ApInt list_library 4 blockpc_input at_blockpc) ≡ true
unfolding get_next_token skip_blank lex_found lex_word skip_run run_of lex_number lex_value
    value_token width_suffix read_width int_token consume_token parse_inst_of parse_inst_mapping
    new_parser parse_line_of parse_statement parse_definition parse_right_side parse_kind
    parse_block create_block create_pred_vars create_var string_switch kind_cases parse_var
    parse_facts make_var parse_blockpc raise_index type_check_ops_matching_widths scan_widths
    type_ops is_overflow
after_blockpc-parsed = refl

after_blockpc-Reached :
    Reached bits_ApInt list_library list_laws bits_laws blockpc_input no_insts after_blockpc
after_blockpc-Reached =
    parsed 4
      (parsed 4 (parsed 4 (started at_block-read) (ok_result at_block _ at_var-parsed))
        (ok_result at_var _ at_blockpc-parsed))
      (ok_result at_blockpc _ after_blockpc-parsed)

Reached-greatest_example :
    find_index after_blockpc.block_pc_idx_map 1 ≡ greatest after_blockpc.bpcs 1
Reached-greatest_example =
    Reached-greatest bits_ApInt list_library list_laws bits_laws blockpc_input no_insts
      after_blockpc no_insts-IsValid tt after_blockpc-Reached 1

greatest_of_block : greatest after_blockpc.bpcs 1 ≡ some 1
unfolding get_next_token skip_blank lex_found lex_word skip_run run_of lex_number lex_value
    value_token width_suffix read_width int_token consume_token parse_inst_of parse_inst_mapping
    new_parser parse_line_of parse_statement parse_definition parse_right_side parse_kind
    parse_block create_block create_pred_vars create_var string_switch kind_cases parse_var
    parse_facts make_var parse_blockpc raise_index type_check_ops_matching_widths scan_widths
    type_ops is_overflow greatest
greatest_of_block = refl
