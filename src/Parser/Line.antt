-- ===== src/Parser/Line.antt =====
-- lib/Parser/Parser.cpp: `parseLine`, `parseReplacement`, `parseReplacements`, and the functions that
-- the library offers.
use souper.Prelude.{ℕ, zero, suc, Bool, true, false, not, ◌||◌, List, [], ◌∷◌, ◌++◌, none, some}
use souper.Inst.Context.{Library, Context}
use souper.Llvm.ApInt.{ApInt}
use souper.Parser.Token.{TokenKind, ident, val_name, eof}
use souper.Parser.Lexer.{plain}
use souper.Parser.Message.{Message, str, bytes, Checked, ok, err, ◌>>=◌, ◌>>◌, reject}
use souper.Parser.State.{
  Input, State, Stop, out_of_fuel, ReplacementKind, parse_lhs, parse_rhs, parse_both, Names,
  no_names, has_no_names, ParsedReplacement, make_err_str, is_tok, has_text, token_text,
  consume_token,
}
use souper.Parser.Statement.{parse_cand, parse_infer, parse_result, parse_pc, parse_blockpc}
use souper.Parser.Definition.{parse_definition}

abbrev pub is_empty {ℓ} : {T : Type ℓ} → List T → Bool
is_empty [] = true
is_empty (x ∷ xs) = false

-- The message of `parseReplacement` at the end of the text.
abbrev pub incomplete : ReplacementKind → Message
incomplete parse_lhs = str "incomplete replacement, need an 'infer' statement" ∷ []
incomplete parse_rhs = str "incomplete replacement, need a 'result' statement" ∷ []
incomplete parse_both =
    str "incomplete replacement, need a 'cand' statement or 'infer'/'result' pair" ∷ []

module _ (A : ApInt) (lib : Library A) where
  open A use {Num}

  -- The case `Token::Ident`.
  unfoldable pub parse_statement : ℕ → Input → State Num → Checked Stop (State Num)
  parse_statement fuel inp s = elim (has_text A lib inp s "cand") [
    | true ↦ parse_cand A lib fuel inp s
    | false ↦ elim (has_text A lib inp s "infer") [
      | true ↦ parse_infer A lib fuel inp s
      | false ↦ elim (has_text A lib inp s "result") [
        | true ↦ parse_result A lib inp s
        | false ↦ elim (has_text A lib inp s "pc") [
          | true ↦ parse_pc A lib inp s
          | false ↦ elim (has_text A lib inp s "blockpc") [
            | true ↦ parse_blockpc A lib inp s
            | false ↦ err (
                make_err_str A lib s (
                  str "unexpected identifier: '" ∷ bytes (token_text inp s.cur_tok) ∷ str "'" ∷ []))
          ]
        ]
      ]
    ]
  ]

  unfoldable pub parse_line_of : TokenKind → ℕ → Input → State Num → Checked Stop (State Num)
  parse_line_of ident fuel inp s = parse_statement fuel inp s
  parse_line_of val_name fuel inp s = parse_definition A lib fuel inp s
  parse_line_of _ fuel inp s =
      err (
        make_err_str A lib s (str "expected inst, block, cand, infer, result, pc, or blockpc" ∷ []))

  abbrev pub parse_line : ℕ → Input → State Num → Checked Stop (State Num)
  parse_line fuel inp s = parse_line_of s.cur_tok.kind fuel inp s

  -- The loop of `parseReplacement`, and its end.
  unfoldable pub replacement_loop :
      ℕ → Input → State Num → Checked Stop (ParsedReplacement × State Num)
  replacement_loop zero inp s = err out_of_fuel
  replacement_loop (suc fuel) inp s = elim (is_tok A lib eof s) [
    | true ↦ err (make_err_str A lib s (incomplete inp.rk))
    | false ↦ do
      s1 ← parse_line fuel inp s
      elim s1.reps [
        | [] ↦ replacement_loop fuel inp s1
        | r ∷ rs ↦ do
          reject (not (is_tok A lib eof s1))
              (make_err_str A lib s1 (str "expected a single replacement" ∷ []))
          ok (r, s1)
      ]
  ]

  -- The method `parseReplacement`.
  unfoldable pub parse_replacement_from :
      ℕ → Input → State Num → Checked Stop (ParsedReplacement × State Num)
  parse_replacement_from fuel inp s = do s1 ← consume_token A lib s; replacement_loop fuel inp s1

  -- The loop of `parseReplacements`.
  unfoldable pub replacements_loop : ℕ → Input → State Num → Checked Stop (State Num)
  replacements_loop zero inp s = err out_of_fuel
  replacements_loop (suc fuel) inp s = elim (is_tok A lib eof s) [
    | true ↦ ok s
    | false ↦ do s1 ← parse_line fuel inp s; replacements_loop fuel inp s1
  ]

  -- The method `parseReplacements`.
  unfoldable pub parse_replacements_from : ℕ → Input → State Num → Checked Stop (State Num)
  parse_replacements_from fuel inp s = do
    s1 ← consume_token A lib s
    s2 ← replacements_loop fuel inp s1
    reject
        (not (is_empty s2.pcs)
          || not (is_empty s2.bpcs)
          || not (has_no_names s2.context)
          || not (is_empty s2.block_pc_idx_map))
        (make_err_str A lib s2 (str "incomplete replacement" ∷ []))
    ok s2

  -- `Parser::Parser`.
  unfoldable pub new_parser : Input → Context Num → State Num
  new_parser inp c = record {
    lexer = record { rest = inp.buffer; beyond = []; pos = 0; line_begin = 0; line_num = 1 };
    cur_tok = plain eof 0 0;
    ic = c;
    reps = [];
    rcs_out = [];
    context = elim inp.rcs_in [ some (n ∷ ns) ↦ n | some [] ↦ no_names | none ↦ no_names ];
    index = 0;
    reserved_const_counter = 0;
    pcs = [];
    bpcs = [];
    block_pc_idx_map = [];
    external_uses_set = [];
    lhs = none;
  }

  abbrev pub both_input : List ℕ → Input
  both_input text = record { buffer = text; rk = parse_both; rcs_in = none; keeps = false }

  abbrev pub lhs_input : List ℕ → Input
  lhs_input text = record { buffer = text; rk = parse_lhs; rcs_in = none; keeps = true }

  -- The contexts of the left-hand sides, and an empty one behind them.
  abbrev pub rhs_input : List ℕ → List Names → Input
  rhs_input text rcs = record {
    buffer = text;
    rk = parse_rhs;
    rcs_in = some (rcs ++ no_names ∷ []);
    keeps = false;
  }

  unfoldable pub parse_replacement :
      ℕ → List ℕ → Context Num → Checked Stop (ParsedReplacement × Context Num)
  parse_replacement fuel text c = do
    r ← parse_replacement_from fuel (both_input text) (new_parser (both_input text) c)
    ok (r.0, r.1.ic)

  unfoldable pub parse_replacement_lhs :
      ℕ → List ℕ → Context Num → Checked Stop (ParsedReplacement × List Names × Context Num)
  parse_replacement_lhs fuel text c = do
    r ← parse_replacement_from fuel (lhs_input text) (new_parser (lhs_input text) c)
    ok (r.0, r.1.rcs_out, r.1.ic)

  unfoldable pub parse_replacement_rhs :
      ℕ → List ℕ → Names → Context Num → Checked Stop (ParsedReplacement × Context Num)
  parse_replacement_rhs fuel text rc c = do
    r ←
        parse_replacement_from fuel (rhs_input text (rc ∷ []))
          (new_parser (rhs_input text (rc ∷ [])) c)
    ok (r.0, r.1.ic)

  unfoldable pub parse_replacements :
      ℕ → List ℕ → Context Num → Checked Stop (List ParsedReplacement × Context Num)
  parse_replacements fuel text c = do
    s ← parse_replacements_from fuel (both_input text) (new_parser (both_input text) c)
    ok (s.reps, s.ic)

  unfoldable pub parse_replacement_lhss :
      ℕ → List ℕ → Context Num → Checked Stop (List ParsedReplacement × List Names × Context Num)
  parse_replacement_lhss fuel text c = do
    s ← parse_replacements_from fuel (lhs_input text) (new_parser (lhs_input text) c)
    ok (s.reps, s.rcs_out, s.ic)

  unfoldable pub parse_replacement_rhss :
      ℕ → List ℕ → List Names → Context Num → Checked Stop (List ParsedReplacement × Context Num)
  parse_replacement_rhss fuel text rcs c = do
    s ← parse_replacements_from fuel (rhs_input text rcs) (new_parser (rhs_input text rcs) c)
    ok (s.reps, s.ic)
