-- ===== src/Parser/Facts.antt =====
-- lib/Parser/Parser.cpp: the data flow facts of a variable in `parseLine`.
pub mod Hang
use souper.Prelude.{
  ℕ, zero, suc, ◌+◌, ◌-◌, ◌%◌, ◌^◌, Bool, true, false, not, ◌&&◌, ◌||◌, ltb, ◌==◌, if◌then◌else◌,
  List, [], ◌∷◌, length, Option, none, some,
}
use souper.Inst.Graph.{Inst, between}
use souper.Inst.Context.{Library, Context}
use souper.Llvm.ApInt.{ApInt}
use souper.Parser.Token.{
  TokenKind, ident, val_name, comma, equals, untyped_int, known_bits, open_paren, close_paren,
  open_bracket, eof, TokenPos,
}
use souper.Parser.Message.{Message, str, Checked, ok, err, ◌>>=◌, ◌>>◌, reject}
use souper.Parser.State.{
  Input, State, Stop, failed, out_of_fuel, token_val, is_tok, expect, has_text, consume_token,
}

module _ (A : ApInt) (lib : Library A) where
  open A use {
    Num, width, of, add, eq, shl_by, is_negative, is_int_n, is_signed_int_n, sext_or_trunc,
    is_all_ones_value, eq_u64, get_limited_value,
  }

  -- The loop over `PatternString`, with Zero and One; `none` for a character that is not 0, 1 or x.
  unfoldable pub known_pattern : ℕ → List ℕ → Num → Num → Option (Num × Num)
  known_pattern w [] zeros ones = some (zeros, ones)
  known_pattern w (c ∷ cs) zeros ones =
      let one = shl_by (of w 1) (length cs) in
      if c == b'0'
      then known_pattern w cs (add zeros one) ones
      else if c == b'1'
      then known_pattern w cs zeros (add ones one)
      else if not (c == b'x')
      then none
      else known_pattern w cs zeros ones

  -- The test of a bound of `range`, and the change of its width.
  unfoldable pub settle_bound : ℕ → Stop → Num → Checked Stop Num
  settle_bound w e v = do
    reject
        (not (is_signed_int_n v w)
          && (is_negative v || (not (is_negative v) && not (is_int_n v w))))
        e
    ok (if not (width v == w) then sext_or_trunc v w else v)

  -- `TP` is the place of the variable's name.
  module _ (tp : TokenPos) (w : ℕ) where
    abbrev at_name : Message → Stop
    at_name m = failed tp m

    unfoldable pub parse_known_bits : Inst Num → State Num → Checked Stop (Inst Num × State Num)
    parse_known_bits f s = do
      reject (not (w == length s.cur_tok.pattern_string))
          (at_name (str "knownbits pattern must be of same length as var width" ∷ []))
      v ← (elim (known_pattern w s.cur_tok.pattern_string f.known_zeros f.known_ones) [
        | none ↦ err (at_name (str "invalid knownBits string" ∷ []))
        | some v ↦ ok v
      ])
      s1 ← consume_token A lib s
      ok (record f { known_zeros = v.0; known_ones = v.1 }, s1)

    abbrev sign_message : Message
    sign_message = str "expected positive integer value for number of sign bits" ∷ []

    unfoldable pub parse_sign_bits : Inst Num → State Num → Checked Stop (Inst Num × State Num)
    parse_sign_bits f s = do
      s1 ← consume_token A lib s
      expect A lib equals (at_name (str "expected '=' for number of signBits" ∷ [])) s1
      s2 ← consume_token A lib s1
      expect A lib untyped_int (at_name sign_message) s2
      let n = get_limited_value (token_val A lib s2.cur_tok) % 2 ^ 32
      reject (n == 0) (at_name sign_message)
      reject (ltb w n) (
          at_name (
            str
              "number of sign bits can't exceed instruction width and expects positive integer value"
            ∷ []))
      s3 ← consume_token A lib s2
      ok (record f { num_sign_bits = n }, s3)

    unfoldable pub parse_range : Inst Num → State Num → Checked Stop (Inst Num × State Num)
    parse_range f s = do
      s1 ← consume_token A lib s
      expect A lib equals (at_name (str "expected '=' for range as 'range='" ∷ [])) s1
      s2 ← consume_token A lib s1
      expect A lib open_bracket (at_name (str "expected '[' to specify lower bound of range" ∷ []))
          s2
      s3 ← consume_token A lib s2
      expect A lib untyped_int (at_name (str "expected lower bound of range" ∷ [])) s3
      lower ←
          settle_bound w (at_name (str "Lower bound is out of range" ∷ []))
            (token_val A lib s3.cur_tok)
      s4 ← consume_token A lib s3
      expect A lib comma (at_name (str "expected ',' after lower bound of range" ∷ [])) s4
      s5 ← consume_token A lib s4
      expect A lib untyped_int (at_name (str "expected upper bound of range" ∷ [])) s5
      upper ←
          settle_bound w (at_name (str "Upper bound is out of range" ∷ []))
            (token_val A lib s5.cur_tok)
      reject (eq lower upper && not (eq_u64 lower 0) && not (is_all_ones_value lower))
          (at_name (str "range with lower == upper is invalid unless it is empty or full set" ∷ []))
      s6 ← consume_token A lib s5
      expect A lib close_paren (at_name (str "expected ')' after upper bound of range" ∷ [])) s6
      s7 ← consume_token A lib s6
      ok (record f { range = between lower upper }, s7)

    abbrev invalid_fact : Message
    invalid_fact = str "invalid data flow fact type" ∷ []

    -- A fact that is one word.
    abbrev word_fact : Inst Num → State Num → Checked Stop (Inst Num × State Num)
    word_fact f s = do s1 ← consume_token A lib s; ok (f, s1)

    unfoldable pub parse_named_fact :
        Input → Inst Num → State Num → Checked Stop (Inst Num × State Num)
    parse_named_fact inp f s =
        if has_text A lib inp s "powerOfTwo"
        then word_fact (record f { pow_of_two = true }) s
        else if has_text A lib inp s "negative"
        then word_fact (record f { negative = true }) s
        else if has_text A lib inp s "nonNegative"
        then word_fact (record f { non_negative = true }) s
        else if has_text A lib inp s "nonZero"
        then word_fact (record f { non_zero = true }) s
        else if has_text A lib inp s "signBits"
        then parse_sign_bits f s
        else if has_text A lib inp s "range"
        then parse_range f s
        else err (at_name invalid_fact)

    unfoldable pub parse_fact_of :
        Input → TokenKind → Inst Num → State Num → Checked Stop (Inst Num × State Num)
    parse_fact_of inp known_bits f s = parse_known_bits f s
    parse_fact_of inp ident f s = parse_named_fact inp f s
    parse_fact_of inp _ f s = err (at_name invalid_fact)

    -- From the parenthesis that opens a fact to the token after the one that closes it.
    unfoldable pub parse_fact : Input → Inst Num → State Num → Checked Stop (Inst Num × State Num)
    parse_fact inp f s = do
      s1 ← consume_token A lib s
      r ← parse_fact_of inp s1.cur_tok.kind f s1
      expect A lib close_paren (at_name (str "expected ')' to complete data flow fact" ∷ [])) r.1
      s2 ← consume_token A lib r.1
      ok (r.0, s2)

    -- The condition under which the loop ends.
    abbrev pub ends_facts : State Num → Bool
    ends_facts s = is_tok A lib val_name s || is_tok A lib ident s || is_tok A lib eof s

    -- The loop. A token that is not a parenthesis is not consumed.
    unfoldable pub parse_facts :
        ℕ → Input → Inst Num → State Num → Checked Stop (Inst Num × State Num)
    parse_facts zero inp f s = err out_of_fuel
    parse_facts (suc fuel) inp f s = elim (ends_facts s) [
      | true ↦ ok (f, s)
      | false ↦ elim (is_tok A lib open_paren s) [
        | true ↦ do r ← parse_fact inp f s; parse_facts fuel inp r.0 r.1
        | false ↦ parse_facts fuel inp f s
      ]
    ]
