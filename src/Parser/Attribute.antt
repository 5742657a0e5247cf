-- ===== src/Parser/Attribute.antt =====
-- lib/Parser/Parser.cpp: `parseInstAttribute`.
use souper.Prelude.{
  ℕ, zero, suc, ◌+◌, true, false, not, ltb, ◌==◌, if◌then◌else◌, List, [], ◌∷◌, length, Option,
  none, some,
}
use souper.Inst.Graph.{Inst, harvested_from_def, harvested_from_use}
use souper.Inst.Context.{Library, update}
use souper.Llvm.ApInt.{ApInt}
use souper.Parser.Token.{ident, equals, untyped_int, open_paren, close_paren}
use souper.Parser.Message.{Message, str, Checked, ok, err, ◌>>=◌, ◌>>◌, reject}
use souper.Parser.State.{
  Input, State, Stop, undefined, out_of_fuel, make_err_str, is_tok, expect, has_text, token_text,
  consume_token,
}

module _ (A : ApInt) (lib : Library A) where
  open A use {Num, of, add, shl_by, get_all_ones_value}

  -- What is assigned through a pointer.
  abbrev pub set_fields : ℕ → (Inst Num → Inst Num) → State Num → State Num
  set_fields i f s = record s {
    ic = record s.ic { store = update A s.ic.store i (f (s.ic.store i)) };
  }

  -- The loop over `DemandedBitsPattern`; `none` for a character that is not a bit.
  unfoldable pub demanded_pattern : ℕ → List ℕ → Num → Option Num
  demanded_pattern w [] v = some v
  demanded_pattern w (c ∷ cs) v =
      if c == b'1'
      then demanded_pattern w cs (add v (shl_by (of w 1) (length cs)))
      else if not (c == b'0')
      then none
      else demanded_pattern w cs v

  abbrev pattern_message : Message
  pattern_message = str "expected demandedBits pattern of type [0|1]+" ∷ []

  -- The attribute `demandedBits`, from its name on; `count` is DemandedBitsCount before it.
  unfoldable pub parse_demanded_bits : Input → ℕ → ℕ → State Num → Checked Stop (State Num)
  parse_demanded_bits inp i count s = do
    reject (ltb 1 (count + 1))
        (make_err_str A lib s (str "only one demandedbits attribute is allowed" ∷ []))
    s1 ← consume_token A lib s
    expect A lib equals (make_err_str A lib s1 (str "expected '=' for demandedBits" ∷ [])) s1
    s2 ← consume_token A lib s1
    expect A lib untyped_int (make_err_str A lib s2 pattern_message) s2
    reject (not ((s2.ic.store i).width == s2.cur_tok.len)) (
        make_err_str A lib s2
          (str "demandedBits pattern must be of same length as infer operand width" ∷ []))
    v ←
        (elim (demanded_pattern (s2.ic.store i).width (token_text inp s2.cur_tok)
          (of (s2.ic.store i).width 0)) [
            | none ↦ err (make_err_str A lib s2 pattern_message)
            | some v ↦ ok v
          ])
    s3 ← consume_token A lib s2
    expect A lib close_paren
        (make_err_str A lib s3 (str "expected ')' to complete demandedBits" ∷ [])) s3
    s4 ← consume_token A lib s3
    ok (set_fields i (λ x. record x { demanded_bits = v }) s4)

  -- The attribute `harvestedFromUse`.
  unfoldable pub parse_harvested : ℕ → ℕ → State Num → Checked Stop (State Num)
  parse_harvested i count s = do
    reject (ltb 1 (count + 1))
        (make_err_str A lib s (str "only one harvestFromUse attribute is allowed" ∷ []))
    s1 ← consume_token A lib s
    expect A lib close_paren
        (make_err_str A lib s1 (str "expected ')' to complete harvestFromUse" ∷ [])) s1
    s2 ← consume_token A lib s1
    ok (set_fields i (λ x. record x { harvest_kind = harvested_from_use }) s2)

  -- The loop, with DemandedBitsCount and HarvestKindCount.
  unfoldable pub parse_attributes : ℕ → Input → ℕ → ℕ → ℕ → State Num → Checked Stop (State Num)
  parse_attributes zero inp i demanded harvests s = err out_of_fuel
  parse_attributes (suc fuel) inp i demanded harvests s = elim (is_tok A lib open_paren s) [
    | false ↦ ok s
    | true ↦ do
      s1 ← consume_token A lib s
      expect A lib ident (make_err_str A lib s1 (str "missing Inst attribute string" ∷ [])) s1
      elim (has_text A lib inp s1 "demandedBits") [
        | true ↦ do
          s2 ← parse_demanded_bits inp i demanded s1
          parse_attributes fuel inp i (demanded + 1) harvests s2
        | false ↦ elim (has_text A lib inp s1 "harvestedFromUse") [
          | true ↦ do
            s2 ← parse_harvested i harvests s1
            parse_attributes fuel inp i demanded (harvests + 1) s2
          | false ↦ err (make_err_str A lib s1 (str "invalid Inst attribute string" ∷ []))
        ]
      ]
  ]

  -- No APInt has width 0, which a hole may have.
  unfoldable pub parse_inst_attribute : ℕ → Input → ℕ → State Num → Checked Stop (State Num)
  parse_inst_attribute fuel inp i s = do
    reject ((s.ic.store i).width == 0) undefined
    parse_attributes fuel inp i 0 0 (
        set_fields i
          (λ x. record x {
            harvest_kind = harvested_from_def;
            demanded_bits = get_all_ones_value x.width;
          })
          s)
