-- ===== src/Parser/Statement.antt =====
-- lib/Parser/Parser.cpp: the lines `cand`, `infer`, `result`, `pc` and `blockpc` of `parseLine`.
use souper.Prelude.{
  ℕ, ◌%◌, ◌^◌, Bool, true, false, not, ◌&&◌, ◌||◌, ltb, ◌==◌, if◌then◌else◌, List, [], ◌∷◌, ◌++◌,
  Option, none, some,
}
use souper.Inst.Context.{Library}
use souper.Llvm.ApInt.{ApInt}
use souper.Parser.Token.{val_name, untyped_int}
use souper.Parser.Message.{Message, str, bytes, Checked, ok, err, ◌>>=◌, ◌>>◌, reject}
use souper.Parser.TypeCheck.{is_overflow}
use souper.Parser.State.{
  Input, State, Stop, ReplacementKind, parse_lhs, parse_rhs, find_name, token_val, make_err_str,
  is_tok, expect, consume_token, parse_inst, parse_inst_mapping, push_rep,
}
use souper.Parser.Attribute.{parse_inst_attribute}

abbrev pub is_lhs_mode : ReplacementKind → Bool
is_lhs_mode parse_lhs = true
is_lhs_mode _ = false

abbrev pub is_rhs_mode : ReplacementKind → Bool
is_rhs_mode parse_rhs = true
is_rhs_mode _ = false

abbrev pub is_null : Option ℕ → Bool
is_null none = true
is_null (some p) = false

abbrev pub find_index : List (ℕ × ℕ) → ℕ → Option ℕ
find_index [] a = none
find_index ((b, i) ∷ rest) a = if b == a then some i else find_index rest a

module _ (A : ApInt) (lib : Library A) where
  open A use {Num, get_limited_value}

  abbrev fail_here : State Num → Message → Stop
  fail_here s m = make_err_str A lib s m

  abbrev overflows : State Num → ℕ → Bool
  overflows s p = is_overflow (s.ic.store p).kind

  unfoldable pub parse_cand : ℕ → Input → State Num → Checked Stop (State Num)
  parse_cand fuel inp s = do
    reject (is_lhs_mode inp.rk) (fail_here s (str "Not expecting 'cand' when parsing LHS" ∷ []))
    reject (is_rhs_mode inp.rk) (fail_here s (str "Not expecting 'cand' when parsing RHS" ∷ []))
    s1 ← consume_token A lib s
    m ← parse_inst_mapping A lib inp s1
    s2 ← parse_inst_attribute A lib fuel inp m.0.0 m.1
    reject (overflows s2 m.0.0 || overflows s2 m.0.1)
        (fail_here s2 (str "overflow intrinsic cannot be an operand of cand instruction" ∷ []))
    push_rep A lib inp (record { lhs = some m.0.0; rhs = some m.0.1 }) s2

  unfoldable pub parse_infer : ℕ → Input → State Num → Checked Stop (State Num)
  parse_infer fuel inp s = do
    reject (is_rhs_mode inp.rk) (fail_here s (str "Not expecting 'infer' when parsing RHS" ∷ []))
    s1 ← consume_token A lib s
    expect A lib val_name (fail_here s1 (str "unexpected infer operand type" ∷ [])) s1
    reject (not (is_null s1.lhs)) (fail_here s1 (str "Not expecting a second 'infer'" ∷ []))
    r ← parse_inst A lib inp s1
    s2 ← parse_inst_attribute A lib fuel inp r.0 (record r.1 { lhs = some r.0 })
    reject (overflows s2 r.0)
        (fail_here s2 (str "overflow intrinsic cannot be an operand of infer instruction" ∷ []))
    elim (is_lhs_mode inp.rk) [
      | true ↦ push_rep A lib inp (record { lhs = some r.0; rhs = none }) s2
      | false ↦ ok s2
    ]

  unfoldable pub parse_result : Input → State Num → Checked Stop (State Num)
  parse_result inp s = do
    reject (is_lhs_mode inp.rk) (fail_here s (str "Not expecting 'result' when parsing LHS" ∷ []))
    reject (not (is_rhs_mode inp.rk) && is_null s.lhs)
        (fail_here s (str "Not expecting 'result' before 'infer'" ∷ []))
    s1 ← consume_token A lib s
    reject (is_tok A lib untyped_int s1) (
        fail_here s1
          (str "expecting width to be specified for int operand in 'result' instruction" ∷ []))
    r ← parse_inst A lib inp s1
    reject
        (elim r.1.lhs [
          | none ↦ false
          | some p ↦ not ((r.1.ic.store p).width == (r.1.ic.store r.0).width)
        ])
        (fail_here r.1 (str "width of result and infer operands mismatch" ∷ []))
    push_rep A lib inp (record { lhs = r.1.lhs; rhs = some r.0 }) r.1

  unfoldable pub parse_pc : Input → State Num → Checked Stop (State Num)
  parse_pc inp s = do
    s1 ← consume_token A lib s
    m ← parse_inst_mapping A lib inp s1
    reject (overflows m.1 m.0.0)
        (fail_here m.1 (str "overflow intrinsic cannot be an operand of pc instruction" ∷ []))
    ok (record m.1 { pcs = m.1.pcs ++ record { lhs = some m.0.0; rhs = some m.0.1 } ∷ [] })

  -- The update of BlockPCIdxMap: the greatest index of a block.
  unfoldable pub raise_index : List (ℕ × ℕ) → ℕ → ℕ → List (ℕ × ℕ)
  raise_index map a i = elim (find_index map a) [
    | none ↦ (a, i) ∷ map
    | some j ↦ if ltb j i then (a, i) ∷ map else map
  ]

  unfoldable pub parse_blockpc : Input → State Num → Checked Stop (State Num)
  parse_blockpc inp s = do
    s1 ← consume_token A lib s
    expect A lib val_name (fail_here s1 (str "expected block var" ∷ [])) s1
    let name = s1.cur_tok.name
    reject (not (s1.cur_tok.width == 0)) (fail_here s1 (str "blocks may not have a width" ∷ []))
    reject (not (is_null (find_name s1.context.insts name)))
        (fail_here s1 (str "%" ∷ bytes name ∷ str " is declared as an inst" ∷ []))
    b ← (elim (find_name s1.context.blocks name) [
      | none ↦ err (fail_here s1 (str "block %" ∷ bytes name ∷ str " is undeclared" ∷ []))
      | some b ↦ ok b
    ])
    s2 ← consume_token A lib s1
    expect A lib untyped_int (fail_here s2 (str "expected block number" ∷ [])) s2
    let idx = get_limited_value (token_val A lib s2.cur_tok) % 2 ^ 32
    s3 ← consume_token A lib s2
    m ← parse_inst_mapping A lib inp s3
    reject (overflows m.1 m.0.0)
        (fail_here m.1 (str "overflow intrinsic cannot be an operand of blockpc instruction" ∷ []))
    ok (record m.1 {
      block_pc_idx_map = raise_index m.1.block_pc_idx_map b.address idx;
      bpcs =
          m.1.bpcs
          ++ record {
            block = b;
            pred_idx = idx;
            pc = record { lhs = some m.0.0; rhs = some m.0.1 };
          }
            ∷ [];
    })
