-- ===== src/Parser/Definition.antt =====
-- lib/Parser/Parser.cpp: the case `Token::ValName` of `parseLine`, which defines a name.
use souper.Prelude.{
  ℕ, zero, suc, ◌+◌, ◌%◌, ◌^◌, Bool, true, false, not, ◌&&◌, ◌||◌, ltb, ◌==◌, if◌then◌else◌, List,
  [], ◌∷◌, Option, none, some, member,
}
use souper.Inst.Kind.{Kind}
use souper.Inst.Graph.{Block, Inst}
use souper.Inst.Context.{
  Library, Context, no_facts, create_var, create_hole, create_block, get_phi_all, get_inst_all,
}
use souper.Llvm.ApInt.{ApInt}
use souper.Parser.Token.{
  ident, val_name, comma, equals, untyped_int, open_paren, close_paren, TokenPos, get_token_pos,
}
use souper.Parser.Message.{str, dec, bytes, Checked, ok, err, ◌>>=◌, ◌>>◌, reject, map_err}
use souper.Parser.TypeCheck.{width_of, at, type_check_phi}
use souper.Parser.InstCheck.{type_check_inst}
use souper.Parser.State.{
  Input, State, Stop, failed, undefined, out_of_fuel, find_name, kind_of, token_text, token_val,
  make_err_str, is_tok, expect, has_text, consume_token, parse_inst,
}
use souper.Parser.Attribute.{set_fields}
use souper.Parser.Statement.{is_null, find_index}
use souper.Parser.Facts.{parse_facts}

-- `MaxPreds` of include/souper/Inst/Inst.h.
abbrev pub max_preds : ℕ
max_preds = 100000

-- Insertion of the elements of a set.
abbrev pub insert_all : List ℕ → List ℕ → List ℕ
insert_all [] set = set
insert_all (p ∷ ps) set = let rest = insert_all ps set in if member p rest then rest else p ∷ rest

-- The parts of a with.overflow instruction: the operation and the flag.
abbrev pub overflow_parts : Kind → Option (Kind × Kind)
overflow_parts Kind.sadd_with_overflow = some (Kind.add, Kind.sadd_o)
overflow_parts Kind.uadd_with_overflow = some (Kind.add, Kind.uadd_o)
overflow_parts Kind.ssub_with_overflow = some (Kind.sub, Kind.ssub_o)
overflow_parts Kind.usub_with_overflow = some (Kind.sub, Kind.usub_o)
overflow_parts Kind.smul_with_overflow = some (Kind.mul, Kind.smul_o)
overflow_parts Kind.umul_with_overflow = some (Kind.mul, Kind.umul_o)
overflow_parts _ = none

module _ (A : ApInt) (lib : Library A) where
  open A use {Num, get_limited_value, get_all_ones_value}

  abbrev pub set_inst : List ℕ → ℕ → State Num → State Num
  set_inst name i s = record s {
    context = record s.context { insts = (name, i) ∷ s.context.insts };
  }

  abbrev pub set_block : List ℕ → Block → State Num → State Num
  set_block name b s = record s {
    context = record s.context { blocks = (name, b) ∷ s.context.blocks };
  }

  -- `block`, from its name on.
  unfoldable pub parse_block : TokenPos → List ℕ → ℕ → State Num → Checked Stop (State Num)
  parse_block tp name w s = do
    reject (not (w == 0)) (failed tp (str "blocks may not have a width" ∷ []))
    s1 ← consume_token A lib s
    expect A lib untyped_int (failed tp (str "block must be followed by number of preds" ∷ [])) s1
    let preds = get_limited_value (token_val A lib s1.cur_tok) % 2 ^ 32
    reject (ltb max_preds preds)
        (make_err_str A lib s1 (dec preds ∷ str " is too many block predecessors" ∷ []))
    let b = create_block A lib preds s1.ic
    consume_token A lib (set_block name b.0 (record s1 { ic = b.1 }))

  -- What is left to do for `Var`, `ReservedConst` and `ReservedInst` once the facts are read.
  unfoldable pub make_var : Kind → List ℕ → ℕ → Inst Num → State Num → ℕ × State Num
  make_var Kind.reserved_const name w f s =
      let n = s.reserved_const_counter + 1 in
      let r = create_var A lib w (record f { synthesis_const_id = n }) s.ic in
      (r.0, record s { ic = r.1; reserved_const_counter = n })
  make_var Kind.reserved_inst name w f s =
      let r = create_hole A lib w s.ic in
      (r.0, set_fields A lib r.0 (λ i. record i { name = name }) (record s { ic = r.1 }))
  make_var _ name w f s = let r = create_var A lib w f s.ic in (r.0, record s { ic = r.1 })

  -- No APInt has width 0, which a kind other than `Var` may be given.
  unfoldable pub parse_var :
      ℕ → Input → TokenPos → Kind → List ℕ → ℕ → State Num → Checked Stop (State Num)
  parse_var fuel inp tp k name w s = do
    reject (w == 0) undefined
    r ← parse_facts A lib tp w fuel inp (record (no_facts A lib w name 0) { num_sign_bits = 0 }) s
    let i = make_var k name w r.0 r.1
    ok (set_inst name i.0 i.1)

  -- The block of a phi and the comma behind it.
  unfoldable pub parse_phi_block : List ℕ → State Num → Checked Stop (Block × State Num)
  parse_phi_block name s = do
    expect A lib val_name (make_err_str A lib s (str "expected block number" ∷ [])) s
    reject (not (s.cur_tok.width == 0))
        (make_err_str A lib s (str "blocks may not have a width" ∷ []))
    b ← (elim (find_name s.context.blocks s.cur_tok.name) [
      | none ↦ err (make_err_str A lib s (str "%" ∷ bytes name ∷ str " is not a block" ∷ []))
      | some b ↦ ok b
    ])
    s1 ← consume_token A lib s
    expect A lib comma (make_err_str A lib s1 (str "expected ','" ∷ [])) s1
    s2 ← consume_token A lib s1
    ok (b, s2)

  -- `(hasExternalUses)`, which may follow the operands.
  unfoldable pub parse_external_uses :
      Input → TokenPos → State Num → Checked Stop (Bool × State Num)
  parse_external_uses inp tp s = elim (is_tok A lib open_paren s) [
    | false ↦ ok (false, s)
    | true ↦ do
      s1 ← consume_token A lib s
      reject (not (is_tok A lib ident s1) || not (has_text A lib inp s1 "hasExternalUses"))
          (failed tp (str "expected hasExternalUses token" ∷ []))
      s2 ← consume_token A lib s1
      expect A lib close_paren
          (failed tp (str "expected ')' to complete external uses string" ∷ [])) s2
      s3 ← consume_token A lib s2
      ok (true, s3)
  ]

  -- The loop over the operands.
  unfoldable pub parse_ops :
      ℕ → Input → TokenPos → State Num → Checked Stop (List ℕ × Bool × State Num)
  parse_ops zero inp tp s = err out_of_fuel
  parse_ops (suc fuel) inp tp s = do
    i ← parse_inst A lib inp s
    elim (is_tok A lib comma i.1) [
      | false ↦ do r ← parse_external_uses inp tp i.1; ok (i.0 ∷ [], r.0, r.1)
      | true ↦ do
        s1 ← consume_token A lib i.1
        r ← parse_ops fuel inp tp s1
        ok (i.0 ∷ r.0, r.1, r.2)
    ]

  -- The instruction of a kind on operands that passed the type check; `w` is its width.
  unfoldable pub make_inst : Kind → ℕ → List ℕ → Context Num → ℕ × Context Num
  make_inst k w ops c = elim (overflow_parts k) [
    | none ↦ get_inst_all A lib k w ops true c
    | some parts ↦
        let v = width_of A lib c (at A lib ops 0) in
        let a = get_inst_all A lib parts.0 v ops false c in
        let b = get_inst_all A lib parts.1 1 ops false a.1 in
        get_inst_all A lib k w (a.0 ∷ b.0 ∷ []) true b.1
  ]

  -- The type check and the making of an instruction other than a phi.
  unfoldable pub check_and_make :
      TokenPos → Kind → ℕ → List ℕ → Context Num → Checked Stop (ℕ × Context Num)
  check_and_make tp k w ops c = elim (type_check_inst A lib k w ops c) [
    | none ↦ err undefined
    | some checked ↦ do r ← map_err (failed tp) checked; ok (make_inst k r.0 r.1 r.2)
  ]

  unfoldable pub check_and_make_phi :
      TokenPos → ℕ → Block → Option ℕ → List ℕ → Context Num → Checked Stop (ℕ × Context Num)
  check_and_make_phi tp w b idx ops c = do
    r ← map_err (failed tp) (type_check_phi A lib w b idx ops c)
    ok (get_phi_all A lib b r.0 r.1)

  -- The end of the case: external uses, and the name.
  unfoldable pub define_inst : List ℕ → Bool → ℕ → State Num → State Num
  define_inst name external i s =
      let uses =
        if external then insert_all (i ∷ []) s.external_uses_set else s.external_uses_set in
      set_inst name i (
        set_fields A lib i
          (λ x. record x { deps_with_external_uses = insert_all uses x.deps_with_external_uses })
          (record s { external_uses_set = uses }))

  unfoldable pub parse_phi :
      ℕ → Input → TokenPos → List ℕ → ℕ → State Num → Checked Stop (State Num)
  parse_phi fuel inp tp name w s = do
    b ← parse_phi_block name s
    r ← parse_ops fuel inp tp b.1
    i ← check_and_make_phi tp w b.0 (find_index r.2.block_pc_idx_map b.0.address) r.0 r.2.ic
    ok (define_inst name r.1 i.0 (record r.2 { ic = i.1 }))

  unfoldable pub parse_operation :
      ℕ → Input → TokenPos → Kind → List ℕ → ℕ → State Num → Checked Stop (State Num)
  parse_operation fuel inp tp k name w s = do
    r ← parse_ops fuel inp tp s
    i ← check_and_make tp k w r.0 r.2.ic
    ok (define_inst name r.1 i.0 (record r.2 { ic = i.1 }))

  unfoldable pub parse_hole : List ℕ → ℕ → State Num → Checked Stop (State Num)
  parse_hole name w s =
      let r = create_hole A lib w s.ic in ok (set_inst name r.0 (record s { ic = r.1 }))

  -- What follows the name of a kind.
  unfoldable pub parse_kind :
      ℕ → Input → TokenPos → Kind → List ℕ → ℕ → State Num → Checked Stop (State Num)
  parse_kind fuel inp tp Kind.var name w s = parse_var fuel inp tp Kind.var name w s
  parse_kind fuel inp tp Kind.reserved_const name w s =
      parse_var fuel inp tp Kind.reserved_const name w s
  parse_kind fuel inp tp Kind.reserved_inst name w s =
      parse_var fuel inp tp Kind.reserved_inst name w s
  parse_kind fuel inp tp Kind.phi name w s = parse_phi fuel inp tp name w s
  parse_kind fuel inp tp Kind.hole name w s = parse_hole name w s
  parse_kind fuel inp tp k name w s = parse_operation fuel inp tp k name w s

  abbrev pub is_var : Kind → Bool
  is_var Kind.var = true
  is_var _ = false

  abbrev pub is_no_kind : Kind → Bool
  is_no_kind Kind.no_kind = true
  is_no_kind _ = false

  -- From the kind on, which is the current token.
  unfoldable pub parse_right_side :
      ℕ → Input → TokenPos → List ℕ → ℕ → State Num → Checked Stop (State Num)
  parse_right_side fuel inp tp name w s =
      let k = kind_of (token_text inp s.cur_tok) in
      elim (is_no_kind k) [
        | true ↦ elim (has_text A lib inp s "block") [
          | true ↦ parse_block tp name w s
          | false ↦ err (
              make_err_str A lib s
                (str "unexpected inst kind: '" ∷ bytes (token_text inp s.cur_tok) ∷ str "'" ∷ []))
        ]
        | false ↦ do
          reject (is_var k && w == 0) (failed tp (str "var must have a width" ∷ []))
          s1 ← consume_token A lib s
          parse_kind fuel inp tp k name w s1
      ]

  unfoldable pub parse_definition : ℕ → Input → State Num → Checked Stop (State Num)
  parse_definition fuel inp s = do
    let name = s.cur_tok.name
    let w = s.cur_tok.width
    let tp = get_token_pos s.lexer s.cur_tok
    reject (not (is_null (find_name s.context.insts name)))
        (make_err_str A lib s (str "%" ∷ bytes name ∷ str " already declared as an inst" ∷ []))
    reject (elim (find_name s.context.blocks name) [ none ↦ false | some b ↦ true ])
        (make_err_str A lib s (str "%" ∷ bytes name ∷ str " already declared as a block" ∷ []))
    s1 ← consume_token A lib s
    expect A lib equals (make_err_str A lib s1 (str "expected '='" ∷ [])) s1
    s2 ← consume_token A lib s1
    expect A lib ident (make_err_str A lib s2 (str "expected identifier" ∷ [])) s2
    parse_right_side fuel inp tp name w s2
