-- ===== src/Parser/InstCheck.antt =====
-- lib/Parser/Parser.cpp: `typeCheckInst`.
pub mod Typed
use Prim.Native.String.{String}
use souper.Prelude.{
  ℕ, zero, suc, ◌+◌, ◌-◌, ◌%◌, Bool, true, false, not, ◌&&◌, ◌||◌, ltb, leb, ◌==◌, if◌then◌else◌,
  List, [], ◌∷◌, length, Option, none, some, u32, u32_sub,
}
use souper.Inst.Kind.{Kind}
use souper.Inst.Names.{get_kind_name}
use souper.Inst.Graph.{Inst}
use souper.Inst.Context.{Library, Context, get_const}
use souper.Llvm.ApInt.{ApInt}
use souper.Parser.Message.{Message, Piece, str, dec, Checked, ok, err, ◌>>=◌, ◌>>◌, reject}
use souper.Parser.TypeCheck.{
  is_overflow, op_bounds, too_large, lossy, width_of, at, has_overflow_op,
  type_check_ops_matching_widths,
}

abbrev pub is_extract_value : Kind → Bool
is_extract_value Kind.extract_value = true
is_extract_value _ = false

abbrev pub is_bswap : Kind → Bool
is_bswap Kind.bswap = true
is_bswap _ = false

-- The name of a kind; those that `typeCheckInst` accepts have one.
abbrev name_of : Kind → Piece
name_of k = elim (get_kind_name k) [ none ↦ str "" | some s ↦ str s ]

module _ (A : ApInt) (lib : Library A) where
  open A use {Num, eq_u64, trunc}

  -- What the first switch does for `Select` to its first operand.
  unfoldable pub check_select : List ℕ → Context Num → Checked Message (List ℕ × Context Num)
  check_select [] c = ok ([], c)
  check_select (op ∷ []) c = ok (op ∷ [], c)
  check_select (op ∷ op' ∷ ops) c =
      let v = (c.store op).val in
      let constant = get_const A lib (trunc v 1) c in
      if width_of A lib c op == 0
      then if lossy A lib v 1 then err too_large else ok (constant.0 ∷ op' ∷ ops, constant.1)
      else if not (width_of A lib c op == 1)
      then err
          (str "first operand must have width of 1, has width " ∷ dec (width_of A lib c op) ∷ [])
      else ok (op ∷ op' ∷ ops, c)

  -- For `ZExt` and `SExt`, and for `Trunc`.
  unfoldable pub check_extend : ℕ → List ℕ → Context Num → Checked Message (Unit {0})
  check_extend w ops c =
      let v = width_of A lib c (at A lib ops 0) in
      reject (length ops == 1 && not (w == 0) && leb w v) (
        str "inst must have width of at least "
        ∷ dec (u32 (v + 1))
        ∷ str ", has width "
        ∷ dec w
        ∷ [])

  unfoldable pub check_trunc : ℕ → List ℕ → Context Num → Checked Message (Unit {0})
  check_trunc w ops c =
      let v = width_of A lib c (at A lib ops 0) in
      reject (length ops == 1 && not (w == 0) && leb v w) (
        str "inst must have width of at most "
        ∷ dec (u32_sub v 1)
        ∷ str ", has width "
        ∷ dec w
        ∷ [])

  -- The checks of the first switch; the operands and the context may have new constants.
  unfoldable pub check_kind :
      Kind → ℕ → List ℕ → Context Num → Checked Message (List ℕ × Context Num)
  check_kind Kind.select w ops c = check_select ops c
  check_kind Kind.zext w ops c = do check_extend w ops c; ok (ops, c)
  check_kind Kind.sext w ops c = do check_extend w ops c; ok (ops, c)
  check_kind Kind.trunc w ops c = do check_trunc w ops c; ok (ops, c)
  check_kind _ w ops c = ok (ops, c)

  unfoldable pub check_op_count : ℕ → ℕ → ℕ → Checked Message (Unit {0})
  check_op_count min max n = do
    reject (min == max && not (n == min))
        (str "expected " ∷ dec min ∷ str " operands, found " ∷ dec n ∷ [])
    reject (ltb n min) (str "expected at least " ∷ dec min ∷ str " operands, found " ∷ dec n ∷ [])
    reject (ltb max n) (str "expected at most " ∷ dec max ∷ str " operands, found " ∷ dec n ∷ [])

  -- `typeCheckOpsMatchingWidths(OpsMatchingWidths, ErrStr)`: of a `Select`, all operands but the first.
  unfoldable pub check_widths : Kind → List ℕ → Context Num → Checked Message (List ℕ × Context Num)
  check_widths Kind.select (op ∷ op' ∷ ops) c = do
    r ← type_check_ops_matching_widths A lib (op' ∷ ops) c
    ok (op ∷ r.0, r.1)
  check_widths _ ops c = type_check_ops_matching_widths A lib ops c

  unfoldable pub check_operands :
      Kind → List ℕ → Context Num → Checked Message (List ℕ × Context Num)
  check_operands k ops c = do
    r ← check_widths k ops c
    reject (has_overflow_op A lib r.1 r.0)
        (str "overflow intrinsic cannot be an operand of " ∷ name_of k ∷ str " instruction" ∷ [])
    ok r

  -- `ExpectedWidth` for `ExtractValue`.
  unfoldable pub extract_width : List ℕ → Context Num → Checked Message ℕ
  extract_width ops c =
      let aggregate = c.store (at A lib ops 0) in
      let index = (c.store (at A lib ops 1)).val in
      let no_aggregate : Checked Message ℕ =
        err (str "extract value expects an aggregate type" ∷ []) in
      if eq_u64 index 0
      then if is_overflow aggregate.kind
        then ok (width_of A lib c (at A lib aggregate.ops 0))
        else no_aggregate
      else if eq_u64 index 1
      then if is_overflow aggregate.kind then ok 1 else no_aggregate
      else err (str "extractvalue inst doesn't expect index value other than 0 or 1" ∷ [])

  -- The second switch.
  unfoldable pub expected_width : Kind → List ℕ → Context Num → Checked Message ℕ
  expected_width Kind.zext ops c = ok 0
  expected_width Kind.sext ops c = ok 0
  expected_width Kind.trunc ops c = ok 0
  expected_width Kind.select ops c = ok (width_of A lib c (at A lib ops 1))
  expected_width Kind.eq ops c = ok 1
  expected_width Kind.ne ops c = ok 1
  expected_width Kind.ult ops c = ok 1
  expected_width Kind.slt ops c = ok 1
  expected_width Kind.ule ops c = ok 1
  expected_width Kind.sle ops c = ok 1
  expected_width Kind.sadd_o ops c = ok 1
  expected_width Kind.uadd_o ops c = ok 1
  expected_width Kind.ssub_o ops c = ok 1
  expected_width Kind.usub_o ops c = ok 1
  expected_width Kind.smul_o ops c = ok 1
  expected_width Kind.umul_o ops c = ok 1
  expected_width Kind.extract_value ops c = extract_width ops c
  expected_width k ops c =
      let w = width_of A lib c (at A lib ops 0) in ok (if is_overflow k then u32 (w + 1) else w)

  -- The comparison of `Width` with `ExpectedWidth`, and the check of `BSwap`: the width of the
  -- instruction.
  unfoldable pub settle_width : Kind → ℕ → ℕ → Checked Message ℕ
  settle_width k w expected = do
    reject (w == 0 && expected == 0) (str "inst must have a width" ∷ [])
    reject (not (w == 0) && not (expected == 0) && not (w == expected))
        (str "inst must have width of " ∷ dec expected ∷ str ", has width " ∷ dec w ∷ [])
    let v = if w == 0 then expected else w
    reject (is_bswap k && not (v % 16 == 0))
        (str "bswap argument must be a multiple of 16 bits" ∷ [])
    ok v

  -- `typeCheckInst` from the checks of the number of operands on: the width, the operands and the
  -- context that it leaves.
  unfoldable pub check_rest :
      Kind → ℕ → ℕ × ℕ → List ℕ × Context Num → Checked Message (ℕ × List ℕ × Context Num)
  check_rest k w bounds r = do
    check_op_count bounds.0 bounds.1 (length r.0)
    s ← (if is_extract_value k then ok r else check_operands k r.0 r.1)
    expected ← expected_width k s.0 s.1
    v ← settle_width k w expected
    ok (v, s.0, s.1)

  -- `typeCheckInst`. `none` stands for its fatal errors.
  unfoldable pub type_check_inst :
      Kind → ℕ → List ℕ → Context Num → Option (Checked Message (ℕ × List ℕ × Context Num))
  type_check_inst k w ops c = elim (op_bounds k) [
    | none ↦ none
    | some bounds ↦ some (check_kind k w ops c >>= check_rest k w bounds)
  ]
