-- ===== src/Parser/TypeCheck.antt =====
-- lib/Parser/Parser.cpp: the type checks of operands and phis.
pub mod Widths
pub mod Phi
use Prim.Native.String.{String}
use souper.Prelude.{
  ℕ, zero, suc, ◌+◌, ◌-◌, ◌%◌, Bool, true, false, not, ◌&&◌, ◌||◌, ltb, leb, ◌==◌, if◌then◌else◌,
  List, [], ◌∷◌, length, Option, none, some, u32,
}
use souper.Inst.Kind.{Kind}
use souper.Inst.Names.{get_kind_name}
use souper.Inst.Graph.{Block, Inst}
use souper.Inst.Context.{Library, Context, get_const}
use souper.Llvm.ApInt.{ApInt}
use souper.Parser.Message.{Message, str, dec, Checked, ok, err, ◌>>=◌, ◌>>◌, reject}

-- `Parser::isOverflow`.
unfoldable pub is_overflow : Kind → Bool
is_overflow Kind.sadd_with_overflow = true
is_overflow Kind.uadd_with_overflow = true
is_overflow Kind.ssub_with_overflow = true
is_overflow Kind.usub_with_overflow = true
is_overflow Kind.smul_with_overflow = true
is_overflow Kind.umul_with_overflow = true
is_overflow _ = false

-- `MinOps` and `MaxOps` of the first switch; `none` for its unreachable and its fatal cases.
unfoldable pub op_bounds : Kind → Option (ℕ × ℕ)
op_bounds Kind.const = none
op_bounds Kind.untyped_const = none
op_bounds Kind.var = none
op_bounds Kind.phi = none
op_bounds Kind.hole = none
op_bounds Kind.reserved_const = none
op_bounds Kind.reserved_inst = none
op_bounds Kind.no_kind = none
op_bounds Kind.select = some (3, 3)
op_bounds Kind.zext = some (1, 1)
op_bounds Kind.sext = some (1, 1)
op_bounds Kind.trunc = some (1, 1)
op_bounds Kind.ctpop = some (1, 1)
op_bounds Kind.bswap = some (1, 1)
op_bounds Kind.bit_reverse = some (1, 1)
op_bounds Kind.cttz = some (1, 1)
op_bounds Kind.ctlz = some (1, 1)
op_bounds Kind.freeze = some (1, 1)
op_bounds Kind.fshl = some (3, 3)
op_bounds Kind.fshr = some (3, 3)
op_bounds _ = some (2, 2)

abbrev pub too_large : Message
too_large = str "integer constant is too large for its width" ∷ []

module _ (A : ApInt) (lib : Library A) where
  open A use {Num, width, eq, eq_u64, trunc, zext, sext, sext_or_trunc}

  -- `Parser::lossy`.
  unfoldable pub lossy : Num → ℕ → Bool
  lossy i new_width =
      let w = width i in
      let ni = trunc i new_width in
      if leb w new_width then false else not (eq (zext ni w) i) && not (eq (sext ni w) i)

  abbrev pub width_of : Context Num → ℕ → ℕ
  width_of c p = (c.store p).width

  -- The first loop of `typeCheckOpsMatchingWidths`, with `Width`.
  unfoldable pub scan_widths : Context Num → ℕ → List ℕ → Checked Message ℕ
  scan_widths c w [] = ok w
  scan_widths c w (op ∷ ops) =
      let v = if w == 0 then width_of c op else w in
      let rest = scan_widths c v ops in
      if not (v == 0) && not (width_of c op == 0) && not (v == width_of c op)
      then err (str "operands have different widths" ∷ [])
      else rest

  -- Its second loop, which replaces untyped constants.
  unfoldable pub type_ops : ℕ → List ℕ → Context Num → Checked Message (List ℕ × Context Num)
  type_ops w [] c = ok ([], c)
  type_ops w (op ∷ ops) c =
      let v = (c.store op).val in
      let typed = type_ops w ops c >>= λ r. ok (op ∷ r.0, r.1) in
      let constant = get_const A lib (sext_or_trunc v w) c in
      let untyped = type_ops w ops constant.1 >>= λ r. ok (constant.0 ∷ r.0, r.1) in
      if not (width_of c op == 0) then typed else if lossy v w then err too_large else untyped

  unfoldable pub type_check_ops_matching_widths :
      List ℕ → Context Num → Checked Message (List ℕ × Context Num)
  type_check_ops_matching_widths ops c = do
    w ← scan_widths c 0 ops
    reject (w == 0) (str "at least one operand must be typed" ∷ [])
    type_ops w ops c

  -- Whether the loop over the operands meets an overflow intrinsic.
  unfoldable pub has_overflow_op : Context Num → List ℕ → Bool
  has_overflow_op c [] = false
  has_overflow_op c (op ∷ ops) = is_overflow (c.store op).kind || has_overflow_op c ops

  abbrev pub at : List ℕ → ℕ → ℕ
  at [] i = 0
  at (p ∷ ps) zero = p
  at (p ∷ ps) (suc i) = at ps i

  -- `typeCheckPhi`; `idx` is the block's entry of `BlockPCIdxMap`.
  unfoldable pub type_check_phi :
      ℕ → Block → Option ℕ → List ℕ → Context Num → Checked Message (List ℕ × Context Num)
  type_check_phi w b idx ops c = do
    reject (not (b.preds == length ops)) (
        str "phi has "
        ∷ dec (length ops)
        ∷ str " operand(s) but preceding block has "
        ∷ dec b.preds
        ∷ [])
    reject (elim idx [ none ↦ false | some n ↦ leb (length ops) n ])
        (str "blockpc's predecessor number is larger than the number of phi's operands" ∷ [])
    r ← type_check_ops_matching_widths ops c
    let v = width_of r.1 (at r.0 0)
    reject (not (w == 0) && not (w == v))
        (str "inst must have width of " ∷ dec v ∷ str ", has width " ∷ dec w ∷ [])
    reject (has_overflow_op r.1 r.0)
        (str "overflow intrinsic cannot be an operand of phi instruction" ∷ [])
    ok r
