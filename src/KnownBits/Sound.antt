-- ===== src/KnownBits/Sound.antt =====
-- The switch of `findKnownBits` against the interpreter.
use souper.Prelude.{
  ℕ, ◌<◌, ◌^◌, ◌≡◌, sym, ◌∙◌, refl, Bool, true, false, ◌∷◌, [], some, arith, inl, inr,
}
use mathlib.Core.Bool.{false≢true}
use souper.Inst.Kind.{Kind}
use souper.Inst.Graph.{Inst}
use souper.Llvm.ApInt.{ApInt}
use souper.Llvm.KnownBits.{KnownBits, KnownBitsMethods}
use souper.Interp.Value.{EvalValue, val, poison, ok}
use souper.Interp.Arith.{evaluate_shl, evaluate_lshr, evaluate_ashr}
use souper.Interp.Single.{evaluate_kind}
use souper.Interp.Single.Flags.{without_flags, evaluate_kind-without_flags}
use souper.KnownBits.Hints.{Llvm, shl_switch-Contains, lshr_switch-Contains, ashr_switch-Contains}
use souper.KnownBits.Switch.{switch_binary}
use souper.KnownBits.Contains.{Contains}
use souper.KnownBits.Bitwise.{and_kb-Contains, or_kb-Contains, xor_kb-Contains}
use souper.KnownBits.Compare.{eq_kb-Contains, ne_kb-Contains}
use souper.KnownBits.Order.{ult_kb-Contains, ule_kb-Contains, slt_kb-Contains, sle_kb-Contains}

-- The kinds of two operands whose transfer function is proved sound here: the bitwise operations, the
-- shifts and the comparisons.
abbrev pub is_covered : Kind → Bool
is_covered Kind.and = true
is_covered Kind.or = true
is_covered Kind.xor = true
is_covered Kind.shl = true
is_covered Kind.shl_nsw = true
is_covered Kind.shl_nuw = true
is_covered Kind.shl_nw = true
is_covered Kind.lshr = true
is_covered Kind.ashr = true
is_covered Kind.eq = true
is_covered Kind.ne = true
is_covered Kind.ult = true
is_covered Kind.ule = true
is_covered Kind.slt = true
is_covered Kind.sle = true
is_covered _ = false

module _ (A : ApInt) (K : KnownBitsMethods A) (llvm : Llvm A K) where
  open A use {Num, width, value}

  val-inj : {a b : Num} → ok (val a) ≡ ok (val b) → a ≡ b
  val-inj h = cc

  ok-inj : {a b : EvalValue Num} → ok a ≡ ok b → a ≡ b
  ok-inj h = cc

  not_val : {w : ℕ} {z : Num} → ok (poison w) ≡ ok (val z) → ⊥
  not_val h = cc

  some-inj : {a b : KnownBits Num} → some a ≡ some b → a ≡ b
  some-inj h = cc

  -- A shift that gives a value shifts by less than the width.
  shl-val : (x y z : Num) → evaluate_shl A x y ≡ val z → (value y < width x) × (A.shl x y ≡ z)
  unfolding evaluate_shl
  shl-val x y z h = (ground arith, ground arith)

  lshr-val : (x y z : Num) → evaluate_lshr A x y ≡ val z → (value y < width x) × (A.lshr x y ≡ z)
  unfolding evaluate_lshr
  lshr-val x y z h = (ground arith, ground arith)

  ashr-val : (x y z : Num) → evaluate_ashr A x y ≡ val z → (value y < width x) × (A.ashr x y ≡ z)
  unfolding evaluate_ashr
  ashr-val x y z h = (ground arith, ground arith)

  -- The flags of `shl` only restrict when there is a value.
  shl_flags-val :
      (k : Kind) (inst : Inst Num) (first : Bool) (rand : ℕ) (x y z : Num)
      → without_flags k ≡ Kind.shl
      → evaluate_kind A k inst first rand (val x ∷ val y ∷ []) ≡ ok (val z)
      → (value y < width x) × (A.shl x y ≡ z)
  unfolding evaluate_kind
  shl_flags-val k inst first rand x y z plain h =
      elim (evaluate_kind-without_flags A llvm.overflow inst first rand k x y) [
        | inr p ↦ absurd (not_val (sym p ∙ h))
        | inl e ↦ shl-val x y z (ok-inj (rw plain at (sym e ∙ h)))
      ]

  -- If known bits hold of two numbers of one width, the known bits that the switch of `findKnownBits`
  -- computes for a bitwise operation, a shift or a comparison hold of the number that the interpreter
  -- computes, whenever it computes one. The width is at least 1 and below LLVM's limit of 2 ^ 24, and
  -- a second operand that counts as a reserved constant is no zero.
  pub switch_binary-Contains :
      (k : Kind) (inst : Inst Num) (first : Bool) (rand : ℕ) (reserved : Bool)
      (l r out : KnownBits Num) (x y z : Num)
      → is_covered k ≡ true
      → Contains A l x
      → Contains A r y
      → width x ≡ width y
      → 0 < width x
      → width x < 2 ^ 24
      → (reserved ≡ true → 0 < value y)
      → switch_binary A K reserved (width x) k l r ≡ some out
      → evaluate_kind A k inst first rand (val x ∷ val y ∷ []) ≡ ok (val z)
      → Contains A out z
  unfolding switch_binary evaluate_kind
  switch_binary-Contains Kind.and inst first rand reserved l r out x y z covered cl cr same pos
        narrow nonzero out_eq z_eq =
      rw (← some-inj out_eq, ← val-inj z_eq) (and_kb-Contains A llvm.bits K l r x y cl cr same)
  switch_binary-Contains Kind.or inst first rand reserved l r out x y z covered cl cr same pos
        narrow nonzero out_eq z_eq =
      rw (← some-inj out_eq, ← val-inj z_eq) (or_kb-Contains A llvm.bits K l r x y cl cr same)
  switch_binary-Contains Kind.xor inst first rand reserved l r out x y z covered cl cr same pos
        narrow nonzero out_eq z_eq =
      rw (← some-inj out_eq, ← val-inj z_eq) (xor_kb-Contains A llvm.bits K l r x y cl cr same)
  switch_binary-Contains Kind.shl inst first rand reserved l r out x y z covered cl cr same pos
        narrow nonzero out_eq z_eq =
      let (below, e) = shl_flags-val Kind.shl inst first rand x y z refl z_eq in
      rw (← some-inj out_eq, ← e)
        (shl_switch-Contains A K llvm reserved l r x y cl cr narrow nonzero below)
  switch_binary-Contains Kind.shl_nsw inst first rand reserved l r out x y z covered cl cr same pos
        narrow nonzero out_eq z_eq =
      let (below, e) = shl_flags-val Kind.shl_nsw inst first rand x y z refl z_eq in
      rw (← some-inj out_eq, ← e)
        (shl_switch-Contains A K llvm reserved l r x y cl cr narrow nonzero below)
  switch_binary-Contains Kind.shl_nuw inst first rand reserved l r out x y z covered cl cr same pos
        narrow nonzero out_eq z_eq =
      let (below, e) = shl_flags-val Kind.shl_nuw inst first rand x y z refl z_eq in
      rw (← some-inj out_eq, ← e)
        (shl_switch-Contains A K llvm reserved l r x y cl cr narrow nonzero below)
  switch_binary-Contains Kind.shl_nw inst first rand reserved l r out x y z covered cl cr same pos
        narrow nonzero out_eq z_eq =
      let (below, e) = shl_flags-val Kind.shl_nw inst first rand x y z refl z_eq in
      rw (← some-inj out_eq, ← e)
        (shl_switch-Contains A K llvm reserved l r x y cl cr narrow nonzero below)
  switch_binary-Contains Kind.lshr inst first rand reserved l r out x y z covered cl cr same pos
        narrow nonzero out_eq z_eq =
      let (below, e) = lshr-val x y z (ok-inj z_eq) in
      rw (← some-inj out_eq, ← e)
        (lshr_switch-Contains A K llvm reserved l r x y cl cr narrow nonzero below)
  switch_binary-Contains Kind.ashr inst first rand reserved l r out x y z covered cl cr same pos
        narrow nonzero out_eq z_eq =
      let (below, e) = ashr-val x y z (ok-inj z_eq) in
      rw (← some-inj out_eq, ← e)
        (ashr_switch-Contains A K llvm reserved l r x y cl cr narrow nonzero below)
  switch_binary-Contains Kind.eq inst first rand reserved l r out x y z covered cl cr same pos
        narrow nonzero out_eq z_eq =
      rw (← some-inj out_eq, ← val-inj z_eq)
        (eq_kb-Contains A llvm.bits llvm.order K llvm.known l r x y cl cr same)
  switch_binary-Contains Kind.ne inst first rand reserved l r out x y z covered cl cr same pos
        narrow nonzero out_eq z_eq =
      rw (← some-inj out_eq, ← val-inj z_eq)
        (ne_kb-Contains A llvm.bits llvm.order K llvm.known l r x y cl cr same)
  switch_binary-Contains Kind.ult inst first rand reserved l r out x y z covered cl cr same pos
        narrow nonzero out_eq z_eq =
      rw (← some-inj out_eq, ← val-inj z_eq)
        (ult_kb-Contains A llvm.bits llvm.order K llvm.known l r x y cl cr same pos)
  switch_binary-Contains Kind.ule inst first rand reserved l r out x y z covered cl cr same pos
        narrow nonzero out_eq z_eq =
      rw (← some-inj out_eq, ← val-inj z_eq)
        (ule_kb-Contains A llvm.bits llvm.order K llvm.known l r x y cl cr same pos)
  switch_binary-Contains Kind.slt inst first rand reserved l r out x y z covered cl cr same pos
        narrow nonzero out_eq z_eq =
      rw (← some-inj out_eq, ← val-inj z_eq)
        (slt_kb-Contains A llvm.bits llvm.order K llvm.known l r x y cl cr same pos)
  switch_binary-Contains Kind.sle inst first rand reserved l r out x y z covered cl cr same pos
        narrow nonzero out_eq z_eq =
      rw (← some-inj out_eq, ← val-inj z_eq)
        (sle_kb-Contains A llvm.bits llvm.order K llvm.known l r x y cl cr same pos)
  switch_binary-Contains _ inst first rand reserved l r out x y z covered cl cr same pos narrow
        nonzero out_eq z_eq =
      absurd (false≢true covered)
