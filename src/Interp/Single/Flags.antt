-- ===== src/Interp/Single/Flags.antt =====
-- The flags nsw, nuw, nw and exact only add poison.
use souper.Prelude.{ℕ, ◌≡◌, refl, Bool, ◌∷◌, [], arith, ◌⊎◌, inl}
use souper.Inst.Kind.{Kind}
use souper.Inst.Graph.{Inst}
use souper.Llvm.ApInt.{ApInt, OverflowLaws}
use souper.Interp.Value.{val, poison, ok}
use souper.Interp.Arith.{
  evaluate_add_nsw, evaluate_add_nuw, evaluate_add_nw, evaluate_sub_nsw, evaluate_sub_nuw,
  evaluate_sub_nw, evaluate_mul_nsw, evaluate_mul_nuw, evaluate_mul_nw, evaluate_udiv, evaluate_shl,
  evaluate_lshr, evaluate_ashr,
}
use souper.Interp.Single.{
  evaluate_kind, udiv_exact, shl_nsw, shl_nuw, shl_nw, lshr_exact, ashr_exact,
}

-- The kind without its flags. `SDivExact` is left out: its test for overflow is not that of `SDiv`.
abbrev pub without_flags : Kind → Kind
without_flags Kind.add_nsw = Kind.add
without_flags Kind.add_nuw = Kind.add
without_flags Kind.add_nw = Kind.add
without_flags Kind.sub_nsw = Kind.sub
without_flags Kind.sub_nuw = Kind.sub
without_flags Kind.sub_nw = Kind.sub
without_flags Kind.mul_nsw = Kind.mul
without_flags Kind.mul_nuw = Kind.mul
without_flags Kind.mul_nw = Kind.mul
without_flags Kind.udiv_exact = Kind.udiv
without_flags Kind.shl_nsw = Kind.shl
without_flags Kind.shl_nuw = Kind.shl
without_flags Kind.shl_nw = Kind.shl
without_flags Kind.lshr_exact = Kind.lshr
without_flags Kind.ashr_exact = Kind.ashr
without_flags k = k

module _ (A : ApInt) (laws : OverflowLaws A) (inst : Inst A.Num) (first : Bool) (rand : ℕ) where
  -- On two numbers, a kind with flags gives what the kind without them gives, or poison of the
  -- first number's width; `SDivExact` counts as a kind without flags here.
  pub evaluate_kind-without_flags :
      (k : Kind) (a b : A.Num)
      → (evaluate_kind A k inst first rand (val a ∷ val b ∷ [])
          ≡ evaluate_kind A (without_flags k) inst first rand (val a ∷ val b ∷ []))
        ⊎ (evaluate_kind A k inst first rand (val a ∷ val b ∷ []) ≡ ok (poison (A.width a)))
  unfolding evaluate_kind evaluate_add_nsw evaluate_add_nuw evaluate_add_nw evaluate_sub_nsw
      evaluate_sub_nuw evaluate_sub_nw evaluate_mul_nsw evaluate_mul_nuw evaluate_mul_nw
      evaluate_udiv evaluate_shl evaluate_lshr evaluate_ashr udiv_exact shl_nsw shl_nuw shl_nw
      lshr_exact ashr_exact
  evaluate_kind-without_flags Kind.add_nsw a b = ground (arith, laws.sadd_ov-result a b)
  evaluate_kind-without_flags Kind.add_nuw a b = ground (arith, laws.uadd_ov-result a b)
  evaluate_kind-without_flags Kind.add_nw a b = ground (arith, laws.sadd_ov-result a b)
  evaluate_kind-without_flags Kind.sub_nsw a b = ground (arith, laws.ssub_ov-result a b)
  evaluate_kind-without_flags Kind.sub_nuw a b = ground (arith, laws.usub_ov-result a b)
  evaluate_kind-without_flags Kind.sub_nw a b = ground (arith, laws.ssub_ov-result a b)
  evaluate_kind-without_flags Kind.mul_nsw a b = ground (arith, laws.smul_ov-result a b)
  evaluate_kind-without_flags Kind.mul_nuw a b = ground (arith, laws.umul_ov-result a b)
  evaluate_kind-without_flags Kind.mul_nw a b = ground (arith, laws.smul_ov-result a b)
  evaluate_kind-without_flags Kind.shl_nsw a b =
      ground (arith, laws.sshl_ov-result a b, laws.sshl_ov-big a b)
  evaluate_kind-without_flags Kind.shl_nuw a b =
      ground (arith, laws.ushl_ov-result a b, laws.ushl_ov-big a b)
  evaluate_kind-without_flags Kind.shl_nw a b =
      ground (arith, laws.ushl_ov-result a b, laws.ushl_ov-big a b)
  evaluate_kind-without_flags Kind.udiv_exact a b = ground arith
  evaluate_kind-without_flags Kind.lshr_exact a b = ground arith
  evaluate_kind-without_flags Kind.ashr_exact a b = ground arith
  evaluate_kind-without_flags _ a b = inl refl
