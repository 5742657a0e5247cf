-- ===== src/Interp/Single/Division.antt =====
-- Signed division of the smallest number by -1.
use souper.Prelude.{ℕ, ◌<◌, ◌^◌, ◌-◌, ◌≡◌, Bool, true, ◌∷◌, [], arith}
use souper.Inst.Kind.{Kind}
use souper.Inst.Graph.{Inst}
use souper.Llvm.ApInt.{ApInt, OrderLaws}
use souper.Interp.Value.{val, ub, ok}
use souper.Interp.Single.{evaluate_kind, sdiv_case, sdiv_exact, srem_case}

-- At every width below 64 the smallest number divided by -1 is a value for `SDiv`, while `SDivExact`
-- and `SRem` give undefined behaviour on the same numbers: the test of `SDiv` compares the divisor
-- with the uint64_t of 64 ones, which a number below 2 ^ 63 never equals.
pub sdiv_overflow_is_value :
    (A : ApInt) (order : OrderLaws A) (inst : Inst A.Num) (first : Bool) (rand : ℕ) (a b : A.Num)
    → A.is_min_signed_value a ≡ true
    → A.is_all_ones_value b ≡ true
    → 0 < A.value b
    → A.value b < 2 ^ 63
    → (evaluate_kind A Kind.sdiv inst first rand (val a ∷ val b ∷ []) ≡ ok (val (A.sdiv a b)))
      × (evaluate_kind A Kind.sdiv_exact inst first rand (val a ∷ val b ∷ []) ≡ ok ub)
      × (evaluate_kind A Kind.srem inst first rand (val a ∷ val b ∷ []) ≡ ok ub)
unfolding evaluate_kind sdiv_case sdiv_exact srem_case
sdiv_overflow_is_value A order inst first rand a b low ones pos small = (
  ground (arith, order.eq_u64-value b 0, order.eq_u64-value b (2 ^ 64 - 1)),
  ground arith,
  ground arith,
)
