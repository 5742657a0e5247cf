-- ===== src/Interp/Memo/Denote.antt =====
-- The meaning of an instruction without a cache: an input value, or the value of its operation at the
-- meanings of its operands.
use souper.Prelude.{ℕ, zero, suc, ◌<◌, ◌≡◌, refl, Bool, List, [], ◌∷◌, arith, All}
use souper.Inst.Graph.{Store}
use souper.Inst.Walk.{IsRanked}
use souper.Llvm.ApInt.{ApInt}
use souper.Interp.Value.{EvalValue, Result, ok, fatal, ◌>>=◌, out_of_fuel}
use souper.Interp.Single.{evaluate_single_inst}
use souper.Interp.Memo.{find_cached, hit_or}

unfoldable pub denote_ops : {V : Type 0} → (ℕ → Result V) → List ℕ → Result (List V)
denote_ops helper [] = ok []
denote_ops helper (op ∷ ops) = do v ← helper op; vs ← denote_ops helper ops; ok (v ∷ vs)

-- Only the values of the operands matter.
pub denote_ops_cong :
    {V : Type 0} (f g : ℕ → Result V) (ops : List ℕ)
    → All (λ o. f o ≡ g o) ops
    → denote_ops f ops ≡ denote_ops g ops
unfolding denote_ops
denote_ops_cong f g [] h = refl
denote_ops_cong f g (o ∷ ops) h = rw (h.0, denote_ops_cong f g ops h.1)

pub All-map : {P Q : ℕ → Type 0} (ops : List ℕ) → ((o : ℕ) → P o → Q o) → All P ops → All Q ops
All-map [] f h = tt
All-map (o ∷ ops) f h = (f o h.0, All-map ops f h.1)

module _ (A : ApInt) (store : Store A.Num) (first : Bool) (input : List (ℕ × EvalValue A.Num)) where
  unfoldable pub denote : ℕ → ℕ → Result (EvalValue A.Num)
  denote zero i = fatal out_of_fuel
  denote (suc fuel) i =
      let computed =
        denote_ops (denote fuel) (store i).ops >>= evaluate_single_inst A (store i) first 0 in
      hit_or (find_cached input i) (λ v. ok v) computed

  -- Fuel above the number of the instruction is enough, and more changes nothing.
  pub denote_fuel : IsRanked store → (f g i : ℕ) → i < f → i < g → denote f i ≡ denote g i
  unfolding denote
  denote_fuel ranked zero g i p q = absurd (omega arith)
  denote_fuel ranked (suc f) zero i p q = absurd (omega arith)
  denote_fuel ranked (suc f) (suc g) i p q =
      rw
        (denote_ops_cong (denote f) (denote g) (store i).ops (
          All-map (store i).ops (λ o h. denote_fuel ranked f g o (omega arith) (omega arith))
            (ranked i)))
        refl
