-- ===== src/Interp/Memo.antt =====
-- lib/Infer/Interpreter.cpp: `ConcreteInterpreter::evaluateInst` and its cache.
pub mod Denote
pub mod Refine
use souper.Prelude.{ℕ, zero, suc, Bool, true, false, ◌==◌, List, [], ◌∷◌, ◌++◌, if◌then◌else◌}
use souper.Prelude.{Option, none, some}
use souper.Inst.Kind.{Kind}
use souper.Inst.Graph.{Inst, Store}
use souper.Llvm.ApInt.{ApInt}
use souper.Interp.Value.{
  EvalValue, Result, ok, fatal, ◌>>=◌, any_arg, is_ub, is_poison, out_of_fuel,
}
use souper.Interp.Single.{evaluate_single_inst}

-- `Cache.find(Root)`; the newest entry of a pointer counts.
abbrev pub find_cached : {V : Type 0} → List (ℕ × V) → ℕ → Option V
find_cached [] i = none
find_cached ((j, v) ∷ cache) i = if j == i then some v else find_cached cache i

-- The cached value, or else the computed result.
abbrev pub hit_or {ℓ} : {V : Type 0} {R : Type ℓ} → Option V → (V → R) → R → R
hit_or (some v) hit miss = hit v
hit_or none hit miss = miss

-- The cache of the interpreter and the state of `std::rand`.
pub record Machine (V : Type 0) : Type 0 where
  pub cache : List (ℕ × V)
  pub seed : ℕ

-- The loop that fills `EvaluatedArgs`.
unfoldable pub evaluate_ops :
    {V : Type 0}
    → (ℕ → Machine V → Result (V × Machine V))
    → List ℕ
    → Machine V
    → Result (List V × Machine V)
evaluate_ops helper [] m = ok ([], m)
evaluate_ops helper (op ∷ ops) m = do
  r ← helper op m
  rest ← evaluate_ops helper ops r.1
  ok (r.0 ∷ rest.0, rest.1)

-- Whether `evaluateSingleInst` calls `std::rand`: a freeze of poison.
unfoldable pub calls_rand : {N : Type 0} → Kind → List (EvalValue N) → Bool
calls_rand Kind.freeze args = if any_arg is_ub args then false else any_arg is_poison args
calls_rand _ args = false

-- `std_rand` is the C library's generator: a state gives a number and the next state.
module _ (A : ApInt) (std_rand : ℕ → ℕ × ℕ) (store : Store A.Num) (writable first : Bool) where
  -- `Cache[Root] = Result`, if the cache is writable.
  unfoldable pub remember :
      ℕ → EvalValue A.Num → Machine (EvalValue A.Num) → Machine (EvalValue A.Num)
  remember i v m = if writable then record m { cache = (i, v) ∷ m.cache } else m

  -- What follows the loop over the operands.
  unfoldable pub finish :
      ℕ
      → List (EvalValue A.Num)
      → Machine (EvalValue A.Num)
      → Result (EvalValue A.Num × Machine (EvalValue A.Num))
  finish i args m = do
    v ← evaluate_single_inst A (store i) first (std_rand m.seed).0 args
    let seed = if calls_rand (store i).kind args then (std_rand m.seed).1 else m.seed
    ok (v, remember i v (record m { seed = seed }))

  -- `evaluateInst`, on fuel.
  unfoldable pub evaluate_inst :
      ℕ → ℕ → Machine (EvalValue A.Num) → Result (EvalValue A.Num × Machine (EvalValue A.Num))
  evaluate_inst zero i m = fatal out_of_fuel
  evaluate_inst (suc fuel) i m =
      let computed = evaluate_ops (evaluate_inst fuel) (store i).ops m >>= λ r. finish i r.0 r.1 in
      hit_or (find_cached m.cache i) (λ v. ok (v, m)) computed
