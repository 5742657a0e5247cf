-- ===== src/Interp/Memo/Refine.antt =====
-- The cache is transparent.
use souper.Prelude.{
  ℕ, zero, suc, ◌<◌, ◌≡◌, ◌≢◌, refl, ◌∙◌, Bool, false, List, [], ◌∷◌, none, some, arith, All,
  if◌then◌else◌, Option-cases, inl, inr, ==_iff,
}
use souper.Inst.Kind.{Kind}
use souper.Inst.Graph.{Inst, Store}
use souper.Inst.Walk.{IsRanked}
use souper.Llvm.ApInt.{ApInt}
use souper.Interp.Value.{EvalValue, Result, ok, fatal, ◌>>=◌}
use souper.Interp.Single.{evaluate_kind, evaluate_single_inst}
use souper.Interp.Memo.{
  find_cached, Machine, evaluate_ops, calls_rand, remember, finish, evaluate_inst,
}
use souper.Interp.Memo.Denote.{denote_ops, denote, denote_fuel}

evaluate_kind-rand :
    (A : ApInt) (k : Kind) (inst : Inst A.Num) (first : Bool) (r s : ℕ)
    (args : List (EvalValue A.Num))
    → k ≢ Kind.freeze
    → evaluate_kind A k inst first r args ≡ evaluate_kind A k inst first s args
unfolding evaluate_kind
evaluate_kind-rand A Kind.freeze inst first r s args h = absurd (h refl)
evaluate_kind-rand A _ inst first r s args h = refl

calls_rand-false :
    {N : Type 0} (k : Kind) (args : List (EvalValue N))
    → k ≢ Kind.freeze
    → calls_rand k args ≡ false
unfolding calls_rand
calls_rand-false Kind.freeze args h = absurd (h refl)
calls_rand-false _ args h = refl

evaluate_single_inst-rand :
    (A : ApInt) (inst : Inst A.Num) (first : Bool) (r s : ℕ) (args : List (EvalValue A.Num))
    → inst.kind ≢ Kind.freeze
    → evaluate_single_inst A inst first r args ≡ evaluate_single_inst A inst first s args
unfolding evaluate_single_inst
evaluate_single_inst-rand A inst first r s args h =
    rw (evaluate_kind-rand A inst.kind inst first r s args h)

module _ (A : ApInt) (std_rand : ℕ → ℕ × ℕ) (store : Store A.Num) (writable first : Bool)
    (input : List (ℕ × EvalValue A.Num)) (ranked : IsRanked store)
    (no_freeze : (i : ℕ) → (store i).kind ≢ Kind.freeze) where
  abbrev V : Type 0
  V = EvalValue A.Num

  -- Every entry is the meaning of its instruction, and every input value is an entry.
  pub record IsConsistent (m : Machine V) : Type 0 where
    pub sound :
        (i fuel : ℕ) (v : V)
        → find_cached m.cache i ≡ some v
        → i < fuel
        → denote A store first input fuel i ≡ ok v
    pub holds_input : (i : ℕ) → find_cached m.cache i ≡ none → find_cached input i ≡ none

  -- The constructor of the interpreter starts from the input values.
  pub input-IsConsistent : (seed : ℕ) → IsConsistent (record { cache = input; seed = seed })
  unfolding denote
  input-IsConsistent seed = record { sound = input_sound; holds_input = λ i miss. miss }
    where
      input_sound :
          (i fuel : ℕ) (v : V)
          → find_cached input i ≡ some v
          → i < fuel
          → denote A store first input fuel i ≡ ok v
      input_sound i zero v hit lt = absurd (omega arith)
      input_sound i (suc fuel) v hit lt = rw hit

  -- The same value and a consistent cache, or the same error.
  abbrev pub Agrees : {T : Type 0} → Result (T × Machine V) → Result T → Type 0
  Agrees (ok (v, m)) r = (r ≡ ok v) × IsConsistent m
  Agrees (fatal e) r = (r ≡ fatal e) × Unit

  Agrees-bind :
      {S T : Type 0} (r : Result (S × Machine V)) (s : Result S)
      (f : S × Machine V → Result (T × Machine V)) (g : S → Result T)
      → Agrees r s
      → ((v : S) (m : Machine V) → s ≡ ok v → IsConsistent m → Agrees (f (v, m)) (g v))
      → Agrees (r >>= f) (s >>= g)
  Agrees-bind (ok (v, m)) s f g h k = rw h.0 (k v m h.0 h.1)
  Agrees-bind (fatal e) s f g h k = rw h.0 (refl, tt)

  evaluate_ops-Agrees :
      (helper : ℕ → Machine V → Result (V × Machine V)) (ref : ℕ → Result V) (ops : List ℕ)
      (m : Machine V) (bound : ℕ)
      → ((o : ℕ) (m : Machine V) → o < bound → IsConsistent m → Agrees (helper o m) (ref o))
      → All (λ o. o < bound) ops
      → IsConsistent m
      → Agrees (evaluate_ops helper ops m) (denote_ops ref ops)
  unfolding evaluate_ops denote_ops
  evaluate_ops-Agrees helper ref [] m bound step below c = (refl, c)
  evaluate_ops-Agrees helper ref (o ∷ ops) m bound step below c =
      Agrees-bind (helper o m) (ref o) _ _ (step o m below.0 c) (λ v m' e c'.
        Agrees-bind (evaluate_ops helper ops m') (denote_ops ref ops) _ _
          (evaluate_ops-Agrees helper ref ops m' bound step below.1 c')
          (λ vs m'' e' c''. (refl, c'')))

  remember-IsConsistent :
      (i : ℕ) (v : V) (m : Machine V)
      → ((fuel : ℕ) → i < fuel → denote A store first input fuel i ≡ ok v)
      → IsConsistent m
      → IsConsistent (remember A std_rand store writable first i v m)
  unfolding remember
  remember-IsConsistent i v m h c = record {
    sound = λ j fuel u e lt. ground (arith, ==_iff i j, h fuel, c.sound j fuel u);
    holds_input = λ j e. ground (arith, c.holds_input j);
  }

  finish-Agrees :
      (i : ℕ) (args : List V) (m : Machine V)
      → ((v : V) (fuel : ℕ)
          → evaluate_single_inst A (store i) first 0 args ≡ ok v
          → i < fuel
          → denote A store first input fuel i ≡ ok v)
      → IsConsistent m
      → Agrees
          (finish A std_rand store writable first i args m)
          (evaluate_single_inst A (store i) first 0 args)
  unfolding finish
  finish-Agrees i args m h c =
      rw (evaluate_single_inst-rand A (store i) first (std_rand m.seed).0 0 args (no_freeze i))
        (go (evaluate_single_inst A (store i) first 0 args) refl)
    where
      next : Machine V
      next = record m {
        seed = if calls_rand (store i).kind args then (std_rand m.seed).1 else m.seed;
      }

      go :
          (r : Result V)
          → evaluate_single_inst A (store i) first 0 args ≡ r
          → Agrees (r >>= λ v. ok (v, remember A std_rand store writable first i v next)) r
      go (ok v) e = (
        refl,
        remember-IsConsistent i v next (λ fuel. h v fuel e)
            (record { sound = c.sound; holds_input = c.holds_input }),
      )
      go (fatal e) e' = (refl, tt)

  -- With operands created before their users, fuel above the root's number and no freeze in the store
  -- (freeze draws a random number), `evaluateInst` on a consistent cache returns the value, or stops
  -- with the error, that evaluation without a cache has, whether or not the cache is writable; it
  -- leaves a consistent cache.
  pub evaluate_inst-Agrees :
      (fuel i : ℕ) (m : Machine V)
      → i < fuel
      → IsConsistent m
      → Agrees
          (evaluate_inst A std_rand store writable first fuel i m)
          (denote A store first input fuel i)
  unfolding evaluate_inst denote
  evaluate_inst-Agrees zero i m h c = absurd (omega arith)
  evaluate_inst-Agrees (suc fuel) i m h c = elim (Option-cases (find_cached m.cache i)) [
    | inl miss ↦
        rw (miss, c.holds_input i miss)
          (Agrees-bind
            (evaluate_ops (evaluate_inst A std_rand store writable first fuel) (store i).ops m)
            (denote_ops (denote A store first input fuel) (store i).ops) _ _
            (evaluate_ops-Agrees (evaluate_inst A std_rand store writable first fuel)
              (denote A store first input fuel) (store i).ops m i
              (λ o m' lt c'. evaluate_inst-Agrees fuel o m' (omega arith) c') (ranked i) c)
            (λ args m' e c'.
              finish-Agrees i args m'
                (λ v f single lt.
                  denote_fuel A store first input ranked f (suc fuel) i lt h
                  ∙ rw (c.holds_input i miss, e) single)
                c'))
    | inr (v, hit) ↦ rw hit (c.sound i (suc fuel) v hit h, c)
  ]
