-- ===== src/Inst/Find/Given.antt =====
-- `hasGivenInst` answers whether an instruction that passes the test is reachable.
use souper.Prelude.{
  ℕ, ◌+◌, ◌<◌, ◌≡◌, ap, Bool, true, not, ◌==◌, member, List, [], ◌∷◌, length, none, some, arith,
}
use souper.Inst.Graph.{Store}
use souper.Inst.Find.{has_given_inst}
use souper.Inst.Find.Search.{IsClosedBelow, Reaches, pending, find_insts-Reaches}

-- An element of a list whose length is not 0.
element : (xs : List ℕ) → not (length xs == 0) ≡ true → (x : ℕ) × (member x xs ≡ true)
element [] h = ground arith
element (x ∷ xs) h = (x, ground arith)

not_empty : (x : ℕ) (xs : List ℕ) → member x xs ≡ true → not (length xs == 0) ≡ true
not_empty x [] h = ground arith
not_empty x (y ∷ xs) h = ground arith

module _ {N : Type 0} (store : Store N) where
  -- On a store where the operands of the first `n` pointers are among them, with `root` one of them,
  -- and fuel above one more than the number of their operands, `hasGivenInst` answers. If it answers
  -- yes, then some instruction reachable from the root passes the test, and if one does, then it
  -- answers yes.
  pub has_given_inst-Reaches :
      (n root fuel : ℕ) (tester : ℕ → Bool)
      → IsClosedBelow store n
      → root < n
      → 1 + pending store n [] < fuel
      → (b : Bool) × (has_given_inst store tester fuel (some root) ≡ some b)
        × (b ≡ true → (x : ℕ) × Reaches store root x × (tester x ≡ true))
        × ((x : ℕ) → Reaches store root x → tester x ≡ true → b ≡ true)
  unfolding has_given_inst
  has_given_inst-Reaches n root fuel tester closed h f =
      let (insts, p, fresh, k) = find_insts-Reaches store n root fuel tester closed h f in
      (
        not (length insts == 0),
        ap (λ o. elim o [ none ↦ none | some xs ↦ some (not (length xs == 0)) ]) p,
        (λ q. let (x, m) = element insts q in let (r, t) = (k x).0 m in (x, r, t)),
        λ x r t. not_empty x insts ((k x).1 (r, t)),
      )
