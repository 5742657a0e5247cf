-- ===== src/Inst/Find/Search.antt =====
-- The search of `findInsts` ends, and finds what is reachable and meets the condition.
use mathlib.Core.Path.{subst}
use souper.Prelude.{
  ℕ, zero, suc, ◌+◌, ◌<◌, ◌≤◌, ◌≡◌, refl, ap, Bool, true, false, ◌&&◌, ◌||◌, ◌==◌, ==_iff, member,
  List, [], ◌∷◌, ◌++◌, length, length-append, some, if◌then◌else◌, Bool-cases, inl, inr, ◌↔◌, arith,
}
use souper.Inst.Graph.{Store}
use souper.Inst.Walk.{Fresh}
use souper.Inst.Find.Members.{
  seen-member, first-member, visit-cases, new_operand, visit-keep, found_visit, Fresh-visit,
}
use souper.Inst.Find.{find_loop, find_insts}

module _ {N : Type 0} (store : Store N) where
  -- The operands of the first `n` pointers are among them.
  abbrev pub IsClosedBelow : ℕ → Type 0
  IsClosedBelow n = (i o : ℕ) → i < n → member o (store i).ops ≡ true → o < n

  -- `x` is an operand of an operand … of `root`.
  pub data Reaches (root : ℕ) : ℕ → Type 0 where
    here : Reaches root root
    there : (i o : ℕ) → Reaches root i → member o (store i).ops ≡ true → Reaches root o

  -- The operands of the first `n` pointers that are not visited.
  abbrev pub pending : ℕ → List ℕ → ℕ
  pending zero visited = 0
  pending (suc n) visited =
      (if member n visited then 0 else length (store n).ops) + pending n visited

  pending_above : (n i : ℕ) (visited : List ℕ) → n ≤ i → pending n (i ∷ visited) ≡ pending n visited
  pending_above zero i visited h = refl
  pending_above (suc n) i visited h = ground (arith, pending_above n i visited (omega (arith, h)))

  pending_visit :
      (n i : ℕ) (visited : List ℕ)
      → i < n
      → member i visited ≡ false
      → pending n (i ∷ visited) + length (store i).ops ≡ pending n visited
  pending_visit zero i visited h p = ground arith
  pending_visit (suc n) i visited h p = elim (Bool-cases (i == n)) [
    | inl e ↦
        let same = (==_iff i n).0 e in
        ground (
          arith,
          pending_above n i visited (omega (arith, same)),
          ap (λ k. length (store k).ops) same,
          ap (λ k. member k visited) same,
          p,
          e,
        )
    | inr e ↦ ground (arith, pending_visit n i visited (ground (arith, h, e)) p, e)
  ]

  -- The state of the search: what was visited and met the condition is in `insts`, what is visited or
  -- queued is reachable, and operands of visited instructions are visited or queued.
  pub record Searched (root n : ℕ) (condition : ℕ → Bool) (queue visited insts : List ℕ)
      : Type 0 where
    pub found : (x : ℕ) → member x insts ≡ (member x visited && condition x)
    pub reached : (x : ℕ) → (member x queue || member x visited) ≡ true → Reaches root x
    pub bounded : (x : ℕ) → (member x queue || member x visited) ≡ true → x < n
    pub closed :
        (x o : ℕ)
        → member x visited ≡ true
        → member o (store x).ops ≡ true
        → (member o queue || member o visited) ≡ true
    pub fresh : Fresh insts []
    pub has_root : (member root queue || member root visited) ≡ true

  Searched-start :
      (root n : ℕ) (condition : ℕ → Bool) → root < n → Searched root n condition (root ∷ []) [] []
  Searched-start root n condition h = record {
    found = λ x. refl;
    reached = λ x p. subst (Reaches root) ((==_iff root x).0 (ground (arith, p))) here;
    bounded = λ x p. ground (arith, h, p);
    closed = λ x o p q. ground arith;
    fresh = tt;
    has_root = ground arith;
  }

  module _ {root n : ℕ} {condition : ℕ → Bool} where
    Searched-seen :
        (i : ℕ) (queue visited insts : List ℕ)
        → member i visited ≡ true
        → Searched root n condition (i ∷ queue) visited insts
        → Searched root n condition queue visited insts
    Searched-seen i queue visited insts p s = record {
      found = s.found;
      reached = λ x q. s.reached x (ground (arith, q));
      bounded = λ x q. s.bounded x (ground (arith, q));
      closed = λ x o q r. seen-member i o queue visited p (s.closed x o q r);
      fresh = s.fresh;
      has_root = seen-member i root queue visited p s.has_root;
    }

    -- The state after `i` is visited.
    Searched-visit :
        (i : ℕ) (queue visited insts : List ℕ)
        → IsClosedBelow n
        → member i visited ≡ false
        → Searched root n condition (i ∷ queue) visited insts
        → Searched root n condition
            (queue ++ (store i).ops)
            (i ∷ visited)
            (if condition i then insts ++ (i ∷ []) else insts)
    Searched-visit i queue visited insts closed p s = record {
      found = λ x. found_visit condition i x visited insts (s.found x);
      reached = λ x q. elim (visit-cases i x queue (store i).ops visited q) [
        | inl r ↦ s.reached x r
        | inr r ↦ there i x (s.reached i (first-member i queue visited)) r
      ];
      bounded = λ x q. elim (visit-cases i x queue (store i).ops visited q) [
        | inl r ↦ s.bounded x r
        | inr r ↦ closed i x (s.bounded i (first-member i queue visited)) r
      ];
      closed = λ x o q r. elim (Bool-cases (i == x)) [
        | inl e ↦
            new_operand i o queue (store i).ops visited
              (rw (ap (λ k. (store k).ops) ((==_iff i x).0 e)) r)
        | inr e ↦ visit-keep i o queue (store i).ops visited (s.closed x o (ground (arith, e, q)) r)
      ];
      fresh = Fresh-visit condition i visited insts p (s.found i) s.fresh;
      has_root = visit-keep i root queue (store i).ops visited s.has_root;
    }

    -- With fuel for the queue and for the operands that are pending, the search comes to an end.
    find_loop-Searched :
        (fuel : ℕ) (queue visited insts : List ℕ)
        → IsClosedBelow n
        → length queue + pending n visited < fuel
        → Searched root n condition queue visited insts
        → (result seen : List ℕ) × (find_loop store condition fuel queue visited insts
            ≡ some result)
          × Searched root n condition [] seen result
    unfolding find_loop
    find_loop-Searched zero queue visited insts closed h s = absurd (omega arith)
    find_loop-Searched (suc fuel) [] visited insts closed h s = (insts, visited, refl, s)
    find_loop-Searched (suc fuel) (i ∷ queue) visited insts closed h s =
        elim (Bool-cases (member i visited)) [
          | inl e ↦
              let (result, seen, p, t) =
                find_loop-Searched fuel queue visited insts closed (omega (arith, h))
                  (Searched-seen i queue visited insts e s) in
              (result, seen, ground (arith, e, p), t)
          | inr e ↦
              let (result, seen, p, t) =
                find_loop-Searched fuel (queue ++ (store i).ops) (i ∷ visited)
                  (if condition i then insts ++ (i ∷ []) else insts) closed
                  (omega (
                    arith,
                    h,
                    length-append queue (store i).ops,
                    pending_visit n i visited (s.bounded i (first-member i queue visited)) e,
                  ))
                  (Searched-visit i queue visited insts closed e s) in
              (result, seen, ground (arith, e, p), t)
        ]

  -- At the end of the search, everything reachable is visited.
  Searched-complete :
      (root n : ℕ) (condition : ℕ → Bool) (seen insts : List ℕ)
      → Searched root n condition [] seen insts
      → (x : ℕ) → Reaches root x
      → member x seen ≡ true
  Searched-complete root n condition seen insts s _ here = s.has_root
  Searched-complete root n condition seen insts s _ (there i o r h) =
      s.closed i o (Searched-complete root n condition seen insts s i r) h

  -- On a store where the operands of the first `n` pointers are among them, with `root` one of them,
  -- `findInsts` ends, with fuel above one more than the number of the operands of all of them, and it
  -- returns instructions without a repetition: those that are reachable from the root over operands
  -- and meet the condition, and no others.
  pub find_insts-Reaches :
      (n root fuel : ℕ) (condition : ℕ → Bool)
      → IsClosedBelow n
      → root < n
      → 1 + pending n [] < fuel
      → (insts : List ℕ) × (find_insts store condition fuel (some root) [] ≡ some insts)
        × Fresh insts []
        × ((x : ℕ) → (member x insts ≡ true) ↔ (Reaches root x × (condition x ≡ true)))
  unfolding find_insts
  find_insts-Reaches n root fuel condition closed h f =
      let (insts, seen, p, s) =
        find_loop-Searched fuel (root ∷ []) [] [] closed f (Searched-start root n condition h) in
      (
        insts,
        p,
        s.fresh,
        λ x. (
          (λ q. (s.reached x (ground (arith, s.found x, q)), ground (arith, s.found x, q))),
          λ r.
              ground (arith, s.found x, r.1, Searched-complete root n condition seen insts s x r.0),
        ),
      )
