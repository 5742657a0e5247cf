-- ===== src/Inst/Walk.antt =====
-- The walks of `costHelper` and `countHelper`: they end, and weigh each instruction once.
use mathlib.Core.Path.{subst}
use mathlib.Core.List.{append_assoc, map-append}
use souper.Prelude.{
  ℕ, zero, suc, ◌+◌, ◌<◌, ◌≡◌, refl, sym, ap, ◌∙◌, Bool, true, false, ◌||◌, ◌==◌, ==_iff, member,
  List, [], ◌∷◌, ◌++◌, map, Option, some, if◌then◌else◌, Bool-cases, inl, inr, arith, All, sum,
  sum-append,
}
use souper.Inst.Graph.{Store, visit_ops, walk}

-- An operand is created before the instruction that uses it.
abbrev pub IsRanked : {N : Type 0} → Store N → Type 0
IsRanked store = (i : ℕ) → All (λ o. o < i) (store i).ops

-- No pointer of `new` occurs twice or in `old`.
abbrev pub Fresh : List ℕ → List ℕ → Type 0
Fresh [] old = Unit
Fresh (x ∷ xs) old = (member x (xs ++ old) ≡ false) × Fresh xs old

abbrev pub AllIn : List ℕ → List ℕ → Type 0
AllIn visited ops = All (λ o. member o visited ≡ true) ops

pub member-append : (x : ℕ) (xs ys : List ℕ) → member x (xs ++ ys) ≡ (member x xs || member x ys)
member-append x [] ys = refl
member-append x (y ∷ xs) ys = ground (arith, member-append x xs ys)

pub Fresh-append : (xs ys old : List ℕ) → Fresh xs (ys ++ old) → Fresh ys old → Fresh (xs ++ ys) old
Fresh-append [] ys old h k = k
Fresh-append (x ∷ xs) ys old h k = (rw (append_assoc xs ys old) h.0, Fresh-append xs ys old h.1 k)

AllIn-append : (new visited ops : List ℕ) → AllIn visited ops → AllIn (new ++ visited) ops
AllIn-append new visited [] h = tt
AllIn-append new visited (o ∷ ops) h =
    (ground (arith, member-append o new visited, h.0), AllIn-append new visited ops h.1)

-- The pointers that a walk from `root` meets: the root, and the operands of those that are not skipped.
pub data Met {N : Type 0} (store : Store N) (skip : ℕ → Bool) (root : ℕ) : ℕ → Type 0 where
  at_root : Met store skip root root
  at_operand :
      (i o : ℕ)
      → Met store skip root i
      → skip i ≡ false
      → member o (store i).ops ≡ true
      → Met store skip root o

module _ {N : Type 0} (store : Store N) (skip : ℕ → Bool) (weight : ℕ → ℕ) (root : ℕ) where
  -- What one instruction adds to the total.
  abbrev pub charge : ℕ → ℕ
  charge i = if skip i then 0 else weight i

  -- A walk from the visited set `old` to `visited` that returned `total`.
  pub record Walked (old : List ℕ) (total : ℕ) (visited : List ℕ) : Type 0 where
    pub new : List ℕ
    pub visited_eq : visited ≡ new ++ old
    pub total_eq : total ≡ sum (map charge new)
    pub fresh : Fresh new old
    pub met : (x : ℕ) → member x new ≡ true → Met store skip root x
    pub closed :
        (x : ℕ)
        → member x visited ≡ true
        → member x old ≡ false
        → skip x ≡ false
        → AllIn visited (store x).ops

  Walked-none : (old : List ℕ) → Walked old 0 old
  Walked-none old = record {
    new = [];
    visited_eq = refl;
    total_eq = refl;
    fresh = tt;
    met = λ x p. ground arith;
    closed = λ x p q s. ground arith;
  }

  Walked-trans : {u v w : List ℕ} {m n : ℕ} → Walked u m v → Walked v n w → Walked u (m + n) w
  Walked-trans {u} {v} {w} {m} {n} p q = record {
    new = q.new ++ p.new;
    visited_eq =
        q.visited_eq ∙ ap (λ t. q.new ++ t) p.visited_eq ∙ sym (append_assoc q.new p.new u);
    total_eq =
        rw (map-append charge q.new p.new)
          (omega (arith, p.total_eq, q.total_eq, sum-append (map charge q.new) (map charge p.new)));
    fresh = Fresh-append q.new p.new u (rw p.visited_eq at q.fresh) p.fresh;
    met = λ x inside. elim (Bool-cases (member x q.new)) [
      | inl late ↦ q.met x late
      | inr early ↦ p.met x (ground (arith, member-append x q.new p.new, inside, early))
    ];
    closed = λ x inside outside kept. elim (Bool-cases (member x v)) [
      | inl early ↦
          rw q.visited_eq (AllIn-append q.new v (store x).ops (p.closed x early outside kept))
      | inr late ↦ q.closed x inside late kept
    ];
  }

  -- One instruction that is not skipped, and then its operands.
  Walked-cons :
      {i m : ℕ} {old visited : List ℕ}
      → member i old ≡ false
      → skip i ≡ false
      → Met store skip root i
      → Walked (i ∷ old) m visited
      → AllIn visited (store i).ops
      → Walked old (weight i + m) visited
  Walked-cons {i} {m} {old} {visited} unseen kept m_i w done = record {
    new = w.new ++ i ∷ [];
    visited_eq = w.visited_eq ∙ sym (append_assoc w.new (i ∷ []) old);
    total_eq =
        rw (map-append charge w.new (i ∷ []))
          (ground (arith, w.total_eq, sum-append (map charge w.new) (charge i ∷ [])));
    fresh = Fresh-append w.new (i ∷ []) old w.fresh (unseen, tt);
    met = λ x inside. elim (Bool-cases (member x w.new)) [
      | inl late ↦ w.met x late
      | inr early ↦
          subst (Met store skip root)
            ((==_iff i x).0 (ground (arith, member-append x w.new (i ∷ []), inside, early))) m_i
    ];
    closed = λ x inside outside s. elim (Bool-cases (i == x)) [
      | inl same ↦ rw (← (==_iff i x).0 same) done
      | inr other ↦ w.closed x inside (rw (other, outside)) s
    ];
  }

  Walked-skip :
      {i : ℕ} {old : List ℕ}
      → member i old ≡ false
      → skip i ≡ true
      → Met store skip root i
      → Walked old 0 (i ∷ old)
  Walked-skip {i} {old} unseen s m_i = record {
    new = i ∷ [];
    visited_eq = refl;
    total_eq = rw s;
    fresh = (unseen, tt);
    met = λ x p. subst (Met store skip root) ((==_iff i x).0 (ground (arith, p))) m_i;
    closed = λ x p q r. ground (arith, ==_iff i x);
  }

  Walked-member :
      {u v : List ℕ} {m : ℕ} (x : ℕ) → Walked u m v → member x u ≡ true → member x v ≡ true
  Walked-member {u} x w h = rw w.visited_eq (ground (arith, member-append x w.new u))

  -- What a walk promises: it ends, and its root is visited.
  abbrev pub Walks : Option (ℕ × List ℕ) → ℕ → List ℕ → List ℕ → Type 0
  Walks result base old roots =
      (total : ℕ) × (visited : List ℕ) × (result ≡ some (base + total, visited))
      × Walked old total visited
      × AllIn visited roots

  visit_ops-Walks :
      (helper : ℕ → List ℕ → Option (ℕ × List ℕ)) (ops : List ℕ) (base : ℕ) (old : List ℕ)
      (bound : ℕ)
      → ((o : ℕ) (seen : List ℕ)
          → o < bound
          → Met store skip root o
          → Walks (helper o seen) 0 seen (o ∷ []))
      → All (λ o. o < bound) ops
      → ((o : ℕ) → member o ops ≡ true → Met store skip root o)
      → Walks (visit_ops helper ops base old) base old ops
  unfolding visit_ops
  visit_ops-Walks helper [] base old bound step below meets =
      (0, old, ground arith, Walked-none old, tt)
  visit_ops-Walks helper (o ∷ ops) base old bound step below meets =
      let (m, mid, e, w, inside) = step o old below.0 (meets o (ground arith)) in
      let (n, visited, e', w', inside') =
        visit_ops-Walks helper ops (base + (0 + m)) mid bound step below.1
          (λ x h. meets x (ground (arith, h))) in
      (
        m + n,
        visited,
        rw (e, visit_ops) (e' ∙ ground arith),
        Walked-trans w w',
        (Walked-member o w' inside.0, inside'),
      )

  pub walk-Walks :
      IsRanked store
      → (fuel i : ℕ) (old : List ℕ) → i < fuel
      → Met store skip root i
      → Walks (walk store skip weight fuel i old) 0 old (i ∷ [])
  unfolding walk
  walk-Walks ranked zero i old h m_i = absurd (omega arith)
  walk-Walks ranked (suc fuel) i old h m_i = elim (Bool-cases (member i old)) [
    | inl seen ↦ rw seen (0, old, refl, Walked-none old, (seen, tt))
    | inr unseen ↦ elim (Bool-cases (skip i)) [
      | inl skipped ↦
          rw (unseen, skipped)
            (0, i ∷ old, refl, Walked-skip unseen skipped m_i, (ground arith, tt))
      | inr kept ↦
          let (m, visited, e, w, inside) =
            visit_ops-Walks (walk store skip weight fuel) (store i).ops (weight i) (i ∷ old) i
              (λ o seen p m_o. walk-Walks ranked fuel o seen (omega arith) m_o) (ranked i)
              (λ o h. at_operand i o m_i kept h) in
          rw (unseen, kept)
            (
              weight i + m,
              visited,
              e ∙ ground arith,
              Walked-cons unseen kept m_i w inside,
              (Walked-member i w (ground arith), tt),
            )
    ]
  ]
