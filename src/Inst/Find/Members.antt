-- ===== src/Inst/Find/Members.antt =====
-- Membership in the queue, the visited set and the result of `findInsts`.
use souper.Prelude.{
  ℕ, ◌≡◌, refl, sym, ap, Bool, true, false, ◌&&◌, ◌||◌, ◌==◌, ==_iff, member, List, [], ◌∷◌, ◌++◌,
  if◌then◌else◌, Bool-cases, inl, inr, ◌⊎◌, arith,
}
use souper.Inst.Walk.{member-append, Fresh, Fresh-append}

pub equal-member : (i x : ℕ) (v : List ℕ) → (i == x) ≡ true → member x v ≡ member i v
equal-member i x v e = sym (ap (λ k. member k v) ((==_iff i x).0 e))

-- What is visited need not be queued.
pub seen-member :
    (i x : ℕ) (queue visited : List ℕ)
    → member i visited ≡ true
    → (member x (i ∷ queue) || member x visited) ≡ true
    → (member x queue || member x visited) ≡ true
seen-member i x queue visited p q = elim (Bool-cases (i == x)) [
  | inl e ↦ ground (arith, equal-member i x visited e, p)
  | inr e ↦ ground (arith, e, q)
]

pub first-member :
    (i : ℕ) (queue visited : List ℕ) → (member i (i ∷ queue) || member i visited) ≡ true
first-member i queue visited = ground (arith)

-- What is queued or visited after `i` is visited.
pub visit-cases :
    (i x : ℕ) (queue ops visited : List ℕ)
    → (member x (queue ++ ops) || member x (i ∷ visited)) ≡ true
    → ((member x (i ∷ queue) || member x visited) ≡ true) ⊎ (member x ops ≡ true)
visit-cases i x queue ops visited q = ground (arith, member-append x queue ops, q)

pub new_operand :
    (i o : ℕ) (queue ops visited : List ℕ)
    → member o ops ≡ true
    → (member o (queue ++ ops) || member o (i ∷ visited)) ≡ true
new_operand i o queue ops visited h = ground (arith, member-append o queue ops, h)

pub visit-keep :
    (i x : ℕ) (queue ops visited : List ℕ)
    → (member x (i ∷ queue) || member x visited) ≡ true
    → (member x (queue ++ ops) || member x (i ∷ visited)) ≡ true
visit-keep i x queue ops visited q = ground (arith, member-append x queue ops, q)

pub found_visit :
    (condition : ℕ → Bool) (i x : ℕ) (visited insts : List ℕ)
    → member x insts ≡ (member x visited && condition x)
    → member x (if condition i then insts ++ (i ∷ []) else insts)
      ≡ (member x (i ∷ visited) && condition x)
found_visit condition i x visited insts h = elim (Bool-cases (i == x)) [
  | inl e ↦ ground (arith, h, e, member-append x insts (i ∷ []), ap condition ((==_iff i x).0 e))
  | inr e ↦ ground (arith, h, e, member-append x insts (i ∷ []))
]

pub Fresh-before : (i : ℕ) (xs : List ℕ) → member i xs ≡ false → Fresh xs [] → Fresh xs (i ∷ [])
Fresh-before i [] h f = tt
Fresh-before i (x ∷ xs) h f = (
  ground (arith, h, f.0, ==_iff i x, member-append x xs (i ∷ []), member-append x xs []),
  Fresh-before i xs (ground (arith, h)) f.1,
)

-- Without a repetition, and without one of `i`, behind `i` too.
pub Fresh-last : (i : ℕ) (xs : List ℕ) → member i xs ≡ false → Fresh xs [] → Fresh (xs ++ i ∷ []) []
Fresh-last i xs h f = Fresh-append xs (i ∷ []) [] (Fresh-before i xs h f) (refl, tt)

pub Fresh-visit :
    (condition : ℕ → Bool) (i : ℕ) (visited insts : List ℕ)
    → member i visited ≡ false
    → member i insts ≡ (member i visited && condition i)
    → Fresh insts []
    → Fresh (if condition i then insts ++ i ∷ [] else insts) []
Fresh-visit condition i visited insts p h f = elim (Bool-cases (condition i)) [
  | inl c ↦ rw c (Fresh-last i insts (ground (arith, p, h)) f)
  | inr c ↦ rw c f
]
