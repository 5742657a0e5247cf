-- ===== src/Example/Context.antt =====
-- A library whose set is searched from the front and whose sort is by insertion, and its laws.
use mathlib.Core.Path.{subst}
use mathlib.Core.List.{List-discrete}
use mathlib.Core.Bool.{Bool-discrete}
use native.Mathlib.Decide.{ℕ_discrete}
use souper.Prelude.{
  ℕ, ◌+◌, ◌<◌, ◌≤◌, ◌≡◌, ◌≢◌, refl, sym, ap, ◌∙◌, List, [], ◌∷◌, Option, none, some, ◌==◌, ==_iff,
  leb, if◌then◌else◌, All, Bool-cases, inl, inr, arith,
}
use souper.Inst.Kind.{Kind}
use souper.Inst.Context.{Word, Library, count}
use souper.Inst.Context.Laws.{Elem, here, there, LibraryLaws}
use souper.Example.Bits.{Bits, bits_ApInt}

Kind-discrete : Discrete Kind
Kind-discrete = hlevel

pub Word-discrete : Discrete (Word Bits)
Word-discrete = hlevel (Kind-discrete, ℕ_discrete, List-discrete Bool-discrete)

abbrev Words : Type 0
Words = List (Word Bits)

head_or_tail {ℓ} : {T : Type ℓ} (x y : T) (xs : List T) → x ≢ y → ¬ Elem x xs → ¬ Elem x (y ∷ xs)
head_or_tail x y xs n h (here _) = n refl
head_or_tail x y xs n h (there _ _ e) = h e

abbrev choose : {P : Type 0} → Dec P → ℕ → Option ℕ → Option ℕ
choose (yes e) p rest = some p
choose (no e) p rest = rest

found_here :
    (w id : Words) (q p : ℕ) (nodes : List (Words × ℕ))
    → w ≡ id
    → q ≡ p
    → Elem (id, p) ((w, q) ∷ nodes)
found_here w id q p nodes same e =
    subst (λ (r : Words × ℕ). Elem r ((w, q) ∷ nodes)) (λ i. (same i, e i)) (here nodes)

elsewhere :
    (w id : Words) (q p : ℕ) (nodes : List (Words × ℕ))
    → w ≢ id
    → ¬ Elem (id, p) nodes
    → ¬ Elem (id, p) ((w, q) ∷ nodes)
elsewhere w id q p nodes other h m =
    head_or_tail (id, p) (w, q) nodes (λ e. other (sym (ap (λ r. r.0) e))) h m

unfoldable pub find_node : List (Words × ℕ) → Words → Option ℕ
find_node [] id = none
find_node ((w, p) ∷ nodes) id = choose (List-discrete Word-discrete w id) p (find_node nodes id)

find_node-some :
    (nodes : List (Words × ℕ)) (id : Words) (p : ℕ)
    → find_node nodes id ≡ some p
    → Elem (id, p) nodes
unfolding find_node
find_node-some [] id p e = cc
find_node-some ((w, q) ∷ nodes) id p e =
    (elim (List-discrete Word-discrete w id)
        as (λ d. choose d q (find_node nodes id) ≡ some p → Elem (id, p) ((w, q) ∷ nodes)) [
          | yes same ↦ λ h. found_here w id q p nodes same (cc h)
          | no other ↦ λ h. there (w, q) nodes (find_node-some nodes id p h)
        ])
      e

find_node-none :
    (nodes : List (Words × ℕ)) (id : Words) (p : ℕ)
    → find_node nodes id ≡ none
    → ¬ Elem (id, p) nodes
unfolding find_node
find_node-none [] id p e m = elim m [ ]
find_node-none ((w, q) ∷ nodes) id p e m =
    (elim (List-discrete Word-discrete w id) as (λ d. choose d q (find_node nodes id) ≡ none → ⊥) [
      | yes same ↦ λ h. cc h
      | no other ↦ λ h. elsewhere w id q p nodes other (find_node-none nodes id p h) m
    ])
      e

insert : ℕ → List ℕ → List ℕ
insert x [] = x ∷ []
insert x (y ∷ ys) = let rest = insert x ys in if leb x y then x ∷ y ∷ ys else y ∷ rest

unfoldable pub sort : List ℕ → List ℕ
unfolding insert
sort [] = []
sort (x ∷ xs) = insert x (sort xs)

abbrev IsSorted : List ℕ → Type 0
IsSorted [] = Unit
IsSorted (x ∷ xs) = All (λ y. x ≤ y) xs × IsSorted xs

count-insert :
    (x : ℕ) (ys : List ℕ) (p : ℕ)
    → count (λ q. q == p) (insert x ys) ≡ (if x == p then 1 else 0) + count (λ q. q == p) ys
unfolding insert
count-insert x [] p = ground arith
count-insert x (y ∷ ys) p = ground (arith, count-insert x ys p)

count-sort : (xs : List ℕ) (p : ℕ) → count (λ q. q == p) (sort xs) ≡ count (λ q. q == p) xs
unfolding sort
count-sort [] p = refl
count-sort (x ∷ xs) p = ground (arith, count-insert x (sort xs) p, count-sort xs p)

All-of-count :
    (x : ℕ) (ys : List ℕ) → ((p : ℕ) → 0 < count (λ q. q == p) ys → x ≤ p) → All (λ y. x ≤ y) ys
All-of-count x [] h = tt
All-of-count x (y ∷ ys) h = (h y (ground arith), All-of-count x ys (λ p k. h p (ground (arith, k))))

least : (x p : ℕ) (ys : List ℕ) → All (λ y. x ≤ y) ys → 0 < count (λ q. q == p) ys → x ≤ p
least x p [] h k = absurd (omega arith)
least x p (y ∷ ys) h k = elim (Bool-cases (y == p)) [
  | inl e ↦ omega (arith, (==_iff y p).0 e, h.0)
  | inr e ↦ least x p ys h.1 (ground (arith, e, k))
]

insert-IsSorted : (x : ℕ) (ys : List ℕ) → IsSorted ys → IsSorted (insert x ys)
unfolding insert
insert-IsSorted x [] s = (tt, tt)
insert-IsSorted x (y ∷ ys) s = elim (Bool-cases (leb x y)) [
  | inl e ↦
      rw (e, insert)
        ((ground (arith, e), All-of-count x ys (λ p k. ground (arith, e, least y p ys s.0 k))), s)
  | inr e ↦
      rw (e, insert)
        (
          All-of-count y (insert x ys)
              (λ p k. ground (arith, e, least y p ys s.0, count-insert x ys p, k, ==_iff x p)),
          insert-IsSorted x ys s.1,
        )
]

sort-IsSorted : (xs : List ℕ) → IsSorted (sort xs)
unfolding sort
sort-IsSorted [] = tt
sort-IsSorted (x ∷ xs) = insert-IsSorted x (sort xs) (sort-IsSorted xs)

IsSorted-ext :
    (xs ys : List ℕ)
    → IsSorted xs
    → IsSorted ys
    → ((p : ℕ) → count (λ q. q == p) xs ≡ count (λ q. q == p) ys)
    → xs ≡ ys
IsSorted-ext [] [] s t h = refl
IsSorted-ext [] (y ∷ ys) s t h = absurd (ground (arith, h y))
IsSorted-ext (x ∷ xs) [] s t h = absurd (ground (arith, h x))
IsSorted-ext (x ∷ xs) (y ∷ ys) s t h =
    let e : x ≡ y = ground (arith, h x, h y, least y x ys t.0, least x y xs s.0) in
    cc (e, IsSorted-ext xs ys s.1 t.1 (λ p. ground (arith, h p, e)))

sort_ext :
    (xs ys : List ℕ)
    → ((p : ℕ) → count (λ q. q == p) xs ≡ count (λ q. q == p) ys)
    → sort xs ≡ sort ys
sort_ext xs ys h =
    IsSorted-ext (sort xs) (sort ys) (sort-IsSorted xs) (sort-IsSorted ys)
      (λ p. count-sort xs p ∙ h p ∙ sym (count-sort ys p))

abbrev pub list_library : Library bits_ApInt
list_library = record { find_node = find_node; sort = sort }

pub list_laws : LibraryLaws bits_ApInt list_library
list_laws = record {
  find_node-some = find_node-some;
  find_node-none = find_node-none;
  count-sort = count-sort;
  sort_ext = sort_ext;
}
