-- ===== src/Inst/Context/Laws.antt =====
-- The documented behaviour of llvm::FoldingSet and of std::sort.
use souper.Prelude.{ℕ, ◌≡◌, List, ◌∷◌, none, some, ◌==◌}
use souper.Llvm.ApInt.{ApInt}
use souper.Inst.Context.{Word, Library, count}

pub data Elem {ℓ} {T : Type ℓ} (x : T) : List T → Type ℓ where
  here : (xs : List T) → Elem x (x ∷ xs)
  there : (y : T) (xs : List T) → Elem x xs → Elem x (y ∷ xs)

pub record LibraryLaws (A : ApInt) (lib : Library A) : Type 0 where
  -- A node that is found has the identifier for its profile, and one is found if there is one.
  pub find_node-some :
      (nodes : List (List (Word A.Num) × ℕ)) (id : List (Word A.Num)) (p : ℕ)
      → lib.find_node nodes id ≡ some p
      → Elem (id, p) nodes
  pub find_node-none :
      (nodes : List (List (Word A.Num) × ℕ)) (id : List (Word A.Num)) (p : ℕ)
      → lib.find_node nodes id ≡ none
      → ¬ Elem (id, p) nodes
  -- Sorting permutes, and gives one list for all orders of the same pointers.
  pub count-sort :
      (xs : List ℕ) (p : ℕ) → count (λ q. q == p) (lib.sort xs) ≡ count (λ q. q == p) xs
  pub sort_ext :
      (xs ys : List ℕ)
      → ((p : ℕ) → count (λ q. q == p) xs ≡ count (λ q. q == p) ys)
      → lib.sort xs ≡ lib.sort ys
