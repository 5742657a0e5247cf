-- ===== src/Parser/Greatest.antt =====
-- lib/Parser/Parser.cpp: what `blockpc` does to BlockPCIdxMap, and the number that the comment in
-- `struct Parser` says it holds.
use souper.Prelude.{
  ℕ, ◌≡◌, refl, sym, ap, ◌∙◌, Bool, true, false, ◌==◌, ==_iff, if◌then◌else◌, ltb, List, [], ◌∷◌,
  ◌++◌, Option, none, some, arith,
}
use souper.Inst.Context.{Library}
use souper.Llvm.ApInt.{ApInt}
use souper.Parser.State.{BlockPcMapping}
use souper.Parser.Statement.{find_index, raise_index}

-- The greater of two numbers that may be missing.
abbrev pub join : Option ℕ → Option ℕ → Option ℕ
join none o = o
join (some m) none = some m
join (some m) (some n) = if ltb m n then some n else some m

join-none : (o : Option ℕ) → join o none ≡ o
join-none none = refl
join-none (some m) = refl

-- The entry in front, where there was none, and where there was one.
join_new :
    (t : Bool) (i : ℕ) (y : Option ℕ)
    → (t ≡ true → none ≡ y)
    → (if t then some i else y) ≡ join y (if t then some i else none)
join_new true i y h = ap (λ o. join o (some i)) (h refl)
join_new false i y h = sym (join-none y)

join_raised :
    (t : Bool) (i j : ℕ) (y : Option ℕ)
    → (t ≡ true → some j ≡ y)
    → (if ltb j i then (if t then some i else y) else y) ≡ join y (if t then some i else none)
join_raised true i j y h =
    ap (λ (o : Option ℕ). if ltb j i then some i else o) (sym (h refl))
    ∙ ap (λ o. join o (some i)) (h refl)
join_raised false i j y h = same (ltb j i) ∙ sym (join-none y)
  where
    same : (c : Bool) → (if c then y else y) ≡ y
    same true = refl
    same false = refl

join_assoc : (o p q : Option ℕ) → join o (join p q) ≡ join (join o p) q
join_assoc none p q = refl
join_assoc (some m) none q = refl
join_assoc (some m) (some n) none = ground arith
join_assoc (some m) (some n) (some k) = ground arith

-- The predecessor number of one block path condition, if it is of the block at an address.
abbrev pub index_of : BlockPcMapping → ℕ → Option ℕ
index_of b a = if b.block.address == a then some b.pred_idx else none

-- The greatest predecessor number of the block path conditions of the block at an address.
unfoldable pub greatest : List BlockPcMapping → ℕ → Option ℕ
greatest [] a = none
greatest (b ∷ bs) a = join (index_of b a) (greatest bs a)

pub greatest_nil : (a : ℕ) → none ≡ greatest [] a
unfolding greatest
greatest_nil a = refl

greatest_snoc :
    (bs : List BlockPcMapping) (b : BlockPcMapping) (a : ℕ)
    → greatest (bs ++ b ∷ []) a ≡ join (greatest bs a) (index_of b a)
unfolding greatest
greatest_snoc [] b a = join-none (index_of b a)
greatest_snoc (x ∷ xs) b a =
    ap (join (index_of x a)) (greatest_snoc xs b a)
    ∙ join_assoc (index_of x a) (greatest xs a) (index_of b a)

module _ (A : ApInt) (lib : Library A) where
  open A use {Num}

  find_index-raise_index :
      (map : List (ℕ × ℕ)) (b i a : ℕ)
      → find_index (raise_index A lib map b i) a
        ≡ join (find_index map a) (if b == a then some i else none)
  unfolding raise_index
  find_index-raise_index map b i a = raised (find_index map b) refl
    where
      chosen :
          (c : Bool) (j : ℕ)
          → find_index (if c then (b, i) ∷ map else map) a
            ≡ (if c then (if b == a then some i else find_index map a) else find_index map a)
      chosen true j = refl
      chosen false j = refl

      raised :
          (o : Option ℕ)
          → find_index map b ≡ o
          → find_index
              (elim o [ none ↦ (b, i) ∷ map | some j ↦ if ltb j i then (b, i) ∷ map else map ])
              a
            ≡ join (find_index map a) (if b == a then some i else none)
      raised none e =
          join_new (b == a) i (find_index map a)
            (λ t. sym e ∙ ap (find_index map) ((==_iff b a).0 t))
      raised (some j) e =
          chosen (ltb j i) j
          ∙ join_raised (b == a) i j (find_index map a)
              (λ t. sym e ∙ ap (find_index map) ((==_iff b a).0 t))

  -- One more block path condition.
  pub find_index_pushed :
      (map : List (ℕ × ℕ)) (bs : List BlockPcMapping) (x : BlockPcMapping) (a : ℕ)
      → find_index map a ≡ greatest bs a
      → find_index (raise_index A lib map x.block.address x.pred_idx) a ≡ greatest (bs ++ x ∷ []) a
  find_index_pushed map bs x a h =
      find_index-raise_index map x.block.address x.pred_idx a
      ∙ ap (λ o. join o (index_of x a)) h
      ∙ sym (greatest_snoc bs x a)
