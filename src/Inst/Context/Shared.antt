-- ===== src/Inst/Context/Shared.antt =====
-- What `getInst` returns, for all kinds but constants, phis and variables.
use mathlib.Core.List.{append-nil}
use souper.Prelude.{
  ℕ, ◌<◌, ◌≡◌, ◌≢◌, refl, Option-cases, sym, ap, ◌∙◌, Bool, true, false, not, ◌==◌, All, List, [],
  ◌∷◌, ◌++◌, map, inl, inr, Bool-cases, if◌then◌else◌,
}
use souper.Inst.Kind.{Kind}
use souper.Inst.Class.{is_commutative}
use souper.Inst.Graph.{Inst, harvested_from_def}
use souper.Llvm.ApInt.{ApInt, BitLaws}
use souper.Inst.Context.{
  Word, kind, integer, num, pointer, Library, Context, count, profile, profile_rest, demanded_words,
  harvest_words, nodes, intern, allocate, get_inst, get_inst_all, inst_ops,
}
use souper.Inst.Context.Laws.{Elem, LibraryLaws}
use souper.Inst.Context.Valid.{IsValid, Extends, find_node-Elem, get_inst-Adds}
use souper.Inst.Context.Unique.{
  is_plain, IsUnique, profile_rest-plain, all_demanded, get_inst-profile, intern_found,
  intern_again,
}

abbrev pointers : (N : Type 0) → List ℕ → List (Word N)
pointers N = map pointer

map-pointer_inj : (N : Type 0) (xs ys : List ℕ) → pointers N xs ≡ pointers N ys → xs ≡ ys
map-pointer_inj N [] [] e = refl
map-pointer_inj N [] (y ∷ ys) e = cc
map-pointer_inj N (x ∷ xs) [] e = cc
map-pointer_inj N (x ∷ xs) (y ∷ ys) e = cc (map-pointer_inj N xs ys (cc))

num_not_pointer :
    (N : Type 0) (d : N) (ws : List (Word N)) (ys : List ℕ) → num d ∷ ws ≢ pointers N ys
num_not_pointer N d ws [] e = cc
num_not_pointer N d ws (y ∷ ys) e = cc

num_first :
    (N : Type 0) (d : N) (ws : List (Word N)) (o : ℕ) (vs : List (Word N))
    → num d ∷ ws ≢ pointer o ∷ vs
num_first N d ws o vs e = cc

-- No list of pointers has a number at its end.
num_at_end : (N : Type 0) (d : N) (xs ys : List ℕ) → pointers N xs ≢ pointers N ys ++ num d ∷ []
num_at_end N d [] [] e = cc
num_at_end N d [] (y ∷ ys) e = cc
num_at_end N d (x ∷ xs) [] e = cc
num_at_end N d (x ∷ xs) (y ∷ ys) e = num_at_end N d xs ys (cc)

module _ (A : ApInt) (bits : BitLaws A) (lib : Library A) (laws : LibraryLaws A lib) where
  open A use {Num, get_all_ones_value, is_all_ones_value}

  -- Words that are pointers only hold no demanded bits.
  pointers_only :
      (d : Num) (xs ys : List ℕ) → demanded_words A d ++ map pointer xs ≡ map pointer ys → xs ≡ ys
  pointers_only d xs ys e = elim (Bool-cases (is_all_ones_value d)) [
    | inl all ↦
        map-pointer_inj Num xs ys
          (ap (λ b. (if not b then num d ∷ [] else []) ++ map pointer xs) (sym all) ∙ e)
    | inr not_all ↦ absurd (
        num_not_pointer Num d (pointers Num xs) ys
          (ap (λ b. (if not b then num d ∷ [] else []) ++ map pointer xs) (sym not_all) ∙ e))
  ]

  same_ops :
      (k : Kind) (xs ys : List ℕ)
      → is_commutative k ≡ true
      → ((p : ℕ) → count (λ q. q == p) xs ≡ count (λ q. q == p) ys)
      → inst_ops A lib k ys ≡ inst_ops A lib k xs
  unfolding inst_ops
  same_ops k xs ys h counts = rw h (laws.sort_ext ys xs (λ p. sym (counts p)))

  -- Equal instructions are one instruction: in a context without duplicates that extends the one that
  -- `getInst` left, `getInst` of a commutative kind on the same operands in any order returns the
  -- same pointer, and changes nothing.
  pub get_inst_same :
      (k : Kind) (w : ℕ) (xs ys : List ℕ) (available available' : Bool) (c d : Context Num)
      → is_plain k ≡ true
      → is_commutative k ≡ true
      → ((p : ℕ) → count (λ q. q == p) xs ≡ count (λ q. q == p) ys)
      → All (λ o. o < c.next) xs
      → IsValid A c
      → IsUnique A d
      → Extends A (get_inst_all A lib k w xs available c).1 d
      → get_inst_all A lib k w ys available' d ≡ ((get_inst_all A lib k w xs available c).0, d)
  unfolding get_inst
  get_inst_same k w xs ys available available' c d plain commutes counts below v u e =
      rw (same_ops k xs ys commutes counts) (
        intern_again A lib laws _ _ _ c d v (get_inst-profile A lib bits k w xs available plain) u e
          (get_inst-Adds A lib laws k w xs _ available c v below).inside)

  -- Every node of the set stands as `getInst` made it, harvested from a definition.
  abbrev pub IsFromDef : Context Num → Type 0
  IsFromDef c = (p : ℕ) → Elem p c.set → (c.store p).harvest_kind ≡ harvested_from_def

  -- The words that the default case of `Inst::Profile` adds for such a node.
  rest_from_def :
      (i : Inst Num)
      → is_plain i.kind ≡ true
      → i.harvest_kind ≡ harvested_from_def
      → profile_rest A i.kind i ≡ demanded_words A i.demanded_bits ++ map pointer i.ops
  rest_from_def i plain h =
      profile_rest-plain A i.kind i plain
      ∙ ap
          (λ k.
            demanded_words A i.demanded_bits
            ++ (harvest_words A k i.harvest_from ++ map pointer i.ops))
          h

  -- In a context whose nodes are all harvested from definitions, the instruction that `getInst` returns
  -- has the kind, the width and the operands that were asked for, sorted if the kind is commutative.
  pub get_inst_fields :
      (k : Kind) (w : ℕ) (ops : List ℕ) (available : Bool) (c : Context Num)
      → is_plain k ≡ true
      → IsFromDef (get_inst_all A lib k w ops available c).1
      → let r = get_inst_all A lib k w ops available c in
        ((r.1.store r.0).kind ≡ k)
        × ((r.1.store r.0).width ≡ w)
        × ((r.1.store r.0).ops ≡ inst_ops A lib k ops)
  unfolding get_inst
  get_inst_fields k w ops available c plain def =
      let r = get_inst_all A lib k w ops available c in
      let i = r.1.store r.0 in
      let (m, same) =
        intern_found A lib laws _ _ c (get_inst-profile A lib bits k w ops available plain) in
      let kinds : i.kind ≡ k = cc same in
      let rest : profile_rest A i.kind i
          ≡ map pointer (inst_ops A lib k ops) ++ demanded_words A (get_all_ones_value w) =
        cc same in
      (
        kinds,
        cc same,
        pointers_only i.demanded_bits i.ops (inst_ops A lib k ops) (
            sym (rest_from_def i (ap is_plain kinds ∙ plain) (def r.0 m))
            ∙ rest
            ∙ ap (λ d. map pointer (inst_ops A lib k ops) ++ d) (all_demanded A bits w)
            ∙ append-nil _),
      )

  never_found :
      (k : Kind) (w : ℕ) (o : ℕ) (os : List ℕ) (d : Num) (i : Inst Num)
      → is_plain k ≡ true
      → is_all_ones_value d ≡ false
      → i.harvest_kind ≡ harvested_from_def
      → profile A i ≢ kind k ∷ integer w ∷ (map pointer (o ∷ os) ++ demanded_words A d)
  never_found k w o os d i plain partial def same =
      let kinds : i.kind ≡ k = cc same in
      let rest : profile_rest A i.kind i ≡ map pointer (o ∷ os) ++ demanded_words A d = cc same in
      let words =
        sym (rest_from_def i (ap is_plain kinds ∙ plain) def)
        ∙ rest
        ∙ ap (λ b. map pointer (o ∷ os) ++ (if not b then num d ∷ [] else [])) partial in
      elim (Bool-cases (is_all_ones_value i.demanded_bits)) [
        | inl all ↦ num_at_end Num d i.ops (o ∷ os) (
            ap (λ b. (if not b then num i.demanded_bits ∷ [] else []) ++ map pointer i.ops)
              (sym all)
            ∙ words)
        | inr part ↦ num_first Num i.demanded_bits (pointers Num i.ops) o _ (
            ap (λ b. (if not b then num i.demanded_bits ∷ [] else []) ++ map pointer i.ops)
              (sym part)
            ∙ words)
      ]

  -- An instruction of which not all bits are demanded is never found again: on a context whose nodes
  -- are all harvested from definitions, `getInst` with at least one operand makes a new one each time.
  pub get_inst_demanded_new :
      (k : Kind) (w : ℕ) (ops : List ℕ) (o : ℕ) (os : List ℕ) (d : Num) (available : Bool)
      (c : Context Num)
      → is_plain k ≡ true
      → inst_ops A lib k ops ≡ o ∷ os
      → is_all_ones_value d ≡ false
      → IsFromDef c
      → (get_inst A lib k w ops d available c).0 ≡ c.next
  unfolding get_inst intern allocate
  get_inst_demanded_new k w ops o os d available c plain some_ops partial def =
      elim (Option-cases (
        lib.find_node (nodes A lib c)
          (kind k ∷ integer w ∷ (map pointer (inst_ops A lib k ops) ++ demanded_words A d)))) [
            | inl e ↦ rw (e, intern) refl
            | inr (p, e) ↦
                let (m, same) = find_node-Elem A lib laws c _ p e in
                absurd (
                  never_found k w o os d (c.store p) plain partial (def p m) (
                    same
                    ∙ ap (λ l. kind k ∷ integer w ∷ (map pointer l ++ demanded_words A d))
                        some_ops))
          ]
