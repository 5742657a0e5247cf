-- ===== src/Inst/Context/Unique.antt =====
-- Equal instructions are one: what `getConst`, `getPhi` and `getInst` return.
use mathlib.Core.Path.{subst}
use mathlib.Core.List.{append-nil}
use souper.Prelude.{
  ℕ, ◌<◌, ◌≡◌, ◌≢◌, refl, sym, ap, ◌∙◌, Bool, true, false, inl, inr, Option-cases, List, [], ◌∷◌,
  ◌++◌, map, none, some, arith,
}
use souper.Inst.Kind.{Kind}
use souper.Inst.Graph.{Inst}
use souper.Llvm.ApInt.{ApInt, BitLaws}
use souper.Inst.Context.{
  Word, kind, integer, pointer, Library, Context, allocate, update, intern, nodes, profile,
  new_inst, harvest_words, demanded_words, profile_rest, inst_ops,
}
use souper.Inst.Context.Laws.{Elem, LibraryLaws}
use souper.Inst.Context.Valid.{IsValid, Extends, find_node-Elem, map-Elem, Elem-last, Elem-at_last}

-- The kinds that `Inst::Profile` leaves to its default case and that stand in the set.
abbrev pub is_plain : Kind → Bool
is_plain Kind.const = false
is_plain Kind.untyped_const = false
is_plain Kind.phi = false
is_plain Kind.var = false
is_plain _ = true

module _ (A : ApInt) where
  open A use {Num, get_all_ones_value}

  -- No two nodes of the set have one profile.
  abbrev pub IsUnique : Context Num → Type 0
  IsUnique c =
      (p q : ℕ)
      → Elem p c.set
      → Elem q c.set
      → profile A (c.store p) ≡ profile A (c.store q)
      → p ≡ q

  module _ (lib : Library A) (laws : LibraryLaws A lib) where
    -- A node in the set, looked up to no avail, has another profile.
    not_found :
        (c : Context Num) (id : List (Word Num)) (p : ℕ)
        → lib.find_node (nodes A lib c) id ≡ none
        → Elem p c.set
        → profile A (c.store p) ≢ id
    not_found c id p e m same = laws.find_node-none _ id p e (
        subst (λ w. Elem (w, p) (nodes A lib c)) same
          (map-Elem (λ q. (profile A (c.store q), q)) c.set p m))

    -- A node with the looked-up profile is found.
    find_node_unique :
        (c : Context Num) (id : List (Word Num)) (p : ℕ)
        → IsUnique c
        → Elem p c.set
        → profile A (c.store p) ≡ id
        → lib.find_node (nodes A lib c) id ≡ some p
    find_node_unique c id p u e same = elim (Option-cases (lib.find_node (nodes A lib c) id)) [
      | inl none_found ↦ absurd (not_found c id p none_found e same)
      | inr (q, found) ↦
          let (m, same') = find_node-Elem A lib laws c id q found in
          found ∙ ap some (u q p m e (same' ∙ sym same))
    ]

    update-old :
        (c : Context Num) (i : Inst Num) (p : ℕ)
        → p < c.next
        → update A c.store c.next i p ≡ c.store p
    update-old c i p h = ground arith

    update-new : (c : Context Num) (i : Inst Num) → update A c.store c.next i c.next ≡ i
    update-new c i = ground arith

    new_node-IsUnique :
        (id : List (Word Num)) (i : Inst Num) (c : Context Num)
        → IsValid A c
        → IsUnique c
        → profile A i ≡ id
        → lib.find_node (nodes A lib c) id ≡ none
        → (p q : ℕ) → Elem p (c.set ++ c.next ∷ [])
        → Elem q (c.set ++ c.next ∷ [])
        → profile A (update A c.store c.next i p) ≡ profile A (update A c.store c.next i q)
        → p ≡ q
    new_node-IsUnique id i c v u same e p q mp mq eq =
        let at_old =
          λ (r : ℕ) (m : Elem r c.set). ap (profile A) (update-old c i r (v.set_inside r m)) in
        let at_new = λ (r : ℕ) (n : r ≡ c.next).
          ap (λ s. profile A (update A c.store c.next i s)) n
          ∙ ap (profile A) (update-new c i)
          ∙ same in
        elim (Elem-last c.set c.next p mp) [
          | inl op ↦ elim (Elem-last c.set c.next q mq) [
            | inl oq ↦ u p q op oq (sym (at_old p op) ∙ eq ∙ at_old q oq)
            | inr nq ↦ absurd (not_found c id p e op (sym (at_old p op) ∙ eq ∙ at_new q nq))
          ]
          | inr np ↦ elim (Elem-last c.set c.next q mq) [
            | inl oq ↦ absurd (not_found c id q e oq (sym (at_old q oq) ∙ sym eq ∙ at_new p np))
            | inr nq ↦ np ∙ sym nq
          ]
        ]

    pub intern-IsUnique :
        (id : List (Word Num)) (i : Inst Num) (c : Context Num)
        → IsValid A c
        → IsUnique c
        → profile A i ≡ id
        → IsUnique (intern A lib id i c).1
    unfolding intern allocate
    intern-IsUnique id i c v u same = elim (Option-cases (lib.find_node (nodes A lib c) id)) [
      | inr (p, e) ↦ rw (e, intern) u
      | inl e ↦ rw (e, intern) (new_node-IsUnique id i c v u same e)
    ]

    -- What `intern` returns stands in the set, with the looked-up profile.
    pub intern_found :
        (id : List (Word Num)) (i : Inst Num) (c : Context Num)
        → profile A i ≡ id
        → Elem (intern A lib id i c).0 (intern A lib id i c).1.set
          × (profile A ((intern A lib id i c).1.store (intern A lib id i c).0) ≡ id)
    unfolding intern allocate
    intern_found id i c same = elim (Option-cases (lib.find_node (nodes A lib c) id)) [
      | inr (p, e) ↦ rw (e, intern) (find_node-Elem A lib laws c id p e)
      | inl e ↦ rw (e, intern) (Elem-at_last c.set c.next, ap (profile A) (update-new c i) ∙ same)
    ]

    intern_hit :
        (id : List (Word Num)) (j : Inst Num) (d : Context Num) (p : ℕ)
        → lib.find_node (nodes A lib d) id ≡ some p
        → intern A lib id j d ≡ (p, d)
    unfolding intern
    intern_hit id j d p e = rw (e, intern) refl

    -- In every later context it is found again.
    pub intern_again :
        (id : List (Word Num)) (i j : Inst Num) (c d : Context Num)
        → IsValid A c
        → profile A i ≡ id
        → IsUnique d
        → Extends A (intern A lib id i c).1 d
        → (intern A lib id i c).0 < (intern A lib id i c).1.next
        → intern A lib id j d ≡ ((intern A lib id i c).0, d)
    intern_again id i j c d v same u e inside =
        let (m, p) = intern_found id i c same in
        intern_hit id j d (intern A lib id i c).0 (
          find_node_unique d id (intern A lib id i c).0 u (e.set_grows _ m)
            (ap (profile A) (e.same _ inside) ∙ p))

  pub profile_rest-plain :
      (k : Kind) (i : Inst Num)
      → is_plain k ≡ true
      → profile_rest A k i
        ≡ demanded_words A i.demanded_bits
          ++ (harvest_words A i.harvest_kind i.harvest_from ++ map pointer i.ops)
  unfolding profile_rest
  profile_rest-plain Kind.const i h = cc
  profile_rest-plain Kind.untyped_const i h = cc
  profile_rest-plain Kind.phi i h = cc
  profile_rest-plain _ i h = refl

  pub all_demanded : BitLaws A → (w : ℕ) → demanded_words A (get_all_ones_value w) ≡ []
  all_demanded bits w = rw (bits.is_all_ones-get_all_ones w) refl

  -- The identifier that the short `getInst` looks up is the profile of what it inserts.
  pub get_inst-profile :
      (lib : Library A) (bits : BitLaws A) (k : Kind) (w : ℕ) (ops : List ℕ) (available : Bool)
      → is_plain k ≡ true
      → profile A (record (new_inst A k w) {
        ops = inst_ops A lib k ops;
        demanded_bits = get_all_ones_value w;
        available = available;
      })
        ≡ kind k
          ∷ integer w
          ∷ (map pointer (inst_ops A lib k ops) ++ demanded_words A (get_all_ones_value w))
  get_inst-profile lib bits k w ops available h =
      rw (profile_rest-plain k _ h, all_demanded bits w)
        (ap (λ r. kind k ∷ integer w ∷ r) (sym (append-nil _)))
