-- ===== src/Inst/Context/Valid.antt =====
-- What holds of every context: operands are made before their users, and nothing is changed later.
use mathlib.Core.Path.{subst}
use souper.Prelude.{
  ℕ, zero, suc, ◌+◌, ◌<◌, ◌≤◌, ◌≡◌, refl, sym, ap, ◌∙◌, Bool, ◌==◌, ==_iff, ◌⊎◌, inl, inr,
  Bool-cases, Option-cases, All, List, [], ◌∷◌, ◌++◌, map, length, some, arith, u32, u32_sub,
}
use souper.Inst.Kind.{Kind}
use souper.Inst.Class.{is_commutative}
use souper.Inst.Graph.{Block, Inst, Store}
use souper.Inst.Walk.{IsRanked}
use souper.Llvm.ApInt.{ApInt}
use souper.Inst.Context.{
  Word, Library, Context, count, allocate, update, intern, nodes, profile, get_const,
  get_untyped_const, get_reserved_const, get_reserved_inst, create_hole, create_var,
  create_pred_vars, create_block, get_phi, inst_ops, get_inst,
}
use souper.Inst.Context.Laws.{Elem, here, there, LibraryLaws}

-- Where an element of a mapped list comes from.
pub Elem-map {ℓ κ} :
    {S : Type ℓ} {T : Type κ} (f : S → T) (xs : List S) (y : T)
    → Elem y (map f xs)
    → (x : S) × Elem x xs × (f x ≡ y)
Elem-map f [] y e = elim e [ ]
Elem-map f (x ∷ xs) y (here _) = (x, here xs, refl)
Elem-map f (x ∷ xs) y (there _ _ e) = let (z, i, p) = Elem-map f xs y e in (z, there x xs i, p)

pub Elem-append {ℓ} : {T : Type ℓ} (xs ys : List T) (y : T) → Elem y xs → Elem y (xs ++ ys)
Elem-append [] ys y e = elim e [ ]
Elem-append (x ∷ xs) ys y (here _) = here (xs ++ ys)
Elem-append (x ∷ xs) ys y (there _ _ e) = there x (xs ++ ys) (Elem-append xs ys y e)

pub Elem-at_last {ℓ} : {T : Type ℓ} (xs : List T) (x : T) → Elem x (xs ++ x ∷ [])
Elem-at_last [] x = here []
Elem-at_last (y ∷ xs) x = there y (xs ++ x ∷ []) (Elem-at_last xs x)

pub map-Elem {ℓ κ} :
    {S : Type ℓ} {T : Type κ} (f : S → T) (xs : List S) (x : S) → Elem x xs → Elem (f x) (map f xs)
map-Elem f [] x e = elim e [ ]
map-Elem f (y ∷ xs) x (here _) = here (map f xs)
map-Elem f (y ∷ xs) x (there _ _ e) = there (f y) (map f xs) (map-Elem f xs x e)

pub Elem-last {ℓ} :
    {T : Type ℓ} (xs : List T) (x y : T) → Elem y (xs ++ x ∷ []) → Elem y xs ⊎ (y ≡ x)
Elem-last [] x y (here _) = inr refl
Elem-last [] x y (there _ _ e) = elim e [ ]
Elem-last (z ∷ xs) x y (here _) = inl (here xs)
Elem-last (z ∷ xs) x y (there _ _ e) = elim (Elem-last xs x y e) [
  | inl i ↦ inl (there z xs i)
  | inr p ↦ inr p
]

-- A bound on a list is a bound on every list of the same pointers.
bound_of_count : (n p : ℕ) (xs : List ℕ) → All (λ o. o < n) xs → 0 < count (λ q. q == p) xs → p < n
bound_of_count n p [] h k = absurd (omega arith)
bound_of_count n p (x ∷ xs) h k = elim (Bool-cases (x == p)) [
  | inl e ↦ omega (arith, (==_iff x p).0 e, h.0)
  | inr e ↦ bound_of_count n p xs h.1 (ground (arith, e, k))
]

All-of_count :
    (n : ℕ) (ys : List ℕ) → ((p : ℕ) → 0 < count (λ q. q == p) ys → p < n) → All (λ o. o < n) ys
All-of_count n [] h = tt
All-of_count n (y ∷ ys) h = (h y (ground arith), All-of_count n ys (λ p k. h p (ground (arith, k))))

module _ (A : ApInt) where
  open A use {Num}

  pub record IsValid (c : Context Num) : Type 0 where
    pub ranked : IsRanked c.store
    pub set_inside : (p : ℕ) → Elem p c.set → p < c.next
    pub vars_inside : (p : ℕ) → Elem p c.vars → p < c.next

  -- `d` has all that `c` has, as it was.
  pub record Extends (c d : Context Num) : Type 0 where
    pub next_le : c.next ≤ d.next
    pub same : (p : ℕ) → p < c.next → d.store p ≡ c.store p
    pub set_grows : (p : ℕ) → Elem p c.set → Elem p d.set

  pub Extends-refl : (c : Context Num) → Extends c c
  Extends-refl c = record { next_le = omega arith; same = λ p h. refl; set_grows = λ p e. e }

  pub Extends-trans : (c d e : Context Num) → Extends c d → Extends d e → Extends c e
  Extends-trans c d e f g = record {
    next_le = omega (arith, f.next_le, g.next_le);
    same = λ p h. g.same p (omega (arith, f.next_le)) ∙ f.same p h;
    set_grows = λ p e. g.set_grows p (f.set_grows p e);
  }

  -- A pointer that an operation returns, and the context that it leaves.
  pub record Adds (c : Context Num) (r : ℕ × Context Num) : Type 0 where
    pub valid : IsValid r.1
    pub extends : Extends c r.1
    pub inside : r.0 < r.1.next

  update-IsRanked :
      (store : Store Num) (p : ℕ) (i : Inst Num)
      → IsRanked store
      → All (λ o. o < p) i.ops
      → IsRanked (update A store p i)
  update-IsRanked store p i ranked below q = elim (Bool-cases (q == p)) [
    | inl e ↦ rw (e, (==_iff q p).0 e) below
    | inr e ↦ rw e (ranked q)
  ]

  pub allocate-Adds :
      (i : Inst Num) (c : Context Num)
      → IsValid c
      → All (λ o. o < c.next) i.ops
      → Adds c (allocate A i c)
  unfolding allocate
  allocate-Adds i c v below = record {
    valid = record {
      ranked = update-IsRanked c.store c.next i v.ranked below;
      set_inside = λ p e. omega (arith, v.set_inside p e);
      vars_inside = λ p e. omega (arith, v.vars_inside p e);
    };
    extends = record { next_le = omega arith; same = λ p h. ground arith; set_grows = λ p e. e };
    inside = omega arith;
  }

  module _ (lib : Library A) (laws : LibraryLaws A lib) where
    -- What is found stands in the set.
    pub find_node-Elem :
        (c : Context Num) (id : List (Word Num)) (p : ℕ)
        → lib.find_node (nodes A lib c) id ≡ some p
        → Elem p c.set × (profile A (c.store p) ≡ id)
    find_node-Elem c id p h =
        let (q, e, same) =
          Elem-map (λ q. (profile A (c.store q), q)) c.set (id, p) (laws.find_node-some _ id p h) in
        (
          subst (λ r. Elem r c.set) (ap (λ r. r.1) same) e,
          ap (λ r. profile A (c.store r)) (sym (ap (λ r. r.1) same)) ∙ ap (λ r. r.0) same,
        )

    pub intern-Adds :
        (id : List (Word Num)) (i : Inst Num) (c : Context Num)
        → IsValid c
        → All (λ o. o < c.next) i.ops
        → Adds c (intern A lib id i c)
    unfolding intern
    intern-Adds id i c v below = elim (Option-cases (lib.find_node (nodes A lib c) id)) [
      | inl e ↦
          let a = allocate-Adds i c v below in
          rw (e, intern)
            (record {
              valid = record {
                ranked = a.valid.ranked;
                set_inside = λ p m. elim (Elem-last c.set c.next p m) [
                  | inl old ↦ omega (arith, v.set_inside p old)
                  | inr new ↦ omega (arith, new)
                ];
                vars_inside = a.valid.vars_inside;
              };
              extends = record {
                next_le = a.extends.next_le;
                same = a.extends.same;
                set_grows = λ p m. Elem-append c.set (c.next ∷ []) p m;
              };
              inside = a.inside;
            })
      | inr (p, e) ↦
          rw (e, intern)
            (record {
              valid = v;
              extends = Extends-refl c;
              inside = v.set_inside p (find_node-Elem c id p e).0;
            })
    ]

    inst_ops-below :
        (k : Kind) (ops : List ℕ) (n : ℕ)
        → All (λ o. o < n) ops
        → All (λ o. o < n) (inst_ops A lib k ops)
    unfolding inst_ops
    inst_ops-below k ops n h = elim (Bool-cases (is_commutative k)) [
      | inl e ↦
          rw (e, inst_ops)
            (All-of_count n (lib.sort ops)
              (λ p q. bound_of_count n p ops h (omega (arith, laws.count-sort ops p, q))))
      | inr e ↦ rw (e, inst_ops) h
    ]

    pub get_const-Adds : (v : Num) (c : Context Num) → IsValid c → Adds c (get_const A lib v c)
    unfolding get_const
    get_const-Adds v c h = intern-Adds _ _ c h tt

    pub get_untyped_const-Adds :
        (v : Num) (c : Context Num) → IsValid c → Adds c (get_untyped_const A lib v c)
    unfolding get_untyped_const
    get_untyped_const-Adds v c h = intern-Adds _ _ c h tt

    pub create_hole-Adds : (w : ℕ) (c : Context Num) → IsValid c → Adds c (create_hole A lib w c)
    unfolding create_hole
    create_hole-Adds w c h = allocate-Adds _ c h tt

    pub get_phi-Adds :
        (b : Block) (ops : List ℕ) (d : Num) (c : Context Num)
        → IsValid c
        → All (λ o. o < c.next) ops
        → Adds c (get_phi A lib b ops d c)
    unfolding get_phi
    get_phi-Adds b ops d c h below = intern-Adds _ _ c h below

    pub get_inst-Adds :
        (k : Kind) (w : ℕ) (ops : List ℕ) (d : Num) (available : Bool) (c : Context Num)
        → IsValid c
        → All (λ o. o < c.next) ops
        → Adds c (get_inst A lib k w ops d available c)
    unfolding get_inst
    get_inst-Adds k w ops d available c h below =
        intern-Adds _ _ c h (inst_ops-below k ops c.next below)

    pub create_var-Adds :
        (w : ℕ) (facts : Inst Num) (c : Context Num)
        → IsValid c
        → Adds c (create_var A lib w facts c)
    unfolding create_var
    create_var-Adds w facts c h =
        let a =
          allocate-Adds (record facts { kind = Kind.var; number = _; width = w; ops = [] }) c h
            tt in
        record {
          valid = record {
            ranked = a.valid.ranked;
            set_inside = a.valid.set_inside;
            vars_inside = λ p m. elim (Elem-last c.vars c.next p m) [
              | inl old ↦ omega (arith, h.vars_inside p old)
              | inr new ↦ omega (arith, new)
            ];
          };
          extends = record {
            next_le = a.extends.next_le;
            same = a.extends.same;
            set_grows = λ p m. m;
          };
          inside = a.inside;
        }

    pub create_pred_vars_lem :
        (n : ℕ) (c : Context Num)
        → IsValid c
        → IsValid (create_pred_vars A lib n c).1
          × Extends c (create_pred_vars A lib n c).1
          × (length (create_pred_vars A lib n c).0 ≡ n)
    unfolding create_pred_vars
    create_pred_vars_lem zero c h = (h, Extends-refl c, refl)
    create_pred_vars_lem (suc n) c h =
        let a = create_var-Adds 1 _ c h in
        let (v, e, l) = create_pred_vars_lem n _ a.valid in
        (v, Extends-trans c _ _ a.extends e, ap suc l)

    pub create_block_lem :
        (preds : ℕ) (c : Context Num)
        → IsValid c
        → IsValid (create_block A lib preds c).1
          × Extends c (create_block A lib preds c).1
          × (length (create_block A lib preds c).0.pred_vars ≡ u32_sub preds 1)
    unfolding create_block
    create_block_lem preds c h =
        let (v, e, l) = create_pred_vars_lem (u32_sub preds 1) c h in
        (
          record { ranked = v.ranked; set_inside = v.set_inside; vars_inside = v.vars_inside },
          record { next_le = e.next_le; same = e.same; set_grows = e.set_grows },
          l,
        )

    pub get_reserved_inst-Adds : (c : Context Num) → IsValid c → Adds c (get_reserved_inst A lib c)
    unfolding get_reserved_inst
    get_reserved_inst-Adds c h = allocate-Adds _ c h tt

    pub get_reserved_const-Adds :
        (c : Context Num) → IsValid c → Adds c (get_reserved_const A lib c)
    unfolding get_reserved_const
    get_reserved_const-Adds c h =
        let h' : IsValid
            (record c { reserved_const_counter = u32 (c.reserved_const_counter + 1) }) =
          record { ranked = h.ranked; set_inside = h.set_inside; vars_inside = h.vars_inside } in
        let a = allocate-Adds _ _ h' tt in
        record {
          valid = a.valid;
          extends = record {
            next_le = a.extends.next_le;
            same = a.extends.same;
            set_grows = a.extends.set_grows;
          };
          inside = a.inside;
        }
