-- ===== src/Parser/InstCheck/Typed.antt =====
-- What `typeCheckInst` gives.
use mathlib.Core.Path.{subst}
use souper.Prelude.{
  ℕ, ◌+◌, ◌%◌, ◌^◌, ◌<◌, ◌≡◌, ◌≢◌, refl, sym, ap, ◌∙◌, Bool, true, false, not, ◌&&◌, ◌==◌,
  if◌then◌else◌, if_false, List, length, All, ◌⊎◌, arith, Option, none, some, leb,
}
use souper.Inst.Kind.{Kind}
use souper.Inst.Context.{Library, Context}
use souper.Inst.Context.Laws.{LibraryLaws}
use souper.Inst.Context.Valid.{IsValid}
use souper.Llvm.ApInt.{ApInt, BitLaws}
use souper.Parser.Message.{Message, Checked, ok, ◌>>=◌, reject, >>=-eq-ok, reject-eq-ok, ok_inj}
use souper.Parser.TypeCheck.{
  is_overflow, op_bounds, width_of, at, has_overflow_op, type_check_ops_matching_widths,
}
use souper.Parser.TypeCheck.Widths.{OneWidth, type_check_ops-OneWidth}
use souper.Parser.TypeCheck.Phi.{first-width}
use souper.Parser.InstCheck.{
  check_kind, check_extend, check_trunc, check_op_count, check_widths, check_operands,
  expected_width, settle_width, is_bswap, is_extract_value, check_rest, type_check_inst,
}

-- The kinds whose operands are of one width.
abbrev pub is_uniform : Kind → Bool
is_uniform Kind.select = false
is_uniform Kind.extract_value = false
is_uniform _ = true

-- The width `w` of an instruction with operands of width `v`.
abbrev pub Typing : Kind → ℕ → ℕ → Type 0
Typing Kind.zext v w = v < w
Typing Kind.sext v w = v < w
Typing Kind.trunc v w = w < v
Typing Kind.eq v w = w ≡ 1
Typing Kind.ne v w = w ≡ 1
Typing Kind.ult v w = w ≡ 1
Typing Kind.slt v w = w ≡ 1
Typing Kind.ule v w = w ≡ 1
Typing Kind.sle v w = w ≡ 1
Typing Kind.sadd_o v w = w ≡ 1
Typing Kind.uadd_o v w = w ≡ 1
Typing Kind.ssub_o v w = w ≡ 1
Typing Kind.usub_o v w = w ≡ 1
Typing Kind.smul_o v w = w ≡ 1
Typing Kind.umul_o v w = w ≡ 1
Typing Kind.sadd_with_overflow v w = v + 1 < 2 ^ 32 → w ≡ v + 1
Typing Kind.uadd_with_overflow v w = v + 1 < 2 ^ 32 → w ≡ v + 1
Typing Kind.ssub_with_overflow v w = v + 1 < 2 ^ 32 → w ≡ v + 1
Typing Kind.usub_with_overflow v w = v + 1 < 2 ^ 32 → w ≡ v + 1
Typing Kind.smul_with_overflow v w = v + 1 < 2 ^ 32 → w ≡ v + 1
Typing Kind.umul_with_overflow v w = v + 1 < 2 ^ 32 → w ≡ v + 1
Typing Kind.bswap v w = (w ≡ v) × (w % 16 ≡ 0)
Typing _ v w = w ≡ v

-- What the first switch makes sure of.
abbrev Guarded : Kind → ℕ → ℕ → ℕ → Type 0
Guarded Kind.zext w v n = (n == 1 && not (w == 0) && leb w v) ≡ false
Guarded Kind.sext w v n = (n == 1 && not (w == 0) && leb w v) ≡ false
Guarded Kind.trunc w v n = (n == 1 && not (w == 0) && leb v w) ≡ false
Guarded _ w v n = Unit

-- Inversion of the case of a kind that is checked.
checked-eq-ok :
    {S T : Type 0} (o : Option S) (f : S → Checked Message T) (t : T)
    → elim o [ none ↦ none | some s ↦ some (f s) ] ≡ some (ok t)
    → (s : S) × (o ≡ some s) × (f s ≡ ok t)
checked-eq-ok none f t h = cc
checked-eq-ok (some s) f t h = (s, refl, cc h)

module _ (A : ApInt) (lib : Library A) where
  open A use {Num}

  check_kind-Guarded :
      (k : Kind) (w : ℕ) (ops : List ℕ) (c : Context Num) (r : List ℕ × Context Num)
      → is_uniform k ≡ true
      → check_kind A lib k w ops c ≡ ok r
      → (◌≡◌ {A = List ℕ × Context Num} (ops, c) r)
        × Guarded k w (width_of A lib c (at A lib ops 0)) (length ops)
  unfolding check_kind check_extend check_trunc
  check_kind-Guarded Kind.select w ops c r u h = cc
  check_kind-Guarded Kind.zext w ops c r u h =
      let (x, e, h1) =
        >>=-eq-ok
          (reject (length ops == 1 && not (w == 0) && leb w (width_of A lib c (at A lib ops 0))) _)
          _ h in
      (ok_inj (ops, c) r h1, reject-eq-ok _ _ e)
  check_kind-Guarded Kind.sext w ops c r u h =
      let (x, e, h1) =
        >>=-eq-ok
          (reject (length ops == 1 && not (w == 0) && leb w (width_of A lib c (at A lib ops 0))) _)
          _ h in
      (ok_inj (ops, c) r h1, reject-eq-ok _ _ e)
  check_kind-Guarded Kind.trunc w ops c r u h =
      let (x, e, h1) =
        >>=-eq-ok
          (reject (length ops == 1 && not (w == 0) && leb (width_of A lib c (at A lib ops 0)) w) _)
          _ h in
      (ok_inj (ops, c) r h1, reject-eq-ok _ _ e)
  check_kind-Guarded _ w ops c r u h = (ok_inj (ops, c) r h, tt)

  settle_width-eq :
      (k : Kind) (w e v : ℕ)
      → settle_width A lib k w e ≡ ok v
      → (v ≢ 0)
        × (w ≡ 0 → v ≡ e)
        × ((e ≡ 0) ⊎ (v ≡ e))
        × ((w ≡ 0) ⊎ (v ≡ w))
        × ((is_bswap k && not (v % 16 == 0)) ≡ false)
  unfolding settle_width
  settle_width-eq k w e v h =
      let (x1, e1, h1) = >>=-eq-ok (reject (w == 0 && e == 0) _) _ h in
      let (x2, e2, h2) = >>=-eq-ok (reject (not (w == 0) && not (e == 0) && not (w == e)) _) _ h1 in
      let (x3, e3, h3) =
        >>=-eq-ok (reject (is_bswap k && not ((if w == 0 then e else w) % 16 == 0)) _) _ h2 in
      let same = ok_inj (if w == 0 then e else w) v h3 in
      let r1 = reject-eq-ok _ _ e1 in
      let r2 = reject-eq-ok _ _ e2 in
      (
        ground (arith, same, r1),
        (λ z. ground (arith, same, z)),
        ground (arith, same, r1, r2),
        ground (arith, same, r1, r2),
        ap (λ u. is_bswap k && not (u % 16 == 0)) (sym same) ∙ reject-eq-ok _ _ e3,
      )

  -- The typing of one kind, from what each check made sure of.
  Typing-settled :
      (k : Kind) (w v e w' : ℕ) (ops : List ℕ) (c : Context Num)
      → is_uniform k ≡ true
      → expected_width A lib k ops c ≡ ok e
      → width_of A lib c (at A lib ops 0) ≡ v
      → 0 < v
      → Guarded k w v 1
      → (w' ≢ 0)
      → (w ≡ 0 → w' ≡ e)
      → (e ≡ 0) ⊎ (w' ≡ e)
      → (w ≡ 0) ⊎ (w' ≡ w)
      → (is_bswap k && not (w' % 16 == 0)) ≡ false
      → Typing k v w'
  unfolding expected_width is_overflow
  Typing-settled Kind.select w v e w' ops c u x a p g n1 n2 n3 n4 b = cc
  Typing-settled Kind.extract_value w v e w' ops c u x a p g n1 n2 n3 n4 b = cc
  Typing-settled Kind.sadd_with_overflow w v e w' ops c u x a p g n1 n2 n3 n4 b =
      λ small. ground (arith, x, a, n3, small)
  Typing-settled Kind.uadd_with_overflow w v e w' ops c u x a p g n1 n2 n3 n4 b =
      λ small. ground (arith, x, a, n3, small)
  Typing-settled Kind.ssub_with_overflow w v e w' ops c u x a p g n1 n2 n3 n4 b =
      λ small. ground (arith, x, a, n3, small)
  Typing-settled Kind.usub_with_overflow w v e w' ops c u x a p g n1 n2 n3 n4 b =
      λ small. ground (arith, x, a, n3, small)
  Typing-settled Kind.smul_with_overflow w v e w' ops c u x a p g n1 n2 n3 n4 b =
      λ small. ground (arith, x, a, n3, small)
  Typing-settled Kind.umul_with_overflow w v e w' ops c u x a p g n1 n2 n3 n4 b =
      λ small. ground (arith, x, a, n3, small)
  Typing-settled _ w v e w' ops c u x a p g n1 n2 n3 n4 b =
      ground (arith, x, a, p, g, n1, n2, n3, n4, b)

  Guarded-one :
      (k : Kind) (w u v n : ℕ) (b : ℕ × ℕ)
      → op_bounds k ≡ some b
      → n ≡ b.0
      → (n ≡ 1 → v ≡ u)
      → Guarded k w u n
      → Guarded k w v 1
  unfolding op_bounds
  Guarded-one Kind.zext w u v n b e m s g =
      let one : n ≡ 1 = ground (arith, e, m) in ground (arith, one, s one, g)
  Guarded-one Kind.sext w u v n b e m s g =
      let one : n ≡ 1 = ground (arith, e, m) in ground (arith, one, s one, g)
  Guarded-one Kind.trunc w u v n b e m s g =
      let one : n ≡ 1 = ground (arith, e, m) in ground (arith, one, s one, g)
  Guarded-one _ w u v n b e m s g = tt

  -- Every kind has one number of operands.
  op_bounds_same : (k : Kind) (b : ℕ × ℕ) → op_bounds k ≡ some b → b.0 ≡ b.1
  unfolding op_bounds
  op_bounds_same Kind.const b e = cc
  op_bounds_same _ b e = ground (arith, e)

  check_op_count-eq :
      (b : ℕ × ℕ) (n : ℕ) (x : Unit {0})
      → b.0 ≡ b.1
      → check_op_count A lib b.0 b.1 n ≡ ok x
      → n ≡ b.0
  unfolding check_op_count
  check_op_count-eq b n x s h =
      let (y, e, h1) = >>=-eq-ok (reject (b.0 == b.1 && not (n == b.0)) _) _ h in
      ground (arith, s, reject-eq-ok _ _ e)

  check_widths-uniform :
      (k : Kind) (ops : List ℕ) (c : Context Num)
      → is_uniform k ≡ true
      → check_widths A lib k ops c ≡ type_check_ops_matching_widths A lib ops c
  unfolding check_widths
  check_widths-uniform Kind.select ops c u = cc
  check_widths-uniform _ ops c u = refl

  not_extract : (k : Kind) → is_uniform k ≡ true → is_extract_value k ≡ false
  not_extract Kind.extract_value u = cc
  not_extract _ u = refl

  op_bounds_pos : (k : Kind) (b : ℕ × ℕ) → op_bounds k ≡ some b → 0 < b.0
  unfolding op_bounds
  op_bounds_pos Kind.const b e = cc
  op_bounds_pos _ b e = ground (arith, e)

  module _ (laws : LibraryLaws A lib) (bits : BitLaws A) where
    -- The operands have one width that is not 0, there are as many as the kind wants, none of them is
    -- an overflow intrinsic, and the width of the instruction is what the kind makes of theirs.
    pub record InstTyped (k : Kind) (c : Context Num) (n : ℕ) (r : ℕ × List ℕ × Context Num)
        : Type 0 where
      pub width : ℕ
      pub width_pos : 0 < width
      pub operands : OneWidth A lib laws c width n (r.1, r.2)
      pub bounds : ℕ × ℕ
      pub op_count : (op_bounds k ≡ some bounds) × (n ≡ bounds.0)
      pub no_overflow : has_overflow_op A lib r.2 r.1 ≡ false
      pub typing : Typing k width r.0

    operands-eq-ok :
        (k : Kind) (ops : List ℕ) (c : Context Num) (s : List ℕ × Context Num)
        → is_uniform k ≡ true
        → (if is_extract_value k then ok (ops, c) else check_operands A lib k ops c) ≡ ok s
        → (type_check_ops_matching_widths A lib ops c ≡ ok s)
          × (has_overflow_op A lib s.1 s.0 ≡ false)
    unfolding check_operands
    operands-eq-ok k ops c s u h =
        let checked =
          sym (if_false (ok (ops, c)) (check_operands A lib k ops c) (not_extract k u)) ∙ h in
        let (t, e1, h1) = >>=-eq-ok (check_widths A lib k ops c) _ checked in
        let (x, e2, h2) = >>=-eq-ok (reject (has_overflow_op A lib t.1 t.0) _) _ h1 in
        let same = ok_inj t s h2 in
        (
          sym (check_widths-uniform k ops c u) ∙ e1 ∙ ap ok same,
          ap (λ (q : List ℕ × Context Num). has_overflow_op A lib q.1 q.0) (sym same)
              ∙ reject-eq-ok _ _ e2,
        )

    check_rest-InstTyped :
        (k : Kind) (w : ℕ) (ops : List ℕ) (c : Context Num) (b : ℕ × ℕ)
        (r : ℕ × List ℕ × Context Num)
        → is_uniform k ≡ true
        → IsValid A c
        → All (λ p. p < c.next) ops
        → op_bounds k ≡ some b
        → Guarded k w (width_of A lib c (at A lib ops 0)) (length ops)
        → check_rest A lib k w b (ops, c) ≡ ok r
        → InstTyped k c (length ops) r
    unfolding check_rest
    check_rest-InstTyped k w ops c b r u v below eb guarded h =
        let (x, e1, h1) = >>=-eq-ok (check_op_count A lib b.0 b.1 (length ops)) _ h in
        let n = check_op_count-eq b (length ops) x (op_bounds_same k b eb) e1 in
        let (s, e2, h2) =
          >>=-eq-ok (if is_extract_value k then ok (ops, c) else check_operands A lib k ops c) _
            h1 in
        let (typed, no_overflow) = operands-eq-ok k ops c s u e2 in
        let (e, e3, h3) = >>=-eq-ok (expected_width A lib k s.0 s.1) _ h2 in
        let (w', e4, h4) = >>=-eq-ok (settle_width A lib k w e) _ h3 in
        let (width, pos, o, single) =
          type_check_ops-OneWidth A lib laws bits ops c s v below typed in
        let (n1, n2, n3, n4, n5) = settle_width-eq k w e w' e4 in
        subst (InstTyped k c (length ops)) (ok_inj (w', s.0, s.1) r h4) (record {
          width = width;
          width_pos = pos;
          operands = o;
          bounds = b;
          op_count = (eb, n);
          no_overflow = no_overflow;
          typing =
              Typing-settled k w width e w' s.0 s.1 u e3
                (first-width A lib s.1 width s.0 o.widths
                  (omega (arith, o.same_length, n, op_bounds_pos k b eb)))
                pos (Guarded-one k w _ width (length ops) b eb n single guarded) n1 n2 n3 n4 n5;
        })

    check_both-InstTyped :
        (k : Kind) (w : ℕ) (ops : List ℕ) (c : Context Num) (b : ℕ × ℕ)
        (r : ℕ × List ℕ × Context Num)
        → is_uniform k ≡ true
        → IsValid A c
        → All (λ p. p < c.next) ops
        → op_bounds k ≡ some b
        → (check_kind A lib k w ops c >>= check_rest A lib k w b) ≡ ok r
        → InstTyped k c (length ops) r
    check_both-InstTyped k w ops c b r u v below eb h =
        let (q, e1, h1) = >>=-eq-ok (check_kind A lib k w ops c) (check_rest A lib k w b) h in
        let (same, guarded) = check_kind-Guarded k w ops c q u e1 in
        check_rest-InstTyped k w ops c b r u v below eb guarded
          (ap (check_rest A lib k w b) same ∙ h1)

    -- Where `typeCheckInst` accepts an instruction of any kind but `Select` and `ExtractValue`, on
    -- instructions of a valid context, the instruction is well typed: the number of operands is the kind's,
    -- they have one width that is not 0, none is an overflow intrinsic, and the width of the
    -- instruction is what the kind makes of theirs.
    pub type_check_inst-InstTyped :
        (k : Kind) (w : ℕ) (ops : List ℕ) (c : Context Num) (r : ℕ × List ℕ × Context Num)
        → is_uniform k ≡ true
        → IsValid A c
        → All (λ p. p < c.next) ops
        → type_check_inst A lib k w ops c ≡ some (ok r)
        → InstTyped k c (length ops) r
    unfolding type_check_inst
    type_check_inst-InstTyped k w ops c r u v below h =
        let (b, e, h') =
          checked-eq-ok (op_bounds k) (λ b. check_kind A lib k w ops c >>= check_rest A lib k w b) r
            h in
        check_both-InstTyped k w ops c b r u v below e h'
