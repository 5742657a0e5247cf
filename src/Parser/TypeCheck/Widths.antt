-- ===== src/Parser/TypeCheck/Widths.antt =====
-- What the type check of operands gives: one width, that is not 0.
use mathlib.Core.Path.{subst}
use souper.Prelude.{
  if_true, if_false, ℕ, suc, ◌<◌, ◌≤◌, ◌≡◌, refl, sym, ap, ◌∙◌, true, not, ◌||◌, ◌==◌,
  if◌then◌else◌, List, [], ◌∷◌, length, All, Bool-cases, inl, inr, arith,
}
use souper.Inst.Kind.{Kind}
use souper.Inst.Graph.{Inst}
use souper.Inst.Context.{kind, integer, num, Library, Context, profile_rest, new_inst, get_const}
use souper.Inst.Context.Laws.{LibraryLaws}
use souper.Inst.Context.Valid.{IsValid, Extends, Extends-refl, Extends-trans, get_const-Adds}
use souper.Inst.Context.Unique.{intern_found}
use souper.Llvm.ApInt.{ApInt, BitLaws}
use souper.Parser.Message.{
  Message, Checked, ok, err, ◌>>=◌, reject, >>=-eq-ok, ok_inj, err-ne-ok, reject-eq-ok,
}
use souper.Parser.TypeCheck.{
  too_large, lossy, width_of, at, scan_widths, type_ops, type_check_ops_matching_widths,
}

-- Inversion of the step that puts an operand in front.
pub cons-eq-ok :
    {C : Type 0} (m : Checked Message (List ℕ × C)) (p : ℕ) (r : List ℕ × C)
    → (m >>= λ s. ok (p ∷ s.0, s.1)) ≡ ok r
    → (s : List ℕ × C) × (m ≡ ok s) × (◌≡◌ {A = List ℕ × C} (p ∷ s.0, s.1) r)
cons-eq-ok (ok s) p r h = (s, refl, ok_inj (p ∷ s.0, s.1) r h)
cons-eq-ok (err e) p r h = absurd (err-ne-ok h)

module _ (A : ApInt) (lib : Library A) (laws : LibraryLaws A lib) where
  open A use {Num, width, sext_or_trunc}

  -- Typed constants have the width of their number.
  pub get_const-width :
      (v : Num) (c : Context Num)
      → width_of A lib (get_const A lib v c).1 (get_const A lib v c).0 ≡ width v
  unfolding get_const profile_rest
  get_const-width v c =
      let (m, same) =
        intern_found A lib laws (kind Kind.const ∷ integer (width v) ∷ num v ∷ [])
          (record (new_inst A Kind.const (width v)) { val = v }) c refl in
      cc same

  -- Untyped, or of the given width.
  abbrev pub Fits : Context Num → ℕ → List ℕ → Type 0
  Fits c w = All (λ p. (width_of A lib c p == 0 || width_of A lib c p == w) ≡ true)

  scan_widths-Fits :
      (c : Context Num) (v : ℕ) (ops : List ℕ) (w : ℕ)
      → scan_widths A lib c v ops ≡ ok w
      → ((v == 0 || v == w) ≡ true) × Fits c w ops
  unfolding scan_widths
  scan_widths-Fits c v [] w h = (ground (arith, h), tt)
  scan_widths-Fits c v (op ∷ ops) w h =
      ground (arith, h, scan_widths-Fits c (if v == 0 then width_of A lib c op else v) ops w)

  -- Operands of one width in a valid context.
  pub record OneWidth (c : Context Num) (w n : ℕ) (r : List ℕ × Context Num) : Type 0 where
    pub valid : IsValid A r.1
    pub extends : Extends A c r.1
    pub below : All (λ p. p < r.1.next) r.0
    pub widths : All (λ p. width_of A lib r.1 p ≡ w) r.0
    pub same_length : length r.0 ≡ n

  below_mono : (m n : ℕ) (ps : List ℕ) → m ≤ n → All (λ p. p < m) ps → All (λ p. p < n) ps
  below_mono m n [] h k = tt
  below_mono m n (p ∷ ps) h k = (omega (arith, h, k.0), below_mono m n ps h k.1)

  -- What a context has, an extended one has.
  pub Fits-Extends :
      (c d : Context Num) (w : ℕ) (ops : List ℕ)
      → Extends A c d
      → All (λ p. p < c.next) ops
      → Fits c w ops
      → Fits d w ops
  Fits-Extends c d w [] e b f = tt
  Fits-Extends c d w (p ∷ ps) e b f = (
    ap (λ (i : Inst Num). i.width == 0 || i.width == w) (e.same p b.0) ∙ f.0,
    Fits-Extends c d w ps e b.1 f.1,
  )

  module _ (bits : BitLaws A) where
    -- One more operand in front of operands of one width.
    OneWidth-cons :
        (c d : Context Num) (w n p : ℕ) (r : List ℕ × Context Num)
        → Extends A c d
        → p < d.next
        → width_of A lib d p ≡ w
        → OneWidth d w n r
        → OneWidth c w (suc n) (p ∷ r.0, r.1)
    OneWidth-cons c d w n p r e inside same o = record {
      valid = o.valid;
      extends = Extends-trans A c d r.1 e o.extends;
      below = (omega (arith, inside, o.extends.next_le), o.below);
      widths = (ap (λ (i : Inst Num). i.width) (o.extends.same p inside) ∙ same, o.widths);
      same_length = omega (arith, o.same_length);
    }

    type_ops-OneWidth :
        (w : ℕ) (ops : List ℕ) (c : Context Num) (r : List ℕ × Context Num)
        → IsValid A c
        → All (λ p. p < c.next) ops
        → Fits c w ops
        → type_ops A lib w ops c ≡ ok r
        → OneWidth c w (length ops) r
    unfolding type_ops
    type_ops-OneWidth w [] c r v b f h = subst (OneWidth c w 0) (ok_inj ([], c) r h) (record {
      valid = v;
      extends = Extends-refl A c;
      below = tt;
      widths = tt;
      same_length = refl;
    })
    type_ops-OneWidth w (op ∷ ops) c r v b f h =
        let value = (c.store op).val in
        let constant = get_const A lib (sext_or_trunc value w) c in
        let typed : Checked Message (List ℕ × Context Num) =
          type_ops A lib w ops c >>= λ s. ok (op ∷ s.0, s.1) in
        let untyped : Checked Message (List ℕ × Context Num) =
          type_ops A lib w ops constant.1 >>= λ s. ok (constant.0 ∷ s.0, s.1) in
        let lossless = if lossy A lib value w then err too_large else untyped in
        elim (Bool-cases (not (width_of A lib c op == 0))) [
          | inl e ↦
              let (s, e1, e2) =
                cons-eq-ok (type_ops A lib w ops c) op r (sym (if_true typed lossless e) ∙ h) in
              subst (OneWidth c w (suc (length ops))) e2 (
                OneWidth-cons c c w (length ops) op s (Extends-refl A c) b.0
                  (ground (arith, e, f.0)) (type_ops-OneWidth w ops c s v b.1 f.1 e1))
          | inr e ↦ elim (Bool-cases (lossy A lib value w)) [
            | inl bad ↦ absurd (
                err-ne-ok
                  (sym (if_true (err too_large) untyped bad) ∙ sym (if_false typed lossless e) ∙ h))
            | inr fine ↦
                let a = get_const-Adds A lib laws (sext_or_trunc value w) c v in
                let (s, e1, e2) = cons-eq-ok (type_ops A lib w ops constant.1) constant.0 r (
                  sym (if_false (err too_large) untyped fine)
                  ∙ sym (if_false typed lossless e)
                  ∙ h) in
                subst (OneWidth c w (suc (length ops))) e2 (
                  OneWidth-cons c constant.1 w (length ops) constant.0 s a.extends a.inside
                    (get_const-width (sext_or_trunc value w) c ∙ bits.width-sext_or_trunc value w)
                    (type_ops-OneWidth w ops constant.1 s a.valid
                      (below_mono c.next constant.1.next ops a.extends.next_le b.1)
                      (Fits-Extends c constant.1 w ops a.extends b.1 f.1) e1))
          ]
        ]

    single_width :
        (c : Context Num) (ops : List ℕ) (w : ℕ)
        → scan_widths A lib c 0 ops ≡ ok w
        → length ops ≡ 1
        → w ≡ width_of A lib c (at A lib ops 0)
    unfolding scan_widths
    single_width c [] w h n = absurd (omega (arith, n))
    single_width c (op ∷ []) w h n = ground (arith, h)
    single_width c (op ∷ op' ∷ ops) w h n = absurd (omega (arith, n))

    -- Where `typeCheckOpsMatchingWidths` succeeds, the operands, with typed constants in place of the
    -- untyped ones, have one width that is not 0.
    pub type_check_ops-OneWidth :
        (ops : List ℕ) (c : Context Num) (r : List ℕ × Context Num)
        → IsValid A c
        → All (λ p. p < c.next) ops
        → type_check_ops_matching_widths A lib ops c ≡ ok r
        → (w : ℕ) × (0 < w)
          × OneWidth c w (length ops) r
          × (length ops ≡ 1 → w ≡ width_of A lib c (at A lib ops 0))
    unfolding type_check_ops_matching_widths
    type_check_ops-OneWidth ops c r v b h =
        let (w, e1, h1) = >>=-eq-ok (scan_widths A lib c 0 ops) _ h in
        let (u, e2, h2) = >>=-eq-ok (reject (w == 0) _) _ h1 in
        (
          w,
          ground (arith, reject-eq-ok (w == 0) _ e2),
          type_ops-OneWidth w ops c r v b (scan_widths-Fits c 0 ops w e1).1 h2,
          single_width c ops w e1,
        )
