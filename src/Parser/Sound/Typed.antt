-- ===== src/Parser/Sound/Typed.antt =====
-- The type checks leave a valid context and operands of it.
use mathlib.Core.Path.{subst}
use mathlib.Core.Option.{some-injective}
use souper.Prelude.{
  ℕ, ◌<◌, ◌≤◌, ◌≡◌, not, ◌==◌, List, [], ◌∷◌, length, All, Option, none, some, arith,
}
use souper.Inst.Kind.{Kind}
use souper.Inst.Graph.{Block}
use souper.Inst.Context.{Library, Context}
use souper.Inst.Context.Laws.{LibraryLaws}
use souper.Inst.Context.Valid.{IsValid, get_const-Adds}
use souper.Llvm.ApInt.{ApInt, BitLaws}
use souper.Parser.Message.{Message, Checked, ◌>>=◌}
use souper.Parser.TypeCheck.{
  op_bounds, lossy, width_of, has_overflow_op, type_check_ops_matching_widths, type_check_phi,
}
use souper.Parser.TypeCheck.Widths.{type_check_ops-OneWidth}
use souper.Parser.TypeCheck.Phi.{type_check_phi-PhiTyped}
use souper.Parser.InstCheck.{
  check_select, check_extend, check_trunc, check_kind, check_op_count, check_widths, check_operands,
  expected_width, settle_width, is_extract_value, check_rest, type_check_inst,
}
use souper.Parser.Sound.{
  Gives, Gives->>=, Gives-reject, Gives-ok, Gives-err, Gives-if, Gives-any, All-weaken,
}

-- Inversion of the case of an optional value.
case-eq-some :
    {S C : Type 0} (o : Option S) (f : S → C) (t : C)
    → elim o [ none ↦ none | some s ↦ some (f s) ] ≡ some t
    → (s : S) × (f s ≡ t)
case-eq-some none f t h = cc
case-eq-some (some s) f t h = (s, some-injective (f s) t h)

module _ (A : ApInt) (lib : Library A) (laws : LibraryLaws A lib) (bits : BitLaws A) (n : ℕ) where
  open A use {Num, trunc}

  -- Operands of a valid context, which has `n` instructions at least.
  abbrev pub Operands : List ℕ × Context Num → Type 0
  Operands r = IsValid A r.1 × (n ≤ r.1.next) × All (λ p. p < r.1.next) r.0

  type_check_ops-Operands :
      (ops : List ℕ) (c : Context Num)
      → Operands (ops, c)
      → Gives (λ r. Operands r × (c.next ≤ r.1.next)) (type_check_ops_matching_widths A lib ops c)
  type_check_ops-Operands ops c h = record {
    holds = λ r e.
        let (w, pos, o, single) = type_check_ops-OneWidth A lib laws bits ops c r h.0 h.2 e in
        ((o.valid, omega (arith, h.1, o.extends.next_le), o.below), o.extends.next_le);
  }

  pub type_check_phi-Operands :
      (w : ℕ) (b : Block) (idx : Option ℕ) (ops : List ℕ) (c : Context Num)
      → Operands (ops, c)
      → Gives Operands (type_check_phi A lib w b idx ops c)
  type_check_phi-Operands w b idx ops c h = record {
    holds = λ r e.
        let o = (type_check_phi-PhiTyped A lib laws bits w b idx ops c r h.0 h.2 e).operands in
        (o.valid, omega (arith, h.1, o.extends.next_le), o.below);
  }

  check_select-Operands :
      (ops : List ℕ) (c : Context Num)
      → Operands (ops, c)
      → Gives Operands (check_select A lib ops c)
  unfolding check_select
  check_select-Operands [] c h = Gives-ok h
  check_select-Operands (p ∷ []) c h = Gives-ok h
  check_select-Operands (p ∷ p' ∷ ps) c h =
      let a = get_const-Adds A lib laws (trunc (c.store p).val 1) c h.0 in
      Gives-if (width_of A lib c p == 0)
        (Gives-if (lossy A lib (c.store p).val 1) Gives-err (
          Gives-ok (
            a.valid,
            omega (arith, h.1, a.extends.next_le),
            (a.inside, All-weaken _ _ (p' ∷ ps) (λ q k. omega (arith, k, a.extends.next_le)) h.2.1),
          )))
        (Gives-if (not (width_of A lib c p == 1)) Gives-err (Gives-ok h))

  check_kind-Operands :
      (k : Kind) (w : ℕ) (ops : List ℕ) (c : Context Num)
      → Operands (ops, c)
      → Gives Operands (check_kind A lib k w ops c)
  unfolding check_kind
  check_kind-Operands Kind.select w ops c h = check_select-Operands ops c h
  check_kind-Operands Kind.zext w ops c h =
      Gives->>= _ _ (Gives-any (check_extend A lib w ops c)) (λ u any. Gives-ok h)
  check_kind-Operands Kind.sext w ops c h =
      Gives->>= _ _ (Gives-any (check_extend A lib w ops c)) (λ u any. Gives-ok h)
  check_kind-Operands Kind.trunc w ops c h =
      Gives->>= _ _ (Gives-any (check_trunc A lib w ops c)) (λ u any. Gives-ok h)
  check_kind-Operands _ w ops c h = Gives-ok h

  -- The check of all operands, and of all but the first.
  all_widths :
      (ops : List ℕ) (c : Context Num)
      → Operands (ops, c)
      → Gives Operands (type_check_ops_matching_widths A lib ops c)
  all_widths ops c h = record { holds = λ r e. ((type_check_ops-Operands ops c h).holds r e).0 }

  check_widths-Operands :
      (k : Kind) (ops : List ℕ) (c : Context Num)
      → Operands (ops, c)
      → Gives Operands (check_widths A lib k ops c)
  unfolding check_widths
  check_widths-Operands Kind.select [] c h = all_widths [] c h
  check_widths-Operands Kind.select (p ∷ []) c h = all_widths (p ∷ []) c h
  check_widths-Operands Kind.select (p ∷ p' ∷ ps) c h =
      Gives->>= _ _ (type_check_ops-Operands (p' ∷ ps) c (h.0, h.1, h.2.1))
        (λ r hr. Gives-ok (hr.0.0, hr.0.1, (omega (arith, h.2.0, hr.1), hr.0.2)))
  check_widths-Operands _ ops c h = all_widths ops c h

  check_operands-Operands :
      (k : Kind) (ops : List ℕ) (c : Context Num)
      → Operands (ops, c)
      → Gives Operands (check_operands A lib k ops c)
  unfolding check_operands
  check_operands-Operands k ops c h =
      Gives->>= _ _ (check_widths-Operands k ops c h)
        (λ r hr. Gives-reject (has_overflow_op A lib r.1 r.0) _ _ (Gives-ok hr))

  abbrev pub OperandsOf : ℕ × List ℕ × Context Num → Type 0
  OperandsOf r = Operands (r.1, r.2)

  check_rest-Operands :
      (k : Kind) (w : ℕ) (b : ℕ × ℕ) (r : List ℕ × Context Num)
      → Operands r
      → Gives OperandsOf (check_rest A lib k w b r)
  unfolding check_rest
  check_rest-Operands k w b r h =
      Gives->>= _ _ (Gives-any (check_op_count A lib b.0 b.1 (length r.0))) (λ u any.
        Gives->>= _ _
          (Gives-if (is_extract_value k) (Gives-ok h) (check_operands-Operands k r.0 r.1 h))
          (λ s hs. Gives->>= _ _ (Gives-any (expected_width A lib k s.0 s.1)) (λ e any'.
            Gives->>= _ _ (Gives-any (settle_width A lib k w e)) (λ v any''. Gives-ok hs))))

  pub type_check_inst-Operands :
      (k : Kind) (w : ℕ) (ops : List ℕ) (c : Context Num)
      (checked : Checked Message (ℕ × List ℕ × Context Num))
      → Operands (ops, c)
      → type_check_inst A lib k w ops c ≡ some checked
      → Gives OperandsOf checked
  unfolding type_check_inst
  type_check_inst-Operands k w ops c checked h e =
      let (b, same) =
        case-eq-some (op_bounds k) (λ b. check_kind A lib k w ops c >>= check_rest A lib k w b)
          checked e in
      subst (Gives OperandsOf) same
        (Gives->>= _ _ (check_kind-Operands k w ops c h) (λ r hr. check_rest-Operands k w b r hr))
