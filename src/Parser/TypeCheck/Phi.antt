-- ===== src/Parser/TypeCheck/Phi.antt =====
-- What the type check of a phi gives.
use mathlib.Core.Path.{subst}
use souper.Prelude.{
  ℕ, ◌<◌, ◌≡◌, false, not, ◌&&◌, ◌==◌, List, [], ◌∷◌, length, All, ◌⊎◌, arith, Option, none, some,
  leb,
}
use souper.Inst.Graph.{Block}
use souper.Inst.Context.{Library, Context}
use souper.Inst.Context.Laws.{LibraryLaws}
use souper.Inst.Context.Valid.{IsValid}
use souper.Llvm.ApInt.{ApInt, BitLaws}
use souper.Parser.Message.{ok, reject, >>=-eq-ok, reject-eq-ok, ok_inj}
use souper.Parser.TypeCheck.{
  width_of, at, has_overflow_op, type_check_ops_matching_widths, type_check_phi,
}
use souper.Parser.TypeCheck.Widths.{OneWidth, type_check_ops-OneWidth}

index_below :
    (idx : Option ℕ) (i n : ℕ)
    → idx ≡ some i
    → elim idx [ none ↦ false | some m ↦ leb n m ] ≡ false
    → i < n
index_below none i n e h = cc
index_below (some m) i n e h = ground (arith, e, h)

stated_width : (w v u : ℕ) → (not (w == 0) && not (w == u)) ≡ false → u ≡ v → (w ≡ 0) ⊎ (w ≡ v)
stated_width w v u h e = ground (arith, h, e)

-- The width of the first operand is that of all.
pub first-width :
    (A : ApInt) (lib : Library A) (c : Context A.Num) (w : ℕ) (ops : List ℕ)
    → All (λ p. width_of A lib c p ≡ w) ops
    → 0 < length ops
    → width_of A lib c (at A lib ops 0) ≡ w
first-width A lib c w [] h k = absurd (omega arith)
first-width A lib c w (op ∷ ops) h k = h.0

module _ (A : ApInt) (lib : Library A) (laws : LibraryLaws A lib) (bits : BitLaws A) where
  open A use {Num}

  -- The block has as many predecessors as there are operands, its greatest `blockpc` number is below
  -- that, and the operands have one width, which is that of the instruction if it states one; no
  -- operand is an overflow intrinsic.
  pub record PhiTyped (w : ℕ) (b : Block) (idx : Option ℕ) (c : Context Num) (n : ℕ)
      (r : List ℕ × Context Num) : Type 0 where
    pub width : ℕ
    pub width_pos : 0 < width
    pub operands : OneWidth A lib laws c width n r
    pub preds : b.preds ≡ n
    pub index : (i : ℕ) → idx ≡ some i → i < n
    pub stated : 0 < n → (w ≡ 0) ⊎ (w ≡ width)
    pub no_overflow : has_overflow_op A lib r.1 r.0 ≡ false

  -- Where `typeCheckPhi` accepts a phi on instructions of a valid context, the phi is well typed.
  pub type_check_phi-PhiTyped :
      (w : ℕ) (b : Block) (idx : Option ℕ) (ops : List ℕ) (c : Context Num)
      (r : List ℕ × Context Num)
      → IsValid A c
      → All (λ p. p < c.next) ops
      → type_check_phi A lib w b idx ops c ≡ ok r
      → PhiTyped w b idx c (length ops) r
  unfolding type_check_phi
  type_check_phi-PhiTyped w b idx ops c r v below h =
      let (u1, e1, h1) = >>=-eq-ok (reject (not (b.preds == length ops)) _) _ h in
      let (u2, e2, h2) =
        >>=-eq-ok (reject (elim idx [ none ↦ false | some n ↦ leb (length ops) n ]) _) _ h1 in
      let (s, e3, h3) = >>=-eq-ok (type_check_ops_matching_widths A lib ops c) _ h2 in
      let (u4, e4, h4) =
        >>=-eq-ok (reject (not (w == 0) && not (w == width_of A lib s.1 (at A lib s.0 0))) _) _
          h3 in
      let (u5, e5, h5) = >>=-eq-ok (reject (has_overflow_op A lib s.1 s.0) _) _ h4 in
      subst (PhiTyped w b idx c (length ops)) (ok_inj s r h5) (
        let (width, pos, o, single) = type_check_ops-OneWidth A lib laws bits ops c s v below e3 in
        record {
          width = width;
          width_pos = pos;
          operands = o;
          preds = ground (arith, reject-eq-ok (not (b.preds == length ops)) _ e1);
          index = λ i e. index_below idx i (length ops) e (reject-eq-ok _ _ e2);
          stated = λ nonempty.
              stated_width w width (width_of A lib s.1 (at A lib s.0 0)) (reject-eq-ok _ _ e4)
                (first-width A lib s.1 width s.0 o.widths (omega (arith, o.same_length, nonempty)));
          no_overflow = reject-eq-ok _ _ e5;
        })
