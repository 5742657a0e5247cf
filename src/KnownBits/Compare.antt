-- ===== src/KnownBits/Compare.antt =====
-- The transfer functions of the comparisons are sound.
use souper.Prelude.{
  ℕ, ◌≡◌, sym, ◌∙◌, refl, Bool, true, false, not, ◌&&◌, ==_iff, arith, Bool-cases, inl, inr,
  if◌then◌else◌,
}
use souper.Llvm.ApInt.{ApInt, BitLaws, OrderLaws}
use souper.Llvm.KnownBits.{KnownBits, KnownBitsMethods, KnownBitsLaws}
use souper.KnownBits.Transfer.{eq_kb, ne_kb, same_constant, differ, decide_bit}
use native.Mathlib.Nat.{one-le-pow}
use mathlib.Core.Bool.{false≢true}
use souper.KnownBits.Ends.{unknown-Contains}
use souper.KnownBits.Contains.{Contains, get_constant-Contains}

split_and3 : (a b c : Bool) → (a && b && c) ≡ true → (a ≡ true) × (b ≡ true) × (c ≡ true)
split_and3 a b c h = ground arith

-- The one-bit number of a truth value.
abbrev pub truth : (A : ApInt) → Bool → A.Num
truth A b = A.of 1 (if b then 1 else 0)

module _ (A : ApInt) (bits : BitLaws A) (order : OrderLaws A) (K : KnownBitsMethods A)
    (laws : KnownBitsLaws A K) where
  open A use {Num, width, value, bit, of, eq, eq_u64, ult, ule, slt, sle, and}

  -- A one-bit result whose bit is set to 1 or to 0 only where the answer is known to be so.
  pub decide_bit-Contains :
      (p q b : Bool)
      → (p ≡ true → b ≡ true)
      → (q ≡ true → b ≡ false)
      → Contains A (decide_bit A K p q) (truth A b)
  decide_bit-Contains false false b hp hq =
      unknown-Contains A bits K laws 1 (truth A b) (bits.width-of 1 _)
  decide_bit-Contains true false b hp hq = rw (hp refl) (record {
    width_zero = laws.width-unknown_zero 1 ∙ sym (bits.width-of 1 1);
    width_one =
        bits.width-set_bit (K.unknown 1).one 0 ∙ laws.width-unknown_one 1 ∙ sym (bits.width-of 1 1);
    zeros = λ i h. ground (arith, laws.bit-unknown_zero 1 i);
    ones = λ i h. ground (
      arith,
      laws.width-unknown_one 1,
      bits.bit-set_bit (K.unknown 1).one 0 i,
      laws.bit-unknown_one 1 i,
      bits.bit-of_one 1 i,
    );
  })
  decide_bit-Contains false true b hp hq = rw (hq refl) (record {
    width_zero =
        bits.width-set_bit (K.unknown 1).zero 0
        ∙ laws.width-unknown_zero 1
        ∙ sym (bits.width-of 1 0);
    width_one = laws.width-unknown_one 1 ∙ sym (bits.width-of 1 0);
    zeros = λ i h. bits.bit-of_zero 1 i;
    ones = λ i h. ground (arith, laws.bit-unknown_one 1 i);
  })
  decide_bit-Contains true true b hp hq = absurd (false≢true (sym (hq refl) ∙ hp refl))

  module _ (l r : KnownBits Num) (x y : Num) (cl : Contains A l x) (cr : Contains A r y)
      (same : width x ≡ width y) where
    same_constant-eq : same_constant A K l r ≡ true → eq x y ≡ true
    same_constant-eq h =
        let (hl, hr, e) = split_and3 (K.is_constant l) (K.is_constant r) _ h in
        rw
          (
            ← get_constant-Contains A bits K laws l x cl hl,
            ← get_constant-Contains A bits K laws r y cr hr,
          )
          e

    -- Where no position holds a 1 in both numbers, the conjunction is 0.
    and-zero :
        (a b : Num)
        → width a ≡ width b
        → ((i : ℕ) → bit a i ≡ true → bit b i ≡ false)
        → eq_u64 (and a b) 0 ≡ true
    and-zero a b w h =
        let e : and a b ≡ of (width a) 0 =
          bits.num_ext (and a b) (of (width a) 0)
            (bits.width-and a b w ∙ sym (bits.width-of (width a) 0))
            (λ i lt. ground (arith, bits.bit-and a b i w, bits.bit-of_zero (width a) i, h i)) in
        rw (
          e,
          order.eq_u64-value (of (width a) 0) 0,
          order.value-of (width a) 0 (one-le-pow (width a) 2 (omega arith)),
        )

    differ-eq : differ A K l r ≡ true → eq x y ≡ false
    differ-eq h = elim (Bool-cases (eq x y)) [
      | inr e ↦ e
      | inl e ↦
          let xy : x ≡ y =
            order.value_inj x y same ((==_iff _ _).0 (sym (order.eq_iff_value x y same) ∙ e)) in
          let a =
            and-zero l.one r.zero (cl.width_one ∙ same ∙ sym cr.width_zero)
              (λ i o. ground (arith, cl.ones i, cr.zeros i, xy)) in
          let b =
            and-zero l.zero r.one (cl.width_zero ∙ same ∙ sym cr.width_one)
              (λ i z. ground (arith, cl.zeros i, cr.ones i, xy)) in
          ground arith
    ]

    pub eq_kb-Contains : Contains A (eq_kb A K l r) (truth A (eq x y))
    unfolding eq_kb
    eq_kb-Contains = elim (Bool-cases (same_constant A K l r)) [
      | inl s ↦ rw s (decide_bit-Contains true false (eq x y) (λ _. same_constant-eq s) (λ t. cc))
      | inr s ↦ rw s (decide_bit-Contains false (differ A K l r) (eq x y) (λ t. cc) differ-eq)
    ]

    pub ne_kb-Contains : Contains A (ne_kb A K l r) (truth A (not (eq x y)))
    unfolding ne_kb
    ne_kb-Contains =
        decide_bit-Contains (differ A K l r) (same_constant A K l r) (not (eq x y))
          (λ h. ground (arith, differ-eq h)) (λ h. ground (arith, same_constant-eq h))
