-- ===== src/KnownBits/Hints.antt =====
-- What `findKnownBits` adds to the transfer functions of the shifts.
use souper.Prelude.{
  ℕ, ◌+◌, ◌-◌, ◌<◌, ◌≤◌, ◌^◌, ◌≡◌, refl, ap, ◌∙◌, Bool, true, false, arith, if◌then◌else◌,
}
use souper.Llvm.ApInt.{ApInt, BitLaws, OrderLaws, ShiftLaws, OverflowLaws}
use souper.Llvm.KnownBits.{KnownBits, KnownBitsMethods, KnownBitsLaws}
use souper.KnownBits.Bounds.{get_most_precise_known_bits}
use souper.KnownBits.Switch.{shl_hint, lshr_hint, ashr_hint, shl_switch}
use souper.KnownBits.Contains.{Contains}
use souper.KnownBits.Ends.{
  unknown-Contains, zero_low-Contains, zero_high-Contains, zero_high_more, one_high_more,
}
use souper.KnownBits.Shift.{shl_kb-Contains, lshr_kb-Contains, ashr_kb-Contains}
use souper.KnownBits.Transfer.{zero_high, lshr_kb, ashr_kb}

-- The laws of LLVM that the proof rests on.
pub record Llvm (A : ApInt) (K : KnownBitsMethods A) : Type 0 where
  pub bits : BitLaws A
  pub order : OrderLaws A
  pub shifts : ShiftLaws A
  pub overflow : OverflowLaws A
  pub known : KnownBitsLaws A K

pick-Contains :
    (A : ApInt) (p : Bool) (a b : KnownBits A.Num) (z : A.Num)
    → (p ≡ true → Contains A a z)
    → (p ≡ false → Contains A b z)
    → Contains A (if p then a else b) z
pick-Contains A true a b z ca cb = ca refl
pick-Contains A false a b z ca cb = cb refl

get_most_precise-Contains :
    (A : ApInt) (K : KnownBitsMethods A) (a b : KnownBits A.Num) (z : A.Num)
    → Contains A a z
    → Contains A b z
    → Contains A (get_most_precise_known_bits A K a b) z
unfolding get_most_precise_known_bits
get_most_precise-Contains A K a b z ca cb = pick-Contains A _ a b z (λ _. ca) (λ _. cb)

module _ (A : ApInt) (K : KnownBitsMethods A) (llvm : Llvm A K) (reserved : Bool)
    (l r : KnownBits A.Num) (x y : A.Num) (cl : Contains A l x) (cr : Contains A r y)
    (narrow : A.width x < 2 ^ 24) (nonzero : reserved ≡ true → 0 < A.value y)
    (below : A.value y < A.width x) where
  open A use {Num, width, value, bit, shl, lshr, ashr}
  open llvm use {bits, order, shifts, known}

  width-shl : width (shl x y) ≡ width x
  width-shl = ap width (shifts.shl-shl_by x y below) ∙ bits.width-shl_by x (value y)

  width-lshr : width (lshr x y) ≡ width x
  width-lshr = ap width (shifts.lshr-lshr_by x y below) ∙ bits.width-lshr_by x (value y)

  pub shl_switch-Contains : Contains A (shl_switch A K reserved (width x) l r) (shl x y)
  unfolding shl_switch shl_hint
  shl_switch-Contains =
      get_most_precise-Contains A K _ _ (shl x y)
        (pick-Contains A reserved _ _ (shl x y)
          (λ h.
            zero_low-Contains A bits K known (width x) 1 (shl x y) width-shl (omega arith) (λ i lt.
              ground
                (arith, shifts.shl-shl_by x y below, bits.bit-shl_by x (value y) i, nonzero h)))
          (λ h. unknown-Contains A bits K known (width x) (shl x y) width-shl))
        (shl_kb-Contains A bits order shifts K known l r x y cl cr narrow below)

  pub lshr_switch-Contains :
      Contains A
        (get_most_precise_known_bits A K (lshr_hint A K reserved (width x)) (lshr_kb A K l r))
        (lshr x y)
  unfolding lshr_hint
  lshr_switch-Contains =
      get_most_precise-Contains A K _ _ (lshr x y)
        (pick-Contains A reserved _ _ (lshr x y)
          (λ h.
            zero_high-Contains A bits K known (width x) 1 (lshr x y) width-lshr (omega arith)
              (λ i lt high. ground (
                arith,
                shifts.lshr-lshr_by x y below,
                bits.bit-lshr_by x (value y) i,
                bits.bit-lt x (i + value y),
                nonzero h,
              )))
          (λ h. unknown-Contains A bits K known (width x) (lshr x y) width-lshr))
        (lshr_kb-Contains A bits order shifts K known l r x y cl cr narrow below)

  bit_width : K.get_bit_width l ≡ width x
  bit_width = known.get_bit_width_lem l ∙ cl.width_zero

  -- Above a shift by one or more the two highest bits are the sign.
  ashr_top :
      (i : ℕ)
      → 0 < value y
      → i < width (ashr x y)
      → width (ashr x y) ≤ i + 2
      → bit (ashr x y) i ≡ bit x (width x - 1)
  ashr_top i p lt high = ground (arith, shifts.width-ashr x y, shifts.bit-ashr x y i below)

  two : reserved ≡ true → 2 ≤ width (ashr x y)
  two h = omega (arith, shifts.width-ashr x y, nonzero h)

  base :
      reserved ≡ true
      → Contains A
          (if bit l.zero (K.get_bit_width l - 1)
            then zero_high A K (K.unknown (width x)) 2
            else K.unknown (width x))
          (ashr x y)
  base h =
      let plain = unknown-Contains A bits K known (width x) (ashr x y) (shifts.width-ashr x y) in
      pick-Contains A _ _ _ (ashr x y)
        (λ sign.
          zero_high_more A bits K known (K.unknown (width x)) 2 (ashr x y) plain (two h)
            (λ i lt high.
              ashr_top i (nonzero h) lt high ∙ cl.zeros (width x - 1) (rw bit_width at sign)))
        (λ _. plain)

  pub ashr_switch-Contains :
      Contains A
        (get_most_precise_known_bits A K (ashr_hint A K reserved (width x) l) (ashr_kb A K l r))
        (ashr x y)
  unfolding ashr_hint
  ashr_switch-Contains =
      get_most_precise-Contains A K _ _ (ashr x y)
        (pick-Contains A reserved _ _ (ashr x y)
          (λ h.
            pick-Contains A _ _ _ (ashr x y)
              (λ neg. one_high_more A bits K known _ 2 (ashr x y) (base h) (two h) (λ i lt high.
                ashr_top i (nonzero h) lt high ∙ cl.ones (width x - 1) (rw bit_width at neg)))
              (λ _. base h))
          (λ h. unknown-Contains A bits K known (width x) (ashr x y) (shifts.width-ashr x y)))
        (ashr_kb-Contains A bits order shifts K known l r x y cl cr narrow below)
