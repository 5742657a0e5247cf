-- ===== src/KnownBits/Shift.antt =====
-- The transfer functions of the shifts are sound.
use souper.Prelude.{
  ◌+◌, ◌-◌, ◌<◌, ◌≤◌, ◌^◌, ◌≡◌, ap, ◌∙◌, true, false, leb, u32, arith, Bool-cases, inl, inr,
}
use souper.Llvm.ApInt.{ApInt, BitLaws, OrderLaws, ShiftLaws}
use souper.Llvm.KnownBits.{KnownBits, KnownBitsMethods, KnownBitsLaws}
use souper.KnownBits.Transfer.{shl_kb, lshr_kb, ashr_kb}
use souper.KnownBits.Ends.{
  zero_low-Contains, zero_high-Contains, one_high-Contains, unknown-Contains,
}
use souper.KnownBits.Contains.{Contains, get_constant-Contains, value-one-le}

module _ (A : ApInt) (bits : BitLaws A) (order : OrderLaws A) (shifts : ShiftLaws A)
    (K : KnownBitsMethods A) (laws : KnownBitsLaws A K) (l r : KnownBits A.Num) (x y : A.Num)
    (cl : Contains A l x) (cr : Contains A r y) (narrow : A.width x < 2 ^ 24)
    (below : A.value y < A.width x) where
  open A use {
    Num, width, value, bit, shl, lshr, ashr, shl_by, lshr_by, set_low_bits, set_high_bits,
    get_limited_value,
  }

  bit_width : K.get_bit_width l ≡ width x
  bit_width = laws.get_bit_width_lem l ∙ cl.width_zero

  -- The least shift that is read off the known ones does not exceed the shift.
  least_shift : u32 (get_limited_value r.one) ≤ value y
  least_shift = omega (
    arith,
    value-one-le A bits order r y cr,
    shifts.get_limited_value_lem r.one (omega (arith, value-one-le A bits order r y cr)),
  )

  constant_shift : K.is_constant r ≡ true → get_limited_value (K.get_constant r) ≡ value y
  constant_shift h =
      ap get_limited_value (get_constant-Contains A bits K laws r y cr h)
      ∙ shifts.get_limited_value_lem y (omega arith)

  shl_constant :
      Contains A
        (record {
          zero = set_low_bits (shl_by l.zero (value y)) (value y);
          one = shl_by l.one (value y);
        })
        (shl x y)
  shl_constant = record {
    width_zero = ground (
      arith,
      shifts.shl-shl_by x y below,
      bits.width-shl_by x (value y),
      bits.width-shl_by l.zero (value y),
      bits.width-set_low_bits (shl_by l.zero (value y)) (value y),
      cl.width_zero,
    );
    width_one = ground (
      arith,
      shifts.shl-shl_by x y below,
      bits.width-shl_by x (value y),
      bits.width-shl_by l.one (value y),
      cl.width_one,
    );
    zeros = λ i h. ground (
      arith,
      shifts.shl-shl_by x y below,
      bits.bit-shl_by x (value y) i,
      bits.width-shl_by l.zero (value y),
      bits.bit-shl_by l.zero (value y) i,
      bits.bit-set_low_bits (shl_by l.zero (value y)) (value y) i,
      cl.width_zero,
      cl.zeros (i - value y),
    );
    ones = λ i h. ground (
      arith,
      shifts.shl-shl_by x y below,
      bits.bit-shl_by x (value y) i,
      bits.bit-shl_by l.one (value y) i,
      cl.width_one,
      cl.ones (i - value y),
    );
  }

  lshr_constant :
      Contains A
        (record {
          zero = set_high_bits (lshr_by l.zero (value y)) (value y);
          one = lshr_by l.one (value y);
        })
        (lshr x y)
  lshr_constant = record {
    width_zero = ground (
      arith,
      shifts.lshr-lshr_by x y below,
      bits.width-lshr_by x (value y),
      bits.width-lshr_by l.zero (value y),
      bits.width-set_high_bits (lshr_by l.zero (value y)) (value y),
      cl.width_zero,
    );
    width_one = ground (
      arith,
      shifts.lshr-lshr_by x y below,
      bits.width-lshr_by x (value y),
      bits.width-lshr_by l.one (value y),
      cl.width_one,
    );
    zeros = λ i h. ground (
      arith,
      shifts.lshr-lshr_by x y below,
      bits.bit-lshr_by x (value y) i,
      bits.width-lshr_by l.zero (value y),
      bits.bit-lshr_by l.zero (value y) i,
      bits.bit-set_high_bits (lshr_by l.zero (value y)) (value y) i,
      bits.bit-lt x (i + value y),
      cl.width_zero,
      cl.zeros (i + value y),
    );
    ones = λ i h. ground (
      arith,
      shifts.lshr-lshr_by x y below,
      bits.bit-lshr_by x (value y) i,
      bits.bit-lshr_by l.one (value y) i,
      cl.ones (i + value y),
    );
  }

  in_range : leb (width x) (value y) ≡ false
  in_range = ground arith

  pub shl_kb-Contains : Contains A (shl_kb A K l r) (shl x y)
  unfolding shl_kb
  shl_kb-Contains = elim (Bool-cases (K.is_constant r)) [
    | inl h ↦ rw (h, constant_shift h, bit_width, in_range) shl_constant
    | inr h ↦
        rw (h, bit_width)
          (zero_low-Contains A bits K laws (width x) _ (shl x y)
            (ap width (shifts.shl-shl_by x y below) ∙ bits.width-shl_by x (value y)) (omega arith)
            (λ i lt. ground (
              arith,
              least_shift,
              laws.count_min_trailing_zeros-le l,
              cl.width_zero,
              shifts.shl-shl_by x y below,
              bits.bit-shl_by x (value y) i,
              cl.zeros (i - value y),
              laws.bit-count_min_trailing_zeros l (i - value y),
            )))
  ]

  pub lshr_kb-Contains : Contains A (lshr_kb A K l r) (lshr x y)
  unfolding lshr_kb
  lshr_kb-Contains = elim (Bool-cases (K.is_constant r)) [
    | inl h ↦ rw (h, constant_shift h, bit_width, in_range) lshr_constant
    | inr h ↦
        rw (h, bit_width)
          (zero_high-Contains A bits K laws (width x) _ (lshr x y)
            (ap width (shifts.lshr-lshr_by x y below) ∙ bits.width-lshr_by x (value y))
            (omega arith)
            (λ i lt high. ground (
              arith,
              least_shift,
              laws.count_min_leading_zeros-le l,
              cl.width_zero,
              shifts.lshr-lshr_by x y below,
              bits.bit-lshr_by x (value y) i,
              bits.bit-lt x (i + value y),
              cl.zeros (i + value y),
              laws.bit-count_min_leading_zeros l (i + value y),
            )))
  ]

  pub ashr_kb-Contains : Contains A (ashr_kb A K l r) (ashr x y)
  unfolding ashr_kb
  ashr_kb-Contains = elim (Bool-cases (bit l.one (width l.one - 1))) [
    | inl neg ↦
        rw (neg, bit_width)
          (one_high-Contains A bits K laws (width x) _ (ashr x y) (shifts.width-ashr x y)
            (omega arith)
            (λ i lt high. ground (
              arith,
              least_shift,
              laws.count_min_leading_ones-le l,
              cl.width_one,
              shifts.bit-ashr x y i below,
              cl.ones (width x - 1),
              cl.ones (i + value y),
              laws.bit-count_min_leading_ones l (i + value y),
            )))
    | inr neg_false ↦ elim (Bool-cases (bit l.zero (width l.zero - 1))) [
      | inl pos ↦
          rw (neg_false, pos, bit_width)
            (zero_high-Contains A bits K laws (width x) _ (ashr x y) (shifts.width-ashr x y)
              (omega arith)
              (λ i lt high. ground (
                arith,
                least_shift,
                laws.count_min_leading_zeros-le l,
                cl.width_zero,
                shifts.bit-ashr x y i below,
                cl.zeros (width x - 1),
                cl.zeros (i + value y),
                laws.bit-count_min_leading_zeros l (i + value y),
              )))
      | inr open_sign ↦
          rw (neg_false, open_sign, bit_width)
            (unknown-Contains A bits K laws (width x) (ashr x y) (shifts.width-ashr x y))
    ]
  ]
