-- ===== src/KnownBits/Order.antt =====
-- The transfer functions of the ordered comparisons are sound.
use souper.Prelude.{
  ℕ, ◌-◌, ◌<◌, ◌≤◌, ◌≡◌, sym, ap, ◌∙◌, true, false, ◌||◌, arith, Bool-cases, inl, inr, ◌⊎◌,
  if◌then◌else◌,
}
use souper.Llvm.ApInt.{ApInt, BitLaws, OrderLaws, sign_bit}
use souper.Llvm.KnownBits.{KnownBits, KnownBitsMethods, KnownBitsLaws}
use souper.KnownBits.Bounds.{get_umin, get_umax, get_smin, get_smax}
use souper.KnownBits.Transfer.{ult_kb, slt_kb, ule_kb, sle_kb}
use souper.KnownBits.Contains.{Contains, value-one-le, value-le-complement}
use souper.KnownBits.Compare.{truth, decide_bit-Contains}

module _ (A : ApInt) (bits : BitLaws A) (order : OrderLaws A) (K : KnownBitsMethods A)
    (laws : KnownBitsLaws A K) where
  open A use {Num, width, value, bit, ult, ule, slt, sle, complement, set_bit, clear_bit}

  -- The signed order: a number with its sign bit set is below one without; else the values decide.
  abbrev pub SLe : Num → Num → Type 0
  SLe a b =
      ((sign_bit A a ≡ true) × (sign_bit A b ≡ false))
      ⊎ ((sign_bit A a ≡ sign_bit A b) × (value a ≤ value b))

  -- Bounds of one operand.
  module _ (k : KnownBits Num) (x : Num) (c : Contains A k x) (pos : 0 < width x) where
    umin-le : value (get_umin A K k) ≤ value x
    unfolding get_umin
    umin-le = value-one-le A bits order k x c

    le-umax : value x ≤ value (get_umax A K k)
    unfolding get_umax
    le-umax = value-le-complement A bits order k x c

    width-umin : width (get_umin A K k) ≡ width x
    unfolding get_umin
    width-umin = c.width_one

    width-umax : width (get_umax A K k) ≡ width x
    unfolding get_umax
    width-umax = bits.width-complement k.zero ∙ c.width_zero

    bit_width : K.get_bit_width k ≡ width x
    bit_width = laws.get_bit_width_lem k ∙ c.width_zero

    width-smin : width (get_smin A K k) ≡ width x
    unfolding get_smin
    width-smin = ground (arith, c.width_one, bits.width-set_bit k.one (K.get_bit_width k - 1))

    width-smax : width (get_smax A K k) ≡ width x
    unfolding get_smax
    width-smax = ground (
      arith,
      c.width_zero,
      bits.width-complement k.zero,
      bits.width-clear_bit (complement k.zero) (K.get_bit_width k - 1),
    )

    abbrev top : ℕ
    top = width x - 1

    get_smin-eq :
        get_smin A K k ≡ (if bit k.one top || bit k.zero top then k.one else set_bit k.one top)
    unfolding get_smin
    get_smin-eq = rw bit_width

    get_smax-eq : get_smax A K k ≡ (
        if bit k.one top || bit k.zero top
        then complement k.zero
        else clear_bit (complement k.zero) top)
    unfolding get_smax
    get_smax-eq = rw bit_width

    -- With a known sign the bounds of the unsigned order serve.
    one-SLe : (bit k.one top || bit k.zero top) ≡ true → SLe k.one x
    one-SLe h = ground (
      arith,
      ap (λ w. bit k.one (w - 1)) c.width_one,
      c.ones top,
      c.zeros top,
      value-one-le A bits order k x c,
    )

    width-complement : width (complement k.zero) ≡ width x
    width-complement = bits.width-complement k.zero ∙ c.width_zero

    complement-SLe : (bit k.one top || bit k.zero top) ≡ true → SLe x (complement k.zero)
    complement-SLe h = ground (
      arith,
      ap (λ w. bit (complement k.zero) (w - 1)) width-complement,
      bits.bit-complement k.zero top,
      c.width_zero,
      c.ones top,
      c.zeros top,
      value-le-complement A bits order k x c,
    )

    -- With an unknown sign the lower bound is negative and the upper bound is not.
    set_bit-le : bit x top ≡ true → value (set_bit k.one top) ≤ value x
    set_bit-le h =
        order.value_mono (set_bit k.one top) x (bits.width-set_bit k.one top ∙ c.width_one)
          (λ i p. ground (arith, bits.bit-set_bit k.one top i, c.width_one, c.ones i))

    set_bit-SLe : SLe (set_bit k.one top) x
    set_bit-SLe = ground (
      arith,
      ap (λ w. bit (set_bit k.one top) (w - 1)) (bits.width-set_bit k.one top ∙ c.width_one),
      bits.bit-set_bit k.one top top,
      c.width_one,
      set_bit-le,
    )

    le-clear_bit : bit x top ≡ false → value x ≤ value (clear_bit (complement k.zero) top)
    le-clear_bit h =
        order.value_mono x (clear_bit (complement k.zero) top)
          (sym (bits.width-clear_bit (complement k.zero) top ∙ width-complement))
          (λ i p. ground (
            arith,
            bits.bit-clear_bit (complement k.zero) top i,
            bits.bit-complement k.zero i,
            width-complement,
            c.width_zero,
            bits.bit-lt x i p,
            c.zeros i,
          ))

    clear_bit-SLe : SLe x (clear_bit (complement k.zero) top)
    clear_bit-SLe = ground (
      arith,
      ap (λ w. bit (clear_bit (complement k.zero) top) (w - 1))
          (bits.width-clear_bit (complement k.zero) top ∙ width-complement),
      bits.bit-clear_bit (complement k.zero) top top,
      width-complement,
      le-clear_bit,
    )

    smin-SLe : SLe (get_smin A K k) x
    smin-SLe = elim (Bool-cases (bit k.one top || bit k.zero top)) [
      | inl known ↦ rw (get_smin-eq, known) (one-SLe known)
      | inr free ↦ rw (get_smin-eq, free) set_bit-SLe
    ]

    smax-SLe : SLe x (get_smax A K k)
    smax-SLe = elim (Bool-cases (bit k.one top || bit k.zero top)) [
      | inl known ↦ rw (get_smax-eq, known) (complement-SLe known)
      | inr free ↦ rw (get_smax-eq, free) clear_bit-SLe
    ]

  module _ (l r : KnownBits Num) (x y : Num) (cl : Contains A l x) (cr : Contains A r y)
      (same : width x ≡ width y) (pos : 0 < width x) where
    umax_umin : width (get_umax A K l) ≡ width (get_umin A K r)
    umax_umin = width-umax l x cl pos ∙ same ∙ sym (width-umin r y cr (rw (← same) pos))

    umax_umin' : width (get_umax A K r) ≡ width (get_umin A K l)
    umax_umin' = width-umax r y cr (rw (← same) pos) ∙ sym same ∙ sym (width-umin l x cl pos)

    smax_smin : width (get_smax A K l) ≡ width (get_smin A K r)
    smax_smin = width-smax l x cl pos ∙ same ∙ sym (width-smin r y cr (rw (← same) pos))

    smax_smin' : width (get_smax A K r) ≡ width (get_smin A K l)
    smax_smin' = width-smax r y cr (rw (← same) pos) ∙ sym same ∙ sym (width-smin l x cl pos)

    pub ult_kb-Contains : Contains A (ult_kb A K l r) (truth A (ult x y))
    unfolding ult_kb
    ult_kb-Contains =
        decide_bit-Contains A bits order K laws _ _ (ult x y)
          (λ h. ground (
            arith,
            order.ult-value (get_umax A K l) (get_umin A K r) umax_umin,
            order.ult-value x y same,
            le-umax l x cl pos,
            umin-le r y cr (rw (← same) pos),
          ))
          (λ h. ground (
            arith,
            order.ule-value (get_umax A K r) (get_umin A K l) umax_umin',
            order.ult-value x y same,
            le-umax r y cr (rw (← same) pos),
            umin-le l x cl pos,
          ))

    pub ule_kb-Contains : Contains A (ule_kb A K l r) (truth A (ule x y))
    unfolding ule_kb
    ule_kb-Contains =
        decide_bit-Contains A bits order K laws _ _ (ule x y)
          (λ h. ground (
            arith,
            order.ule-value (get_umax A K l) (get_umin A K r) umax_umin,
            order.ule-value x y same,
            le-umax l x cl pos,
            umin-le r y cr (rw (← same) pos),
          ))
          (λ h. ground (
            arith,
            order.ult-value (get_umax A K r) (get_umin A K l) umax_umin',
            order.ule-value x y same,
            le-umax r y cr (rw (← same) pos),
            umin-le l x cl pos,
          ))

    pub slt_kb-Contains : Contains A (slt_kb A K l r) (truth A (slt x y))
    unfolding slt_kb
    slt_kb-Contains =
        decide_bit-Contains A bits order K laws _ _ (slt x y)
          (λ h. ground (
            arith,
            order.slt-value (get_smax A K l) (get_smin A K r) smax_smin,
            order.slt-value x y same,
            smax-SLe l x cl pos,
            smin-SLe r y cr (rw (← same) pos),
          ))
          (λ h. ground (
            arith,
            order.sle-value (get_smax A K r) (get_smin A K l) smax_smin',
            order.slt-value x y same,
            smax-SLe r y cr (rw (← same) pos),
            smin-SLe l x cl pos,
          ))

    pub sle_kb-Contains : Contains A (sle_kb A K l r) (truth A (sle x y))
    unfolding sle_kb
    sle_kb-Contains =
        decide_bit-Contains A bits order K laws _ _ (sle x y)
          (λ h. ground (
            arith,
            order.sle-value (get_smax A K l) (get_smin A K r) smax_smin,
            order.sle-value x y same,
            smax-SLe l x cl pos,
            smin-SLe r y cr (rw (← same) pos),
          ))
          (λ h. ground (
            arith,
            order.slt-value (get_smax A K r) (get_smin A K l) smax_smin',
            order.sle-value x y same,
            smax-SLe r y cr (rw (← same) pos),
            smin-SLe l x cl pos,
          ))
