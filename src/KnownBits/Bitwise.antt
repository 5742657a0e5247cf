-- ===== src/KnownBits/Bitwise.antt =====
-- The transfer functions of and, or and xor are sound.
use souper.Prelude.{◌≡◌, sym, ◌∙◌, arith}
use souper.Llvm.ApInt.{ApInt, BitLaws}
use souper.Llvm.KnownBits.{KnownBits, KnownBitsMethods}
use souper.KnownBits.Transfer.{and_kb, or_kb, xor_kb}
use souper.KnownBits.Contains.{Contains}

module _ (A : ApInt) (bits : BitLaws A) (K : KnownBitsMethods A) (l r : KnownBits A.Num)
    (x y : A.Num) (cl : Contains A l x) (cr : Contains A r y) (same : A.width x ≡ A.width y) where
  open A use {width, bit, and, or, xor}

  zz : width l.zero ≡ width r.zero
  zz = cl.width_zero ∙ same ∙ sym cr.width_zero

  oo : width l.one ≡ width r.one
  oo = cl.width_one ∙ same ∙ sym cr.width_one

  zo : width l.zero ≡ width r.one
  zo = cl.width_zero ∙ same ∙ sym cr.width_one

  oz : width l.one ≡ width r.zero
  oz = cl.width_one ∙ same ∙ sym cr.width_zero

  pub and_kb-Contains : Contains A (and_kb A K l r) (and x y)
  unfolding and_kb
  and_kb-Contains = record {
    width_zero = bits.width-or _ _ zz ∙ cl.width_zero ∙ sym (bits.width-and x y same);
    width_one = bits.width-and _ _ oo ∙ cl.width_one ∙ sym (bits.width-and x y same);
    zeros = λ i h.
        ground
          (arith, bits.bit-or l.zero r.zero i zz, bits.bit-and x y i same, cl.zeros i, cr.zeros i);
    ones = λ i h.
        ground
          (arith, bits.bit-and l.one r.one i oo, bits.bit-and x y i same, cl.ones i, cr.ones i);
  }

  pub or_kb-Contains : Contains A (or_kb A K l r) (or x y)
  unfolding or_kb
  or_kb-Contains = record {
    width_zero = bits.width-and _ _ zz ∙ cl.width_zero ∙ sym (bits.width-or x y same);
    width_one = bits.width-or _ _ oo ∙ cl.width_one ∙ sym (bits.width-or x y same);
    zeros = λ i h.
        ground
          (arith, bits.bit-and l.zero r.zero i zz, bits.bit-or x y i same, cl.zeros i, cr.zeros i);
    ones = λ i h.
        ground (arith, bits.bit-or l.one r.one i oo, bits.bit-or x y i same, cl.ones i, cr.ones i);
  }

  -- The conjunctions that the two fields of `xor_kb` join have equal widths.
  and_zz_oo : width (and l.zero r.zero) ≡ width (and l.one r.one)
  and_zz_oo = bits.width-and _ _ zz ∙ cl.width_zero ∙ sym cl.width_one ∙ sym (bits.width-and _ _ oo)

  and_zo_oz : width (and l.zero r.one) ≡ width (and l.one r.zero)
  and_zo_oz = bits.width-and _ _ zo ∙ cl.width_zero ∙ sym cl.width_one ∙ sym (bits.width-and _ _ oz)

  pub xor_kb-Contains : Contains A (xor_kb A K l r) (xor x y)
  unfolding xor_kb
  xor_kb-Contains = record {
    width_zero =
        bits.width-or _ _ and_zz_oo
        ∙ bits.width-and _ _ zz
        ∙ cl.width_zero
        ∙ sym (bits.width-xor x y same);
    width_one =
        bits.width-or _ _ and_zo_oz
        ∙ bits.width-and _ _ zo
        ∙ cl.width_zero
        ∙ sym (bits.width-xor x y same);
    zeros = λ i h. ground (
      arith,
      bits.bit-or (and l.zero r.zero) (and l.one r.one) i and_zz_oo,
      bits.bit-and l.zero r.zero i zz,
      bits.bit-and l.one r.one i oo,
      bits.bit-xor x y i same,
      cl.zeros i,
      cr.zeros i,
      cl.ones i,
      cr.ones i,
    );
    ones = λ i h. ground (
      arith,
      bits.bit-or (and l.zero r.one) (and l.one r.zero) i and_zo_oz,
      bits.bit-and l.zero r.one i zo,
      bits.bit-and l.one r.zero i oz,
      bits.bit-xor x y i same,
      cl.zeros i,
      cr.zeros i,
      cl.ones i,
      cr.ones i,
    );
  }
