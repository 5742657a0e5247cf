-- ===== src/KnownBits/Ends.antt =====
-- Known bits that say nothing but the bits at one end.
use souper.Prelude.{ℕ, ◌+◌, ◌<◌, ◌≤◌, ◌≡◌, ◌∙◌, sym, true, false, arith}
use souper.Llvm.ApInt.{ApInt, BitLaws}
use souper.Llvm.KnownBits.{KnownBits, KnownBitsMethods, KnownBitsLaws}
use souper.KnownBits.Transfer.{zero_low, zero_high, one_high}
use souper.KnownBits.Contains.{Contains}

module _ (A : ApInt) (bits : BitLaws A) (K : KnownBitsMethods A) (laws : KnownBitsLaws A K) where
  open A use {Num, width, bit, set_low_bits, set_high_bits}
  open K use {unknown}

  pub unknown-Contains : (w : ℕ) (z : Num) → width z ≡ w → Contains A (unknown w) z
  unknown-Contains w z e = record {
    width_zero = laws.width-unknown_zero w ∙ sym e;
    width_one = laws.width-unknown_one w ∙ sym e;
    zeros = λ i h. ground (arith, laws.bit-unknown_zero w i);
    ones = λ i h. ground (arith, laws.bit-unknown_one w i);
  }

  pub zero_low-Contains :
      (w n : ℕ) (z : Num)
      → width z ≡ w
      → n ≤ w
      → ((i : ℕ) → i < n → bit z i ≡ false)
      → Contains A (zero_low A K (unknown w) n) z
  zero_low-Contains w n z e small h = record {
    width_zero = bits.width-set_low_bits (unknown w).zero n ∙ laws.width-unknown_zero w ∙ sym e;
    width_one = laws.width-unknown_one w ∙ sym e;
    zeros = λ i known. ground (
      arith,
      laws.width-unknown_zero w,
      bits.bit-set_low_bits (unknown w).zero n i,
      laws.bit-unknown_zero w i,
      h i,
    );
    ones = λ i known. ground (arith, laws.bit-unknown_one w i);
  }

  pub zero_high-Contains :
      (w n : ℕ) (z : Num)
      → width z ≡ w
      → n ≤ w
      → ((i : ℕ) → i < w → w ≤ i + n → bit z i ≡ false)
      → Contains A (zero_high A K (unknown w) n) z
  zero_high-Contains w n z e small h = record {
    width_zero = bits.width-set_high_bits (unknown w).zero n ∙ laws.width-unknown_zero w ∙ sym e;
    width_one = laws.width-unknown_one w ∙ sym e;
    zeros = λ i known. ground (
      arith,
      laws.width-unknown_zero w,
      bits.bit-set_high_bits (unknown w).zero n i,
      laws.bit-unknown_zero w i,
      h i,
    );
    ones = λ i known. ground (arith, laws.bit-unknown_one w i);
  }

  pub one_high-Contains :
      (w n : ℕ) (z : Num)
      → width z ≡ w
      → n ≤ w
      → ((i : ℕ) → i < w → w ≤ i + n → bit z i ≡ true)
      → Contains A (one_high A K (unknown w) n) z
  one_high-Contains w n z e small h = record {
    width_zero = laws.width-unknown_zero w ∙ sym e;
    width_one = bits.width-set_high_bits (unknown w).one n ∙ laws.width-unknown_one w ∙ sym e;
    zeros = λ i known. ground (arith, laws.bit-unknown_zero w i);
    ones = λ i known. ground (
      arith,
      laws.width-unknown_one w,
      bits.bit-set_high_bits (unknown w).one n i,
      laws.bit-unknown_one w i,
      h i,
    );
  }

  -- Adding known bits at the high end.
  pub zero_high_more :
      (k : KnownBits Num) (n : ℕ) (z : Num)
      → Contains A k z
      → n ≤ width z
      → ((i : ℕ) → i < width z → width z ≤ i + n → bit z i ≡ false)
      → Contains A (zero_high A K k n) z
  zero_high_more k n z c small h = record {
    width_zero = bits.width-set_high_bits k.zero n ∙ c.width_zero;
    width_one = c.width_one;
    zeros =
        λ i known. ground (arith, c.width_zero, bits.bit-set_high_bits k.zero n i, c.zeros i, h i);
    ones = c.ones;
  }

  pub one_high_more :
      (k : KnownBits Num) (n : ℕ) (z : Num)
      → Contains A k z
      → n ≤ width z
      → ((i : ℕ) → i < width z → width z ≤ i + n → bit z i ≡ true)
      → Contains A (one_high A K k n) z
  one_high_more k n z c small h = record {
    width_zero = c.width_zero;
    width_one = bits.width-set_high_bits k.one n ∙ c.width_one;
    zeros = c.zeros;
    ones = λ i known. ground (arith, c.width_one, bits.bit-set_high_bits k.one n i, c.ones i, h i);
  }
