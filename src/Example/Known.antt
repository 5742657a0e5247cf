-- ===== src/Example/Known.antt =====
-- An instance of the methods of llvm::KnownBits over lists of bits.
use souper.Prelude.{
  ℕ, zero, suc, ◌+◌, ◌<◌, ◌≤◌, ◌≡◌, refl, Bool, true, ◌&&◌, ◌||◌, [], ◌∷◌, length, arith,
}
use souper.Llvm.KnownBits.{KnownBitsMethods, KnownBitsLaws}
use souper.KnownBits.Hints.{Llvm}
use souper.Example.Bits.{Bits, bit_at, of_value, low_ones, high_ones, flip, bits_ApInt}
use souper.Example.BitsLaws.{
  bits_laws, order_laws, shift_laws, overflow_laws, length-of_value, bit-of_zero,
}

-- Every position is a known zero or a known one.
abbrev pub all_known : Bits → Bits → Bool
all_known [] ones = true
all_known (z ∷ zeros) [] = z && all_known zeros []
all_known (z ∷ zeros) (o ∷ ones) = (z || o) && all_known zeros ones

abbrev pub bits_KnownBits : KnownBitsMethods bits_ApInt
bits_KnownBits = record {
  unknown = λ w. record { zero = of_value w 0; one = of_value w 0 };
  get_bit_width = λ k. length k.zero;
  is_constant = λ k. all_known k.zero k.one;
  get_constant = λ k. k.one;
  count_min_trailing_zeros = λ k. low_ones k.zero;
  count_min_leading_zeros = λ k. high_ones k.zero;
  count_max_leading_zeros = λ k. high_ones (flip k.one);
  count_min_leading_ones = λ k. high_ones k.one;
  compute_for_add_sub =
      λ add nsw a b. record { zero = of_value (length a.zero) 0; one = of_value (length a.zero) 0 };
}

all_known-bit :
    (zeros ones : Bits) (i : ℕ)
    → all_known zeros ones ≡ true
    → i < length zeros
    → (bit_at zeros i || bit_at ones i) ≡ true
all_known-bit [] ones i h lt = absurd (omega arith)
all_known-bit (z ∷ zeros) [] zero h lt = ground arith
all_known-bit (z ∷ zeros) (o ∷ ones) zero h lt = ground arith
all_known-bit (z ∷ zeros) [] (suc i) h lt = ground (arith, all_known-bit zeros [] i)
all_known-bit (z ∷ zeros) (o ∷ ones) (suc i) h lt = ground (arith, all_known-bit zeros ones i)

low_ones-le : (a : Bits) → low_ones a ≤ length a
low_ones-le [] = omega arith
low_ones-le (b ∷ a) = ground (arith, low_ones-le a)

bit-low_ones : (a : Bits) (i : ℕ) → i < low_ones a → bit_at a i ≡ true
bit-low_ones [] i h = absurd (omega arith)
bit-low_ones (b ∷ a) zero h = ground arith
bit-low_ones (b ∷ a) (suc i) h = ground (arith, bit-low_ones a i)

high_ones-le : (a : Bits) → high_ones a ≤ length a
high_ones-le [] = omega arith
high_ones-le (b ∷ a) = ground (arith, high_ones-le a)

bit-high_ones : (a : Bits) (i : ℕ) → length a ≤ i + high_ones a → i < length a → bit_at a i ≡ true
bit-high_ones [] i h lt = absurd (omega arith)
bit-high_ones (b ∷ a) zero h lt = ground (arith, high_ones-le a)
bit-high_ones (b ∷ a) (suc i) h lt = ground (arith, high_ones-le a, bit-high_ones a i)

known_laws : KnownBitsLaws bits_ApInt bits_KnownBits
known_laws = record {
  get_bit_width_lem = λ k. refl;
  width-unknown_zero = λ w. length-of_value w 0;
  width-unknown_one = λ w. length-of_value w 0;
  bit-unknown_zero = bit-of_zero;
  bit-unknown_one = bit-of_zero;
  is_constant_lem = λ k i h lt. all_known-bit k.zero k.one i h lt;
  get_constant_lem = λ k. refl;
  count_min_trailing_zeros-le = λ k. low_ones-le k.zero;
  bit-count_min_trailing_zeros = λ k i h. bit-low_ones k.zero i h;
  count_min_leading_zeros-le = λ k. high_ones-le k.zero;
  bit-count_min_leading_zeros = λ k i h lt. bit-high_ones k.zero i h lt;
  count_min_leading_ones-le = λ k. high_ones-le k.one;
  bit-count_min_leading_ones = λ k i h lt. bit-high_ones k.one i h lt;
}

pub bits-Llvm : Llvm bits_ApInt bits_KnownBits
bits-Llvm = record {
  bits = bits_laws;
  order = order_laws;
  shifts = shift_laws;
  overflow = overflow_laws;
  known = known_laws;
}
