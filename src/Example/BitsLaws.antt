-- ===== src/Example/BitsLaws.antt =====
-- Lists of bits meet the laws of llvm::APInt.
use native.Mathlib.Nat.{pow-suc}
use souper.Prelude.{
  ==_iff, ◌∙◌, sym, ℕ, zero, suc, ◌+◌, ◌-◌, ◌/◌, ◌^◌, ◌<◌, ◌≤◌, ◌≡◌, refl, ap, Bool, true, false,
  not, ◌&&◌, ◌||◌, ltb, leb, ◌==◌, if◌then◌else◌, [], ◌∷◌, length, arith,
}
use souper.Llvm.ApInt.{xor_bool, BitLaws, OrderLaws, ShiftLaws, OverflowLaws}
use souper.Example.Bits.{Bits, bit_at, tabulate, value_of, of_value, sign, bits_ApInt}

length-tabulate : (w : ℕ) (f : ℕ → Bool) → length (tabulate w f) ≡ w
length-tabulate zero f = refl
length-tabulate (suc w) f = ap suc (length-tabulate w (λ i. f (suc i)))

bit-tabulate : (w : ℕ) (f : ℕ → Bool) (i : ℕ) → bit_at (tabulate w f) i ≡ (ltb i w && f i)
bit-tabulate zero f i = ground arith
bit-tabulate (suc w) f zero = ground arith
bit-tabulate (suc w) f (suc i) = ground (arith, bit-tabulate w (λ i. f (suc i)) i)

bit-lt : (a : Bits) (i : ℕ) → bit_at a i ≡ true → i < length a
bit-lt [] i h = cc
bit-lt (b ∷ a) zero h = omega arith
bit-lt (b ∷ a) (suc i) h = omega (arith, bit-lt a i h)

-- Outside the width a tabulated bit that implies a bit of `a` is no bit.
bit-tabulate_in :
    (a : Bits) (f : ℕ → Bool) (i : ℕ)
    → (f i ≡ true → i < length a)
    → bit_at (tabulate (length a) f) i ≡ f i
bit-tabulate_in a f i h = ground (arith, bit-tabulate (length a) f i)

num_ext :
    (a b : Bits) → length a ≡ length b → ((i : ℕ) → i < length a → bit_at a i ≡ bit_at b i) → a ≡ b
num_ext [] [] w h = refl
num_ext [] (y ∷ b) w h = absurd (omega arith)
num_ext (x ∷ a) [] w h = absurd (omega arith)
num_ext (x ∷ a) (y ∷ b) w h =
    ground (arith, h 0 (omega arith), num_ext a b (omega arith) (λ i lt. h (suc i) (omega arith)))

pub length-of_value : (w n : ℕ) → length (of_value w n) ≡ w
length-of_value zero n = refl
length-of_value (suc w) n = ap suc (length-of_value w (n / 2))

pub bit-of_zero : (w i : ℕ) → bit_at (of_value w 0) i ≡ false
bit-of_zero zero i = refl
bit-of_zero (suc w) zero = refl
bit-of_zero (suc w) (suc i) = bit-of_zero w i

bit-of_one : (w i : ℕ) → 0 < w → bit_at (of_value w 1) i ≡ (i == 0)
bit-of_one zero i h = absurd (omega arith)
bit-of_one (suc w) zero h = refl
bit-of_one (suc w) (suc i) h = ground (arith, bit-of_zero w i)

value-of_value : (w n : ℕ) → n < 2 ^ w → value_of (of_value w n) ≡ n
value-of_value zero n h = omega arith
value-of_value (suc w) n h = ground (arith, pow-suc 2 w, value-of_value w (n / 2))

value_mono :
    (a b : Bits)
    → length a ≡ length b
    → ((i : ℕ) → bit_at a i ≡ true → bit_at b i ≡ true)
    → value_of a ≤ value_of b
value_mono [] b w h = omega arith
value_mono (x ∷ a) [] w h = absurd (omega arith)
value_mono (x ∷ a) (y ∷ b) w h = ground (arith, h 0, value_mono a b (omega arith) (λ i. h (suc i)))

value_inj : (a b : Bits) → length a ≡ length b → value_of a ≡ value_of b → a ≡ b
value_inj [] [] w h = refl
value_inj [] (y ∷ b) w h = absurd (omega arith)
value_inj (x ∷ a) [] w h = absurd (omega arith)
value_inj (x ∷ a) (y ∷ b) w h = ground (arith, value_inj a b (omega arith))

value-all_ones : (w : ℕ) → value_of (tabulate w (λ i. true)) + 1 ≡ 2 ^ w
value-all_ones zero = refl
value-all_ones (suc w) = omega (arith, value-all_ones w, pow-suc 2 w)

pub bits_laws : BitLaws bits_ApInt
bits_laws = record {
  bit-lt = bit-lt;
  num_ext = num_ext;
  is_all_ones-get_all_ones =
      λ w. (==_iff _ _).1 (value-all_ones w ∙ ap (λ n. 2 ^ n) (sym (length-tabulate w _)));
  width-get_all_ones = λ w. length-tabulate w _;
  bit-get_all_ones = λ w i h. ground (arith, h, bit-tabulate w (λ i. true) i);
  width-of = length-of_value;
  bit-of_zero = bit-of_zero;
  bit-of_one = bit-of_one;
  width-complement = λ a. length-tabulate (length a) _;
  bit-complement =
      λ a i. ground (arith, bit-tabulate (length a) (λ i. ltb i (length a) && not (bit_at a i)) i);
  width-and = λ a b w. length-tabulate (length a) _;
  bit-and = λ a b i w.
      bit-tabulate_in a (λ i. bit_at a i && bit_at b i) i (λ h. ground (arith, bit-lt a i));
  width-or = λ a b w. length-tabulate (length a) _;
  bit-or = λ a b i w.
      bit-tabulate_in a (λ i. bit_at a i || bit_at b i) i
        (λ h. ground (arith, bit-lt a i, bit-lt b i));
  width-xor = λ a b w. length-tabulate (length a) _;
  bit-xor = λ a b i w.
      bit-tabulate_in a (λ i. xor_bool (bit_at a i) (bit_at b i)) i
        (λ h. ground (arith, bit-lt a i, bit-lt b i));
  width-shl_by = λ a n. length-tabulate (length a) _;
  bit-shl_by = λ a n i. bit-tabulate (length a) (λ i. leb n i && bit_at a (i - n)) i;
  width-lshr_by = λ a n. length-tabulate (length a) _;
  bit-lshr_by =
      λ a n i. bit-tabulate_in a (λ i. bit_at a (i + n)) i (λ h. omega (arith, bit-lt a (i + n) h));
  width-zext = λ a w h. length-tabulate w _;
  bit-zext = λ a w i h. ground (arith, bit-tabulate w (bit_at a) i, bit-lt a i);
  width-trunc = λ a w h. length-tabulate w _;
  bit-trunc = λ a w i h. bit-tabulate w (bit_at a) i;
  width-sext_or_trunc = λ a w. length-tabulate w _;
  width-extract_bits = λ a n pos h. length-tabulate n _;
  bit-extract_bits = λ a n pos i h. bit-tabulate n (λ j. bit_at a (j + pos)) i;
  width-set_bit = λ a n. length-tabulate (length a) _;
  bit-set_bit =
      λ a n i h. bit-tabulate_in a (λ i. i == n || bit_at a i) i (λ p. ground (arith, bit-lt a i));
  width-clear_bit = λ a n. length-tabulate (length a) _;
  bit-clear_bit = λ a n i h.
      bit-tabulate_in a (λ i. not (i == n) && bit_at a i) i (λ p. ground (arith, bit-lt a i));
  width-set_low_bits = λ a n. length-tabulate (length a) _;
  bit-set_low_bits =
      λ a n i h. bit-tabulate_in a (λ i. ltb i n || bit_at a i) i (λ p. ground (arith, bit-lt a i));
  width-set_high_bits = λ a n. length-tabulate (length a) _;
  bit-set_high_bits = λ a n i h.
      ground
        (arith, bit-tabulate (length a) (λ i. leb (length a) (i + n) || bit_at a i) i, bit-lt a i);
  width-get_hi_bits = λ a n. length-tabulate (length a) _;
  bit-get_hi_bits = λ a n i h.
      bit-tabulate_in a (λ i. bit_at a (i + (length a - n))) i
        (λ p. omega (arith, bit-lt a (i + (length a - n)) p));
}

pub order_laws : OrderLaws bits_ApInt
order_laws = record {
  eq_iff_value = λ a b w. refl;
  value_inj = value_inj;
  value-of = value-of_value;
  eq_u64-value = λ a n. refl;
  ult-value = λ a b w. refl;
  ule-value = λ a b w. refl;
  slt-value = λ a b w. refl;
  sle-value = λ a b w. refl;
  value_mono = value_mono;
}

pub shift_laws : ShiftLaws bits_ApInt
shift_laws = record {
  shl-shl_by = λ a b h. ground arith;
  lshr-lshr_by = λ a b h. refl;
  width-ashr = λ a b. length-tabulate (length a) _;
  bit-ashr = λ a b i h.
      bit-tabulate (length a)
        (λ i. if ltb (i + value_of b) (length a) then bit_at a (i + value_of b) else sign a) i;
  get_limited_value_lem = λ a h. ground arith;
}

pub overflow_laws : OverflowLaws bits_ApInt
overflow_laws = record {
  sadd_ov-result = λ a b. refl;
  uadd_ov-result = λ a b. refl;
  ssub_ov-result = λ a b. refl;
  usub_ov-result = λ a b. refl;
  smul_ov-result = λ a b. refl;
  umul_ov-result = λ a b. refl;
  sshl_ov-big = λ a b h. ground arith;
  ushl_ov-big = λ a b h. ground arith;
  sshl_ov-result = λ a b h. refl;
  ushl_ov-result = λ a b h. refl;
}
