-- ===== src/Llvm/ApInt.antt =====
-- llvm::APInt, an integer of a fixed bit width, as an interface: the operations that Souper calls,
-- and the documented behaviour that the proofs rely on.
use souper.Prelude.{List, ℕ, ◌+◌, ◌-◌, ◌^◌, ◌≤◌, ◌<◌, ◌≡◌, Bool, true, false, not, ◌&&◌, ◌||◌}
use souper.Prelude.{if◌then◌else◌, ltb, leb, ◌==◌}

pub record ApInt : Type 1 where
  pub Num : Type 0
  -- getBitWidth, getZExtValue (the unsigned value), operator[] and APInt(width, value).
  pub width : Num → ℕ
  pub value : Num → ℕ
  pub bit : Num → ℕ → Bool
  pub of : ℕ → ℕ → Num
  pub get_all_ones_value : ℕ → Num
  -- APInt(width, text, 10), for a decimal number with an optional sign in front.
  pub of_decimal : ℕ → List ℕ → Num
  -- The value, held to the range of a uint64_t.
  pub get_limited_value : Num → ℕ
  -- Comparisons: == and != of two APInts, == of an APInt and a uint64_t, ult, ule, slt, sle.
  pub eq : Num → Num → Bool
  pub eq_u64 : Num → ℕ → Bool
  pub ult : Num → Num → Bool
  pub ule : Num → Num → Bool
  pub slt : Num → Num → Bool
  pub sle : Num → Num → Bool
  pub is_min_signed_value : Num → Bool
  pub is_all_ones_value : Num → Bool
  pub is_power_of_2 : Num → Bool
  pub is_negative : Num → Bool
  pub is_int_n : Num → ℕ → Bool
  pub is_signed_int_n : Num → ℕ → Bool
  -- Arithmetic, wrapping at the width.
  pub add : Num → Num → Num
  pub sub : Num → Num → Num
  pub mul : Num → Num → Num
  pub udiv : Num → Num → Num
  pub sdiv : Num → Num → Num
  pub urem : Num → Num → Num
  pub srem : Num → Num → Num
  -- The remainder by a uint64_t.
  pub urem_u64 : Num → ℕ → ℕ
  -- Arithmetic with the overflow flag.
  pub sadd_ov : Num → Num → Num × Bool
  pub uadd_ov : Num → Num → Num × Bool
  pub ssub_ov : Num → Num → Num × Bool
  pub usub_ov : Num → Num → Num × Bool
  pub smul_ov : Num → Num → Num × Bool
  pub umul_ov : Num → Num → Num × Bool
  pub sshl_ov : Num → Num → Num × Bool
  pub ushl_ov : Num → Num → Num × Bool
  -- Saturating arithmetic.
  pub sadd_sat : Num → Num → Num
  pub uadd_sat : Num → Num → Num
  pub ssub_sat : Num → Num → Num
  pub usub_sat : Num → Num → Num
  -- Bitwise operations.
  pub complement : Num → Num
  pub and : Num → Num → Num
  pub or : Num → Num → Num
  pub xor : Num → Num → Num
  -- Shifts, by an APInt and by a number.
  pub shl : Num → Num → Num
  pub lshr : Num → Num → Num
  pub ashr : Num → Num → Num
  pub shl_by : Num → ℕ → Num
  pub lshr_by : Num → ℕ → Num
  -- Changes of width.
  pub zext : Num → ℕ → Num
  pub sext : Num → ℕ → Num
  pub trunc : Num → ℕ → Num
  pub sext_or_trunc : Num → ℕ → Num
  pub extract_bits : Num → ℕ → ℕ → Num
  pub get_hi_bits : Num → ℕ → Num
  -- Counts of bits.
  pub count_population : Num → ℕ
  pub count_leading_zeros : Num → ℕ
  pub count_trailing_zeros : Num → ℕ
  -- Single bits and runs of bits.
  pub set_bit : Num → ℕ → Num
  pub clear_bit : Num → ℕ → Num
  pub set_low_bits : Num → ℕ → Num
  pub set_high_bits : Num → ℕ → Num
  pub set_bits_from : Num → ℕ → Num
  pub byte_swap : Num → Num
  pub reverse_bits : Num → Num

abbrev pub xor_bool : Bool → Bool → Bool
xor_bool a b = (a && not b) || (not a && b)

module _ (A : ApInt) where
  open A use {
    Num, width, value, bit, of, get_all_ones_value, eq, eq_u64, ult, ule, slt, sle,
    is_all_ones_value, add, sub, mul, sadd_ov, uadd_ov, ssub_ov, usub_ov, smul_ov, umul_ov, sshl_ov,
    ushl_ov, complement, and, or, xor, shl, lshr, ashr, get_limited_value, shl_by, lshr_by, zext,
    trunc, sext_or_trunc, extract_bits, get_hi_bits, set_bit, clear_bit, set_low_bits,
    set_high_bits,
  }

  -- The bit that the sign is read from.
  abbrev pub sign_bit : Num → Bool
  sign_bit a = bit a (width a - 1)

  -- Operations described bit by bit. The operations on two numbers want equal widths.
  -- A position at or above the width holds no bit.
  pub record BitLaws : Type 0 where
    pub bit-lt : (a : Num) (i : ℕ) → bit a i ≡ true → i < width a
    pub num_ext :
        (a b : Num) → width a ≡ width b → ((i : ℕ) → i < width a → bit a i ≡ bit b i) → a ≡ b
    pub is_all_ones-get_all_ones : (w : ℕ) → is_all_ones_value (get_all_ones_value w) ≡ true
    pub width-get_all_ones : (w : ℕ) → width (get_all_ones_value w) ≡ w
    pub bit-get_all_ones : (w i : ℕ) → i < w → bit (get_all_ones_value w) i ≡ true
    pub width-of : (w n : ℕ) → width (of w n) ≡ w
    pub bit-of_zero : (w i : ℕ) → bit (of w 0) i ≡ false
    pub bit-of_one : (w i : ℕ) → 0 < w → bit (of w 1) i ≡ (i == 0)
    pub width-complement : (a : Num) → width (complement a) ≡ width a
    pub bit-complement :
        (a : Num) (i : ℕ) → bit (complement a) i ≡ (ltb i (width a) && not (bit a i))
    pub width-and : (a b : Num) → width a ≡ width b → width (and a b) ≡ width a
    pub bit-and : (a b : Num) (i : ℕ) → width a ≡ width b → bit (and a b) i ≡ (bit a i && bit b i)
    pub width-or : (a b : Num) → width a ≡ width b → width (or a b) ≡ width a
    pub bit-or : (a b : Num) (i : ℕ) → width a ≡ width b → bit (or a b) i ≡ (bit a i || bit b i)
    pub width-xor : (a b : Num) → width a ≡ width b → width (xor a b) ≡ width a
    pub bit-xor :
        (a b : Num) (i : ℕ)
        → width a ≡ width b
        → bit (xor a b) i ≡ ((bit a i && not (bit b i)) || (not (bit a i) && bit b i))
    pub width-shl_by : (a : Num) (n : ℕ) → width (shl_by a n) ≡ width a
    pub bit-shl_by :
        (a : Num) (n i : ℕ) → bit (shl_by a n) i ≡ (ltb i (width a) && (leb n i && bit a (i - n)))
    pub width-lshr_by : (a : Num) (n : ℕ) → width (lshr_by a n) ≡ width a
    pub bit-lshr_by : (a : Num) (n i : ℕ) → bit (lshr_by a n) i ≡ bit a (i + n)
    pub width-zext : (a : Num) (w : ℕ) → width a ≤ w → width (zext a w) ≡ w
    pub bit-zext : (a : Num) (w i : ℕ) → width a ≤ w → bit (zext a w) i ≡ bit a i
    pub width-trunc : (a : Num) (w : ℕ) → w ≤ width a → width (trunc a w) ≡ w
    pub bit-trunc : (a : Num) (w i : ℕ) → w ≤ width a → bit (trunc a w) i ≡ (ltb i w && bit a i)
    pub width-sext_or_trunc : (a : Num) (w : ℕ) → width (sext_or_trunc a w) ≡ w
    pub width-extract_bits :
        (a : Num) (n pos : ℕ) → pos + n ≤ width a → width (extract_bits a n pos) ≡ n
    pub bit-extract_bits :
        (a : Num) (n pos i : ℕ)
        → pos + n ≤ width a
        → bit (extract_bits a n pos) i ≡ (ltb i n && bit a (i + pos))
    pub width-set_bit : (a : Num) (n : ℕ) → width (set_bit a n) ≡ width a
    pub bit-set_bit : (a : Num) (n i : ℕ) → n < width a → bit (set_bit a n) i ≡ (i == n || bit a i)
    pub width-clear_bit : (a : Num) (n : ℕ) → width (clear_bit a n) ≡ width a
    pub bit-clear_bit :
        (a : Num) (n i : ℕ) → n < width a → bit (clear_bit a n) i ≡ (not (i == n) && bit a i)
    pub width-set_low_bits : (a : Num) (n : ℕ) → width (set_low_bits a n) ≡ width a
    pub bit-set_low_bits :
        (a : Num) (n i : ℕ) → n ≤ width a → bit (set_low_bits a n) i ≡ (ltb i n || bit a i)
    pub width-set_high_bits : (a : Num) (n : ℕ) → width (set_high_bits a n) ≡ width a
    pub bit-set_high_bits :
        (a : Num) (n i : ℕ)
        → n ≤ width a
        → bit (set_high_bits a n) i ≡ ((ltb i (width a) && leb (width a) (i + n)) || bit a i)
    pub width-get_hi_bits : (a : Num) (n : ℕ) → width (get_hi_bits a n) ≡ width a
    pub bit-get_hi_bits :
        (a : Num) (n i : ℕ) → n ≤ width a → bit (get_hi_bits a n) i ≡ bit a (i + (width a - n))

  -- Shifts by an APInt below the width, and the value as a uint64_t.
  pub record ShiftLaws : Type 0 where
    pub shl-shl_by : (a b : Num) → value b < width a → shl a b ≡ shl_by a (value b)
    pub lshr-lshr_by : (a b : Num) → value b < width a → lshr a b ≡ lshr_by a (value b)
    pub width-ashr : (a b : Num) → width (ashr a b) ≡ width a
    pub bit-ashr :
        (a b : Num) (i : ℕ)
        → value b < width a
        → bit (ashr a b) i ≡ (
            ltb i (width a)
            && (if ltb (i + value b) (width a) then bit a (i + value b) else sign_bit a))
    pub get_limited_value_lem : (a : Num) → value a < 2 ^ 64 → get_limited_value a ≡ value a

  -- Equality and order, and what the value has to do with the bits.
  pub record OrderLaws : Type 0 where
    pub eq_iff_value : (a b : Num) → width a ≡ width b → eq a b ≡ (value a == value b)
    pub value_inj : (a b : Num) → width a ≡ width b → value a ≡ value b → a ≡ b
    pub value-of : (w n : ℕ) → n < 2 ^ w → value (of w n) ≡ n
    pub eq_u64-value : (a : Num) (n : ℕ) → eq_u64 a n ≡ (value a == n)
    pub ult-value : (a b : Num) → width a ≡ width b → ult a b ≡ ltb (value a) (value b)
    pub ule-value : (a b : Num) → width a ≡ width b → ule a b ≡ leb (value a) (value b)
    -- Two's complement: a number with its sign bit set is below one without.
    pub slt-value :
        (a b : Num)
        → width a ≡ width b
        → slt a b ≡ (
            (sign_bit a && not (sign_bit b))
            || (not (xor_bool (sign_bit a) (sign_bit b)) && ltb (value a) (value b)))
    pub sle-value :
        (a b : Num)
        → width a ≡ width b
        → sle a b ≡ (
            (sign_bit a && not (sign_bit b))
            || (not (xor_bool (sign_bit a) (sign_bit b)) && leb (value a) (value b)))
    -- A number with more bits set is no smaller.
    pub value_mono :
        (a b : Num)
        → width a ≡ width b
        → ((i : ℕ) → bit a i ≡ true → bit b i ≡ true)
        → value a ≤ value b

  -- The flag of an operation says whether the wrapped result it returns is wrong; the result is that
  -- of the plain operation.
  pub record OverflowLaws : Type 0 where
    pub sadd_ov-result : (a b : Num) → (sadd_ov a b).0 ≡ add a b
    pub uadd_ov-result : (a b : Num) → (uadd_ov a b).0 ≡ add a b
    pub ssub_ov-result : (a b : Num) → (ssub_ov a b).0 ≡ sub a b
    pub usub_ov-result : (a b : Num) → (usub_ov a b).0 ≡ sub a b
    pub smul_ov-result : (a b : Num) → (smul_ov a b).0 ≡ mul a b
    pub umul_ov-result : (a b : Num) → (umul_ov a b).0 ≡ mul a b
    -- A shift by the width or more overflows; any other gives the shifted number.
    pub sshl_ov-big : (a b : Num) → width a ≤ value b → (sshl_ov a b).1 ≡ true
    pub ushl_ov-big : (a b : Num) → width a ≤ value b → (ushl_ov a b).1 ≡ true
    pub sshl_ov-result : (a b : Num) → value b < width a → (sshl_ov a b).0 ≡ shl a b
    pub ushl_ov-result : (a b : Num) → value b < width a → (ushl_ov a b).0 ≡ shl a b
