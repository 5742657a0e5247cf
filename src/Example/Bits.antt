-- ===== src/Example/Bits.antt =====
-- Numbers as lists of bits, the lowest first: an instance of the interface of llvm::APInt.
use souper.Prelude.{
  ℕ, zero, suc, ◌+◌, ◌-◌, ◌*◌, ◌/◌, ◌%◌, ◌^◌, Bool, true, false, not, ◌&&◌, ◌||◌, ltb, leb, ◌==◌,
  if◌then◌else◌, List, [], ◌∷◌, length, get_or,
}
use souper.Llvm.ApInt.{ApInt, xor_bool}

abbrev pub Bits : Type 0
Bits = List Bool

abbrev pub bit_at : Bits → ℕ → Bool
bit_at a i = get_or a i false

-- The number of `w` bits whose bit at `i` is `f i`.
abbrev pub tabulate : ℕ → (ℕ → Bool) → Bits
tabulate zero f = []
tabulate (suc w) f = f 0 ∷ tabulate w (λ i. f (suc i))

abbrev pub digit : Bool → ℕ
digit b = if b then 1 else 0

abbrev pub value_of : Bits → ℕ
value_of [] = 0
value_of (b ∷ a) = digit b + 2 * value_of a

abbrev pub of_value : ℕ → ℕ → Bits
of_value zero n = []
of_value (suc w) n = (n % 2 == 1) ∷ of_value w (n / 2)

abbrev pub sign : Bits → Bool
sign a = bit_at a (length a - 1)

abbrev pub wrap : Bits → ℕ → Bits
wrap a n = of_value (length a) n

-- The distance from 0.
abbrev magnitude : Bits → ℕ
magnitude a = if sign a then 2 ^ length a - value_of a else value_of a

abbrev negate : Bits → ℕ → ℕ
negate a n = 2 ^ length a - n % 2 ^ length a

abbrev pub count_ones : Bits → ℕ
count_ones [] = 0
count_ones (b ∷ a) = digit b + count_ones a

-- How many bits in a row are set, from the low end and from the high end.
abbrev pub low_ones : Bits → ℕ
low_ones [] = 0
low_ones (b ∷ a) = if b then suc (low_ones a) else 0

abbrev pub high_ones : Bits → ℕ
high_ones [] = 0
high_ones (b ∷ a) = if b && high_ones a == length a then suc (high_ones a) else high_ones a

abbrev pub flip : Bits → Bits
flip a = tabulate (length a) (λ i. ltb i (length a) && not (bit_at a i))

abbrev shift_left : Bits → ℕ → Bits
shift_left a n = tabulate (length a) (λ i. leb n i && bit_at a (i - n))

abbrev shift_right : Bits → ℕ → Bits
shift_right a n = tabulate (length a) (λ i. bit_at a (i + n))

abbrev arithmetic_right : Bits → ℕ → Bits
arithmetic_right a n =
    tabulate (length a) (λ i. if ltb (i + n) (length a) then bit_at a (i + n) else sign a)

abbrev signed_quotient : Bits → Bits → Bits
signed_quotient a b =
    let q = magnitude a / magnitude b in
    wrap a (if xor_bool (sign a) (sign b) then negate a q else q)

abbrev signed_remainder : Bits → Bits → Bits
signed_remainder a b =
    let q = magnitude a % magnitude b in wrap a (if sign a then negate a q else q)

abbrev signed_less : Bits → Bits → Bool
signed_less a b =
    (sign a && not (sign b)) || (not (xor_bool (sign a) (sign b)) && ltb (value_of a) (value_of b))

abbrev signed_le : Bits → Bits → Bool
signed_le a b =
    (sign a && not (sign b)) || (not (xor_bool (sign a) (sign b)) && leb (value_of a) (value_of b))

abbrev sum_of : Bits → Bits → Bits
sum_of a b = wrap a (value_of a + value_of b)

abbrev difference : Bits → Bits → Bits
difference a b = wrap a (value_of a + (2 ^ length a - value_of b))

abbrev product : Bits → Bits → Bits
product a b = wrap a (value_of a * value_of b)

-- The largest and the smallest number of the width, by the sign of `a`.
abbrev saturated : Bits → Bits
saturated a = tabulate (length a) (λ i. xor_bool (i == length a - 1) (not (sign a)))

abbrev sadd_overflows : Bits → Bits → Bool
sadd_overflows a b = not (xor_bool (sign a) (sign b)) && xor_bool (sign a) (sign (sum_of a b))

abbrev ssub_overflows : Bits → Bits → Bool
ssub_overflows a b = xor_bool (sign a) (sign b) && xor_bool (sign a) (sign (difference a b))

abbrev smul_overflows : Bits → Bits → Bool
smul_overflows a b =
    let p = magnitude a * magnitude b in
    let half = 2 ^ (length a - 1) in if xor_bool (sign a) (sign b) then ltb half p else leb half p

abbrev shift_by : Bits → Bits → Bits
shift_by a b = if ltb (value_of b) (length a) then shift_left a (value_of b) else wrap a 0

-- The digits of a decimal number, after its sign.
abbrev read_decimal : ℕ → List ℕ → ℕ
read_decimal n [] = n
read_decimal n (c ∷ cs) = read_decimal (n * 10 + (c - b'0')) cs

abbrev decimal : ℕ → List ℕ → Bits
decimal w [] = of_value w 0
decimal w (c ∷ cs) =
    if c == b'-'
    then of_value w (2 ^ w - read_decimal 0 cs % 2 ^ w)
    else of_value w (read_decimal 0 (c ∷ cs))

abbrev pub bits_ApInt : ApInt
bits_ApInt = record {
  Num = Bits;
  width = length;
  value = value_of;
  bit = bit_at;
  of = of_value;
  get_all_ones_value = λ w. tabulate w (λ i. true);
  of_decimal = decimal;
  get_limited_value = λ a. if ltb (value_of a) (2 ^ 64) then value_of a else 2 ^ 64 - 1;
  eq = λ a b. value_of a == value_of b;
  eq_u64 = λ a n. value_of a == n;
  ult = λ a b. ltb (value_of a) (value_of b);
  ule = λ a b. leb (value_of a) (value_of b);
  slt = signed_less;
  sle = signed_le;
  is_min_signed_value = λ a. value_of a == 2 ^ (length a - 1);
  is_all_ones_value = λ a. value_of a + 1 == 2 ^ length a;
  is_power_of_2 = λ a. count_ones a == 1;
  is_negative = sign;
  is_int_n = λ a n. ltb (value_of a) (2 ^ n);
  is_signed_int_n = λ a n.
      if sign a
      then leb (2 ^ length a - value_of a) (2 ^ (n - 1))
      else ltb (value_of a) (2 ^ (n - 1));
  add = sum_of;
  sub = difference;
  mul = product;
  udiv = λ a b. wrap a (value_of a / value_of b);
  sdiv = signed_quotient;
  urem = λ a b. wrap a (value_of a % value_of b);
  srem = signed_remainder;
  urem_u64 = λ a n. value_of a % n;
  sadd_ov = λ a b. (sum_of a b, sadd_overflows a b);
  uadd_ov = λ a b. (sum_of a b, leb (2 ^ length a) (value_of a + value_of b));
  ssub_ov = λ a b. (difference a b, ssub_overflows a b);
  usub_ov = λ a b. (difference a b, ltb (value_of a) (value_of b));
  smul_ov = λ a b. (product a b, smul_overflows a b);
  umul_ov = λ a b. (product a b, leb (2 ^ length a) (value_of a * value_of b));
  sshl_ov = λ a b. (
    shift_by a b,
    leb (length a) (value_of b)
        || not (value_of (arithmetic_right (shift_by a b) (value_of b)) == value_of a),
  );
  ushl_ov = λ a b. (
    shift_by a b,
    leb (length a) (value_of b)
        || not (value_of (shift_right (shift_by a b) (value_of b)) == value_of a),
  );
  sadd_sat = λ a b. if sadd_overflows a b then saturated a else sum_of a b;
  uadd_sat = λ a b.
      if leb (2 ^ length a) (value_of a + value_of b)
      then tabulate (length a) (λ i. true)
      else sum_of a b;
  ssub_sat = λ a b. if ssub_overflows a b then saturated a else difference a b;
  usub_sat = λ a b. if ltb (value_of a) (value_of b) then wrap a 0 else difference a b;
  complement = flip;
  and = λ a b. tabulate (length a) (λ i. bit_at a i && bit_at b i);
  or = λ a b. tabulate (length a) (λ i. bit_at a i || bit_at b i);
  xor = λ a b. tabulate (length a) (λ i. xor_bool (bit_at a i) (bit_at b i));
  shl = shift_by;
  lshr = λ a b. shift_right a (value_of b);
  ashr = λ a b. arithmetic_right a (value_of b);
  shl_by = shift_left;
  lshr_by = shift_right;
  zext = λ a w. tabulate w (bit_at a);
  sext = λ a w. tabulate w (λ i. if ltb i (length a) then bit_at a i else sign a);
  trunc = λ a w. tabulate w (bit_at a);
  sext_or_trunc = λ a w. tabulate w (λ i. if ltb i (length a) then bit_at a i else sign a);
  extract_bits = λ a n pos. tabulate n (λ i. bit_at a (i + pos));
  get_hi_bits = λ a n. shift_right a (length a - n);
  count_population = count_ones;
  count_leading_zeros = λ a. high_ones (flip a);
  count_trailing_zeros = λ a. low_ones (flip a);
  set_bit = λ a n. tabulate (length a) (λ i. i == n || bit_at a i);
  clear_bit = λ a n. tabulate (length a) (λ i. not (i == n) && bit_at a i);
  set_low_bits = λ a n. tabulate (length a) (λ i. ltb i n || bit_at a i);
  set_high_bits = λ a n. tabulate (length a) (λ i. leb (length a) (i + n) || bit_at a i);
  set_bits_from = λ a n. tabulate (length a) (λ i. leb n i || bit_at a i);
  byte_swap = λ a. tabulate (length a) (λ i. bit_at a ((length a / 8 - 1 - i / 8) * 8 + i % 8));
  reverse_bits = λ a. tabulate (length a) (λ i. bit_at a (length a - 1 - i));
}
