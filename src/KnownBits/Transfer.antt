-- ===== src/KnownBits/Transfer.antt =====
-- lib/Infer/AbstractInterpreter.cpp: namespace BinaryTransferFunctionsKB.
use Prim.Native.Nat.{min, max}
use souper.Prelude.{
  ℕ, ◌+◌, ◌-◌, u32, u32_sub, Bool, true, false, not, ◌||◌, ◌&&◌, ltb, leb, if◌then◌else◌,
}
use souper.Llvm.ApInt.{ApInt}
use souper.Llvm.KnownBits.{KnownBits, KnownBitsMethods}
use souper.KnownBits.Bounds.{get_umin, get_umax, get_smin, get_smax}

module _ (A : ApInt) (K : KnownBitsMethods A) where
  open A use {
    Num, width, bit, eq, eq_u64, ult, ule, slt, sle, complement, and, or, shl_by, lshr_by,
    get_limited_value, is_power_of_2, sub, of, set_bit, set_low_bits, set_high_bits,
  }
  open K use {
    unknown, get_bit_width, is_constant, get_constant, count_min_trailing_zeros,
    count_min_leading_zeros, count_max_leading_zeros, count_min_leading_ones, compute_for_add_sub,
  }

  abbrev pub Kb : Type 0
  Kb = KnownBits Num

  -- `Result.Zero.setLowBits(n)` and the like.
  abbrev pub zero_low : Kb → ℕ → Kb
  zero_low k n = record k { zero = set_low_bits k.zero n }

  abbrev pub zero_high : Kb → ℕ → Kb
  zero_high k n = record k { zero = set_high_bits k.zero n }

  abbrev pub one_low : Kb → ℕ → Kb
  one_low k n = record k { one = set_low_bits k.one n }

  abbrev pub one_high : Kb → ℕ → Kb
  one_high k n = record k { one = set_high_bits k.one n }

  unfoldable pub add_kb : Kb → Kb → Kb
  add_kb = compute_for_add_sub true false

  unfoldable pub addnsw_kb : Kb → Kb → Kb
  addnsw_kb = compute_for_add_sub true true

  unfoldable pub sub_kb : Kb → Kb → Kb
  sub_kb = compute_for_add_sub false false

  unfoldable pub subnsw_kb : Kb → Kb → Kb
  subnsw_kb = compute_for_add_sub false true

  unfoldable pub mul_kb : Kb → Kb → Kb
  mul_kb lhs rhs =
      let w = get_bit_width lhs in
      let trailing = u32 (count_min_trailing_zeros lhs + count_min_trailing_zeros rhs) in
      let r0 = zero_low (unknown w) (min trailing w) in
      let confirmed = u32_sub (count_min_leading_zeros lhs + count_min_leading_zeros rhs) 1 in
      let result_size = u32_sub (w + get_bit_width rhs) 1 in
      let rest = u32_sub result_size confirmed in
      let r1 = if ltb rest w then zero_high r0 (w - rest) else r0 in
      if bit lhs.one 0 && bit rhs.one 0 then one_low r1 1 else r1

  unfoldable pub udiv_kb : Kb → Kb → Kb
  udiv_kb lhs rhs =
      let w = get_bit_width lhs in
      let lead = count_min_leading_zeros lhs in
      let rhs_max = count_max_leading_zeros rhs in
      let lead' =
        if not (ltb rhs_max w) && not (ltb w rhs_max)
        then lead
        else min w (u32_sub (u32_sub (lead + w) rhs_max) 1) in
      zero_high (unknown w) lead'

  unfoldable pub urem_kb : Kb → Kb → Kb
  urem_kb lhs rhs =
      let w = get_bit_width lhs in
      let ra = get_constant rhs in
      let low = sub ra (of (width ra) 1) in
      let general =
        zero_high (unknown w) (max (count_min_leading_zeros lhs) (count_min_leading_zeros rhs)) in
      if is_constant rhs && is_power_of_2 ra
      then record { zero = or lhs.zero (complement low); one = and lhs.one low }
      else general

  unfoldable pub and_kb : Kb → Kb → Kb
  and_kb lhs rhs = record { zero = or lhs.zero rhs.zero; one = and lhs.one rhs.one }

  unfoldable pub or_kb : Kb → Kb → Kb
  or_kb lhs rhs = record { zero = and lhs.zero rhs.zero; one = or lhs.one rhs.one }

  unfoldable pub xor_kb : Kb → Kb → Kb
  xor_kb lhs rhs = record {
    zero = or (and lhs.zero rhs.zero) (and lhs.one rhs.one);
    one = or (and lhs.zero rhs.one) (and lhs.one rhs.zero);
  }

  -- `Val < 0` never holds of the unsigned `Val`.
  unfoldable pub shl_kb : Kb → Kb → Kb
  shl_kb lhs rhs =
      let w = get_bit_width lhs in
      let v = get_limited_value (get_constant rhs) in
      let min_value = u32 (get_limited_value rhs.one) in
      if is_constant rhs
      then if leb w v
        then unknown w
        else record { zero = set_low_bits (shl_by lhs.zero v) v; one = shl_by lhs.one v }
      else zero_low (unknown w) (min (u32 (count_min_trailing_zeros lhs + min_value)) w)

  unfoldable pub lshr_kb : Kb → Kb → Kb
  lshr_kb lhs rhs =
      let w = get_bit_width lhs in
      let v = get_limited_value (get_constant rhs) in
      let min_value = u32 (get_limited_value rhs.one) in
      if is_constant rhs
      then if leb w v
        then unknown w
        else record { zero = set_high_bits (lshr_by lhs.zero v) v; one = lshr_by lhs.one v }
      else zero_high (unknown w) (min (u32 (min_value + count_min_leading_zeros lhs)) w)

  unfoldable pub ashr_kb : Kb → Kb → Kb
  ashr_kb lhs rhs =
      let w = get_bit_width lhs in
      let min_value = u32 (get_limited_value rhs.one) in
      if bit lhs.one (width lhs.one - 1)
      then one_high (unknown w) (min (u32 (count_min_leading_ones lhs + min_value)) w)
      else if bit lhs.zero (width lhs.zero - 1)
      then zero_high (unknown w) (min (u32 (count_min_leading_zeros lhs + min_value)) w)
      else unknown w

  -- `Result.One.setBit(0)` and `Result.Zero.setBit(0)`, in a result of one bit.
  abbrev pub set_one : Kb → Kb
  set_one k = record k { one = set_bit k.one 0 }

  abbrev pub set_zero : Kb → Kb
  set_zero k = record k { zero = set_bit k.zero 0 }

  -- Both are constants, and equal.
  abbrev pub same_constant : Kb → Kb → Bool
  same_constant lhs rhs =
      is_constant lhs && is_constant rhs && eq (get_constant lhs) (get_constant rhs)

  -- Some bit is known to differ.
  abbrev pub differ : Kb → Kb → Bool
  differ lhs rhs = not (eq_u64 (and lhs.one rhs.zero) 0) || not (eq_u64 (and lhs.zero rhs.one) 0)

  unfoldable pub eq_kb : Kb → Kb → Kb
  eq_kb lhs rhs =
      if same_constant lhs rhs
      then set_one (unknown 1)
      else if differ lhs rhs
      then set_zero (unknown 1)
      else unknown 1

  -- Two `if`s in a row: the first sets one field, the second may set the other.
  abbrev pub decide_bit : (is_one is_zero : Bool) → Kb
  decide_bit is_one is_zero =
      let r = if is_one then set_one (unknown 1) else unknown 1 in if is_zero then set_zero r else r

  unfoldable pub ne_kb : Kb → Kb → Kb
  ne_kb lhs rhs = decide_bit (differ lhs rhs) (same_constant lhs rhs)

  unfoldable pub ult_kb : Kb → Kb → Kb
  ult_kb lhs rhs =
      decide_bit (ult (get_umax A K lhs) (get_umin A K rhs))
        (ule (get_umax A K rhs) (get_umin A K lhs))

  unfoldable pub slt_kb : Kb → Kb → Kb
  slt_kb lhs rhs =
      decide_bit (slt (get_smax A K lhs) (get_smin A K rhs))
        (sle (get_smax A K rhs) (get_smin A K lhs))

  unfoldable pub ule_kb : Kb → Kb → Kb
  ule_kb lhs rhs =
      decide_bit (ule (get_umax A K lhs) (get_umin A K rhs))
        (ult (get_umax A K rhs) (get_umin A K lhs))

  unfoldable pub sle_kb : Kb → Kb → Kb
  sle_kb lhs rhs =
      decide_bit (sle (get_smax A K lhs) (get_smin A K rhs))
        (slt (get_smax A K rhs) (get_smin A K lhs))
