-- ===== src/KnownBits/Bounds.antt =====
-- lib/Infer/AbstractInterpreter.cpp: the least and the greatest number that known bits allow, and the
-- operations on whole known bits.
use souper.Prelude.{
  ℕ, ◌+◌, ◌-◌, Bool, not, ◌||◌, u32, u32_sub, ltb, if◌then◌else◌, List, [], ◌∷◌, Option, none, some,
  true, ◌==◌, ◌&&◌,
}
use souper.Llvm.ApInt.{ApInt}
use souper.Llvm.KnownBits.{KnownBits, KnownBitsMethods}

module _ (A : ApInt) (K : KnownBitsMethods A) where
  open A use {
    Num, width, bit, of, eq_u64, complement, and, or, set_bit, clear_bit, count_population,
    get_all_ones_value, zext, shl_by,
  }

  unfoldable pub get_umin : KnownBits Num → Num
  get_umin x = x.one

  unfoldable pub get_umax : KnownBits Num → Num
  get_umax x = complement x.zero

  unfoldable pub is_sign_known : KnownBits Num → Bool
  is_sign_known x = let w = K.get_bit_width x in bit x.one (w - 1) || bit x.zero (w - 1)

  unfoldable pub get_smin : KnownBits Num → Num
  unfolding is_sign_known
  get_smin x = if is_sign_known x then x.one else set_bit x.one (K.get_bit_width x - 1)

  unfoldable pub get_smax : KnownBits Num → Num
  unfolding is_sign_known
  get_smax x =
      if is_sign_known x
      then complement x.zero
      else clear_bit (complement x.zero) (K.get_bit_width x - 1)

  -- `KnownBitsAnalysis::isConflictingKB`.
  unfoldable pub is_conflicting_kb : KnownBits Num → KnownBits Num → Bool
  is_conflicting_kb a b = not (eq_u64 (and a.one b.zero) 0) || not (eq_u64 (and a.zero b.one) 0)

  -- `KnownBitsAnalysis::getMostPreciseKnownBits`, on its unsigned counts.
  unfoldable pub unknown_count : KnownBits Num → ℕ
  unknown_count a =
      u32_sub (K.get_bit_width a) (u32 (count_population a.zero + count_population a.one))

  unfoldable pub get_most_precise_known_bits : KnownBits Num → KnownBits Num → KnownBits Num
  unfolding unknown_count
  get_most_precise_known_bits a b = if ltb (unknown_count a) (unknown_count b) then a else b

  -- `concatKnownBits`.
  unfoldable pub concat_known_bits : KnownBits Num → KnownBits Num → KnownBits Num
  concat_known_bits a b =
      let w = width a.zero + width b.zero in
      record {
        zero = or (shl_by (zext a.zero w) (K.get_bit_width b)) (zext b.zero w);
        one = or (shl_by (zext a.one w) (K.get_bit_width b)) (zext b.one w);
      }

  -- The loop of `KnownBitsAnalysis::mergeKnownBits`.
  unfoldable pub merge_loop : KnownBits Num → List (KnownBits Num) → KnownBits Num
  merge_loop acc [] = acc
  merge_loop acc (k ∷ ks) =
      merge_loop (record { zero = and acc.zero k.zero; one = and acc.one k.one }) ks

  abbrev pub same_widths : ℕ → List (KnownBits Num) → Bool
  same_widths w [] = true
  same_widths w (k ∷ ks) = K.get_bit_width k == w && same_widths w ks

  -- `KnownBitsAnalysis::mergeKnownBits` in a build with assertions, which stops, here as `none`, on no known
  -- bits at all and on known bits of different widths.
  unfoldable pub merge_known_bits : List (KnownBits Num) → Option (KnownBits Num)
  unfolding merge_loop
  merge_known_bits [] = none
  merge_known_bits (k ∷ ks) =
      let ones = get_all_ones_value (K.get_bit_width k) in
      if same_widths (K.get_bit_width k) ks
      then some (merge_loop (record { zero = ones; one = ones }) (k ∷ ks))
      else none
