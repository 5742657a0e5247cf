-- ===== src/Example/KnownBits.antt =====
-- The known bits of shifts at four bits, and known bits that are merged.
use souper.Prelude.{
  ℕ, zero, suc, ◌≡◌, refl, Bool, true, false, not, ◌&&◌, [], ◌∷◌, length, arith, some, none,
}
use mathlib.Core.Bool.{false≢true}
use souper.Inst.Kind.{Kind}
use souper.Llvm.KnownBits.{KnownBits}
use souper.Interp.Value.{val, ok}
use souper.Interp.Arith.{evaluate_shl}
use souper.Interp.Single.{evaluate_kind}
use souper.KnownBits.Bounds.{get_most_precise_known_bits, merge_known_bits}
use souper.KnownBits.Transfer.{shl_kb}
use souper.KnownBits.Switch.{shl_hint, shl_switch, switch_binary}
use souper.KnownBits.Merge.{IsMerge, merge_known_bits-IsMerge}
use souper.KnownBits.Contains.{Contains}
use souper.KnownBits.Sound.{switch_binary-Contains}
use souper.Example.Bits.{Bits, bit_at, bits_ApInt}
use souper.Example.Known.{bits_KnownBits, bits-Llvm}
use souper.Example.Inst.{blank}

-- Whether known bits hold of a number.
abbrev pub fits : Bits → Bits → Bits → Bool
fits [] [] [] = true
fits (z ∷ zs) (o ∷ os) (x ∷ xs) = not (z && x) && not (o && not x) && fits zs os xs
fits _ _ _ = false

fits-length : (z o x : Bits) → fits z o x ≡ true → (length z ≡ length x) × (length o ≡ length x)
fits-length [] [] [] h = (refl, refl)
fits-length (z ∷ zs) (o ∷ os) (x ∷ xs) h = ground (arith, fits-length zs os xs)
fits-length _ _ _ h = cc

fits-zeros : (z o x : Bits) (i : ℕ) → fits z o x ≡ true → bit_at z i ≡ true → bit_at x i ≡ false
fits-zeros [] [] [] i h e = cc
fits-zeros (z ∷ zs) (o ∷ os) (x ∷ xs) zero h e = ground arith
fits-zeros (z ∷ zs) (o ∷ os) (x ∷ xs) (suc i) h e = ground (arith, fits-zeros zs os xs i)
fits-zeros _ _ _ _ h e = cc

fits-ones : (z o x : Bits) (i : ℕ) → fits z o x ≡ true → bit_at o i ≡ true → bit_at x i ≡ true
fits-ones [] [] [] i h e = cc
fits-ones (z ∷ zs) (o ∷ os) (x ∷ xs) zero h e = ground arith
fits-ones (z ∷ zs) (o ∷ os) (x ∷ xs) (suc i) h e = ground (arith, fits-ones zs os xs i)
fits-ones _ _ _ _ h e = cc

pub fits-Contains :
    (k : KnownBits Bits) (x : Bits) → fits k.zero k.one x ≡ true → Contains bits_ApInt k x
fits-Contains k x h = record {
  width_zero = (fits-length k.zero k.one x h).0;
  width_one = (fits-length k.zero k.one x h).1;
  zeros = λ i. fits-zeros k.zero k.one x i h;
  ones = λ i. fits-ones k.zero k.one x i h;
}

-- The numbers 6, 1 and 12, and what is known of them.
abbrev pub six : Bits
six = false ∷ true ∷ true ∷ false ∷ []

abbrev pub one : Bits
one = true ∷ false ∷ false ∷ false ∷ []

abbrev twelve : Bits
twelve = false ∷ false ∷ true ∷ true ∷ []

abbrev pub about_six : KnownBits Bits
about_six = record {
  zero = true ∷ false ∷ false ∷ false ∷ [];
  one = false ∷ true ∷ false ∷ false ∷ [];
}

abbrev pub exactly_one : KnownBits Bits
exactly_one = record {
  zero = false ∷ true ∷ true ∷ true ∷ [];
  one = true ∷ false ∷ false ∷ false ∷ [];
}

abbrev about_twelve : KnownBits Bits
about_twelve = record {
  zero = true ∷ true ∷ false ∷ false ∷ [];
  one = false ∷ false ∷ true ∷ false ∷ [];
}

shifted_bits :
    switch_binary bits_ApInt bits_KnownBits false 4 Kind.shl about_six exactly_one
    ≡ some about_twelve
unfolding switch_binary shl_switch shl_hint shl_kb get_most_precise_known_bits
shifted_bits = refl

shifted_value :
    evaluate_kind bits_ApInt Kind.shl blank false 0 (val six ∷ val one ∷ []) ≡ ok (val twelve)
unfolding evaluate_kind evaluate_shl
shifted_value = refl

switch_binary-Contains_example : Contains bits_ApInt about_twelve twelve
switch_binary-Contains_example =
    switch_binary-Contains bits_ApInt bits_KnownBits bits-Llvm Kind.shl blank false 0 false
      about_six exactly_one about_twelve six one twelve refl (fits-Contains about_six six refl)
      (fits-Contains exactly_one one refl) refl (omega arith) (omega arith)
      (λ h. absurd (false≢true h)) shifted_bits shifted_value

merge_known_bits-IsMerge_example :
    (m : KnownBits Bits) × (merge_known_bits bits_ApInt bits_KnownBits
        (about_six ∷ exactly_one ∷ [])
      ≡ some m)
    × IsMerge bits_ApInt (about_six ∷ exactly_one ∷ []) m
merge_known_bits-IsMerge_example =
    merge_known_bits-IsMerge bits_ApInt bits_KnownBits bits-Llvm.bits bits-Llvm.known 4 about_six
      (exactly_one ∷ []) ((refl, refl), ((refl, refl), tt))

-- Known bits of different widths are not merged.
merged_widths :
    merge_known_bits bits_ApInt bits_KnownBits (about_six ∷ bits_KnownBits.unknown 5 ∷ []) ≡ none
unfolding merge_known_bits
merged_widths = refl
