-- ===== src/KnownBits/Merge.antt =====
-- `KnownBitsAnalysis::mergeKnownBits`: what several known bits have in common.
use souper.Prelude.{
  ℕ, ◌≡◌, refl, sym, ap, ◌∙◌, true, ==_iff, List, [], ◌∷◌, All, some, none, if◌then◌else◌, arith,
}
use souper.Llvm.ApInt.{ApInt, BitLaws}
use souper.Llvm.KnownBits.{KnownBits, KnownBitsMethods, KnownBitsLaws}
use souper.KnownBits.Bounds.{merge_loop, merge_known_bits, same_widths}
use souper.KnownBits.Contains.{Contains}

-- Known bits of the width `w`.
abbrev pub Sized : (A : ApInt) → ℕ → KnownBits A.Num → Type 0
Sized A w k = (A.width k.zero ≡ w) × (A.width k.one ≡ w)

-- `m` holds of every number that some of `ks` hold of, and knows every bit that all of `ks` know.
pub record IsMerge (A : ApInt) (ks : List (KnownBits A.Num)) (m : KnownBits A.Num) : Type 0 where
  pub sound : All (λ (k : KnownBits A.Num). (x : A.Num) → Contains A k x → Contains A m x) ks
  pub precise_zero :
      (i : ℕ) → All (λ (k : KnownBits A.Num). A.bit k.zero i ≡ true) ks → A.bit m.zero i ≡ true
  pub precise_one :
      (i : ℕ) → All (λ (k : KnownBits A.Num). A.bit k.one i ≡ true) ks → A.bit m.one i ≡ true

module _ (A : ApInt) (K : KnownBitsMethods A) (bits : BitLaws A) (laws : KnownBitsLaws A K) where
  open A use {Num, width, bit, and, get_all_ones_value}

  -- One of the two masks of the loop.
  abbrev and_all : (KnownBits Num → Num) → Num → List (KnownBits Num) → Num
  and_all side a [] = a
  and_all side a (k ∷ ks) = and_all side (and a (side k)) ks

  merge_loop-masks :
      (acc : KnownBits Num) (ks : List (KnownBits Num))
      → ((merge_loop A K acc ks).zero ≡ and_all (λ k. k.zero) acc.zero ks)
        × ((merge_loop A K acc ks).one ≡ and_all (λ k. k.one) acc.one ks)
  unfolding merge_loop
  merge_loop-masks acc [] = (refl, refl)
  merge_loop-masks acc (k ∷ ks) =
      merge_loop-masks (record { zero = and acc.zero k.zero; one = and acc.one k.one }) ks

  module _ (side : KnownBits Num → Num) (w : ℕ) where
    width-and_all :
        (a : Num) (ks : List (KnownBits Num))
        → width a ≡ w
        → All (λ k. width (side k) ≡ w) ks
        → width (and_all side a ks) ≡ w
    width-and_all a [] h s = h
    width-and_all a (k ∷ ks) h s =
        width-and_all (and a (side k)) ks (bits.width-and a (side k) (h ∙ sym s.0) ∙ h) s.1

    -- A bit is set in the result exactly when it is set in the start and in each mask.
    bit-and_all :
        (a : Num) (ks : List (KnownBits Num)) (i : ℕ)
        → width a ≡ w
        → All (λ k. width (side k) ≡ w) ks
        → bit (and_all side a ks) i ≡ true
        → (bit a i ≡ true) × All (λ k. bit (side k) i ≡ true) ks
    bit-and_all a [] i h s e = (e, tt)
    bit-and_all a (k ∷ ks) i h s e =
        let r =
          bit-and_all (and a (side k)) ks i (bits.width-and a (side k) (h ∙ sym s.0) ∙ h) s.1 e in
        let both = bits.bit-and a (side k) i (h ∙ sym s.0) in
        (ground (arith, r.0, both), (ground (arith, r.0, both), r.1))

    and_all-bit :
        (a : Num) (ks : List (KnownBits Num)) (i : ℕ)
        → width a ≡ w
        → All (λ k. width (side k) ≡ w) ks
        → bit a i ≡ true
        → All (λ k. bit (side k) i ≡ true) ks
        → bit (and_all side a ks) i ≡ true
    and_all-bit a [] i h s e all = e
    and_all-bit a (k ∷ ks) i h s e all =
        and_all-bit (and a (side k)) ks i (bits.width-and a (side k) (h ∙ sym s.0) ∙ h) s.1
          (ground (arith, bits.bit-and a (side k) i (h ∙ sym s.0), e, all.0)) all.1

  width_zeros :
      (w : ℕ) (ks : List (KnownBits Num)) → All (Sized A w) ks → All (λ k. width k.zero ≡ w) ks
  width_zeros w [] s = tt
  width_zeros w (k ∷ ks) s = (s.0.0, width_zeros w ks s.1)

  width_ones :
      (w : ℕ) (ks : List (KnownBits Num)) → All (Sized A w) ks → All (λ k. width k.one ≡ w) ks
  width_ones w [] s = tt
  width_ones w (k ∷ ks) s = (s.0.1, width_ones w ks s.1)

  Sized-same_widths :
      (w : ℕ) (ks : List (KnownBits Num)) → All (Sized A w) ks → same_widths A K w ks ≡ true
  Sized-same_widths w [] s = refl
  Sized-same_widths w (k ∷ ks) s = ground (
    arith,
    (==_iff (K.get_bit_width k) w).1 (laws.get_bit_width_lem k ∙ s.0.0),
    Sized-same_widths w ks s.1,
  )

  -- Known bits that claim no more than each of `ks` hold of what one of them holds of.
  fewer-Contains :
      (w : ℕ) (m : KnownBits Num) (ks : List (KnownBits Num))
      → Sized A w m
      → All (Sized A w) ks
      → ((i : ℕ) → bit m.zero i ≡ true → All (λ k. bit k.zero i ≡ true) ks)
      → ((i : ℕ) → bit m.one i ≡ true → All (λ k. bit k.one i ≡ true) ks)
      → All (λ (k : KnownBits Num). (x : Num) → Contains A k x → Contains A m x) ks
  fewer-Contains w m [] sm s hz ho = tt
  fewer-Contains w m (k ∷ ks) sm s hz ho = (
    λ x c. record {
      width_zero = sm.0 ∙ sym s.0.0 ∙ c.width_zero;
      width_one = sm.1 ∙ sym s.0.1 ∙ c.width_one;
      zeros = λ i h. c.zeros i (hz i h).0;
      ones = λ i h. c.ones i (ho i h).0;
    },
    fewer-Contains w m ks sm s.1 (λ i h. (hz i h).1) (λ i h. (ho i h).1),
  )

  -- Of one or more known bits of one width, mergeKnownBits returns known bits that hold of every number
  -- that one of them holds of, and that know every bit that all of them know.
  pub merge_known_bits-IsMerge :
      (w : ℕ) (k : KnownBits Num) (ks : List (KnownBits Num))
      → All (Sized A w) (k ∷ ks)
      → (m : KnownBits Num) × (merge_known_bits A K (k ∷ ks) ≡ some m) × IsMerge A (k ∷ ks) m
  unfolding merge_known_bits merge_loop
  merge_known_bits-IsMerge w k ks s =
      let v = K.get_bit_width k in
      let start = get_all_ones_value v in
      let v_is : v ≡ w = laws.get_bit_width_lem k ∙ s.0.0 in
      let started : width start ≡ w = bits.width-get_all_ones v ∙ v_is in
      let all = k ∷ ks in
      let m = merge_loop A K (record { zero = start; one = start }) all in
      let masks = merge_loop-masks (record { zero = start; one = start }) all in
      let zeros = width_zeros w all s in
      let ones = width_ones w all s in
      (
        m,
        ap (λ b. if b then some m else none)
            (ap (λ u. same_widths A K u ks) v_is ∙ Sized-same_widths w ks s.1),
        record {
          sound =
              fewer-Contains w m all
                (
                  ap width masks.0 ∙ width-and_all (λ k. k.zero) w start all started zeros,
                  ap width masks.1 ∙ width-and_all (λ k. k.one) w start all started ones,
                )
                s
                (λ i h.
                  (bit-and_all (λ k. k.zero) w start all i started zeros
                    (ap (λ a. bit a i) (sym masks.0) ∙ h)).1)
                (λ i h.
                  (bit-and_all (λ k. k.one) w start all i started ones
                    (ap (λ a. bit a i) (sym masks.1) ∙ h)).1);
          precise_zero = λ i h.
              ap (λ a. bit a i) masks.0
              ∙ and_all-bit (λ k. k.zero) w start all i started zeros
                  (bits.bit-get_all_ones v i (omega (arith, bits.bit-lt k.zero i h.0, s.0.0, v_is)))
                  h;
          precise_one = λ i h.
              ap (λ a. bit a i) masks.1
              ∙ and_all-bit (λ k. k.one) w start all i started ones
                  (bits.bit-get_all_ones v i (omega (arith, bits.bit-lt k.one i h.0, s.0.1, v_is)))
                  h;
        },
      )
