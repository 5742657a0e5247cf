-- ===== src/KnownBits/Funnel/Halves.antt =====
-- Which half of the shifted pair the funnel shifts take.
use souper.Prelude.{
  ℕ, ◌+◌, ◌-◌, ◌*◌, ◌≤◌, ◌≡◌, refl, sym, ap, ◌∙◌, Bool, true, ◌&&◌, ◌||◌, ltb, leb, arith, [], ◌∷◌,
}
use souper.Llvm.ApInt.{ApInt, BitLaws}
use souper.Llvm.KnownBits.{KnownBits, KnownBitsMethods, KnownBitsLaws}
use souper.Inst.Graph.{Inst}
use souper.Inst.Kind.{Kind}
use souper.Interp.Value.{val, ok}
use souper.Interp.Single.{evaluate_kind, funnel, fshl_case, fshr_case}
use souper.KnownBits.Bounds.{concat_known_bits}
use souper.KnownBits.Contains.{Contains, get_constant-Contains}
use souper.KnownBits.Funnel.{trunc_kb, fshl_kb, fshr_kb}

twice : (w : ℕ) → 2 * w ≡ w + w
twice w = omega arith

plus_zero : (i : ℕ) → i + 0 ≡ i
plus_zero i = omega arith

-- Two numbers side by side in `w` bits, the second in the low `v`.
abbrev pair : (A : ApInt) → A.Num → A.Num → ℕ → ℕ → A.Num
pair A a b v w = A.or (A.shl_by (A.zext a w) v) (A.zext b w)

module _ (A : ApInt) (K : KnownBitsMethods A) (bits : BitLaws A) where
  open A use {Num, width, bit, or, shl_by, lshr_by, zext, trunc, extract_bits, urem_u64}

  width-pair : (a b : Num) (v w : ℕ) → width a ≤ w → width b ≤ w → width (pair A a b v w) ≡ w
  width-pair a b v w p q =
      bits.width-or _ _
        (bits.width-shl_by _ v ∙ bits.width-zext a w p ∙ sym (bits.width-zext b w q))
      ∙ bits.width-shl_by _ v
      ∙ bits.width-zext a w p

  bit-pair :
      (a b : Num) (v w i : ℕ)
      → width a ≤ w
      → width b ≤ w
      → bit (pair A a b v w) i ≡ ((ltb i w && (leb v i && bit a (i - v))) || bit b i)
  bit-pair a b v w i p q =
      rw
        (
          bits.bit-or (shl_by (zext a w) v) (zext b w) i
              (bits.width-shl_by _ v ∙ bits.width-zext a w p ∙ sym (bits.width-zext b w q)),
          bits.bit-shl_by (zext a w) v i,
          bits.width-zext a w p,
          bits.bit-zext a w (i - v) p,
          bits.bit-zext b w i q,
        )
        refl

  -- The known bits of a pair.
  pair-Contains :
      (k l : KnownBits Num) (a b : Num) (v w : ℕ)
      → width a ≤ w
      → width b ≤ w
      → width b ≡ v
      → Contains A k a
      → Contains A l b
      → Contains A
          (record { zero = pair A k.zero l.zero v w; one = pair A k.one l.one v w })
          (pair A a b v w)
  pair-Contains k l a b v w p q e ck cl =
      let wkz : width k.zero ≤ w = omega (arith, ck.width_zero, p) in
      let wko : width k.one ≤ w = omega (arith, ck.width_one, p) in
      let wlz : width l.zero ≤ w = omega (arith, cl.width_zero, q) in
      let wlo : width l.one ≤ w = omega (arith, cl.width_one, q) in
      record {
        width_zero = width-pair k.zero l.zero v w wkz wlz ∙ sym (width-pair a b v w p q);
        width_one = width-pair k.one l.one v w wko wlo ∙ sym (width-pair a b v w p q);
        zeros = λ i h. ground (
          arith,
          h,
          bit-pair k.zero l.zero v w i wkz wlz,
          bit-pair a b v w i p q,
          ck.zeros (i - v),
          cl.zeros i,
          bits.bit-lt b i,
          bits.bit-lt l.zero i,
          cl.width_zero,
          e,
        );
        ones = λ i h. ground (
          arith,
          h,
          bit-pair k.one l.one v w i wko wlo,
          bit-pair a b v w i p q,
          ck.ones (i - v),
          cl.ones i,
        );
      }

  -- Shifting known bits to the right and cutting them off.
  shifted-Contains :
      (k : KnownBits Num) (x : Num) (n w : ℕ)
      → w ≤ width x
      → Contains A k x
      → Contains A
          (trunc_kb A K (record { zero = lshr_by k.zero n; one = lshr_by k.one n }) w)
          (extract_bits (lshr_by x n) w 0)
  shifted-Contains k x n w p c =
      let z = lshr_by k.zero n in
      let o = lshr_by k.one n in
      let y = lshr_by x n in
      let wz : w ≤ width z = omega (arith, bits.width-lshr_by k.zero n, c.width_zero, p) in
      let wo : w ≤ width o = omega (arith, bits.width-lshr_by k.one n, c.width_one, p) in
      let wy : 0 + w ≤ width y = omega (arith, bits.width-lshr_by x n, p) in
      record {
        width_zero = bits.width-trunc z w wz ∙ sym (bits.width-extract_bits y w 0 wy);
        width_one = bits.width-trunc o w wo ∙ sym (bits.width-extract_bits y w 0 wy);
        zeros = λ i h. ground (
          arith,
          h,
          bits.bit-trunc z w i wz,
          bits.bit-extract_bits y w 0 i wy,
          bits.bit-lshr_by k.zero n i,
          bits.bit-lshr_by x n (i + 0),
          bits.bit-lshr_by x n i,
          c.zeros (i + n),
          ap (λ j. bit y j) (plus_zero i),
        );
        ones = λ i h. ground (
          arith,
          h,
          bits.bit-trunc o w i wo,
          bits.bit-extract_bits y w 0 i wy,
          bits.bit-lshr_by k.one n i,
          bits.bit-lshr_by x n i,
          c.ones (i + n),
          ap (λ j. bit y j) (plus_zero i),
        );
      }

  module _ (laws : KnownBitsLaws A K) (inst : Inst Num) (first : Bool) (rand w : ℕ) where
    concat-pair :
        (k l : KnownBits Num)
        → width k.zero ≡ w
        → width l.zero ≡ w
        → concat_known_bits A K k l
          ≡ record { zero = pair A k.zero l.zero w (w + w); one = pair A k.one l.one w (w + w) }
    unfolding concat_known_bits
    concat-pair k l p q = rw (laws.get_bit_width_lem l, p, q) refl

    funnel-pair : (a b : Num) → width a ≡ w → funnel A a b ≡ pair A a b w (w + w)
    unfolding funnel
    funnel-pair a b p = ap (λ v. pair A a b v (2 * v)) p ∙ ap (λ v. pair A a b w v) (twice w)

    -- On numbers of one width `w` within the known bits, with a shift amount whose bits are all known,
    -- `FShr` gives a number, and the known bits that the analysis computes hold of it.
    pub fshr_kb-Contains :
        (k0 k1 k2 : KnownBits Num) (a b c : Num)
        → width a ≡ w
        → width b ≡ w
        → Contains A k0 a
        → Contains A k1 b
        → Contains A k2 c
        → K.is_constant k2 ≡ true
        → (z : Num) × (evaluate_kind A Kind.fshr inst first rand (val a ∷ val b ∷ val c ∷ [])
            ≡ ok (val z))
          × Contains A (fshr_kb A K w k0 k1 k2) z
    unfolding evaluate_kind fshr_case fshr_kb
    fshr_kb-Contains k0 k1 k2 a b c p q ca cb c2 known = (
      _,
      refl,
      rw
          (
            concat-pair k0 k1 (ca.width_zero ∙ p) (cb.width_zero ∙ q),
            known,
            get_constant-Contains A bits K laws k2 c c2 known,
            funnel-pair a b p,
            p,
          )
          (shifted-Contains _ (pair A a b w (w + w)) (urem_u64 c w) w
            (omega (arith, width-pair a b w (w + w) (omega (arith, p)) (omega (arith, q))))
            (pair-Contains k0 k1 a b w (w + w) (omega (arith, p)) (omega (arith, q)) q ca cb)),
    )

    -- The low half of a pair that is not shifted.
    low_half :
        (a b : Num) (i : ℕ)
        → width a ≡ w
        → width b ≡ w
        → bit (trunc (shl_by (pair A a b w (w + w)) 0) w) i ≡ bit b i
    low_half a b i p q =
        let t = pair A a b w (w + w) in
        let wt = width-pair a b w (w + w) (omega (arith, p)) (omega (arith, q)) in
        ground (
          arith,
          bits.bit-trunc (shl_by t 0) w i (omega (arith, wt, bits.width-shl_by t 0)),
          bits.bit-shl_by t 0 i,
          bit-pair a b w (w + w) i (omega (arith, p)) (omega (arith, q)),
          bits.bit-lt b i,
          q,
          wt,
        )

    -- The high half.
    high_half :
        (a b : Num)
        → width a ≡ w
        → width b ≡ w
        → extract_bits (shl_by (pair A a b w (w + w)) 0) w w ≡ a
    high_half a b p q =
        let t = pair A a b w (w + w) in
        let wt = width-pair a b w (w + w) (omega (arith, p)) (omega (arith, q)) in
        let ws : w + w ≤ width (shl_by t 0) = omega (arith, wt, bits.width-shl_by t 0) in
        bits.num_ext _ a (bits.width-extract_bits _ w w ws ∙ sym p) (λ i h. ground (
          arith,
          bits.bit-extract_bits (shl_by t 0) w w i ws,
          bits.bit-shl_by t 0 (i + w),
          bit-pair a b w (w + w) (i + w) (omega (arith, p)) (omega (arith, q)),
          bits.bit-lt b (i + w),
          bits.bit-lt a i,
          p,
          q,
          wt,
          h,
        ))

    -- When a shift amount whose bits are all known leaves no remainder by the width, `FShl` of two numbers of
    -- that width gives the first number, and the known bits that the analysis computes are, at every
    -- position, those of the second.
    pub fshl_kb_second :
        (k0 k1 k2 : KnownBits Num) (a b c : Num)
        → width a ≡ w
        → width b ≡ w
        → Contains A k0 a
        → Contains A k1 b
        → Contains A k2 c
        → K.is_constant k2 ≡ true
        → urem_u64 c w ≡ 0
        → (evaluate_kind A Kind.fshl inst first rand (val a ∷ val b ∷ val c ∷ []) ≡ ok (val a))
          × ((i : ℕ) → bit (fshl_kb A K w k0 k1 k2).zero i ≡ bit k1.zero i)
          × ((i : ℕ) → bit (fshl_kb A K w k0 k1 k2).one i ≡ bit k1.one i)
    unfolding evaluate_kind fshl_case fshl_kb
    fshl_kb_second k0 k1 k2 a b c p q ca cb c2 known none =
        let whole = concat-pair k0 k1 (ca.width_zero ∙ p) (cb.width_zero ∙ q) in
        let amount = get_constant-Contains A bits K laws k2 c c2 known in
        (
          rw (funnel-pair a b p, p, none) (ap (λ x. ok (val x)) (high_half a b p q)),
          (λ i.
              rw (whole, known, amount, none)
                (low_half k0.zero k1.zero i (ca.width_zero ∙ p) (cb.width_zero ∙ q))),
          λ i.
              rw (whole, known, amount, none)
                (low_half k0.one k1.one i (ca.width_one ∙ p) (cb.width_one ∙ q)),
        )
