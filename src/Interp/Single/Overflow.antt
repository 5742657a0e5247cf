-- ===== src/Interp/Single/Overflow.antt =====
-- The pairs that the `*.with.overflow` intrinsics build, taken apart by extractvalue.
use souper.Prelude.{ℕ, ◌+◌, ◌-◌, ◌≤◌, ◌≡◌, sym, ap, ◌∙◌, Bool, true, false, ◌∷◌, [], arith}
use souper.Prelude.{if◌then◌else◌, ◌==◌, ◌&&◌, ◌||◌}
use souper.Inst.Kind.{Kind}
use souper.Inst.Class.{is_overflow_intrinsic_main}
use souper.Inst.Graph.{Inst}
use souper.Llvm.ApInt.{ApInt, BitLaws, OrderLaws}
use souper.Interp.Value.{val, ok, ◌>>=◌}
use souper.Interp.Single.{evaluate_kind, with_overflow, extract_value, flag, binary}

add-sub_self : (w : ℕ) → w + 1 - 1 ≡ w
add-sub_self w = omega arith

module _ (A : ApInt) (bits : BitLaws A) (order : OrderLaws A) where
  open A use {Num, width, value, bit, of, zext, trunc, set_bit, get_hi_bits, eq_u64}

  -- The number that `with_overflow` builds.
  abbrev pair : Num → Bool → Num
  pair x b = if b then set_bit (zext x (width x + 1)) (width x) else zext x (width x + 1)

  width-pair : (x : Num) (b : Bool) → width (pair x b) ≡ width x + 1
  width-pair x b = ground (
    arith,
    bits.width-set_bit (zext x (width x + 1)) (width x),
    bits.width-zext x (width x + 1) (omega arith),
  )

  bit-pair : (x : Num) (b : Bool) (i : ℕ) → bit (pair x b) i ≡ ((b && i == width x) || bit x i)
  bit-pair x b i = ground (
    arith,
    bits.bit-set_bit (zext x (width x + 1)) (width x) i,
    bits.width-zext x (width x + 1) (omega arith),
    bits.bit-zext x (width x + 1) i (omega arith),
  )

  with_overflow-flag :
      (x : Num) (b : Bool) → with_overflow A (val x ∷ flag A b ∷ []) ≡ ok (val (pair x b))
  unfolding with_overflow
  with_overflow-flag x true = rw (
    bits.width-of 1 1,
    order.eq_u64-value (of 1 1) 1,
    order.value-of 1 1 (omega arith),
    add-sub_self (width x),
  )
  with_overflow-flag x false =
      rw (bits.width-of 1 0, order.eq_u64-value (of 1 0) 1, order.value-of 1 0 (omega arith))

  width-flag : (b : Bool) → width (of 1 (if b then 1 else 0)) ≡ 1
  width-flag b = bits.width-of 1 (if b then 1 else 0)

  bit-flag : (b : Bool) → bit (of 1 (if b then 1 else 0)) 0 ≡ b
  bit-flag true = bits.bit-of_one 1 0 (omega arith)
  bit-flag false = bits.bit-of_zero 1 0

  flag_alone : (x : Num) (b : Bool) → ((b && width x == width x) || bit x (width x)) ≡ b
  flag_alone x b = ground (arith, bits.bit-lt x (width x))

  -- The low bits of the pair are the result.
  trunc-pair : (x : Num) (b : Bool) → trunc (pair x b) (width (pair x b) - 1) ≡ x
  trunc-pair x b =
      bits.num_ext (trunc (pair x b) (width (pair x b) - 1)) x
        (omega (arith, width-pair x b, bits.width-trunc (pair x b) (width (pair x b) - 1)))
        (λ i h. ground (
          arith,
          width-pair x b,
          bits.width-trunc (pair x b) (width (pair x b) - 1) (omega arith),
          bits.bit-trunc (pair x b) (width (pair x b) - 1) i (omega arith),
          bit-pair x b i,
        ))

  -- Its highest bit is the flag.
  top-pair : (x : Num) (b : Bool) → trunc (get_hi_bits (pair x b) 1) 1 ≡ of 1 (if b then 1 else 0)
  top-pair x b =
      let p = pair x b in
      let wide : 1 ≤ width p = omega (arith, width-pair x b) in
      let wide' : 1 ≤ width (get_hi_bits p 1) = rw (bits.width-get_hi_bits p 1) wide in
      bits.num_ext (trunc (get_hi_bits p 1) 1) (of 1 (if b then 1 else 0))
        (bits.width-trunc (get_hi_bits p 1) 1 wide' ∙ sym (width-flag b))
        (λ i h.
          let start : i ≡ 0 = omega (arith, bits.width-trunc (get_hi_bits p 1) 1 wide', h) in
          let top : 0 + (width p - 1) ≡ width x = omega (arith, width-pair x b) in
          rw start (
            bits.bit-trunc (get_hi_bits p 1) 1 0 wide'
            ∙ bits.bit-get_hi_bits p 1 0 wide
            ∙ ap (bit p) top
            ∙ bit-pair x b (width x)
            ∙ flag_alone x b
            ∙ sym (bit-flag b)))

  extract-pair :
      (x index : Num) (b : Bool)
      → (with_overflow A (val x ∷ flag A b ∷ []) >>= λ p.
          binary A (extract_value A) (p ∷ val index ∷ []))
        ≡ ok (if value index == 0 then val x else flag A b)
  unfolding extract_value
  extract-pair x index b =
      rw
        (
          with_overflow-flag x b,
          extract_value,
          order.eq_u64-value index 0,
          trunc-pair x b,
          top-pair x b,
        )
        (ground arith)

  -- `extractvalue` with index 0 gives back the result that a `*.with.overflow` instruction paired,
  -- and with any other index the flag.
  pub extract_value-with_overflow :
      (k : Kind) (inst inst' : Inst Num) (first : Bool) (rand : ℕ) (x index : Num) (b : Bool)
      → is_overflow_intrinsic_main k ≡ true
      → (evaluate_kind A k inst first rand (val x ∷ flag A b ∷ []) >>= λ p.
          evaluate_kind A Kind.extract_value inst' first rand (p ∷ val index ∷ []))
        ≡ ok (if value index == 0 then val x else flag A b)
  unfolding evaluate_kind is_overflow_intrinsic_main
  extract_value-with_overflow Kind.sadd_with_overflow inst inst' first rand x index b h =
      extract-pair x index b
  extract_value-with_overflow Kind.uadd_with_overflow inst inst' first rand x index b h =
      extract-pair x index b
  extract_value-with_overflow Kind.ssub_with_overflow inst inst' first rand x index b h =
      extract-pair x index b
  extract_value-with_overflow Kind.usub_with_overflow inst inst' first rand x index b h =
      extract-pair x index b
  extract_value-with_overflow Kind.smul_with_overflow inst inst' first rand x index b h =
      extract-pair x index b
  extract_value-with_overflow Kind.umul_with_overflow inst inst' first rand x index b h =
      extract-pair x index b
  extract_value-with_overflow _ inst inst' first rand x index b h = cc
