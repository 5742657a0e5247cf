-- ===== src/KnownBits/Contains.antt =====
-- What known bits say of a number.
use souper.Prelude.{ℕ, ◌≤◌, ◌≡◌, ◌∙◌, sym, true, false, arith}
use souper.Llvm.ApInt.{ApInt, BitLaws, OrderLaws}
use souper.Llvm.KnownBits.{KnownBits, KnownBitsMethods, KnownBitsLaws}

module _ (A : ApInt) where
  open A use {Num, width, bit, value, complement}

  -- The number has the width of the known bits, a 0 at each known zero and a 1 at each known one.
  pub record Contains (k : KnownBits Num) (x : Num) : Type 0 where
    pub width_zero : width k.zero ≡ width x
    pub width_one : width k.one ≡ width x
    pub zeros : (i : ℕ) → bit k.zero i ≡ true → bit x i ≡ false
    pub ones : (i : ℕ) → bit k.one i ≡ true → bit x i ≡ true

  module _ (bits : BitLaws A) where
    -- Known bits that are all known allow one number only.
    pub get_constant-Contains :
        (K : KnownBitsMethods A) (laws : KnownBitsLaws A K) (k : KnownBits Num) (x : Num)
        → Contains k x
        → K.is_constant k ≡ true
        → K.get_constant k ≡ x
    get_constant-Contains K laws k x c h =
        laws.get_constant_lem k
        ∙ bits.num_ext k.one x c.width_one (λ i lt.
          ground
            (arith, c.width_zero, c.width_one, laws.is_constant_lem k i h, c.zeros i, c.ones i))

    -- The known ones are a lower bound, the complement of the known zeros an upper bound.
    pub value-one-le :
        (order : OrderLaws A) (k : KnownBits Num) (x : Num) → Contains k x → value k.one ≤ value x
    value-one-le order k x c = order.value_mono k.one x c.width_one c.ones

    pub value-le-complement :
        (order : OrderLaws A) (k : KnownBits Num) (x : Num)
        → Contains k x
        → value x ≤ value (complement k.zero)
    value-le-complement order k x c =
        order.value_mono x (complement k.zero)
          (sym c.width_zero ∙ sym (bits.width-complement k.zero))
          (λ i h.
            ground
              (arith, c.width_zero, bits.bit-complement k.zero i, bits.bit-lt x i h, c.zeros i))
