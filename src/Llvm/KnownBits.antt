-- ===== src/Llvm/KnownBits.antt =====
-- llvm::KnownBits, the bits of a number that are known to be zero and to be one: its two fields, its
-- methods as an interface, and their documented behaviour.
use souper.Prelude.{ℕ, ◌+◌, ◌≤◌, ◌<◌, ◌≡◌, Bool, true, false, ◌||◌}
use souper.Llvm.ApInt.{ApInt}

-- `struct KnownBits { APInt Zero; APInt One; }`.
pub record KnownBits (N : Type 0) : Type 0 where
  pub zero : N
  pub one : N

pub record KnownBitsMethods (A : ApInt) : Type 0 where
  -- `KnownBits(width)` and `resetAll`: nothing is known.
  pub unknown : ℕ → KnownBits A.Num
  pub get_bit_width : KnownBits A.Num → ℕ
  pub is_constant : KnownBits A.Num → Bool
  pub get_constant : KnownBits A.Num → A.Num
  pub count_min_trailing_zeros : KnownBits A.Num → ℕ
  pub count_min_leading_zeros : KnownBits A.Num → ℕ
  pub count_max_leading_zeros : KnownBits A.Num → ℕ
  pub count_min_leading_ones : KnownBits A.Num → ℕ
  -- `computeForAddSub(Add, NSW, LHS, RHS)`.
  pub compute_for_add_sub : Bool → Bool → KnownBits A.Num → KnownBits A.Num → KnownBits A.Num

module _ (A : ApInt) (K : KnownBitsMethods A) where
  pub record KnownBitsLaws : Type 0 where
    pub get_bit_width_lem : (k : KnownBits A.Num) → K.get_bit_width k ≡ A.width k.zero
    pub width-unknown_zero : (w : ℕ) → A.width (K.unknown w).zero ≡ w
    pub width-unknown_one : (w : ℕ) → A.width (K.unknown w).one ≡ w
    pub bit-unknown_zero : (w i : ℕ) → A.bit (K.unknown w).zero i ≡ false
    pub bit-unknown_one : (w i : ℕ) → A.bit (K.unknown w).one i ≡ false
    -- A constant has every bit known, and is then the number with the ones.
    pub is_constant_lem :
        (k : KnownBits A.Num) (i : ℕ)
        → K.is_constant k ≡ true
        → i < A.width k.zero
        → (A.bit k.zero i || A.bit k.one i) ≡ true
    pub get_constant_lem : (k : KnownBits A.Num) → K.get_constant k ≡ k.one
    -- Counts of the known zeros at either end.
    pub count_min_trailing_zeros-le :
        (k : KnownBits A.Num) → K.count_min_trailing_zeros k ≤ A.width k.zero
    pub bit-count_min_trailing_zeros :
        (k : KnownBits A.Num) (i : ℕ) → i < K.count_min_trailing_zeros k → A.bit k.zero i ≡ true
    pub count_min_leading_zeros-le :
        (k : KnownBits A.Num) → K.count_min_leading_zeros k ≤ A.width k.zero
    pub bit-count_min_leading_zeros :
        (k : KnownBits A.Num) (i : ℕ)
        → A.width k.zero ≤ i + K.count_min_leading_zeros k
        → i < A.width k.zero
        → A.bit k.zero i ≡ true
    pub count_min_leading_ones-le :
        (k : KnownBits A.Num) → K.count_min_leading_ones k ≤ A.width k.one
    pub bit-count_min_leading_ones :
        (k : KnownBits A.Num) (i : ℕ)
        → A.width k.one ≤ i + K.count_min_leading_ones k
        → i < A.width k.one
        → A.bit k.one i ≡ true
