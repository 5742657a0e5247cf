-- ===== src/Prelude/Words.antt =====
-- The arithmetic of C++'s 32-bit `unsigned`.
use Prim.Native.Nat.{ℕ, ◌+◌, ◌-◌, ◌%◌, ◌^◌}

abbrev pub u32 : ℕ → ℕ
u32 n = n % 2 ^ 32

abbrev pub u32_sub : ℕ → ℕ → ℕ
u32_sub a b = (a + 2 ^ 32 - b % 2 ^ 32) % 2 ^ 32
