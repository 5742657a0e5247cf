-- ===== src/KnownBits/Funnel.antt =====
-- lib/Infer/AbstractInterpreter.cpp: the cases FShl and FShr of `findKnownBits`.
pub mod Halves
use souper.Prelude.{ℕ, ◌-◌, ◌^◌, if◌then◌else◌, u32}
use souper.Llvm.ApInt.{ApInt}
use souper.Llvm.KnownBits.{KnownBits, KnownBitsMethods}
use souper.KnownBits.Bounds.{concat_known_bits}
use souper.KnownBits.Transfer.{Kb, urem_kb, shl_kb, lshr_kb}

module _ (A : ApInt) (K : KnownBitsMethods A) where
  open A use {Num, of, urem_u64, shl_by, lshr_by, trunc}
  open K use {is_constant, get_constant}

  -- `KnownBits::trunc`.
  abbrev pub trunc_kb : Kb A K → ℕ → Kb A K
  trunc_kb k w = record { zero = trunc k.zero w; one = trunc k.one w }

  -- `KBW`: the width as a constant; `~` acts on an `unsigned`.
  abbrev pub width_kb : ℕ → Kb A K
  width_kb w = record { zero = of w (2 ^ 32 - 1 - u32 w); one = of w w }

  -- `w` is `I->Width`.
  unfoldable pub fshl_kb : ℕ → Kb A K → Kb A K → Kb A K → Kb A K
  fshl_kb w kb0 kb1 kb2 =
      let both = concat_known_bits A K kb0 kb1 in
      let shift = urem_u64 (get_constant kb2) w in
      if is_constant kb2
      then trunc_kb (record { zero = shl_by both.zero shift; one = shl_by both.one shift }) w
      else trunc_kb (shl_kb A K both (urem_kb A K kb2 (width_kb w))) w

  unfoldable pub fshr_kb : ℕ → Kb A K → Kb A K → Kb A K → Kb A K
  fshr_kb w kb0 kb1 kb2 =
      let both = concat_known_bits A K kb0 kb1 in
      let shift = urem_u64 (get_constant kb2) w in
      if is_constant kb2
      then trunc_kb (record { zero = lshr_by both.zero shift; one = lshr_by both.one shift }) w
      else trunc_kb (lshr_kb A K both (urem_kb A K kb2 (width_kb w))) w
