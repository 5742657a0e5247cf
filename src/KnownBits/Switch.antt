-- ===== src/KnownBits/Switch.antt =====
-- lib/Infer/AbstractInterpreter.cpp: the cases of the `switch` of `findKnownBits` for two operands.
use souper.Prelude.{ℕ, ◌-◌, Bool, if◌then◌else◌, Option, none, some}
use souper.Inst.Kind.{Kind}
use souper.Llvm.ApInt.{ApInt}
use souper.Llvm.KnownBits.{KnownBitsMethods}
use souper.KnownBits.Bounds.{get_most_precise_known_bits}
use souper.KnownBits.Transfer.{
  Kb, zero_low, zero_high, one_high, add_kb, addnsw_kb, sub_kb, subnsw_kb, mul_kb, udiv_kb, urem_kb,
  and_kb, or_kb, xor_kb, shl_kb, lshr_kb, ashr_kb, eq_kb, ne_kb, ult_kb, slt_kb, ule_kb, sle_kb,
}

-- `reserved` is `isReservedConst(I->Ops[1])`, `w` is `I->Width`, and the last two arguments are KB0
-- and KB1. A synthesized constant is taken to be no zero.
module _ (A : ApInt) (K : KnownBitsMethods A) (reserved : Bool) (w : ℕ) where
  unfoldable pub shl_hint : Kb A K
  shl_hint = if reserved then zero_low A K (K.unknown w) 1 else K.unknown w

  unfoldable pub lshr_hint : Kb A K
  lshr_hint = if reserved then zero_high A K (K.unknown w) 1 else K.unknown w

  unfoldable pub ashr_hint : Kb A K → Kb A K
  ashr_hint kb0 =
      let sign = K.get_bit_width kb0 - 1 in
      let r0 = if A.bit kb0.zero sign then zero_high A K (K.unknown w) 2 else K.unknown w in
      let r1 = if A.bit kb0.one sign then one_high A K r0 2 else r0 in
      if reserved then r1 else K.unknown w

  unfoldable pub shl_switch : Kb A K → Kb A K → Kb A K
  shl_switch kb0 kb1 = get_most_precise_known_bits A K shl_hint (shl_kb A K kb0 kb1)

  unfoldable pub switch_binary : Kind → Kb A K → Kb A K → Option (Kb A K)
  switch_binary Kind.add_nuw kb0 kb1 = some (add_kb A K kb0 kb1)
  switch_binary Kind.add_nw kb0 kb1 = some (add_kb A K kb0 kb1)
  switch_binary Kind.add kb0 kb1 = some (add_kb A K kb0 kb1)
  switch_binary Kind.add_nsw kb0 kb1 = some (addnsw_kb A K kb0 kb1)
  switch_binary Kind.sub_nuw kb0 kb1 = some (sub_kb A K kb0 kb1)
  switch_binary Kind.sub_nw kb0 kb1 = some (sub_kb A K kb0 kb1)
  switch_binary Kind.sub kb0 kb1 = some (sub_kb A K kb0 kb1)
  switch_binary Kind.sub_nsw kb0 kb1 = some (subnsw_kb A K kb0 kb1)
  switch_binary Kind.mul kb0 kb1 = some (mul_kb A K kb0 kb1)
  switch_binary Kind.mul_nsw kb0 kb1 = some (mul_kb A K kb0 kb1)
  switch_binary Kind.mul_nuw kb0 kb1 = some (mul_kb A K kb0 kb1)
  switch_binary Kind.mul_nw kb0 kb1 = some (mul_kb A K kb0 kb1)
  switch_binary Kind.udiv kb0 kb1 = some (udiv_kb A K kb0 kb1)
  switch_binary Kind.urem kb0 kb1 = some (urem_kb A K kb0 kb1)
  switch_binary Kind.and kb0 kb1 = some (and_kb A K kb0 kb1)
  switch_binary Kind.or kb0 kb1 = some (or_kb A K kb0 kb1)
  switch_binary Kind.xor kb0 kb1 = some (xor_kb A K kb0 kb1)
  switch_binary Kind.eq kb0 kb1 = some (eq_kb A K kb0 kb1)
  switch_binary Kind.ne kb0 kb1 = some (ne_kb A K kb0 kb1)
  switch_binary Kind.ult kb0 kb1 = some (ult_kb A K kb0 kb1)
  switch_binary Kind.slt kb0 kb1 = some (slt_kb A K kb0 kb1)
  switch_binary Kind.ule kb0 kb1 = some (ule_kb A K kb0 kb1)
  switch_binary Kind.sle kb0 kb1 = some (sle_kb A K kb0 kb1)
  switch_binary Kind.shl_nsw kb0 kb1 = some (shl_switch kb0 kb1)
  switch_binary Kind.shl_nuw kb0 kb1 = some (shl_switch kb0 kb1)
  switch_binary Kind.shl_nw kb0 kb1 = some (shl_switch kb0 kb1)
  switch_binary Kind.shl kb0 kb1 = some (shl_switch kb0 kb1)
  switch_binary Kind.lshr kb0 kb1 =
      some (get_most_precise_known_bits A K lshr_hint (lshr_kb A K kb0 kb1))
  switch_binary Kind.ashr kb0 kb1 =
      some (get_most_precise_known_bits A K (ashr_hint kb0) (ashr_kb A K kb0 kb1))
  switch_binary _ kb0 kb1 = none
