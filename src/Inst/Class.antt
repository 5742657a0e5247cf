-- ===== src/Inst/Class.antt =====
-- lib/Inst/Inst.cpp: the classes of kinds, the pairing of overflow intrinsics, and the cost.
use souper.Prelude.{ℕ, Bool, true, false}
use souper.Inst.Kind.{Kind}

-- `Inst::isCommutative`.
unfoldable pub is_commutative : Kind → Bool
is_commutative Kind.add = true
is_commutative Kind.add_nsw = true
is_commutative Kind.add_nuw = true
is_commutative Kind.add_nw = true
is_commutative Kind.sadd_sat = true
is_commutative Kind.uadd_sat = true
is_commutative Kind.mul = true
is_commutative Kind.mul_nsw = true
is_commutative Kind.mul_nuw = true
is_commutative Kind.mul_nw = true
is_commutative Kind.and = true
is_commutative Kind.or = true
is_commutative Kind.xor = true
is_commutative Kind.eq = true
is_commutative Kind.ne = true
is_commutative _ = false

-- `Inst::isCmp`.
unfoldable pub is_cmp : Kind → Bool
is_cmp Kind.eq = true
is_cmp Kind.ne = true
is_cmp Kind.ult = true
is_cmp Kind.slt = true
is_cmp Kind.ule = true
is_cmp Kind.sle = true
is_cmp _ = false

-- `Inst::isTernary`.
unfoldable pub is_ternary : Kind → Bool
is_ternary Kind.select = true
is_ternary Kind.fshl = true
is_ternary Kind.fshr = true
is_ternary _ = false

-- `Inst::isOverflowIntrinsicMain`.
unfoldable pub is_overflow_intrinsic_main : Kind → Bool
is_overflow_intrinsic_main Kind.sadd_with_overflow = true
is_overflow_intrinsic_main Kind.uadd_with_overflow = true
is_overflow_intrinsic_main Kind.ssub_with_overflow = true
is_overflow_intrinsic_main Kind.usub_with_overflow = true
is_overflow_intrinsic_main Kind.smul_with_overflow = true
is_overflow_intrinsic_main Kind.umul_with_overflow = true
is_overflow_intrinsic_main _ = false

-- `Inst::isOverflowIntrinsicSub`.
unfoldable pub is_overflow_intrinsic_sub : Kind → Bool
is_overflow_intrinsic_sub Kind.sadd_o = true
is_overflow_intrinsic_sub Kind.uadd_o = true
is_overflow_intrinsic_sub Kind.ssub_o = true
is_overflow_intrinsic_sub Kind.usub_o = true
is_overflow_intrinsic_sub Kind.smul_o = true
is_overflow_intrinsic_sub Kind.umul_o = true
is_overflow_intrinsic_sub _ = false

-- `Inst::isShift`.
unfoldable pub is_shift : Kind → Bool
is_shift Kind.shl = true
is_shift Kind.shl_nsw = true
is_shift Kind.shl_nuw = true
is_shift Kind.shl_nw = true
is_shift Kind.lshr = true
is_shift Kind.lshr_exact = true
is_shift Kind.ashr = true
is_shift Kind.ashr_exact = true
is_shift _ = false

-- `Inst::isDivRem`.
unfoldable pub is_div_rem : Kind → Bool
is_div_rem Kind.udiv = true
is_div_rem Kind.sdiv = true
is_div_rem Kind.udiv_exact = true
is_div_rem Kind.sdiv_exact = true
is_div_rem Kind.urem = true
is_div_rem Kind.srem = true
is_div_rem _ = false

-- `Inst::getOverflowComplement`.
unfoldable pub get_overflow_complement : Kind → Kind
get_overflow_complement Kind.sadd_with_overflow = Kind.sadd_o
get_overflow_complement Kind.uadd_with_overflow = Kind.uadd_o
get_overflow_complement Kind.ssub_with_overflow = Kind.ssub_o
get_overflow_complement Kind.usub_with_overflow = Kind.usub_o
get_overflow_complement Kind.smul_with_overflow = Kind.smul_o
get_overflow_complement Kind.umul_with_overflow = Kind.umul_o
get_overflow_complement Kind.sadd_o = Kind.sadd_with_overflow
get_overflow_complement Kind.uadd_o = Kind.uadd_with_overflow
get_overflow_complement Kind.ssub_o = Kind.ssub_with_overflow
get_overflow_complement Kind.usub_o = Kind.usub_with_overflow
get_overflow_complement Kind.smul_o = Kind.smul_with_overflow
get_overflow_complement Kind.umul_o = Kind.umul_with_overflow
get_overflow_complement k = k

-- `Inst::getBasicInstrForOverflow`.
unfoldable pub get_basic_instr_for_overflow : Kind → Kind
get_basic_instr_for_overflow Kind.sadd_with_overflow = Kind.add
get_basic_instr_for_overflow Kind.uadd_with_overflow = Kind.add
get_basic_instr_for_overflow Kind.ssub_with_overflow = Kind.sub
get_basic_instr_for_overflow Kind.usub_with_overflow = Kind.sub
get_basic_instr_for_overflow Kind.smul_with_overflow = Kind.mul
get_basic_instr_for_overflow Kind.umul_with_overflow = Kind.mul
get_basic_instr_for_overflow k = k

-- `Inst::getCost`.
unfoldable pub get_cost : Kind → ℕ
get_cost Kind.var = 0
get_cost Kind.const = 0
get_cost Kind.untyped_const = 0
get_cost Kind.sadd_o = 0
get_cost Kind.uadd_o = 0
get_cost Kind.ssub_o = 0
get_cost Kind.usub_o = 0
get_cost Kind.smul_o = 0
get_cost Kind.umul_o = 0
get_cost Kind.bit_reverse = 5
get_cost Kind.bswap = 5
get_cost Kind.ctpop = 5
get_cost Kind.cttz = 5
get_cost Kind.ctlz = 5
get_cost Kind.sdiv = 5
get_cost Kind.udiv = 5
get_cost Kind.srem = 5
get_cost Kind.urem = 5
get_cost Kind.fshl = 3
get_cost Kind.fshr = 3
get_cost Kind.sadd_sat = 3
get_cost Kind.uadd_sat = 3
get_cost Kind.ssub_sat = 3
get_cost Kind.usub_sat = 3
get_cost Kind.select = 3
get_cost _ = 1
