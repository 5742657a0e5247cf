-- ===== src/Inst/Kind.antt =====
-- include/souper/Inst/Inst.h: the kinds of an instruction, with the enum's constructors in the
-- enum's order. `None` is `no_kind`.
pub data Kind : Type 0 where
  const untyped_const var phi hole add add_nsw add_nuw add_nw sub sub_nsw sub_nuw sub_nw : Kind
  mul mul_nsw mul_nuw mul_nw udiv sdiv udiv_exact sdiv_exact urem srem and or xor shl : Kind
  shl_nsw shl_nuw shl_nw lshr lshr_exact ashr ashr_exact select zext sext trunc eq ne ult : Kind
  slt ule sle ctpop bswap cttz ctlz bit_reverse fshl fshr extract_value sadd_with_overflow : Kind
  sadd_o uadd_with_overflow uadd_o ssub_with_overflow ssub_o usub_with_overflow usub_o : Kind
  smul_with_overflow smul_o umul_with_overflow umul_o sadd_sat uadd_sat ssub_sat usub_sat : Kind
  freeze reserved_const reserved_inst no_kind : Kind
