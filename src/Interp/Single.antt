-- ===== src/Interp/Single.antt =====
-- lib/Infer/Interpreter.cpp: `ConcreteInterpreter::evaluateSingleInst`.
pub mod Flags
pub mod Overflow
pub mod Division
use souper.Prelude.{
  ℕ, ◌+◌, ◌-◌, ◌*◌, ◌%◌, ◌^◌, Bool, true, false, ◌&&◌, ◌||◌, not, ◌==◌, List, if◌then◌else◌,
}
use souper.Inst.Kind.{Kind}
use souper.Inst.Graph.{Inst}
use souper.Llvm.ApInt.{ApInt}
use souper.Interp.Value.{
  assertion_failed, EvalValue, val, poison, undef, ub, Result, ok, fatal, ◌>>=◌, get_value, is_ub,
  is_poison, is_undef, any_arg, arg_at, undef_not_supported, no_input_value, no_input_for_block,
  unimplemented_kind,
}
use souper.Interp.Arith.{
  evaluate_add_nsw, evaluate_add_nuw, evaluate_add_nw, evaluate_sub_nsw, evaluate_sub_nuw,
  evaluate_sub_nw, evaluate_mul_nsw, evaluate_mul_nuw, evaluate_mul_nw, evaluate_udiv,
  evaluate_urem, evaluate_shl, evaluate_lshr, evaluate_ashr, minus_one_u64, uge,
}

-- `Inst->B->ConcretePred == -1`, for an unsigned field.
abbrev pub no_concrete_pred : ℕ
no_concrete_pred = 2 ^ 32 - 1

-- The kinds that take poison from their chosen input.
unfoldable pub keeps_poison : Kind → Bool
keeps_poison Kind.select = true
keeps_poison Kind.phi = true
keeps_poison Kind.freeze = true
keeps_poison _ = false

module _ (A : ApInt) where
  open A use {
    Num, width, of, get_all_ones_value, get_limited_value, eq, eq_u64, ult, ule, slt, sle,
    is_min_signed_value, is_all_ones_value, add, sub, mul, udiv, sdiv, srem, urem_u64, sadd_ov,
    uadd_ov, ssub_ov, usub_ov, smul_ov, umul_ov, sshl_ov, ushl_ov, sadd_sat, uadd_sat, ssub_sat,
    usub_sat, and, or, xor, shl, lshr, ashr, shl_by, lshr_by, zext, sext, trunc, extract_bits,
    get_hi_bits, count_population, count_leading_zeros, count_trailing_zeros, set_bit, byte_swap,
    reverse_bits,
  }

  -- The macros ARG0, ARG1 and ARG2.
  abbrev pub arg : List (EvalValue Num) → ℕ → Result Num
  arg args i = do a ← arg_at args i; get_value a

  -- `{{1, b}}` and `{ llvm::APInt(1, b) }`.
  abbrev pub flag : Bool → EvalValue Num
  flag b = val (of 1 (if b then 1 else 0))

  -- A case that computes a value from ARG0, or from ARG0 and ARG1.
  abbrev pub unary : (Num → EvalValue Num) → List (EvalValue Num) → Result (EvalValue Num)
  unary f args = do a ← arg args 0; ok (f a)

  abbrev pub binary : (Num → Num → EvalValue Num) → List (EvalValue Num) → Result (EvalValue Num)
  binary f args = do a ← arg args 0; b ← arg args 1; ok (f a b)

  abbrev pub ternary :
      (Num → Num → Num → EvalValue Num) → List (EvalValue Num) → Result (EvalValue Num)
  ternary f args = do a ← arg args 0; b ← arg args 1; c ← arg args 2; ok (f a b c)

  unfoldable pub udiv_exact : Num → Num → EvalValue Num
  udiv_exact a b =
      if eq_u64 b 0
      then ub
      else if not (eq (mul (udiv a b) b) a)
      then poison (width a)
      else val (udiv a b)

  unfoldable pub sdiv_exact : Num → Num → EvalValue Num
  sdiv_exact a b =
      if eq_u64 b 0 || (is_min_signed_value a && is_all_ones_value b)
      then ub
      else if not (eq (mul (sdiv a b) b) a)
      then poison (width a)
      else val (sdiv a b)

  unfoldable pub sdiv_case : Num → Num → EvalValue Num
  sdiv_case a b =
      if eq_u64 b 0 || (is_min_signed_value a && eq_u64 b minus_one_u64) then ub else val (sdiv a b)

  unfoldable pub srem_case : Num → Num → EvalValue Num
  srem_case a b =
      if eq_u64 b 0 || (is_min_signed_value a && is_all_ones_value b) then ub else val (srem a b)

  unfoldable pub shl_nsw : Num → Num → EvalValue Num
  shl_nsw a b = let (res, ov) = sshl_ov a b in if ov then poison (width a) else val res

  unfoldable pub shl_nuw : Num → Num → EvalValue Num
  shl_nuw a b = let (res, ov) = ushl_ov a b in if ov then poison (width a) else val res

  unfoldable pub shl_nw : Num → Num → EvalValue Num
  shl_nw a b =
      let (res1, ov1) = ushl_ov a b in
      let (res2, ov2) = sshl_ov a b in if ov1 || ov2 then poison (width a) else val res1

  unfoldable pub lshr_exact : Num → Num → EvalValue Num
  lshr_exact a b =
      if uge A b (width a)
      then poison (width a)
      else if not (eq a (shl (lshr a b) b))
      then poison (width a)
      else val (lshr a b)

  unfoldable pub ashr_exact : Num → Num → EvalValue Num
  ashr_exact a b =
      if uge A b (width a)
      then poison (width a)
      else if not (eq a (shl (ashr a b) b))
      then poison (width a)
      else val (ashr a b)

  -- ARG0 above ARG1 in a number of twice the width.
  unfoldable pub funnel : Num → Num → Num
  funnel a b = let w = width a in or (shl_by (zext a (2 * w)) w) (zext b (2 * w))

  unfoldable pub fshl_case : Num → Num → Num → EvalValue Num
  fshl_case a b c = let w = width a in val (extract_bits (shl_by (funnel a b) (urem_u64 c w)) w w)

  unfoldable pub fshr_case : Num → Num → Num → EvalValue Num
  fshr_case a b c = let w = width a in val (extract_bits (lshr_by (funnel a b) (urem_u64 c w)) w 0)

  -- The `*.with.overflow` cases: the flag ARG1, which must have one bit, becomes the sign bit above
  -- ARG0.
  unfoldable pub with_overflow : List (EvalValue Num) → Result (EvalValue Num)
  with_overflow args = do
    a ← arg args 0
    b ← arg args 1
    let w = width a + 1
    let res = zext a w
    (if width b == 1
        then ok (val (if eq_u64 b 1 then set_bit res (w - 1) else res))
        else fatal assertion_failed)

  unfoldable pub extract_value : Num → Num → EvalValue Num
  extract_value a b =
      if eq_u64 b 0 then val (trunc a (width a - 1)) else val (trunc (get_hi_bits a 1) 1)

  -- `Args[0]` is returned as it is if it is no number.
  unfoldable pub select_case : List (EvalValue Num) → Result (EvalValue Num)
  select_case args = do
    c ← arg_at args 0
    elim c [ val n ↦ (if eq_u64 n 0 then arg_at args 2 else arg_at args 1) | other ↦ ok other ]

  unfoldable pub phi_case : Inst Num → Bool → List (EvalValue Num) → Result (EvalValue Num)
  phi_case inst eval_phi_first_branch args =
      let pred = inst.block.concrete_pred in
      if pred == no_concrete_pred
      then if eval_phi_first_branch then arg_at args 0 else fatal no_input_for_block
      else arg_at args pred

  -- `rand` is what `std::rand()` returns.
  unfoldable pub freeze_case : ℕ → List (EvalValue Num) → Result (EvalValue Num)
  freeze_case rand args = do
    a ← arg_at args 0
    elim a [
      | poison w ↦ ok (val (of w (rand % get_limited_value (get_all_ones_value w))))
      | undef w ↦ ok (val (of w (rand % get_limited_value (get_all_ones_value w))))
      | other ↦ ok other
    ]

  -- The `switch` of `evaluateSingleInst`, on the kind.
  unfoldable pub evaluate_kind :
      Kind → Inst Num → Bool → ℕ → List (EvalValue Num) → Result (EvalValue Num)
  evaluate_kind Kind.const inst first rand args = ok (val inst.val)
  evaluate_kind Kind.untyped_const inst first rand args = ok (val inst.val)
  evaluate_kind Kind.var inst first rand args = fatal no_input_value
  evaluate_kind Kind.phi inst first rand args = phi_case inst first args
  evaluate_kind Kind.add inst first rand args = binary (λ a b. val (add a b)) args
  evaluate_kind Kind.add_nsw inst first rand args = binary (evaluate_add_nsw A) args
  evaluate_kind Kind.add_nuw inst first rand args = binary (evaluate_add_nuw A) args
  evaluate_kind Kind.add_nw inst first rand args = binary (evaluate_add_nw A) args
  evaluate_kind Kind.sub inst first rand args = binary (λ a b. val (sub a b)) args
  evaluate_kind Kind.sub_nsw inst first rand args = binary (evaluate_sub_nsw A) args
  evaluate_kind Kind.sub_nuw inst first rand args = binary (evaluate_sub_nuw A) args
  evaluate_kind Kind.sub_nw inst first rand args = binary (evaluate_sub_nw A) args
  evaluate_kind Kind.mul inst first rand args = binary (λ a b. val (mul a b)) args
  evaluate_kind Kind.mul_nsw inst first rand args = binary (evaluate_mul_nsw A) args
  evaluate_kind Kind.mul_nuw inst first rand args = binary (evaluate_mul_nuw A) args
  evaluate_kind Kind.mul_nw inst first rand args = binary (evaluate_mul_nw A) args
  evaluate_kind Kind.udiv_exact inst first rand args = binary udiv_exact args
  evaluate_kind Kind.udiv inst first rand args = binary (evaluate_udiv A) args
  evaluate_kind Kind.sdiv_exact inst first rand args = binary sdiv_exact args
  evaluate_kind Kind.sdiv inst first rand args = binary sdiv_case args
  evaluate_kind Kind.urem inst first rand args = binary (evaluate_urem A) args
  evaluate_kind Kind.srem inst first rand args = binary srem_case args
  evaluate_kind Kind.and inst first rand args = binary (λ a b. val (and a b)) args
  evaluate_kind Kind.or inst first rand args = binary (λ a b. val (or a b)) args
  evaluate_kind Kind.xor inst first rand args = binary (λ a b. val (xor a b)) args
  evaluate_kind Kind.shl inst first rand args = binary (evaluate_shl A) args
  evaluate_kind Kind.shl_nsw inst first rand args = binary shl_nsw args
  evaluate_kind Kind.shl_nuw inst first rand args = binary shl_nuw args
  evaluate_kind Kind.shl_nw inst first rand args = binary shl_nw args
  evaluate_kind Kind.lshr inst first rand args = binary (evaluate_lshr A) args
  evaluate_kind Kind.lshr_exact inst first rand args = binary lshr_exact args
  evaluate_kind Kind.ashr inst first rand args = binary (evaluate_ashr A) args
  evaluate_kind Kind.ashr_exact inst first rand args = binary ashr_exact args
  evaluate_kind Kind.select inst first rand args = select_case args
  evaluate_kind Kind.zext inst first rand args = unary (λ a. val (zext a inst.width)) args
  evaluate_kind Kind.sext inst first rand args = unary (λ a. val (sext a inst.width)) args
  evaluate_kind Kind.trunc inst first rand args = unary (λ a. val (trunc a inst.width)) args
  evaluate_kind Kind.eq inst first rand args = binary (λ a b. flag (eq a b)) args
  evaluate_kind Kind.ne inst first rand args = binary (λ a b. flag (not (eq a b))) args
  evaluate_kind Kind.ult inst first rand args = binary (λ a b. flag (ult a b)) args
  evaluate_kind Kind.slt inst first rand args = binary (λ a b. flag (slt a b)) args
  evaluate_kind Kind.ule inst first rand args = binary (λ a b. flag (ule a b)) args
  evaluate_kind Kind.sle inst first rand args = binary (λ a b. flag (sle a b)) args
  evaluate_kind Kind.ctpop inst first rand args =
      unary (λ a. val (of inst.width (count_population a))) args
  evaluate_kind Kind.ctlz inst first rand args =
      unary (λ a. val (of inst.width (count_leading_zeros a))) args
  evaluate_kind Kind.cttz inst first rand args =
      unary (λ a. val (of inst.width (count_trailing_zeros a))) args
  evaluate_kind Kind.bswap inst first rand args = unary (λ a. val (byte_swap a)) args
  evaluate_kind Kind.bit_reverse inst first rand args = unary (λ a. val (reverse_bits a)) args
  evaluate_kind Kind.fshl inst first rand args = ternary fshl_case args
  evaluate_kind Kind.fshr inst first rand args = ternary fshr_case args
  evaluate_kind Kind.sadd_sat inst first rand args = binary (λ a b. val (sadd_sat a b)) args
  evaluate_kind Kind.uadd_sat inst first rand args = binary (λ a b. val (uadd_sat a b)) args
  evaluate_kind Kind.ssub_sat inst first rand args = binary (λ a b. val (ssub_sat a b)) args
  evaluate_kind Kind.usub_sat inst first rand args = binary (λ a b. val (usub_sat a b)) args
  evaluate_kind Kind.sadd_with_overflow inst first rand args = with_overflow args
  evaluate_kind Kind.uadd_with_overflow inst first rand args = with_overflow args
  evaluate_kind Kind.ssub_with_overflow inst first rand args = with_overflow args
  evaluate_kind Kind.usub_with_overflow inst first rand args = with_overflow args
  evaluate_kind Kind.smul_with_overflow inst first rand args = with_overflow args
  evaluate_kind Kind.umul_with_overflow inst first rand args = with_overflow args
  evaluate_kind Kind.sadd_o inst first rand args = binary (λ a b. flag (sadd_ov a b).1) args
  evaluate_kind Kind.uadd_o inst first rand args = binary (λ a b. flag (uadd_ov a b).1) args
  evaluate_kind Kind.ssub_o inst first rand args = binary (λ a b. flag (ssub_ov a b).1) args
  evaluate_kind Kind.usub_o inst first rand args = binary (λ a b. flag (usub_ov a b).1) args
  evaluate_kind Kind.smul_o inst first rand args = binary (λ a b. flag (smul_ov a b).1) args
  evaluate_kind Kind.umul_o inst first rand args = binary (λ a b. flag (umul_ov a b).1) args
  evaluate_kind Kind.extract_value inst first rand args = binary extract_value args
  evaluate_kind Kind.freeze inst first rand args = freeze_case rand args
  evaluate_kind Kind.hole inst first rand args = fatal (unimplemented_kind Kind.hole)
  evaluate_kind Kind.reserved_const inst first rand args =
      fatal (unimplemented_kind Kind.reserved_const)
  evaluate_kind Kind.reserved_inst inst first rand args =
      fatal (unimplemented_kind Kind.reserved_inst)
  evaluate_kind Kind.no_kind inst first rand args = fatal (unimplemented_kind Kind.no_kind)

  -- `ConcreteInterpreter::evaluateSingleInst`.
  unfoldable pub evaluate_single_inst :
      Inst Num → Bool → ℕ → List (EvalValue Num) → Result (EvalValue Num)
  evaluate_single_inst inst first rand args =
      if any_arg is_ub args
      then ok ub
      else if not (keeps_poison inst.kind) && any_arg is_poison args
      then if inst.width == 0 then fatal assertion_failed else ok (poison inst.width)
      else if any_arg is_undef args
      then fatal undef_not_supported
      else evaluate_kind inst.kind inst first rand args
