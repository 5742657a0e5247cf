-- ===== src/Interp/Arith.antt =====
-- lib/Infer/Interpreter.cpp: the helpers `evaluateAddNSW` to `evaluateAShr`.
use souper.Prelude.{ℕ, Bool, ◌&&◌, ◌||◌, leb, if◌then◌else◌, ◌^◌, ◌-◌}
use souper.Llvm.ApInt.{ApInt}
use souper.Interp.Value.{EvalValue, val, poison, ub}

-- The value of the C++ constant -1 as a uint64_t.
abbrev pub minus_one_u64 : ℕ
minus_one_u64 = 2 ^ 64 - 1

module _ (A : ApInt) where
  open A use {
    Num, width, value, eq_u64, is_min_signed_value, udiv, sdiv, urem, shl, lshr, ashr, sadd_ov,
    uadd_ov, ssub_ov, usub_ov, smul_ov, umul_ov,
  }

  -- `a.uge(n)` for a number `n`.
  abbrev pub uge : Num → ℕ → Bool
  uge a n = leb n (value a)

  unfoldable pub evaluate_add_nsw : Num → Num → EvalValue Num
  evaluate_add_nsw a b = let (res, ov) = sadd_ov a b in if ov then poison (width a) else val res

  unfoldable pub evaluate_add_nuw : Num → Num → EvalValue Num
  evaluate_add_nuw a b = let (res, ov) = uadd_ov a b in if ov then poison (width a) else val res

  unfoldable pub evaluate_add_nw : Num → Num → EvalValue Num
  evaluate_add_nw a b =
      let (res1, ov1) = sadd_ov a b in
      let (res2, ov2) = uadd_ov a b in if ov1 || ov2 then poison (width a) else val res1

  unfoldable pub evaluate_sub_nsw : Num → Num → EvalValue Num
  evaluate_sub_nsw a b = let (res, ov) = ssub_ov a b in if ov then poison (width a) else val res

  unfoldable pub evaluate_sub_nuw : Num → Num → EvalValue Num
  evaluate_sub_nuw a b = let (res, ov) = usub_ov a b in if ov then poison (width a) else val res

  unfoldable pub evaluate_sub_nw : Num → Num → EvalValue Num
  evaluate_sub_nw a b =
      let (res1, ov1) = ssub_ov a b in
      let (res2, ov2) = usub_ov a b in if ov1 || ov2 then poison (width a) else val res1

  unfoldable pub evaluate_mul_nsw : Num → Num → EvalValue Num
  evaluate_mul_nsw a b = let (res, ov) = smul_ov a b in if ov then poison (width a) else val res

  unfoldable pub evaluate_mul_nuw : Num → Num → EvalValue Num
  evaluate_mul_nuw a b = let (res, ov) = umul_ov a b in if ov then poison (width a) else val res

  unfoldable pub evaluate_mul_nw : Num → Num → EvalValue Num
  evaluate_mul_nw a b =
      let (res1, ov1) = smul_ov a b in
      let (res2, ov2) = umul_ov a b in if ov1 || ov2 then poison (width a) else val res1

  unfoldable pub evaluate_udiv : Num → Num → EvalValue Num
  evaluate_udiv a b = if eq_u64 b 0 then ub else val (udiv a b)

  unfoldable pub evaluate_sdiv : Num → Num → EvalValue Num
  evaluate_sdiv a b =
      if eq_u64 b 0 || (is_min_signed_value a && eq_u64 b minus_one_u64) then ub else val (sdiv a b)

  unfoldable pub evaluate_urem : Num → Num → EvalValue Num
  evaluate_urem a b = if eq_u64 b 0 then ub else val (urem a b)

  unfoldable pub evaluate_shl : Num → Num → EvalValue Num
  evaluate_shl a b = if uge b (width a) then poison (width a) else val (shl a b)

  unfoldable pub evaluate_lshr : Num → Num → EvalValue Num
  evaluate_lshr a b = if uge b (width a) then poison (width a) else val (lshr a b)

  unfoldable pub evaluate_ashr : Num → Num → EvalValue Num
  evaluate_ashr a b = if uge b (width a) then poison (width a) else val (ashr a b)
