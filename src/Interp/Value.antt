-- ===== src/Interp/Value.antt =====
-- include/souper/Infer/Interpreter.h: the values of the interpreter, and the errors that end it.
use souper.Prelude.{ℕ, zero, suc, Bool, true, false, ◌||◌, List, [], ◌∷◌}
use souper.Inst.Kind.{Kind}

-- `struct EvalValue`, over the type `N` of llvm::APInt. A value keeps its width in the APInt; the
-- default-constructed value is `unimplemented`. `poison` and `undef` assert that the width is not 0: the
-- functions that pass the width of an APInt meet that, and `evaluateSingleInst`, which passes that of an
-- instruction, tests it.
pub data EvalValue (N : Type 0) : Type 0 where
  val : N → EvalValue N
  poison : ℕ → EvalValue N
  undef : ℕ → EvalValue N
  ub : EvalValue N
  unimplemented : EvalValue N

-- The calls of `report_fatal_error`, a read past the end of `Args` (`out_of_range`), an assertion of
-- `evaluateSingleInst` that does not hold, and the loss of
-- fuel in the recursion of `evaluateInst`.
pub data Fatal : Type 0 where
  undef_not_supported : Fatal
  no_input_value : Fatal
  no_input_for_block : Fatal
  unimplemented_kind : Kind → Fatal
  expected_number : Fatal
  out_of_range : Fatal
  assertion_failed : Fatal
  out_of_fuel : Fatal

pub data Result {ℓ} (T : Type ℓ) : Type ℓ where
  ok : T → Result T
  fatal : Fatal → Result T

infixl 5 ◌>>=◌
abbrev pub ◌>>=◌ {ℓ κ} : {S : Type ℓ} {T : Type κ} → Result S → (S → Result T) → Result T
ok a >>= f = f a
fatal e >>= f = fatal e

-- `EvalValue::hasValue`.
abbrev pub has_value : {N : Type 0} → EvalValue N → Bool
has_value (val n) = true
has_value _ = false

-- `EvalValue::getValue`.
abbrev pub get_value : {N : Type 0} → EvalValue N → Result N
get_value (val n) = ok n
get_value _ = fatal expected_number

abbrev pub is_ub : {N : Type 0} → EvalValue N → Bool
is_ub ub = true
is_ub _ = false

abbrev pub is_poison : {N : Type 0} → EvalValue N → Bool
is_poison (poison w) = true
is_poison _ = false

abbrev pub is_undef : {N : Type 0} → EvalValue N → Bool
is_undef (undef w) = true
is_undef _ = false

-- `for (auto &A : Args) if (...)`: whether some argument passes the test.
abbrev pub any_arg : {N : Type 0} → (EvalValue N → Bool) → List (EvalValue N) → Bool
any_arg test [] = false
any_arg test (a ∷ args) = test a || any_arg test args

-- `Args[i]`.
abbrev pub arg_at : {N : Type 0} → List (EvalValue N) → ℕ → Result (EvalValue N)
arg_at [] i = fatal out_of_range
arg_at (a ∷ args) zero = ok a
arg_at (a ∷ args) (suc i) = arg_at args i
