-- ===== src/Example/TypeCheck.antt =====
-- The type checks of Parser.cpp on a context with two variables of four bits.
use souper.Prelude.{◌≡◌, refl, [], ◌∷◌, some}
use souper.Inst.Kind.{Kind}
use souper.Inst.Graph.{Block}
use souper.Inst.Context.{intern, create_var}
use souper.Parser.Message.{ok}
use souper.Parser.TypeCheck.{
  is_overflow, op_bounds, scan_widths, type_ops, type_check_ops_matching_widths, has_overflow_op,
  type_check_phi,
}
use souper.Parser.TypeCheck.Phi.{PhiTyped, type_check_phi-PhiTyped}
use souper.Parser.InstCheck.{
  check_kind, check_op_count, check_widths, check_operands, expected_width, settle_width,
  check_rest, type_check_inst,
}
use souper.Parser.InstCheck.Typed.{InstTyped, type_check_inst-InstTyped}
use souper.Example.Bits.{bits_ApInt}
use souper.Example.BitsLaws.{bits_laws}
use souper.Example.Context.{list_library, list_laws}
use souper.Example.Built.{two_vars, two_vars_below, two_vars-IsValid}

checked_add :
    type_check_inst bits_ApInt list_library Kind.add 0 (0 ∷ 1 ∷ []) two_vars
    ≡ some (ok (4, 0 ∷ 1 ∷ [], two_vars))
unfolding type_check_inst op_bounds check_kind check_rest check_op_count check_operands check_widths
    expected_width settle_width type_check_ops_matching_widths scan_widths type_ops has_overflow_op
    is_overflow intern create_var
checked_add = refl

type_check_inst-InstTyped_example :
    InstTyped bits_ApInt list_library list_laws bits_laws Kind.add two_vars 2
      (4, 0 ∷ 1 ∷ [], two_vars)
type_check_inst-InstTyped_example =
    type_check_inst-InstTyped bits_ApInt list_library list_laws bits_laws Kind.add 0 (0 ∷ 1 ∷ [])
      two_vars (4, 0 ∷ 1 ∷ [], two_vars) refl two_vars-IsValid two_vars_below checked_add

abbrev pub two_preds : Block
two_preds = record { address = 0; number = 0; preds = 2; concrete_pred = 0; pred_vars = [] }

checked_phi :
    type_check_phi bits_ApInt list_library 4 two_preds (some 1) (0 ∷ 1 ∷ []) two_vars
    ≡ ok (0 ∷ 1 ∷ [], two_vars)
unfolding type_check_phi type_check_ops_matching_widths scan_widths type_ops has_overflow_op
    is_overflow intern create_var
checked_phi = refl

type_check_phi-PhiTyped_example :
    PhiTyped bits_ApInt list_library list_laws bits_laws 4 two_preds
      (some 1)
      two_vars
      2
      (0 ∷ 1 ∷ [], two_vars)
type_check_phi-PhiTyped_example =
    type_check_phi-PhiTyped bits_ApInt list_library list_laws bits_laws 4 two_preds (some 1)
      (0 ∷ 1 ∷ []) two_vars (0 ∷ 1 ∷ [], two_vars) two_vars-IsValid two_vars_below checked_phi
