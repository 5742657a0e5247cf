-- ===== src/Inst/Laws.antt =====
-- How the two overflow maps and what the parser builds fit together.
use souper.Prelude.{◌≡◌, refl, none, some, if◌then◌else◌}
use souper.Inst.Kind.{Kind}
use souper.Inst.Class.{
  is_overflow_intrinsic_main, is_overflow_intrinsic_sub, get_overflow_complement,
  get_basic_instr_for_overflow,
}
use souper.Parser.Definition.{overflow_parts}

-- `getOverflowComplement` is its own inverse and swaps the two classes, and for a `*.with.overflow`
-- kind `getBasicInstrForOverflow` and `getOverflowComplement` give the two kinds of the instructions that
-- the parser puts into it; the parser builds no other kind from parts.
pub get_overflow_complement_pairs :
    (k : Kind)
    → (get_overflow_complement (get_overflow_complement k) ≡ k)
      × (is_overflow_intrinsic_main (get_overflow_complement k) ≡ is_overflow_intrinsic_sub k)
      × (is_overflow_intrinsic_sub (get_overflow_complement k) ≡ is_overflow_intrinsic_main k)
      × (overflow_parts k ≡ (
          if is_overflow_intrinsic_main k
          then some (get_basic_instr_for_overflow k, get_overflow_complement k)
          else none))
unfolding get_overflow_complement is_overflow_intrinsic_main is_overflow_intrinsic_sub
    get_basic_instr_for_overflow
get_overflow_complement_pairs Kind.const = (refl, refl, refl, refl)
get_overflow_complement_pairs _ = (refl, refl, refl, refl)
