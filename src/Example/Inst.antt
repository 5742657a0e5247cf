-- ===== src/Example/Inst.antt =====
-- A small store of instructions, and the theorems about kinds and costs at concrete inputs.
use mathlib.Core.Option
use souper.Prelude.{
  none, if◌then◌else◌, ℕ, zero, suc, ◌≡◌, refl, true, false, Bool, ◌==◌, ◌↔◌, List, [], ◌∷◌, some,
  ◌⊎◌, member, arith,
}
use souper.Inst.Kind.{Kind}
use souper.Inst.Names.{get_kind, get_kind_name}
use souper.Inst.Names.RoundTrip.{get_kind-get_kind_name, get_kind_name-get_kind, read_back}
use souper.Inst.Class.{
  get_cost, get_overflow_complement, get_basic_instr_for_overflow, is_overflow_intrinsic_main,
  is_overflow_intrinsic_sub,
}
use souper.Parser.Definition.{overflow_parts}
use souper.Inst.Laws.{get_overflow_complement_pairs}
use souper.Inst.Graph.{
  Inst, harvested_from_def, full, Store, cost, cost_helper, walk, visit_ops, is_ignored, count_of,
  inst_count,
}
use souper.Inst.Walk.{Fresh, IsRanked, Walked}
use souper.Inst.Cost.{cost-Walked, inst_count-Walked}
use souper.Inst.Find.{find_insts, find_loop, has_given_inst}
use souper.Inst.Find.Search.{IsClosedBelow, Reaches, find_insts-Reaches}
use souper.Inst.Find.Given.{has_given_inst-Reaches}
use souper.Example.Bits.{Bits}

-- An instruction of four bits with no operands.
abbrev pub leaf : Kind → Inst Bits
leaf k = record {
  kind = k;
  number = 0;
  width = 4;
  block = record { address = 0; number = 0; preds = 0; concrete_pred = 0; pred_vars = [] };
  available = true;
  name = [];
  val = false ∷ true ∷ false ∷ false ∷ [];
  ops = [];
  deps_with_external_uses = [];
  known_zeros = [];
  known_ones = [];
  non_zero = false;
  non_negative = false;
  pow_of_two = false;
  negative = false;
  num_sign_bits = 0;
  demanded_bits = [];
  harvest_kind = harvested_from_def;
  harvest_from = 0;
  range = full 4;
  synthesis_const_id = 0;
}

abbrev pub blank : Inst Bits
blank = leaf Kind.shl

-- 0: a variable; 1: the square of 0; 2: the sum of 1 with itself; all others: a constant.
abbrev pub small_store : Store Bits
small_store zero = leaf Kind.var
small_store (suc zero) = record (leaf Kind.mul) { ops = 0 ∷ 0 ∷ [] }
small_store (suc (suc zero)) = record (leaf Kind.add) { ops = 1 ∷ 1 ∷ [] }
small_store (suc (suc (suc i))) = leaf Kind.const

pub small_store-IsRanked : IsRanked small_store
small_store-IsRanked zero = tt
small_store-IsRanked (suc zero) = omega arith
small_store-IsRanked (suc (suc zero)) = omega arith
small_store-IsRanked (suc (suc (suc i))) = tt

-- The shared operand is counted once.
shared_once : cost small_store 3 2 false ≡ some 2
unfolding cost cost_helper walk visit_ops is_ignored get_cost
shared_once = refl

cost-Walked_example :
    (total : ℕ) × (visited : List ℕ) × (cost small_store 3 2 true ≡ some total)
    × Walked small_store
        (is_ignored small_store 2 true)
        (λ j. get_cost (small_store j).kind)
        2
        []
        total
        visited
    × (member 2 visited ≡ true)
cost-Walked_example = cost-Walked small_store small_store-IsRanked 3 2 true (omega arith)

inst_count-Walked_example :
    (total : ℕ) × (visited : List ℕ) × (inst_count small_store 3 2 ≡ some total)
    × Walked small_store (λ j. false) (λ j. count_of (small_store j).kind) 2 [] total visited
    × (member 2 visited ≡ true)
inst_count-Walked_example = inst_count-Walked small_store small_store-IsRanked 3 2 (omega arith)

get_kind-get_kind_name_example :
    Option.map get_kind (get_kind_name Kind.sadd_o) ≡ read_back Kind.sadd_o
get_kind-get_kind_name_example = get_kind-get_kind_name Kind.sadd_o

get_kind_name-get_kind_example :
    (get_kind "addnsw" ≡ Kind.no_kind) ⊎ (get_kind_name (get_kind "addnsw") ≡ some "addnsw")
get_kind_name-get_kind_example = get_kind_name-get_kind "addnsw"

get_overflow_complement_pairs_example :
    (get_overflow_complement (get_overflow_complement Kind.umul_o) ≡ Kind.umul_o)
    × (is_overflow_intrinsic_main (get_overflow_complement Kind.umul_o)
        ≡ is_overflow_intrinsic_sub Kind.umul_o)
    × (is_overflow_intrinsic_sub (get_overflow_complement Kind.umul_o)
        ≡ is_overflow_intrinsic_main Kind.umul_o)
    × (overflow_parts Kind.umul_o ≡ (
        if is_overflow_intrinsic_main Kind.umul_o
        then some (get_basic_instr_for_overflow Kind.umul_o, get_overflow_complement Kind.umul_o)
        else none))
get_overflow_complement_pairs_example = get_overflow_complement_pairs Kind.umul_o

small_store-IsClosedBelow : IsClosedBelow small_store 3
small_store-IsClosedBelow zero o h m = ground arith
small_store-IsClosedBelow (suc zero) o h m = ground arith
small_store-IsClosedBelow (suc (suc zero)) o h m = ground arith
small_store-IsClosedBelow (suc (suc (suc i))) o h m = ground arith

-- The search from the sum meets the variable once.
found_once : find_insts small_store (λ i. i == 0) 6 (some 2) [] ≡ some (0 ∷ [])
unfolding find_insts find_loop
found_once = refl

find_insts-Reaches_example :
    (insts : List ℕ) × (find_insts small_store (λ i. i == 0) 6 (some 2) [] ≡ some insts)
    × Fresh insts []
    × ((x : ℕ) → (member x insts ≡ true) ↔ (Reaches small_store 2 x × ((x == 0) ≡ true)))
find_insts-Reaches_example =
    find_insts-Reaches small_store 3 2 6 (λ i. i == 0) small_store-IsClosedBelow (omega arith)
      (omega arith)

has_given_inst-Reaches_example :
    (b : Bool) × (has_given_inst small_store (λ i. i == 0) 6 (some 2) ≡ some b)
    × (b ≡ true → (x : ℕ) × Reaches small_store 2 x × ((x == 0) ≡ true))
    × ((x : ℕ) → Reaches small_store 2 x → (x == 0) ≡ true → b ≡ true)
has_given_inst-Reaches_example =
    has_given_inst-Reaches small_store 3 2 6 (λ i. i == 0) small_store-IsClosedBelow (omega arith)
      (omega arith)
