-- ===== src/Inst/Graph.antt =====
-- include/souper/Inst/Inst.h: instructions on a store of pointers, and the recursive walks over
-- operands of lib/Inst/Inst.cpp.
use souper.Prelude.{ℕ, zero, suc, ◌+◌, Bool, false, ◌&&◌, ◌||◌, not, ◌==◌, member}
use souper.Prelude.{List, [], ◌∷◌, Option, none, some, if◌then◌else◌}
use souper.Inst.Kind.{Kind}
use souper.Inst.Class.{get_cost, is_overflow_intrinsic_main, is_overflow_intrinsic_sub}

-- The fields of `struct Block` that the modelled code reads.
-- `address` tells blocks apart, as a `Block *` does; the predecessor variables are pointers.
pub record Block : Type 0 where
  pub address : ℕ
  pub number : ℕ
  pub preds : ℕ
  pub concrete_pred : ℕ
  pub pred_vars : List ℕ

-- `enum class HarvestType`.
pub data HarvestType : Type 0 where
  harvested_from_def harvested_from_use : HarvestType

-- The arguments that a llvm::ConstantRange is constructed from: a width, for the full set, or the
-- lower and the upper bound.
pub data Range (N : Type 0) : Type 0 where
  full : ℕ → Range N
  between : N → N → Range N

-- The fields of `struct Inst` that the modelled code reads, over the type `N` of `llvm::APInt`.
-- Pointers to instructions and to blocks are numbers.
pub record Inst (N : Type 0) : Type 0 where
  pub kind : Kind
  pub number : ℕ
  pub width : ℕ
  pub block : Block
  pub available : Bool
  pub val : N
  pub name : List ℕ
  pub ops : List ℕ
  pub deps_with_external_uses : List ℕ
  pub known_zeros : N
  pub known_ones : N
  pub non_zero : Bool
  pub non_negative : Bool
  pub pow_of_two : Bool
  pub negative : Bool
  pub num_sign_bits : ℕ
  pub demanded_bits : N
  pub synthesis_const_id : ℕ
  pub harvest_kind : HarvestType
  pub harvest_from : ℕ
  pub range : Range N

-- What a pointer points to.
abbrev pub Store : Type 0 → Type 0
Store N = ℕ → Inst N

-- `for (auto Op : I->Ops) Total += helper(Op, Visited);`
unfoldable pub visit_ops :
    (ℕ → List ℕ → Option (ℕ × List ℕ)) → List ℕ → ℕ → List ℕ → Option (ℕ × List ℕ)
visit_ops helper [] total visited = some (total, visited)
visit_ops helper (op ∷ ops) total visited = elim (helper op visited) [
  | none ↦ none
  | some (n, visited') ↦ visit_ops helper ops (total + n) visited'
]

-- What `countHelper` counts for one instruction.
unfoldable pub count_of : Kind → ℕ
count_of Kind.var = 0
count_of Kind.const = 0
count_of Kind.untyped_const = 0
count_of k = if is_overflow_intrinsic_main k || is_overflow_intrinsic_sub k then 0 else 1

module _ {N : Type 0} (store : Store N) where
  -- The shape that `costHelper` and `countHelper` share: an instruction that was visited before, or
  -- that `skip` names, adds nothing; any other adds its own weight and the walks of its operands.
  -- `none` means that the fuel ran out.
  unfoldable pub walk : (ℕ → Bool) → (ℕ → ℕ) → ℕ → ℕ → List ℕ → Option (ℕ × List ℕ)
  walk skip weight zero i visited = none
  walk skip weight (suc fuel) i visited =
      let inside = visit_ops (walk skip weight fuel) (store i).ops (weight i) (i ∷ visited) in
      if member i visited
      then some (0, visited)
      else if skip i
      then some (0, i ∷ visited)
      else inside

  -- The second guard of `costHelper`.
  unfoldable pub is_ignored : ℕ → Bool → ℕ → Bool
  is_ignored root ignore i =
      ignore && not (i == root) && member i (store root).deps_with_external_uses

  unfoldable pub cost_helper : ℕ → ℕ → Bool → ℕ → List ℕ → Option (ℕ × List ℕ)
  cost_helper fuel root ignore = walk (is_ignored root ignore) (λ i. get_cost (store i).kind) fuel

  -- `souper::cost`, on fuel.
  unfoldable pub cost : ℕ → ℕ → Bool → Option ℕ
  cost fuel i ignore = elim (cost_helper fuel i ignore i []) [
    | none ↦ none
    | some (c, visited) ↦ some c
  ]

  unfoldable pub count_helper : ℕ → ℕ → List ℕ → Option (ℕ × List ℕ)
  count_helper = walk (λ i. false) (λ i. count_of (store i).kind)

  -- `souper::instCount`, on fuel.
  unfoldable pub inst_count : ℕ → ℕ → Option ℕ
  inst_count fuel i = elim (count_helper fuel i []) [ none ↦ none | some (c, visited) ↦ some c ]
