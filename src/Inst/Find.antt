-- ===== src/Inst/Find.antt =====
-- lib/Inst/Inst.cpp: the breadth-first searches over operands.
pub mod Members
pub mod Search
pub mod Given
use souper.Prelude.{
  ℕ, zero, suc, Bool, true, false, ◌&&◌, not, ◌==◌, member, List, [], ◌∷◌, ◌++◌, length, Option,
  none, some, if◌then◌else◌, map,
}
use souper.Inst.Kind.{Kind}
use souper.Inst.Graph.{Store}

-- `I->K == Inst::Var`, `I->K == Inst::Hole`.
abbrev is_var : Kind → Bool
is_var Kind.var = true
is_var _ = false

abbrev is_hole : Kind → Bool
is_hole Kind.hole = true
is_hole _ = false

module _ {N : Type 0} (store : Store N) where
  -- The loop of `findInsts`, on fuel, with the queue `Q`, the set `Visited` and the vector `Insts`.
  -- `none` means that the fuel ran out.
  unfoldable pub find_loop : (ℕ → Bool) → ℕ → List ℕ → List ℕ → List ℕ → Option (List ℕ)
  find_loop condition zero queue visited insts = none
  find_loop condition (suc fuel) [] visited insts = some insts
  find_loop condition (suc fuel) (i ∷ queue) visited insts =
      let seen = find_loop condition fuel queue visited insts in
      let found = if condition i then insts ++ (i ∷ []) else insts in
      let next = find_loop condition fuel (queue ++ (store i).ops) (i ∷ visited) found in
      if member i visited then seen else next

  -- `souper::findInsts`; a root `nullptr` is `none`.
  unfoldable pub find_insts : (ℕ → Bool) → ℕ → Option ℕ → List ℕ → Option (List ℕ)
  find_insts condition fuel none insts = some insts
  find_insts condition fuel (some root) insts = find_loop condition fuel (root ∷ []) [] insts

  unfoldable pub find_vars : ℕ → Option ℕ → List ℕ → Option (List ℕ)
  find_vars = find_insts (λ i. is_var (store i).kind && (store i).synthesis_const_id == 0)

  -- `souper::getHoles`, whose root is not `nullptr`; its assertion on the width is not modelled.
  unfoldable pub get_holes : ℕ → ℕ → List ℕ → Option (List ℕ)
  get_holes fuel root = find_loop (λ i. is_hole (store i).kind) fuel (root ∷ []) []

  unfoldable pub has_given_inst : (ℕ → Bool) → ℕ → Option ℕ → Option Bool
  has_given_inst tester fuel root = elim (find_insts tester fuel root []) [
    | none ↦ none
    | some insts ↦ some (not (length insts == 0))
  ]
