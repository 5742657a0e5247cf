-- ===== src/Inst/Cost.antt =====
-- What `cost` and `instCount` of lib/Inst/Inst.cpp compute.
use souper.Prelude.{ℕ, ◌<◌, ◌≡◌, Bool, false, member, List, [], some, true, ap, arith}
use souper.Inst.Graph.{Store, is_ignored, cost_helper, cost, count_of, count_helper, inst_count}
use souper.Inst.Class.{get_cost}
use souper.Inst.Walk.{IsRanked, Walked, walk-Walks, at_root}

module _ {N : Type 0} (store : Store N) (ranked : IsRanked store) where
  -- With operands created before their users and fuel above the root's number, `cost` returns; it
  -- returns the sum of `getCost` over a list of distinct instructions: exactly the root and the
  -- operands of its members, except that the ignored ones (dependencies of the root with external
  -- uses, if asked for) count 0 and do not bring in their operands.
  pub cost-Walked :
      (fuel i : ℕ) (ignore : Bool)
      → i < fuel
      → (total : ℕ) × (visited : List ℕ) × (cost store fuel i ignore ≡ some total)
        × Walked store (is_ignored store i ignore) (λ j. get_cost (store j).kind) i [] total visited
        × (member i visited ≡ true)
  unfolding cost cost_helper
  cost-Walked fuel i ignore h =
      let (m, visited, e, w, inside) =
        walk-Walks store (is_ignored store i ignore) (λ j. get_cost (store j).kind) i ranked fuel i
          [] h at_root in
      (m, visited, rw (e, cost) (ap some (omega arith)), w, inside.0)

  -- With operands created before their users and fuel above the root's number, `instCount` returns; it
  -- returns the sum, over a list of distinct instructions, exactly the root and the operands of its
  -- members, of 1 for each that is no variable, constant or overflow intrinsic and 0 for
  -- the others.
  pub inst_count-Walked :
      (fuel i : ℕ)
      → i < fuel
      → (total : ℕ) × (visited : List ℕ) × (inst_count store fuel i ≡ some total)
        × Walked store (λ j. false) (λ j. count_of (store j).kind) i [] total visited
        × (member i visited ≡ true)
  unfolding inst_count count_helper
  inst_count-Walked fuel i h =
      let (m, visited, e, w, inside) =
        walk-Walks store (λ j. false) (λ j. count_of (store j).kind) i ranked fuel i [] h at_root in
      (m, visited, rw (e, inst_count) (ap some (omega arith)), w, inside.0)
