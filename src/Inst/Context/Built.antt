-- ===== src/Inst/Context/Built.antt =====
-- The contexts that the operations of InstContext build.
use souper.Prelude.{ℕ, ◌<◌, ◌≡◌, Bool, true, All, List, [], some, member}
use souper.Inst.Kind.{Kind}
use souper.Inst.Class.{get_cost}
use souper.Inst.Graph.{Block, Inst, is_ignored, cost}
use souper.Inst.Walk.{Walked}
use souper.Inst.Cost.{cost-Walked}
use souper.Llvm.ApInt.{ApInt}
use souper.Inst.Context.{
  Library, Context, new_inst, get_const, get_untyped_const, get_reserved_const, get_reserved_inst,
  create_hole, create_var, create_block, get_phi, get_inst,
}
use souper.Inst.Context.Laws.{LibraryLaws}
use souper.Inst.Context.Valid.{
  IsValid, get_const-Adds, get_untyped_const-Adds, get_reserved_const-Adds, get_reserved_inst-Adds,
  create_hole-Adds, create_var-Adds, create_block_lem, get_phi-Adds, get_inst-Adds,
}

module _ (A : ApInt) (lib : Library A) where
  open A use {Num}

  -- `InstContext()`. There is nothing to read in the store yet.
  abbrev pub empty_context : Context Num
  empty_context = record {
    store = λ p. new_inst A Kind.no_kind 0;
    next = 0;
    set = [];
    vars = [];
    blocks = [];
    reserved_const_counter = 0;
  }

  -- A context after any sequence of operations, whose operands are instructions of the context.
  pub data Built : Context Num → Type 0 where
    start : Built empty_context
    const : (v : Num) {c : Context Num} → Built c → Built (get_const A lib v c).1
    untyped_const : (v : Num) {c : Context Num} → Built c → Built (get_untyped_const A lib v c).1
    reserved_const : {c : Context Num} → Built c → Built (get_reserved_const A lib c).1
    reserved_inst : {c : Context Num} → Built c → Built (get_reserved_inst A lib c).1
    hole : (w : ℕ) {c : Context Num} → Built c → Built (create_hole A lib w c).1
    var :
        (w : ℕ) (facts : Inst Num) {c : Context Num}
        → Built c
        → Built (create_var A lib w facts c).1
    block : (preds : ℕ) {c : Context Num} → Built c → Built (create_block A lib preds c).1
    phi :
        (b : Block) (ops : List ℕ) (d : Num) {c : Context Num}
        → All (λ o. o < c.next) ops
        → Built c
        → Built (get_phi A lib b ops d c).1
    inst :
        (k : Kind) (w : ℕ) (ops : List ℕ) (d : Num) (available : Bool) {c : Context Num}
        → All (λ o. o < c.next) ops
        → Built c
        → Built (get_inst A lib k w ops d available c).1

  module _ (laws : LibraryLaws A lib) where
    -- In every context that the operations build, operands are made before their users, and the
    -- instructions that the set and the variables name are there.
    pub Built-IsValid : {c : Context Num} → Built c → IsValid A c
    Built-IsValid start = record {
      ranked = λ p. tt;
      set_inside = λ p e. elim e [ ];
      vars_inside = λ p e. elim e [ ];
    }
    Built-IsValid (const v b) = (get_const-Adds A lib laws v _ (Built-IsValid b)).valid
    Built-IsValid (untyped_const v b) =
        (get_untyped_const-Adds A lib laws v _ (Built-IsValid b)).valid
    Built-IsValid (reserved_const b) =
        (get_reserved_const-Adds A lib laws _ (Built-IsValid b)).valid
    Built-IsValid (reserved_inst b) = (get_reserved_inst-Adds A lib laws _ (Built-IsValid b)).valid
    Built-IsValid (hole w b) = (create_hole-Adds A lib laws w _ (Built-IsValid b)).valid
    Built-IsValid (var w facts b) = (create_var-Adds A lib laws w facts _ (Built-IsValid b)).valid
    Built-IsValid (block preds b) = (create_block_lem A lib laws preds _ (Built-IsValid b)).0
    Built-IsValid (phi b ops d below built) =
        (get_phi-Adds A lib laws b ops d _ (Built-IsValid built) below).valid
    Built-IsValid (inst k w ops d available below built) =
        (get_inst-Adds A lib laws k w ops d available _ (Built-IsValid built) below).valid

    -- In every context that the operations build, `cost` of each of its instructions ends, with as much
    -- fuel as there are instructions, and is the sum over the instructions below it, once each.
    pub cost-Built :
        {c : Context Num} (i : ℕ) (ignore : Bool)
        → Built c
        → i < c.next
        → (total : ℕ) × (visited : List ℕ) × (cost c.store c.next i ignore ≡ some total)
          × Walked c.store
              (is_ignored c.store i ignore)
              (λ j. get_cost (c.store j).kind)
              i
              []
              total
              visited
          × (member i visited ≡ true)
    cost-Built {c} i ignore b h = cost-Walked c.store (Built-IsValid b).ranked c.next i ignore h
