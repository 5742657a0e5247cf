-- ===== src/Inst/Context.antt =====
-- lib/Inst/Inst.cpp: InstContext, which owns the instructions and makes equal ones one.
pub mod Laws
pub mod Valid
pub mod Unique
pub mod Shared
pub mod Built
use souper.Prelude.{
  zero, u32, u32_sub, ℕ, suc, ◌+◌, ◌-◌, ◌^◌, ◌<◌, ◌≡◌, Bool, true, false, not, ◌==◌, ◌||◌, List, [],
  ◌∷◌, ◌++◌, map, length, Option, none, some, if◌then◌else◌, ltb, member,
}
use souper.Inst.Kind.{Kind}
use souper.Inst.Class.{is_commutative}
use souper.Inst.Graph.{
  Block, Inst, Store, HarvestType, harvested_from_def, harvested_from_use, Range, full,
}
use souper.Llvm.ApInt.{ApInt}

-- What is added to a llvm::FoldingSetNodeID: integers, pointers and numbers.
pub data Word (N : Type 0) : Type 0 where
  kind : Kind → Word N
  integer : ℕ → Word N
  pointer : ℕ → Word N
  num : N → Word N

-- The parts of LLVM and of the C++ library that a context rests on.
pub record Library (A : ApInt) : Type 0 where
  -- `FindNodeOrInsertPos`, given the profiles of the nodes in the set.
  pub find_node : List (List (Word A.Num) × ℕ) → List (Word A.Num) → Option ℕ
  -- `std::sort` of pointers.
  pub sort : List ℕ → List ℕ

-- `InstContext`. The instructions are the first `next` of the store: those of `Insts` and of
-- `VarInstsByWidth`, whose pointers are in `vars`. `set` is InstSet.
pub record Context (N : Type 0) : Type 0 where
  pub store : Store N
  pub next : ℕ
  pub set : List ℕ
  pub vars : List ℕ
  pub blocks : List Block
  pub reserved_const_counter : ℕ

-- How many elements pass a test.
abbrev pub count {ℓ} : {T : Type ℓ} → (T → Bool) → List T → ℕ
count test [] = 0
count test (x ∷ xs) = (if test x then 1 else 0) + count test xs

module _ (A : ApInt) where
  open A use {Num, width, of, get_all_ones_value, is_all_ones_value}

  abbrev pub null_block : Block
  null_block = record {
    address = 0;
    number = 0;
    preds = 0;
    concrete_pred = 2 ^ 32 - 1;
    pred_vars = [];
  }

  -- `new Inst`. The fields that C++ leaves without a value are 0 or false here.
  abbrev pub new_inst : Kind → ℕ → Inst Num
  new_inst k w = record {
    kind = k;
    number = 0;
    width = w;
    block = null_block;
    available = true;
    val = of 1 0;
    name = [];
    ops = [];
    deps_with_external_uses = [];
    known_zeros = of 1 0;
    known_ones = of 1 0;
    non_zero = false;
    non_negative = false;
    pow_of_two = false;
    negative = false;
    num_sign_bits = 0;
    demanded_bits = of 1 0;
    synthesis_const_id = 0;
    harvest_kind = harvested_from_def;
    harvest_from = 0;
    range = full 1;
  }

  abbrev pub demanded_words : Num → List (Word Num)
  demanded_words d = if not (is_all_ones_value d) then num d ∷ [] else []

  abbrev pub harvest_words : HarvestType → ℕ → List (Word Num)
  harvest_words harvested_from_def from = []
  harvest_words harvested_from_use from = pointer from ∷ []

  -- The part of `Inst::Profile` that its switch adds, and the operands.
  unfoldable pub profile_rest : Kind → Inst Num → List (Word Num)
  profile_rest Kind.const i = num i.val ∷ []
  profile_rest Kind.untyped_const i = num i.val ∷ []
  profile_rest Kind.phi i = pointer i.block.address ∷ map pointer i.ops
  profile_rest k i =
      demanded_words i.demanded_bits
      ++ (harvest_words i.harvest_kind i.harvest_from ++ map pointer i.ops)

  -- `Inst::Profile`.
  abbrev pub profile : Inst Num → List (Word Num)
  profile i = kind i.kind ∷ integer i.width ∷ profile_rest i.kind i

  -- `new Inst` at the end of `Insts`, or of a list of `VarInstsByWidth`: the next pointer.
  abbrev pub update : Store Num → ℕ → Inst Num → Store Num
  update store p i q = if q == p then i else store q

  unfoldable pub allocate : Inst Num → Context Num → ℕ × Context Num
  allocate i c = (c.next, record c { store = update c.store c.next i; next = c.next + 1 })

  module _ (lib : Library A) where
    abbrev pub nodes : Context Num → List (List (Word Num) × ℕ)
    nodes c = map (λ p. (profile (c.store p), p)) c.set

    -- The tail that the functions named get… share: look the identifier up, or else insert the
    -- instruction.
    unfoldable pub intern : List (Word Num) → Inst Num → Context Num → ℕ × Context Num
    unfolding allocate
    intern id i c = elim (lib.find_node (nodes c) id) [
      | some p ↦ (p, c)
      | none ↦ let (p, c') = allocate i c in (p, record c' { set = c'.set ++ p ∷ [] })
    ]

    unfoldable pub get_const : Num → Context Num → ℕ × Context Num
    get_const v =
        intern (kind Kind.const ∷ integer (width v) ∷ num v ∷ [])
          (record (new_inst Kind.const (width v)) { val = v })

    unfoldable pub get_untyped_const : Num → Context Num → ℕ × Context Num
    get_untyped_const v =
        intern (kind Kind.untyped_const ∷ integer 0 ∷ num v ∷ [])
          (record (new_inst Kind.untyped_const 0) { val = v })

    unfoldable pub get_reserved_const : Context Num → ℕ × Context Num
    unfolding allocate
    get_reserved_const c =
        let n = u32 (c.reserved_const_counter + 1) in
        allocate (record (new_inst Kind.reserved_const 0) { synthesis_const_id = n })
          (record c { reserved_const_counter = n })

    unfoldable pub get_reserved_inst : Context Num → ℕ × Context Num
    get_reserved_inst = allocate (new_inst Kind.reserved_inst 0)

    unfoldable pub create_hole : ℕ → Context Num → ℕ × Context Num
    create_hole w = allocate (new_inst Kind.hole w)

    -- The number of a new variable: how many there are of its width.
    abbrev pub var_number : ℕ → Context Num → ℕ
    var_number w c = count (λ p. (c.store p).width == w) c.vars

    -- `createVar`; `facts` holds the name, the data flow facts and the identifier of a constant. That the
    -- range and the two masks of `facts` have the width `w`, which the source asserts, is left to the
    -- callers: those of InstContext and the parser make them of that width.
    unfoldable pub create_var : ℕ → Inst Num → Context Num → ℕ × Context Num
    unfolding allocate
    create_var w facts c =
        let (p, c') =
          allocate (record facts { kind = Kind.var; number = var_number w c; width = w; ops = [] })
            c in
        (p, record c' { vars = c'.vars ++ p ∷ [] })

    -- The facts that the short `createVar` and `createSynthesisConstant` pass.
    abbrev pub no_facts : ℕ → List ℕ → ℕ → Inst Num
    no_facts w name synthesis_id = record (new_inst Kind.var w) {
      name = name;
      range = full w;
      known_zeros = of w 0;
      known_ones = of w 0;
      num_sign_bits = 1;
      demanded_bits = get_all_ones_value w;
      synthesis_const_id = synthesis_id;
    }

    -- The bytes of `BlockPred`.
    abbrev pub block_pred : List ℕ
    block_pred = b'b' ∷ b'l' ∷ b'o' ∷ b'c' ∷ b'k' ∷ b'p' ∷ b'r' ∷ b'e' ∷ b'd' ∷ []

    -- `for (unsigned J = 0; J < Preds-1; ++J)`, on the number of rounds.
    unfoldable pub create_pred_vars : ℕ → Context Num → List ℕ × Context Num
    create_pred_vars zero c = ([], c)
    create_pred_vars (suc n) c =
        let (p, c') = create_var 1 (no_facts 1 block_pred 0) c in
        let (ps, c'') = create_pred_vars n c' in (p ∷ ps, c'')

    -- `createBlock`. `Preds-1` is unsigned.
    unfoldable pub create_block : ℕ → Context Num → Block × Context Num
    create_block preds c =
        let (ps, c') = create_pred_vars (u32_sub preds 1) c in
        let b : Block = record {
          address = length c.blocks + 1;
          number = count (λ (b : Block). b.preds == preds) c.blocks;
          preds = preds;
          concrete_pred = 2 ^ 32 - 1;
          pred_vars = ps;
        } in
        (b, record c' { blocks = c'.blocks ++ b ∷ [] })

    -- `Ops[0]->Width`; no caller passes an empty vector.
    abbrev pub first_width : Context Num → List ℕ → ℕ
    first_width c [] = 0
    first_width c (p ∷ ps) = (c.store p).width

    unfoldable pub get_phi : Block → List ℕ → Num → Context Num → ℕ × Context Num
    get_phi b ops demanded c =
        intern
          (kind Kind.phi
            ∷ integer (first_width c ops)
            ∷ pointer b.address
            ∷ (map pointer ops ++ demanded_words demanded))
          (record (new_inst Kind.phi (first_width c ops)) {
            block = b;
            ops = ops;
            demanded_bits = demanded;
          })
          c

    -- `InstOps` of `getInst`.
    unfoldable pub inst_ops : Kind → List ℕ → List ℕ
    inst_ops k ops = if is_commutative k then lib.sort ops else ops

    -- `getInst`; its fatal error for a variable stands with the callers.
    unfoldable pub get_inst : Kind → ℕ → List ℕ → Num → Bool → Context Num → ℕ × Context Num
    get_inst k w ops demanded available =
        intern (kind k ∷ integer w ∷ (map pointer (inst_ops k ops) ++ demanded_words demanded))
          (record (new_inst k w) {
            ops = inst_ops k ops;
            demanded_bits = demanded;
            available = available;
          })

    -- The short `getPhi` and `getInst` demand every bit.
    abbrev pub get_phi_all : Block → List ℕ → Context Num → ℕ × Context Num
    get_phi_all b ops c = get_phi b ops (get_all_ones_value (first_width c ops)) c

    abbrev pub get_inst_all : Kind → ℕ → List ℕ → Bool → Context Num → ℕ × Context Num
    get_inst_all k w ops = get_inst k w ops (get_all_ones_value w)
