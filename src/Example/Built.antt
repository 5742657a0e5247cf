-- ===== src/Example/Built.antt =====
-- Contexts with two variables of four bits and their sum.
use souper.Prelude.{ℕ, ◌<◌, ◌≡◌, refl, true, false, All, [], ◌∷◌, ◌==◌, arith}
use souper.Inst.Kind.{Kind}
use souper.Inst.Class.{is_commutative}
use souper.Inst.Graph.{Inst, harvested_from_def}
use souper.Inst.Context.{
  Context, count, create_var, get_inst, get_inst_all, no_facts, inst_ops, intern,
}
use souper.Inst.Context.Laws.{Elem, here, there}
use souper.Inst.Context.Built.{Built, start, var, inst, empty_context, Built-IsValid}
use souper.Inst.Context.Valid.{IsValid, Extends-refl}
use souper.Inst.Context.Unique.{IsUnique, intern-IsUnique, get_inst-profile}
use souper.Inst.Context.Shared.{get_inst_same, get_inst_fields, get_inst_demanded_new}
use souper.Example.Bits.{Bits, bits_ApInt}
use souper.Example.BitsLaws.{bits_laws}
use souper.Example.Context.{list_library, list_laws, find_node}

abbrev pub facts : Inst Bits
facts = no_facts bits_ApInt list_library 4 [] 0

-- 0 and 1 are variables.
abbrev pub two_vars : Context Bits
two_vars =
    (create_var bits_ApInt list_library 4 facts
      (create_var bits_ApInt list_library 4 facts (empty_context bits_ApInt list_library)).1).1

two_vars-Built : Built bits_ApInt list_library two_vars
two_vars-Built = var 4 facts (var 4 facts start)

abbrev with_sum : ℕ × Context Bits
with_sum = get_inst_all bits_ApInt list_library Kind.add 4 (0 ∷ 1 ∷ []) true two_vars

pub two_vars_below : All (λ o. o < two_vars.next) (0 ∷ 1 ∷ [])
unfolding create_var
two_vars_below = omega arith

Built-IsValid_example : IsValid bits_ApInt with_sum.1
Built-IsValid_example =
    Built-IsValid bits_ApInt list_library list_laws
      (inst Kind.add 4 (0 ∷ 1 ∷ []) _ true two_vars_below two_vars-Built)

pub two_vars-IsValid : IsValid bits_ApInt two_vars
two_vars-IsValid = Built-IsValid bits_ApInt list_library list_laws two_vars-Built

two_vars-IsUnique : IsUnique bits_ApInt two_vars
unfolding create_var
two_vars-IsUnique p q m n e = elim m [ ]

with_sum-IsUnique : IsUnique bits_ApInt with_sum.1
unfolding get_inst
with_sum-IsUnique =
    intern-IsUnique bits_ApInt list_library list_laws _ _ two_vars two_vars-IsValid
      two_vars-IsUnique
      (get_inst-profile bits_ApInt list_library bits_laws Kind.add 4 (0 ∷ 1 ∷ []) true refl)

swapped_counts : (p : ℕ) → count (λ q. q == p) (0 ∷ 1 ∷ []) ≡ count (λ q. q == p) (1 ∷ 0 ∷ [])
swapped_counts p = ground arith

get_inst_same_example :
    get_inst_all bits_ApInt list_library Kind.add 4 (1 ∷ 0 ∷ []) false with_sum.1
    ≡ (with_sum.0, with_sum.1)
unfolding is_commutative
get_inst_same_example =
    get_inst_same bits_ApInt bits_laws list_library list_laws Kind.add 4 (0 ∷ 1 ∷ []) (1 ∷ 0 ∷ [])
      true false two_vars with_sum.1 refl refl swapped_counts two_vars_below two_vars-IsValid
      with_sum-IsUnique (Extends-refl bits_ApInt with_sum.1)

with_sum-IsFromDef :
    (p : ℕ) → Elem p with_sum.1.set → (with_sum.1.store p).harvest_kind ≡ harvested_from_def
unfolding get_inst intern create_var find_node
with_sum-IsFromDef p (here _) = refl
with_sum-IsFromDef p (there _ _ m) = elim m [ ]

get_inst_fields_example :
    ((with_sum.1.store with_sum.0).kind ≡ Kind.add)
    × ((with_sum.1.store with_sum.0).width ≡ 4)
    × ((with_sum.1.store with_sum.0).ops ≡ inst_ops bits_ApInt list_library Kind.add (0 ∷ 1 ∷ []))
get_inst_fields_example =
    get_inst_fields bits_ApInt bits_laws list_library list_laws Kind.add 4 (0 ∷ 1 ∷ []) true
      two_vars refl with_sum-IsFromDef

-- The lowest two bits are demanded.
abbrev low_half : Bits
low_half = true ∷ true ∷ false ∷ false ∷ []

get_inst_demanded_new_example :
    (get_inst bits_ApInt list_library Kind.sub 4 (0 ∷ 1 ∷ []) low_half true with_sum.1).0
    ≡ with_sum.1.next
unfolding inst_ops is_commutative
get_inst_demanded_new_example =
    get_inst_demanded_new bits_ApInt bits_laws list_library list_laws Kind.sub 4 (0 ∷ 1 ∷ []) 0
      (1 ∷ []) low_half true with_sum.1 refl refl refl with_sum-IsFromDef
