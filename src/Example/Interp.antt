-- ===== src/Example/Interp.antt =====
-- The theorems about the interpreter at concrete inputs.
use souper.Prelude.{
  ℕ, zero, suc, ◌≡◌, ◌≢◌, refl, true, false, List, [], ◌∷◌, ◌⊎◌, arith, if◌then◌else◌, ◌==◌,
}
use souper.Inst.Kind.{Kind}
use souper.Inst.Class.{is_overflow_intrinsic_main}
use souper.Interp.Value.{EvalValue, val, poison, ub, ok, ◌>>=◌}
use souper.Interp.Single.{evaluate_kind, flag}
use souper.Interp.Single.Flags.{evaluate_kind-without_flags}
use souper.Interp.Single.Overflow.{extract_value-with_overflow}
use souper.Interp.Single.Division.{sdiv_overflow_is_value}
use souper.Interp.Memo.{Machine, evaluate_inst}
use souper.Interp.Memo.Denote.{denote}
use souper.Interp.Memo.Refine.{input-IsConsistent, Agrees, evaluate_inst-Agrees}
use souper.Example.Bits.{Bits, value_of, bits_ApInt}
use souper.Example.BitsLaws.{bits_laws, order_laws, overflow_laws}
use souper.Example.Inst.{blank, small_store, small_store-IsRanked}

-- The numbers 0, 3 and -8 and -1 of four bits.
abbrev naught : Bits
naught = false ∷ false ∷ false ∷ false ∷ []

abbrev three : Bits
three = true ∷ true ∷ false ∷ false ∷ []

abbrev lowest : Bits
lowest = false ∷ false ∷ false ∷ true ∷ []

abbrev minus_one : Bits
minus_one = true ∷ true ∷ true ∷ true ∷ []

evaluate_kind-without_flags_example :
    (evaluate_kind bits_ApInt Kind.add_nsw blank false 0 (val lowest ∷ val minus_one ∷ [])
      ≡ evaluate_kind bits_ApInt Kind.add blank false 0 (val lowest ∷ val minus_one ∷ []))
    ⊎ (evaluate_kind bits_ApInt Kind.add_nsw blank false 0 (val lowest ∷ val minus_one ∷ [])
        ≡ ok (poison 4))
evaluate_kind-without_flags_example =
    evaluate_kind-without_flags bits_ApInt overflow_laws blank false 0 Kind.add_nsw lowest minus_one

main_kind : is_overflow_intrinsic_main Kind.uadd_with_overflow ≡ true
unfolding is_overflow_intrinsic_main
main_kind = refl

extract_value-with_overflow_example :
    (evaluate_kind bits_ApInt Kind.uadd_with_overflow blank false 0
        (val three ∷ flag bits_ApInt true ∷ [])
      >>= λ p. evaluate_kind bits_ApInt Kind.extract_value blank false 0 (p ∷ val naught ∷ []))
    ≡ ok (if value_of naught == 0 then val three else flag bits_ApInt true)
extract_value-with_overflow_example =
    extract_value-with_overflow bits_ApInt bits_laws order_laws Kind.uadd_with_overflow blank blank
      false 0 three naught true main_kind

sdiv_overflow_is_value_example :
    (evaluate_kind bits_ApInt Kind.sdiv blank false 0 (val lowest ∷ val minus_one ∷ [])
      ≡ ok (val (bits_ApInt.sdiv lowest minus_one)))
    × (evaluate_kind bits_ApInt Kind.sdiv_exact blank false 0 (val lowest ∷ val minus_one ∷ [])
        ≡ ok ub)
    × (evaluate_kind bits_ApInt Kind.srem blank false 0 (val lowest ∷ val minus_one ∷ []) ≡ ok ub)
sdiv_overflow_is_value_example =
    sdiv_overflow_is_value bits_ApInt order_laws blank false 0 lowest minus_one refl refl
      (omega arith) (omega arith)

-- A generator that counts, and a cache that gives the variable its value.
abbrev counting : ℕ → ℕ × ℕ
counting s = (s, suc s)

abbrev input : List (ℕ × EvalValue Bits)
input = (0, val three) ∷ []

abbrev start : Machine (EvalValue Bits)
start = record { cache = input; seed = 0 }

no_freeze : (i : ℕ) → (small_store i).kind ≢ Kind.freeze
no_freeze zero h = cc
no_freeze (suc zero) h = cc
no_freeze (suc (suc zero)) h = cc
no_freeze (suc (suc (suc i))) h = cc

evaluate_inst-Agrees_example :
    Agrees bits_ApInt counting small_store true false input small_store-IsRanked no_freeze
      (evaluate_inst bits_ApInt counting small_store true false 3 2 start)
      (denote bits_ApInt small_store false input 3 2)
evaluate_inst-Agrees_example =
    evaluate_inst-Agrees bits_ApInt counting small_store true false input small_store-IsRanked
      no_freeze 3 2 start (omega arith)
      (input-IsConsistent bits_ApInt counting small_store true false input small_store-IsRanked
        no_freeze 0)
