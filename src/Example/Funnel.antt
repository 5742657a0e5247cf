-- ===== src/Example/Funnel.antt =====
-- The known bits of the funnel shifts at four bits.
use souper.Prelude.{ℕ, ◌≡◌, refl, true, false, [], ◌∷◌}
use souper.Inst.Kind.{Kind}
use souper.Llvm.KnownBits.{KnownBits}
use souper.Interp.Value.{val, ok}
use souper.Interp.Single.{evaluate_kind}
use souper.KnownBits.Contains.{Contains}
use souper.KnownBits.Funnel.{fshl_kb, fshr_kb}
use souper.KnownBits.Funnel.Halves.{fshr_kb-Contains, fshl_kb_second}
use souper.Example.Bits.{Bits, bits_ApInt}
use souper.Example.Known.{bits_KnownBits, bits-Llvm}
use souper.Example.Inst.{blank}
use souper.Example.KnownBits.{fits-Contains, six, one, about_six, exactly_one}

abbrev nought : Bits
nought = false ∷ false ∷ false ∷ false ∷ []

abbrev exactly_nought : KnownBits Bits
exactly_nought = record { zero = true ∷ true ∷ true ∷ true ∷ []; one = nought }

fshr_kb-Contains_example :
    (z : Bits) × (evaluate_kind bits_ApInt Kind.fshr blank false 0
        (val six ∷ val six ∷ val one ∷ [])
      ≡ ok (val z))
    × Contains bits_ApInt (fshr_kb bits_ApInt bits_KnownBits 4 about_six about_six exactly_one) z
fshr_kb-Contains_example =
    fshr_kb-Contains bits_ApInt bits_KnownBits bits-Llvm.bits bits-Llvm.known blank false 0 4
      about_six about_six exactly_one six six one refl refl (fits-Contains about_six six refl)
      (fits-Contains about_six six refl) (fits-Contains exactly_one one refl) refl

-- The number 6 shifted by 0 is 6, but the known bits say 1.
fshl_kb_second_example :
    (evaluate_kind bits_ApInt Kind.fshl blank false 0 (val six ∷ val one ∷ val nought ∷ [])
      ≡ ok (val six))
    × ((i : ℕ)
        → bits_ApInt.bit
            (fshl_kb bits_ApInt bits_KnownBits 4 about_six exactly_one exactly_nought).zero
            i
          ≡ bits_ApInt.bit exactly_one.zero i)
    × ((i : ℕ)
        → bits_ApInt.bit
            (fshl_kb bits_ApInt bits_KnownBits 4 about_six exactly_one exactly_nought).one
            i
          ≡ bits_ApInt.bit exactly_one.one i)
fshl_kb_second_example =
    fshl_kb_second bits_ApInt bits_KnownBits bits-Llvm.bits bits-Llvm.known blank false 0 4
      about_six exactly_one exactly_nought six one nought refl refl
      (fits-Contains about_six six refl) (fits-Contains exactly_one one refl)
      (fits-Contains exactly_nought nought refl) refl refl
