-- ===== src/Parser/Facts/Hang.antt =====
-- The loop over data flow facts does not end on every text.
use souper.Prelude.{ℕ, zero, suc, ◌≡◌, refl, ◌∙◌, Bool, true, false}
use souper.Inst.Graph.{Inst}
use souper.Inst.Context.{Library}
use souper.Llvm.ApInt.{ApInt}
use souper.Parser.Token.{open_paren, TokenPos}
use souper.Parser.Message.{err}
use souper.Parser.State.{Input, State, out_of_fuel, is_tok}
use souper.Parser.Facts.{ends_facts, parse_facts}

-- Two tests that both fail.
both_fail :
    {T : Type 0} (a b : Bool) (x y z : T)
    → a ≡ false
    → b ≡ false
    → elim a [ true ↦ x | false ↦ elim b [ true ↦ y | false ↦ z ] ] ≡ z
both_fail true b x y z h k = cc
both_fail false true x y z h k = cc
both_fail false false x y z h k = refl

module _ (A : ApInt) (lib : Library A) where
  open A use {Num}

  -- Where the facts of a variable are followed by a token other than a name, an identifier, the end of the
  -- text and an opening parenthesis, the loop over them runs out of any fuel: it never ends.
  pub parse_facts_hangs :
      (tp : TokenPos) (w fuel : ℕ) (inp : Input) (f : Inst Num) (s : State Num)
      → ends_facts A lib tp w s ≡ false
      → is_tok A lib open_paren s ≡ false
      → parse_facts A lib tp w fuel inp f s ≡ err out_of_fuel
  unfolding parse_facts
  parse_facts_hangs tp w zero inp f s h k = refl
  parse_facts_hangs tp w (suc fuel) inp f s h k =
      both_fail (ends_facts A lib tp w s) (is_tok A lib open_paren s) _ _ _ h k
      ∙ parse_facts_hangs tp w fuel inp f s h k
