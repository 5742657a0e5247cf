-- ===== src/Parser/Sound/Statement.antt =====
-- The lines `cand`, `infer`, `result`, `pc` and `blockpc` keep the parser's state sound.
use souper.Prelude.{
  ap, ◌∙◌, refl, true, ◌≡◌, Option, ℕ, ◌<◌, Bool, false, not, ◌&&◌, ◌||◌, ◌==◌, none, some, arith,
}
use souper.Inst.Context.{Library}
use souper.Inst.Context.Laws.{LibraryLaws}
use souper.Llvm.ApInt.{ApInt, BitLaws}
use souper.Parser.Token.{val_name, untyped_int}
use souper.Parser.TypeCheck.{is_overflow}
use souper.Parser.State.{Input, State, find_name, is_tok}
use souper.Parser.Statement.{
  is_lhs_mode, is_rhs_mode, is_null, parse_cand, parse_infer, parse_result, parse_pc, parse_blockpc,
}
use souper.Parser.Greatest.{find_index_pushed}
use souper.Parser.Sound.{
  Gives, Gives->>=, Gives-reject, Gives-some, Gives-ok, Sound, All-snoc, MappingBelow,
}
use souper.Parser.Sound.{Asserted, Gives-passed, Gives-case, Gives-both}
use souper.Parser.State.{ReplacementKind, parse_lhs, parse_rhs, parse_both}
use souper.Parser.Sound.Steps.{
  consume_token-lhs, parse_inst-lhs, consume_token-Sound, parse_inst-Sound,
  parse_inst_mapping-Sound, push_rep-Sound,
}
use souper.Parser.Sound.Attribute.{parse_inst_attribute-Sound}

module _ (A : ApInt) (lib : Library A) (laws : LibraryLaws A lib) (bits : BitLaws A)
    (inp : Input) where
  open A use {Num, get_limited_value}

  abbrev overflows : State Num → ℕ → Bool
  overflows s p = is_overflow (s.ic.store p).kind

  -- What each mode wants of a mapping.
  both_Asserted :
      (k : ReplacementKind) (p q : ℕ)
      → is_lhs_mode k ≡ false
      → is_rhs_mode k ≡ false
      → Asserted k (record { lhs = some p; rhs = some q })
  both_Asserted parse_both p q h k = (refl, refl)
  both_Asserted parse_lhs p q h k = cc
  both_Asserted parse_rhs p q h k = cc

  lhs_Asserted :
      (k : ReplacementKind) (p : ℕ)
      → is_lhs_mode k ≡ true
      → Asserted k (record { lhs = some p; rhs = none })
  lhs_Asserted parse_lhs p h = (refl, refl)
  lhs_Asserted parse_both p h = cc
  lhs_Asserted parse_rhs p h = cc

  result_Asserted :
      (k : ReplacementKind) (o : Option ℕ) (q : ℕ)
      → is_lhs_mode k ≡ false
      → (not (is_rhs_mode k) && is_null o) ≡ false
      → (is_rhs_mode k ≡ true → is_null o ≡ true)
      → Asserted k (record { lhs = o; rhs = some q })
  result_Asserted parse_both o q h t n = (t, refl)
  result_Asserted parse_lhs o q h t n = cc
  result_Asserted parse_rhs o q h t n = (n refl, refl)

  pub parse_cand-Sound :
      (fuel : ℕ) (s : State Num)
      → Sound A lib inp s
      → Gives (Sound A lib inp) (parse_cand A lib fuel inp s)
  unfolding parse_cand
  parse_cand-Sound fuel s h = Gives-passed (is_lhs_mode inp.rk) _ _ (λ no_l.
      Gives-passed (is_rhs_mode inp.rk) _ _ (λ no_r.
        Gives->>= _ _ (consume_token-Sound A lib inp s h) (λ s1 h1.
          Gives->>= _ _ (parse_inst_mapping-Sound A lib inp laws bits s1 h1.0) (λ m hm.
            Gives->>= _ _
              (parse_inst_attribute-Sound A lib inp m.1.ic.next fuel m.0.0 m.1 (hm.0, omega arith))
              (λ s2 h2. Gives-reject (overflows s2 m.0.0 || overflows s2 m.0.1) _ _ (
                push_rep-Sound A lib inp _ s2 h2.0
                  (omega (arith, hm.1, h2.1), omega (arith, hm.2, h2.1))
                  (both_Asserted inp.rk m.0.0 m.0.1 no_l no_r)))))))

  -- `LHS` is assigned.
  lhs-Sound :
      (p : ℕ) (s : State Num)
      → Sound A lib inp s
      → p < s.ic.next
      → is_rhs_mode inp.rk ≡ false
      → Sound A lib inp (record s { lhs = some p })
  lhs-Sound p s h below no_r = record {
    valid = h.valid;
    names = h.names;
    given = h.given;
    reps = h.reps;
    pcs = h.pcs;
    bpcs = h.bpcs;
    lhs = below;
    asserted = h.asserted;
    no_lhs = λ r. cc (r, no_r);
    largest = h.largest;
  }

  pub parse_infer-Sound :
      (fuel : ℕ) (s : State Num)
      → Sound A lib inp s
      → Gives (Sound A lib inp) (parse_infer A lib fuel inp s)
  unfolding parse_infer
  parse_infer-Sound fuel s h = Gives-passed (is_rhs_mode inp.rk) _ _ (λ no_r.
      Gives->>= _ _ (consume_token-Sound A lib inp s h) (λ s1 h1.
        Gives-reject (not (is_tok A lib val_name s1)) _ _ (
          Gives-reject (not (is_null s1.lhs)) _ _ (
            Gives->>= _ _ (parse_inst-Sound A lib inp laws s1 h1.0) (λ r hr.
              Gives->>= _ _
                (parse_inst_attribute-Sound A lib inp r.1.ic.next fuel r.0
                  (record r.1 { lhs = some r.0 }) (lhs-Sound r.0 r.1 hr.0 hr.1 no_r, omega arith))
                (λ s2 h2. Gives-reject (overflows s2 r.0) _ _ (
                  Gives-case (is_lhs_mode inp.rk)
                    (λ l.
                      push_rep-Sound A lib inp _ s2 h2.0 (omega (arith, hr.1, h2.1), tt)
                        (lhs_Asserted inp.rk r.0 l))
                    (Gives-ok h2.0))))))))

  pub parse_result-Sound :
      (s : State Num) → Sound A lib inp s → Gives (Sound A lib inp) (parse_result A lib inp s)
  unfolding parse_result
  parse_result-Sound s h = Gives-passed (is_lhs_mode inp.rk) _ _ (λ no_l.
      Gives-passed (not (is_rhs_mode inp.rk) && is_null s.lhs) _ _ (λ held.
        Gives->>= _ _
          (Gives-both (consume_token-Sound A lib inp s h) (consume_token-lhs A lib inp s))
          (λ s1 h1. Gives-reject (is_tok A lib untyped_int s1) _ _ (
            Gives->>= _ _
              (Gives-both (parse_inst-Sound A lib inp laws s1 h1.0.0) (parse_inst-lhs A lib inp s1))
              (λ r hr.
                Gives-reject
                  (elim r.1.lhs [
                    | none ↦ false
                    | some p ↦ not ((r.1.ic.store p).width == (r.1.ic.store r.0).width)
                  ])
                  _ _
                  (push_rep-Sound A lib inp _ r.1 hr.0.0 (hr.0.0.lhs, hr.0.1)
                    (result_Asserted inp.rk r.1.lhs r.0 no_l
                      (ap (λ o. not (is_rhs_mode inp.rk) && is_null o) (hr.1 ∙ h1.1) ∙ held)
                      hr.0.0.no_lhs)))))))

  pub parse_pc-Sound :
      (s : State Num) → Sound A lib inp s → Gives (Sound A lib inp) (parse_pc A lib inp s)
  unfolding parse_pc
  parse_pc-Sound s h = Gives->>= _ _ (consume_token-Sound A lib inp s h) (λ s1 h1.
      Gives->>= _ _ (parse_inst_mapping-Sound A lib inp laws bits s1 h1.0) (λ m hm.
        Gives-reject (overflows m.1 m.0.0) _ _ (
          Gives-ok (record {
            valid = hm.0.valid;
            names = hm.0.names;
            given = hm.0.given;
            reps = hm.0.reps;
            pcs = All-snoc (MappingBelow m.1.ic.next) m.1.pcs _ hm.0.pcs (hm.1, hm.2);
            bpcs = hm.0.bpcs;
            lhs = hm.0.lhs;
            asserted = hm.0.asserted;
            no_lhs = hm.0.no_lhs;
            largest = hm.0.largest;
          }))))

  pub parse_blockpc-Sound :
      (s : State Num) → Sound A lib inp s → Gives (Sound A lib inp) (parse_blockpc A lib inp s)
  unfolding parse_blockpc
  parse_blockpc-Sound s h = Gives->>= _ _ (consume_token-Sound A lib inp s h) (λ s1 h1.
      Gives-reject (not (is_tok A lib val_name s1)) _ _ (
        Gives-reject (not (s1.cur_tok.width == 0)) _ _ (
          Gives-reject (not (is_null (find_name s1.context.insts s1.cur_tok.name))) _ _ (
            Gives->>= _ _ (Gives-some (find_name s1.context.blocks s1.cur_tok.name) _) (λ b e.
              Gives->>= _ _ (consume_token-Sound A lib inp s1 h1.0) (λ s2 h2.
                Gives-reject (not (is_tok A lib untyped_int s2)) _ _ (
                  Gives->>= _ _ (consume_token-Sound A lib inp s2 h2.0) (λ s3 h3.
                    Gives->>= _ _ (parse_inst_mapping-Sound A lib inp laws bits s3 h3.0) (λ m hm.
                      Gives-reject (overflows m.1 m.0.0) _ _ (
                        Gives-ok (record {
                          valid = hm.0.valid;
                          names = hm.0.names;
                          given = hm.0.given;
                          reps = hm.0.reps;
                          pcs = hm.0.pcs;
                          bpcs = All-snoc _ m.1.bpcs _ hm.0.bpcs (hm.1, hm.2);
                          lhs = hm.0.lhs;
                          asserted = hm.0.asserted;
                          no_lhs = hm.0.no_lhs;
                          largest = λ a.
                              find_index_pushed A lib m.1.block_pc_idx_map m.1.bpcs _ a
                                (hm.0.largest a);
                        })))))))))))
