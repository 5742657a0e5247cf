-- ===== src/Parser/Sound/Definition.antt =====
-- The lines that define a name keep the parser's state sound.
use souper.Prelude.{
  ℕ, zero, suc, ◌+◌, ◌%◌, ◌^◌, ◌<◌, refl, Bool, not, ◌||◌, ltb, ◌==◌, List, All, arith,
}
use souper.Inst.Kind.{Kind}
use souper.Inst.Graph.{Inst}
use souper.Inst.Context.{Library, no_facts}
use souper.Inst.Context.Laws.{LibraryLaws}
use souper.Inst.Context.Valid.{create_var-Adds, create_hole-Adds, create_block_lem}
use souper.Llvm.ApInt.{ApInt, BitLaws}
use souper.Parser.Token.{ident, val_name, comma, untyped_int, open_paren, close_paren, TokenPos}
use souper.Parser.State.{Input, State, find_name, token_val, is_tok, has_text, consume_token}
use souper.Parser.Definition.{
  max_preds, set_inst, parse_block, make_var, parse_var, parse_phi_block, parse_external_uses,
  parse_ops,
}
use souper.Parser.Sound.{
  Gives, Gives->>=, Gives-reject, Gives-some, Gives-ok, Gives-err, Gives-elim, Gives_weaken, Sound,
  Sound-grows,
}
use souper.Parser.Sound.Steps.{
  SoundFrom, SoundIn, consume_token-Sound, consume_token-SoundFrom, parse_inst-Sound,
  set_fields-Sound,
}
use souper.Parser.Sound.Facts.{parse_facts-Sound}

module _ (A : ApInt) (lib : Library A) (laws : LibraryLaws A lib) (bits : BitLaws A)
    (inp : Input) where
  open A use {Num, get_limited_value, get_all_ones_value}

  abbrev pub IsSound : State Num → Type 0
  IsSound s = Sound A lib inp s

  abbrev read : (s : State Num) → IsSound s → Gives (SoundIn A lib inp s.ic) (consume_token A lib s)
  read s h = consume_token-Sound A lib inp s h

  pub set_inst-Sound :
      (name : List ℕ) (i : ℕ) (s : State Num)
      → IsSound s
      → i < s.ic.next
      → IsSound (set_inst A lib name i s)
  set_inst-Sound name i s h below = record {
    valid = h.valid;
    names = (below, h.names);
    given = h.given;
    reps = h.reps;
    pcs = h.pcs;
    bpcs = h.bpcs;
    lhs = h.lhs;
    asserted = h.asserted;
    no_lhs = h.no_lhs;
    largest = h.largest;
  }

  pub parse_block-Sound :
      (tp : TokenPos) (name : List ℕ) (w : ℕ) (s : State Num)
      → IsSound s
      → Gives IsSound (parse_block A lib tp name w s)
  unfolding parse_block
  parse_block-Sound tp name w s h = Gives-reject (not (w == 0)) _ _ (
      Gives->>= _ _ (read s h) (λ s1 h1. Gives-reject (not (is_tok A lib untyped_int s1)) _ _ (
        let preds = get_limited_value (token_val A lib s1.cur_tok) % 2 ^ 32 in
        Gives-reject (ltb max_preds preds) _ _ (
          let (v, e, count) = create_block_lem A lib laws preds s1.ic h1.0.valid in
          let g = Sound-grows A lib inp s1 _ h1.0 v e.next_le in
          Gives_weaken (λ t k. k.0)
            (read _ (record {
              valid = g.valid;
              names = g.names;
              given = g.given;
              reps = g.reps;
              pcs = g.pcs;
              bpcs = g.bpcs;
              lhs = g.lhs;
              asserted = g.asserted;
              no_lhs = g.no_lhs;
              largest = g.largest;
            }))))))

  make_var-Sound :
      (k : Kind) (name : List ℕ) (w : ℕ) (f : Inst Num) (s : State Num)
      → IsSound s
      → IsSound (make_var A lib k name w f s).1
        × ((make_var A lib k name w f s).0 < (make_var A lib k name w f s).1.ic.next)
  unfolding make_var
  make_var-Sound Kind.reserved_const name w f s h =
      let a =
        create_var-Adds A lib laws w
          (record f { synthesis_const_id = s.reserved_const_counter + 1 }) s.ic h.valid in
      let g = Sound-grows A lib inp s _ h a.valid a.extends.next_le in
      (
        record {
          valid = g.valid;
          names = g.names;
          given = g.given;
          reps = g.reps;
          pcs = g.pcs;
          bpcs = g.bpcs;
          lhs = g.lhs;
          asserted = g.asserted;
          no_lhs = g.no_lhs;
          largest = g.largest;
        },
        a.inside,
      )
  make_var-Sound Kind.reserved_inst name w f s h =
      let a = create_hole-Adds A lib laws w s.ic h.valid in
      (
        set_fields-Sound A lib inp _ (λ i. record i { name = name }) _ (λ x. refl)
            (Sound-grows A lib inp s _ h a.valid a.extends.next_le),
        a.inside,
      )
  make_var-Sound _ name w f s h =
      let a = create_var-Adds A lib laws w f s.ic h.valid in
      (Sound-grows A lib inp s _ h a.valid a.extends.next_le, a.inside)

  pub parse_var-Sound :
      (fuel : ℕ) (tp : TokenPos) (k : Kind) (name : List ℕ) (w : ℕ) (s : State Num)
      → IsSound s
      → Gives IsSound (parse_var A lib fuel inp tp k name w s)
  unfolding parse_var
  parse_var-Sound fuel tp k name w s h = Gives-reject (w == 0) _ _ (
      Gives->>= _ _
        (parse_facts-Sound A lib inp tp w fuel
          (record (no_facts A lib w name 0) { num_sign_bits = 0 }) s h)
        (λ r hr.
          let (g, below) = make_var-Sound k name w r.0 r.1 hr in
          Gives-ok (set_inst-Sound name _ _ g below)))

  pub parse_phi_block-Sound :
      (name : List ℕ) (s : State Num)
      → IsSound s
      → Gives (λ r. IsSound r.1) (parse_phi_block A lib name s)
  unfolding parse_phi_block
  parse_phi_block-Sound name s h = Gives-reject (not (is_tok A lib val_name s)) _ _ (
      Gives-reject (not (s.cur_tok.width == 0)) _ _ (
        Gives->>= _ _ (Gives-some (find_name s.context.blocks s.cur_tok.name) _) (λ b e.
          Gives->>= _ _ (read s h) (λ s1 h1.
            Gives-reject (not (is_tok A lib comma s1)) _ _
              (Gives->>= _ _ (read s1 h1.0) (λ s2 h2. Gives-ok h2.0))))))

  parse_external_uses-Sound :
      (n : ℕ) (tp : TokenPos) (s : State Num)
      → SoundFrom A lib inp n s
      → Gives (λ r. SoundFrom A lib inp n r.1) (parse_external_uses A lib inp tp s)
  unfolding parse_external_uses
  parse_external_uses-Sound n tp s h =
      Gives-elim (is_tok A lib open_paren s)
        (Gives->>= _ _ (consume_token-SoundFrom A lib inp n s h) (λ s1 h1.
          Gives-reject
            (not (is_tok A lib ident s1) || not (has_text A lib inp s1 "hasExternalUses")) _ _
            (Gives->>= _ _ (consume_token-SoundFrom A lib inp n s1 h1) (λ s2 h2.
              Gives-reject (not (is_tok A lib close_paren s2)) _ _ (
                Gives->>= _ _ (consume_token-SoundFrom A lib inp n s2 h2)
                  (λ s3 h3. Gives-ok h3))))))
        (Gives-ok h)

  -- Operands of the state's context.
  abbrev pub OpsFrom : ℕ → List ℕ × Bool × State Num → Type 0
  OpsFrom n r = SoundFrom A lib inp n r.2 × All (λ p. p < r.2.ic.next) r.0

  pub parse_ops-Sound :
      (fuel n : ℕ) (tp : TokenPos) (s : State Num)
      → SoundFrom A lib inp n s
      → Gives (OpsFrom n) (parse_ops A lib fuel inp tp s)
  unfolding parse_ops
  parse_ops-Sound zero n tp s h = Gives-err
  parse_ops-Sound (suc fuel) n tp s h =
      Gives->>= _ _ (parse_inst-Sound A lib inp laws s h.0) (λ i hi.
        Gives-elim (is_tok A lib comma i.1)
          (Gives->>= _ _ (consume_token-SoundFrom A lib inp i.1.ic.next i.1 (hi.0, omega arith))
            (λ s1 h1. Gives->>= _ _ (parse_ops-Sound fuel i.1.ic.next tp s1 h1) (λ r hr.
              Gives-ok
                ((hr.0.0, omega (arith, h.1, hi.2, hr.0.1)), (omega (arith, hi.1, hr.0.1), hr.1)))))
          (Gives->>= _ _ (parse_external_uses-Sound i.1.ic.next tp i.1 (hi.0, omega arith)) (λ r hr.
            Gives-ok ((hr.0, omega (arith, h.1, hi.2, hr.1)), (omega (arith, hi.1, hr.1), tt)))))
