-- ===== src/Parser/Sound/Attribute.antt =====
-- `parseInstAttribute` keeps the parser's state sound.
use souper.Prelude.{ℕ, zero, suc, ◌+◌, refl, not, ltb, ◌==◌}
use souper.Inst.Graph.{harvested_from_def, harvested_from_use}
use souper.Inst.Context.{Library}
use souper.Llvm.ApInt.{ApInt}
use souper.Parser.Token.{ident, equals, untyped_int, open_paren, close_paren}
use souper.Parser.State.{Input, State, is_tok, has_text, token_text, consume_token}
use souper.Parser.Attribute.{
  demanded_pattern, parse_demanded_bits, parse_harvested, parse_attributes, parse_inst_attribute,
}
use souper.Parser.Sound.{
  Gives, Gives->>=, Gives-reject, Gives-some, Gives-ok, Gives-err, Gives-elim,
}
use souper.Parser.Sound.Steps.{SoundFrom, consume_token-SoundFrom, set_fields-Sound}

module _ (A : ApInt) (lib : Library A) (inp : Input) (n : ℕ) where
  open A use {Num, of, get_all_ones_value}

  abbrev From : State Num → Type 0
  From s = SoundFrom A lib inp n s

  read : (s : State Num) → From s → Gives From (consume_token A lib s)
  read s h = consume_token-SoundFrom A lib inp n s h

  parse_demanded_bits-Sound :
      (i count : ℕ) (s : State Num) → From s → Gives From (parse_demanded_bits A lib inp i count s)
  unfolding parse_demanded_bits
  parse_demanded_bits-Sound i count s h = Gives-reject (ltb 1 (count + 1)) _ _ (
      Gives->>= _ _ (read s h) (λ s1 h1. Gives-reject (not (is_tok A lib equals s1)) _ _ (
        Gives->>= _ _ (read s1 h1) (λ s2 h2. Gives-reject (not (is_tok A lib untyped_int s2)) _ _ (
          Gives-reject (not ((s2.ic.store i).width == s2.cur_tok.len)) _ _ (
            Gives->>= _ _
              (Gives-some
                (demanded_pattern A lib (s2.ic.store i).width (token_text inp s2.cur_tok)
                  (of (s2.ic.store i).width 0))
                _)
              (λ v e. Gives->>= _ _ (read s2 h2) (λ s3 h3.
                Gives-reject (not (is_tok A lib close_paren s3)) _ _ (
                  Gives->>= _ _ (read s3 h3) (λ s4 h4. Gives-ok (
                    set_fields-Sound A lib inp i (λ x. record x { demanded_bits = v }) s4
                        (λ x. refl) h4.0,
                    h4.1,
                  )))))))))))

  parse_harvested-Sound :
      (i count : ℕ) (s : State Num) → From s → Gives From (parse_harvested A lib i count s)
  unfolding parse_harvested
  parse_harvested-Sound i count s h = Gives-reject (ltb 1 (count + 1)) _ _ (
      Gives->>= _ _ (read s h) (λ s1 h1. Gives-reject (not (is_tok A lib close_paren s1)) _ _ (
        Gives->>= _ _ (read s1 h1) (λ s2 h2. Gives-ok (
          set_fields-Sound A lib inp i (λ x. record x { harvest_kind = harvested_from_use }) s2
              (λ x. refl) h2.0,
          h2.1,
        )))))

  parse_attributes-Sound :
      (fuel i demanded harvests : ℕ) (s : State Num)
      → From s
      → Gives From (parse_attributes A lib fuel inp i demanded harvests s)
  unfolding parse_attributes
  parse_attributes-Sound zero i demanded harvests s h = Gives-err
  parse_attributes-Sound (suc fuel) i demanded harvests s h =
      Gives-elim (is_tok A lib open_paren s)
        (Gives->>= _ _ (read s h) (λ s1 h1. Gives-reject (not (is_tok A lib ident s1)) _ _ (
          Gives-elim (has_text A lib inp s1 "demandedBits")
            (Gives->>= _ _ (parse_demanded_bits-Sound i demanded s1 h1)
              (λ s2 h2. parse_attributes-Sound fuel i (demanded + 1) harvests s2 h2))
            (Gives-elim (has_text A lib inp s1 "harvestedFromUse")
              (Gives->>= _ _ (parse_harvested-Sound i harvests s1 h1)
                (λ s2 h2. parse_attributes-Sound fuel i demanded (harvests + 1) s2 h2))
              Gives-err))))
        (Gives-ok h)

  pub parse_inst_attribute-Sound :
      (fuel i : ℕ) (s : State Num) → From s → Gives From (parse_inst_attribute A lib fuel inp i s)
  unfolding parse_inst_attribute
  parse_inst_attribute-Sound fuel i s h = Gives-reject ((s.ic.store i).width == 0) _ _ (
      parse_attributes-Sound fuel i 0 0 _ (
        set_fields-Sound A lib inp i
            (λ x. record x {
              harvest_kind = harvested_from_def;
              demanded_bits = get_all_ones_value x.width;
            })
            s (λ x. refl) h.0,
        h.1,
      ))
