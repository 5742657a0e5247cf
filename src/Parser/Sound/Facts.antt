-- ===== src/Parser/Sound/Facts.antt =====
-- The data flow facts of a variable are read without a change of the parser's state but for its tokens.
use souper.Prelude.{ℕ, zero, suc, ◌%◌, ◌^◌, not, ◌&&◌, ltb, ◌==◌, length}
use souper.Inst.Graph.{Inst}
use souper.Inst.Context.{Library}
use souper.Llvm.ApInt.{ApInt}
use souper.Parser.Token.{
  TokenKind, error, ident, val_name, comma, equals, int, untyped_int, known_bits, open_paren,
  close_paren, open_bracket, eof, TokenPos,
}
use souper.Parser.Message.{ok, ◌>>=◌}
use souper.Parser.State.{Input, State, token_val, is_tok, has_text, consume_token}
use souper.Parser.Facts.{
  known_pattern, settle_bound, parse_known_bits, parse_sign_bits, parse_range, parse_named_fact,
  parse_fact_of, parse_fact, ends_facts, parse_facts,
}
use souper.Parser.Sound.{
  Gives, Gives->>=, Gives-reject, Gives-some, Gives-ok, Gives-err, Gives-elim, Gives-if, Gives-any,
  Sound,
}
use souper.Parser.Sound.Steps.{SoundIn, consume_token-Sound}

module _ (A : ApInt) (lib : Library A) (inp : Input) (tp : TokenPos) (w : ℕ) where
  open A use {Num, eq, eq_u64, is_all_ones_value, get_limited_value}

  abbrev Holds : Inst Num × State Num → Type 0
  Holds r = Sound A lib inp r.1

  abbrev read :
      (s : State Num) → Sound A lib inp s → Gives (SoundIn A lib inp s.ic) (consume_token A lib s)
  read s h = consume_token-Sound A lib inp s h

  word_fact-Sound :
      (f : Inst Num) (s : State Num)
      → Sound A lib inp s
      → Gives Holds (consume_token A lib s >>= λ s1. ok (f, s1))
  word_fact-Sound f s h = Gives->>= _ _ (read s h) (λ s1 h1. Gives-ok h1.0)

  parse_known_bits-Sound :
      (f : Inst Num) (s : State Num)
      → Sound A lib inp s
      → Gives Holds (parse_known_bits A lib tp w f s)
  unfolding parse_known_bits
  parse_known_bits-Sound f s h = Gives-reject (not (w == length s.cur_tok.pattern_string)) _ _ (
      Gives->>= _ _
        (Gives-some (known_pattern A lib w s.cur_tok.pattern_string f.known_zeros f.known_ones) _)
        (λ v e. word_fact-Sound _ s h))

  parse_sign_bits-Sound :
      (f : Inst Num) (s : State Num)
      → Sound A lib inp s
      → Gives Holds (parse_sign_bits A lib tp w f s)
  unfolding parse_sign_bits
  parse_sign_bits-Sound f s h = Gives->>= _ _ (read s h) (λ s1 h1.
      Gives-reject (not (is_tok A lib equals s1)) _ _ (
        Gives->>= _ _ (read s1 h1.0) (λ s2 h2.
          Gives-reject (not (is_tok A lib untyped_int s2)) _ _ (
            Gives-reject (get_limited_value (token_val A lib s2.cur_tok) % 2 ^ 32 == 0) _ _ (
              Gives-reject (ltb w (get_limited_value (token_val A lib s2.cur_tok) % 2 ^ 32)) _ _
                (word_fact-Sound _ s2 h2.0))))))

  parse_range-Sound :
      (f : Inst Num) (s : State Num) → Sound A lib inp s → Gives Holds (parse_range A lib tp w f s)
  unfolding parse_range
  parse_range-Sound f s h = Gives->>= _ _ (read s h) (λ s1 h1.
      Gives-reject (not (is_tok A lib equals s1)) _ _ (
        Gives->>= _ _ (read s1 h1.0) (λ s2 h2.
          Gives-reject (not (is_tok A lib open_bracket s2)) _ _ (
            Gives->>= _ _ (read s2 h2.0) (λ s3 h3.
              Gives-reject (not (is_tok A lib untyped_int s3)) _ _ (
                Gives->>= _ _ (Gives-any (settle_bound A lib w _ (token_val A lib s3.cur_tok)))
                  (λ lower any. Gives->>= _ _ (read s3 h3.0) (λ s4 h4.
                    Gives-reject (not (is_tok A lib comma s4)) _ _ (
                      Gives->>= _ _ (read s4 h4.0) (λ s5 h5.
                        Gives-reject (not (is_tok A lib untyped_int s5)) _ _ (
                          Gives->>= _ _
                            (Gives-any (settle_bound A lib w _ (token_val A lib s5.cur_tok)))
                            (λ upper any'.
                              Gives-reject
                                (eq lower upper
                                  && not (eq_u64 lower 0)
                                  && not (is_all_ones_value lower))
                                _ _
                                (Gives->>= _ _ (read s5 h5.0) (λ s6 h6.
                                  Gives-reject (not (is_tok A lib close_paren s6)) _ _
                                    (word_fact-Sound _ s6 h6.0)))))))))))))))

  parse_named_fact-Sound :
      (f : Inst Num) (s : State Num)
      → Sound A lib inp s
      → Gives Holds (parse_named_fact A lib tp w inp f s)
  unfolding parse_named_fact
  parse_named_fact-Sound f s h =
      Gives-if (has_text A lib inp s "powerOfTwo") (word_fact-Sound _ s h) (
        Gives-if (has_text A lib inp s "negative") (word_fact-Sound _ s h) (
          Gives-if (has_text A lib inp s "nonNegative") (word_fact-Sound _ s h) (
            Gives-if (has_text A lib inp s "nonZero") (word_fact-Sound _ s h) (
              Gives-if (has_text A lib inp s "signBits") (parse_sign_bits-Sound f s h)
                (Gives-if (has_text A lib inp s "range") (parse_range-Sound f s h) Gives-err)))))

  parse_fact_of-Sound :
      (k : TokenKind) (f : Inst Num) (s : State Num)
      → Sound A lib inp s
      → Gives Holds (parse_fact_of A lib tp w inp k f s)
  unfolding parse_fact_of
  parse_fact_of-Sound known_bits f s h = parse_known_bits-Sound f s h
  parse_fact_of-Sound ident f s h = parse_named_fact-Sound f s h
  parse_fact_of-Sound error f s h = Gives-err
  parse_fact_of-Sound val_name f s h = Gives-err
  parse_fact_of-Sound comma f s h = Gives-err
  parse_fact_of-Sound equals f s h = Gives-err
  parse_fact_of-Sound int f s h = Gives-err
  parse_fact_of-Sound untyped_int f s h = Gives-err
  parse_fact_of-Sound open_paren f s h = Gives-err
  parse_fact_of-Sound close_paren f s h = Gives-err
  parse_fact_of-Sound open_bracket f s h = Gives-err
  parse_fact_of-Sound eof f s h = Gives-err

  parse_fact-Sound :
      (f : Inst Num) (s : State Num)
      → Sound A lib inp s
      → Gives Holds (parse_fact A lib tp w inp f s)
  unfolding parse_fact
  parse_fact-Sound f s h = Gives->>= _ _ (read s h) (λ s1 h1.
      Gives->>= _ _ (parse_fact_of-Sound s1.cur_tok.kind f s1 h1.0) (λ r hr.
        Gives-reject (not (is_tok A lib close_paren r.1)) _ _ (word_fact-Sound r.0 r.1 hr)))

  pub parse_facts-Sound :
      (fuel : ℕ) (f : Inst Num) (s : State Num)
      → Sound A lib inp s
      → Gives Holds (parse_facts A lib tp w fuel inp f s)
  unfolding parse_facts
  parse_facts-Sound zero f s h = Gives-err
  parse_facts-Sound (suc fuel) f s h = Gives-elim (ends_facts A lib tp w s) (Gives-ok h) (
      Gives-elim (is_tok A lib open_paren s)
        (Gives->>= _ _ (parse_fact-Sound f s h) (λ r hr. parse_facts-Sound fuel r.0 r.1 hr))
        (parse_facts-Sound fuel f s h))
