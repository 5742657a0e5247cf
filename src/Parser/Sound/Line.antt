-- ===== src/Parser/Sound/Line.antt =====
-- What the functions that parse replacements return.
use souper.Prelude.{refl, none, some, Option, [], ◌∷◌, ℕ, zero, suc, ◌≡◌, not, ◌||◌, List, All}
use souper.Inst.Context.{Library, Context}
use souper.Inst.Context.Laws.{LibraryLaws}
use souper.Inst.Context.Valid.{IsValid}
use souper.Llvm.ApInt.{ApInt, BitLaws}
use souper.Parser.Token.{
  TokenKind, error, ident, val_name, comma, equals, int, untyped_int, known_bits, open_paren,
  close_paren, open_bracket, eof,
}
use souper.Parser.Message.{ok}
use souper.Parser.State.{Input, State, has_no_names, ParsedReplacement, is_tok, has_text}
use souper.Parser.Line.{
  is_empty, parse_statement, parse_line_of, replacements_loop, parse_replacements_from, new_parser,
  both_input, parse_replacements,
}
use souper.Parser.Greatest.{greatest_nil, greatest}
use souper.Parser.Statement.{find_index}
use souper.Parser.State.{consume_token}
use souper.Parser.Line.{parse_line}
use souper.Parser.Sound.{
  Gives, Gives->>=, Gives-reject, Gives-ok, Gives-err, Gives-elim, Sound, ReplacementBelow,
}
use souper.Parser.State.{Names, no_names}
use souper.Parser.Sound.{Asserted, NamesBelow, given_names}
use souper.Parser.Sound.Steps.{consume_token-Sound}
use souper.Parser.Sound.Statement.{
  parse_cand-Sound, parse_infer-Sound, parse_result-Sound, parse_pc-Sound, parse_blockpc-Sound,
}
use souper.Parser.Sound.Operation.{parse_definition-Sound}

module _ (A : ApInt) (lib : Library A) (laws : LibraryLaws A lib) (bits : BitLaws A) where
  open A use {Num}

  module _ (inp : Input) where
    parse_statement-Sound :
        (fuel : ℕ) (s : State Num)
        → Sound A lib inp s
        → Gives (Sound A lib inp) (parse_statement A lib fuel inp s)
    unfolding parse_statement
    parse_statement-Sound fuel s h =
        Gives-elim (has_text A lib inp s "cand") (parse_cand-Sound A lib laws bits inp fuel s h) (
          Gives-elim (has_text A lib inp s "infer") (parse_infer-Sound A lib laws bits inp fuel s h)
            (Gives-elim (has_text A lib inp s "result") (parse_result-Sound A lib laws bits inp s h)
              (Gives-elim (has_text A lib inp s "pc") (parse_pc-Sound A lib laws bits inp s h) (
                Gives-elim (has_text A lib inp s "blockpc")
                  (parse_blockpc-Sound A lib laws bits inp s h) Gives-err))))

    -- `parseLine` keeps the parser's state sound.
    pub parse_line-Sound :
        (k : TokenKind) (fuel : ℕ) (s : State Num)
        → Sound A lib inp s
        → Gives (Sound A lib inp) (parse_line_of A lib k fuel inp s)
    unfolding parse_line_of
    parse_line-Sound ident fuel s h = parse_statement-Sound fuel s h
    parse_line-Sound val_name fuel s h = parse_definition-Sound A lib laws bits inp fuel s h
    parse_line-Sound error fuel s h = Gives-err
    parse_line-Sound comma fuel s h = Gives-err
    parse_line-Sound equals fuel s h = Gives-err
    parse_line-Sound int fuel s h = Gives-err
    parse_line-Sound untyped_int fuel s h = Gives-err
    parse_line-Sound known_bits fuel s h = Gives-err
    parse_line-Sound open_paren fuel s h = Gives-err
    parse_line-Sound close_paren fuel s h = Gives-err
    parse_line-Sound open_bracket fuel s h = Gives-err
    parse_line-Sound eof fuel s h = Gives-err

    replacements_loop-Sound :
        (fuel : ℕ) (s : State Num)
        → Sound A lib inp s
        → Gives (Sound A lib inp) (replacements_loop A lib fuel inp s)
    unfolding replacements_loop
    replacements_loop-Sound zero s h = Gives-err
    replacements_loop-Sound (suc fuel) s h = Gives-elim (is_tok A lib eof s) (Gives-ok h) (
        Gives->>= _ _ (parse_line-Sound s.cur_tok.kind fuel s h)
          (λ s1 h1. replacements_loop-Sound fuel s1 h1))

    parse_replacements_from-Sound :
        (fuel : ℕ) (s : State Num)
        → Sound A lib inp s
        → Gives (Sound A lib inp) (parse_replacements_from A lib fuel inp s)
    unfolding parse_replacements_from
    parse_replacements_from-Sound fuel s h =
        Gives->>= _ _ (consume_token-Sound A lib inp s h) (λ s1 h1.
          Gives->>= _ _ (replacements_loop-Sound fuel s1 h1.0) (λ s2 h2.
            Gives-reject
              (not (is_empty s2.pcs)
                || not (is_empty s2.bpcs)
                || not (has_no_names s2.context)
                || not (is_empty s2.block_pc_idx_map))
              _ _ (Gives-ok h2)))

  -- Replacements whose pointers are instructions of a valid context.
  abbrev pub IsParsed : List ParsedReplacement × Context Num → Type 0
  IsParsed r = IsValid A r.1 × All (ReplacementBelow r.1.next) r.0

  -- Where `ParseReplacements` succeeds in a valid context, the context that it leaves is valid, and every
  -- instruction that a replacement, its path conditions and its block path conditions name is one of
  -- that context's.
  pub parse_replacements-IsParsed :
      (fuel : ℕ) (text : List ℕ) (c : Context Num) (r : List ParsedReplacement × Context Num)
      → IsValid A c
      → parse_replacements A lib fuel text c ≡ ok r
      → IsParsed r
  unfolding parse_replacements new_parser
  parse_replacements-IsParsed fuel text c r v e =
      (Gives->>= {P = Sound A lib (both_input A lib text)} {Q = IsParsed}
          (parse_replacements_from A lib fuel (both_input A lib text)
            (new_parser A lib (both_input A lib text) c))
          _
          (parse_replacements_from-Sound (both_input A lib text) fuel _ (record {
            valid = v;
            names = tt;
            given = tt;
            reps = tt;
            pcs = tt;
            bpcs = tt;
            lhs = tt;
            asserted = tt;
            no_lhs = λ m. refl;
            largest = greatest_nil;
          }))
          (λ s h. Gives-ok (h.valid, h.reps))).holds
        r e

  -- The contexts that the parser is given name instructions of its context.
  first_names :
      (n : ℕ) (o : Option (List Names))
      → All (NamesBelow n) (elim o [ none ↦ [] | some rcs ↦ rcs ])
      → NamesBelow n (elim o [ some (c ∷ cs) ↦ c | some [] ↦ no_names | none ↦ no_names ])
  first_names n none h = tt
  first_names n (some []) h = tt
  first_names n (some (c ∷ cs)) h = h.0

  -- Where `parseReplacements` succeeds in a valid context that has the instructions of the given names, the
  -- assertions of the functions that call it hold: the pointers of every mapping are not null, but for
  -- the right one where left-hand sides are parsed and the left one where right-hand sides are.
  pub parse_replacements-Asserted :
      (fuel : ℕ) (inp : Input) (c : Context Num) (s : State Num)
      → IsValid A c
      → All (NamesBelow c.next) (given_names inp)
      → parse_replacements_from A lib fuel inp (new_parser A lib inp c) ≡ ok s
      → All (λ (r : ParsedReplacement). Asserted inp.rk r.mapping) s.reps
  unfolding new_parser
  parse_replacements-Asserted fuel inp c s v given e =
      ((parse_replacements_from-Sound inp fuel (new_parser A lib inp c) (record {
        valid = v;
        names = first_names c.next inp.rcs_in given;
        given = given;
        reps = tt;
        pcs = tt;
        bpcs = tt;
        lhs = tt;
        asserted = tt;
        no_lhs = λ m. refl;
        largest = greatest_nil;
      })).holds
        s e).asserted

  -- The states between the lines of a text: the first, and what `parseLine` leaves.
  pub data Reached (inp : Input) (c : Context Num) : State Num → Type 0 where
    started :
        {s : State Num} → consume_token A lib (new_parser A lib inp c) ≡ ok s → Reached inp c s
    parsed :
        (fuel : ℕ) {s t : State Num}
        → Reached inp c s
        → parse_line A lib fuel inp s ≡ ok t
        → Reached inp c t

  Reached-Sound :
      (inp : Input) (c : Context Num) {s : State Num}
      → IsValid A c
      → All (NamesBelow c.next) (given_names inp)
      → Reached inp c s
      → Sound A lib inp s
  unfolding new_parser
  Reached-Sound inp c v given (started {s} e) =
      ((consume_token-Sound A lib inp (new_parser A lib inp c) (record {
        valid = v;
        names = first_names c.next inp.rcs_in given;
        given = given;
        reps = tt;
        pcs = tt;
        bpcs = tt;
        lhs = tt;
        asserted = tt;
        no_lhs = λ m. refl;
        largest = greatest_nil;
      })).holds
        s e).0
  Reached-Sound inp c v given (parsed fuel {s} {t} r e) =
      (parse_line-Sound inp s.cur_tok.kind fuel s (Reached-Sound inp c v given r)).holds t e

  -- Between the lines of any text, in a valid context that has the instructions of the given names,
  -- BlockPCIdxMap holds for each block the greatest predecessor number of the block path conditions
  -- of the replacement that is being read, and nothing for a block without any.
  pub Reached-greatest :
      (inp : Input) (c : Context Num) (s : State Num)
      → IsValid A c
      → All (NamesBelow c.next) (given_names inp)
      → Reached inp c s
      → (a : ℕ) → find_index s.block_pc_idx_map a ≡ greatest s.bpcs a
  Reached-greatest inp c s v given r = (Reached-Sound inp c v given r).largest
