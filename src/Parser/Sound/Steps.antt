-- ===== src/Parser/Sound/Steps.antt =====
-- The steps that the parser's operations share keep its state sound.
use mathlib.Core.Path.{subst}
use mathlib.Core.Option.{some-injective}
use souper.Prelude.{
  sym, ℕ, ◌+◌, ◌<◌, ◌≤◌, ◌≡◌, not, ◌==◌, List, [], ◌∷◌, All, Option, none, some, arith, refl,
  Bool-cases, inl, inr, ==_iff, length, zero, suc, get_elem?,
}
use souper.Inst.Graph.{Inst}
use souper.Parser.Attribute.{set_fields}
use souper.Parser.TypeCheck.Widths.{type_check_ops-OneWidth}
use souper.Inst.Context.{Library, Context}
use souper.Inst.Context.Laws.{LibraryLaws}
use souper.Inst.Context.Valid.{get_const-Adds, get_untyped_const-Adds}
use souper.Llvm.ApInt.{ApInt, BitLaws}
use souper.Parser.Token.{
  TokenKind, error, ident, val_name, comma, equals, int, untyped_int, known_bits, open_paren,
  close_paren, open_bracket, eof,
}
use souper.Parser.Lexer.{get_next_token}
use souper.Parser.Message.{ok, err, ◌>>=◌}
use souper.Parser.TypeCheck.{at, type_check_ops_matching_widths}
use souper.Parser.State.{
  Input, State, undefined, no_names, Names, find_name, token_val, token_number, consume_token,
  parse_inst_of, parse_inst, parse_inst_mapping, next_replacement, push_rep, InstMapping,
}
use souper.Parser.State.{ParsedReplacement}
use souper.Parser.Greatest.{greatest_nil}
use souper.Parser.Sound.{
  Asserted, Gives, Gives->>=, Gives-reject, Gives-some, Gives-map_err, Sound, Sound-grows,
  NamesBelow, MappingBelow, ReplacementBelow, All-snoc, Gives-ok, Gives-err, Gives_weaken,
}

find_name-Below :
    (n : ℕ) (names : List (List ℕ × ℕ)) (name : List ℕ) (p : ℕ)
    → All (λ (e : List ℕ × ℕ). e.1 < n) names
    → find_name names name ≡ some p
    → p < n
find_name-Below n [] name p h e = cc
find_name-Below n (x ∷ xs) name p h e = ground (arith, h.0, e, find_name-Below n xs name p h.1)

module _ (A : ApInt) (lib : Library A) (inp : Input) where
  open A use {Num}

  -- A pointer of the state's context, which has `n` instructions at least, and the state.
  abbrev pub SoundAt : ℕ → ℕ × State Num → Type 0
  SoundAt n r = Sound A lib inp r.1 × (r.0 < r.1.ic.next) × (n ≤ r.1.ic.next)

  -- A state that is sound, in the same context.
  abbrev pub SoundIn : Context Num → State Num → Type 0
  SoundIn c t = Sound A lib inp t × (t.ic ≡ c)

  pub consume_token-Sound :
      (s : State Num) → Sound A lib inp s → Gives (SoundIn s.ic) (consume_token A lib s)
  unfolding consume_token
  consume_token-Sound s h =
      elim (Bool-cases (token_number (get_next_token s.lexer).token.kind == 0)) [
        | inl e ↦ rw e Gives-err
        | inr e ↦ rw e (
            Gives-ok (
              record {
                valid = h.valid;
                names = h.names;
                given = h.given;
                reps = h.reps;
                pcs = h.pcs;
                bpcs = h.bpcs;
                lhs = h.lhs;
                asserted = h.asserted;
                no_lhs = h.no_lhs;
                largest = h.largest;
              },
              refl,
            ))
      ]

  -- Consuming a token keeps a pointer inside.
  pub consume_token-SoundAt :
      (n i : ℕ) (s : State Num)
      → Sound A lib inp s
      → n ≤ s.ic.next
      → i < s.ic.next
      → Gives (SoundAt n) (consume_token A lib s >>= λ t. ok (i, t))
  consume_token-SoundAt n i s h le below =
      Gives->>= (consume_token A lib s) _ (consume_token-Sound s h) (λ t k. Gives-ok (
        k.0,
        subst (λ (c : Context Num). i < c.next) (sym k.1) below,
        subst (λ (c : Context Num). n ≤ c.next) (sym k.1) le,
      ))

  module _ (laws : LibraryLaws A lib) where
    parse_inst_of-Sound :
        (k : TokenKind) (s : State Num)
        → Sound A lib inp s
        → Gives (SoundAt s.ic.next) (parse_inst_of A lib inp k s)
    unfolding parse_inst_of
    parse_inst_of-Sound val_name s h = Gives-reject (not (s.cur_tok.width == 0)) _ _ (
        Gives->>= _ _ (Gives-some (find_name s.context.insts s.cur_tok.name) _) (λ i e.
          consume_token-SoundAt s.ic.next i s h (omega arith) (find_name-Below _ _ _ _ h.names e)))
    parse_inst_of-Sound int s h =
        let a = get_const-Adds A lib laws (token_val A lib s.cur_tok) s.ic h.valid in
        consume_token-SoundAt s.ic.next _ _ (Sound-grows A lib inp s _ h a.valid a.extends.next_le)
          a.extends.next_le a.inside
    parse_inst_of-Sound untyped_int s h =
        let a = get_untyped_const-Adds A lib laws (token_val A lib s.cur_tok) s.ic h.valid in
        consume_token-SoundAt s.ic.next _ _ (Sound-grows A lib inp s _ h a.valid a.extends.next_le)
          a.extends.next_le a.inside
    parse_inst_of-Sound error s h = Gives-err
    parse_inst_of-Sound ident s h = Gives-err
    parse_inst_of-Sound comma s h = Gives-err
    parse_inst_of-Sound equals s h = Gives-err
    parse_inst_of-Sound known_bits s h = Gives-err
    parse_inst_of-Sound open_paren s h = Gives-err
    parse_inst_of-Sound close_paren s h = Gives-err
    parse_inst_of-Sound open_bracket s h = Gives-err
    parse_inst_of-Sound eof s h = Gives-err

    pub parse_inst-Sound :
        (s : State Num) → Sound A lib inp s → Gives (SoundAt s.ic.next) (parse_inst A lib inp s)
    parse_inst-Sound s h = parse_inst_of-Sound s.cur_tok.kind s h

    -- A mapping of the state's context, and the state.
    abbrev pub SoundMapping : (ℕ × ℕ) × State Num → Type 0
    SoundMapping r = Sound A lib inp r.1 × (r.0.0 < r.1.ic.next) × (r.0.1 < r.1.ic.next)

    pub at-Below : (n i : ℕ) (ps : List ℕ) → All (λ p. p < n) ps → i < length ps → at A lib ps i < n
    at-Below n i [] h k = absurd (omega arith)
    at-Below n zero (p ∷ ps) h k = h.0
    at-Below n (suc i) (p ∷ ps) h k = at-Below n i ps h.1 (omega (arith, k))

    module _ (bits : BitLaws A) where
      mapping-Sound :
          (s : State Num) (a b : ℕ) (r : List ℕ × Context Num)
          → Sound A lib inp s
          → a < s.ic.next
          → b < s.ic.next
          → type_check_ops_matching_widths A lib (a ∷ b ∷ []) s.ic ≡ ok r
          → SoundMapping ((at A lib r.0 0, at A lib r.0 1), record s { ic = r.1 })
      mapping-Sound s a b r h below_a below_b e =
          let (w, pos, o, single) =
            type_check_ops-OneWidth A lib laws bits (a ∷ b ∷ []) s.ic r h.valid
              (below_a, (below_b, tt)) e in
          (
            Sound-grows A lib inp s r.1 h o.valid o.extends.next_le,
            at-Below r.1.next 0 r.0 o.below (omega (arith, o.same_length)),
            at-Below r.1.next 1 r.0 o.below (omega (arith, o.same_length)),
          )

      pub parse_inst_mapping-Sound :
          (s : State Num) → Sound A lib inp s → Gives SoundMapping (parse_inst_mapping A lib inp s)
      unfolding parse_inst_mapping
      parse_inst_mapping-Sound s h =
          Gives->>= (parse_inst A lib inp s) _ (parse_inst-Sound s h) (λ a ha.
            Gives->>= (parse_inst A lib inp a.1) _ (parse_inst-Sound a.1 ha.0) (λ b hb.
              Gives->>= _ _
                (Gives-map_err _ (type_check_ops_matching_widths A lib (a.0 ∷ b.0 ∷ []) b.1.ic)
                  (record {
                    holds =
                        λ r e. mapping-Sound b.1 a.0 b.0 r hb.0 (omega (arith, ha.1, hb.2)) hb.1 e;
                  }))
                (λ r hr. Gives-ok hr)))

  -- Fields that are not operands may be assigned.
  pub set_fields-Sound :
      (i : ℕ) (f : Inst Num → Inst Num) (s : State Num)
      → ((x : Inst Num) → (f x).ops ≡ x.ops)
      → Sound A lib inp s
      → Sound A lib inp (set_fields A lib i f s)
  set_fields-Sound i f s same h = record {
    valid = record {
      ranked = λ q. elim (Bool-cases (q == i)) [
        | inl e ↦ rw (e, same (s.ic.store i), sym ((==_iff q i).0 e)) (h.valid.ranked q)
        | inr e ↦ rw e (h.valid.ranked q)
      ];
      set_inside = h.valid.set_inside;
      vars_inside = h.valid.vars_inside;
    };
    names = h.names;
    given = h.given;
    reps = h.reps;
    pcs = h.pcs;
    bpcs = h.bpcs;
    lhs = h.lhs;
    asserted = h.asserted;
    no_lhs = h.no_lhs;
    largest = h.largest;
  }

  get_elem-All :
      (P : Names → Type 0) (i : ℕ) (xs : List Names) (x : Names)
      → All P xs
      → get_elem? xs i ≡ some x
      → P x
  get_elem-All P i [] x h e = cc
  get_elem-All P zero (y ∷ ys) x h e = subst P (some-injective y x e) h.0
  get_elem-All P (suc i) (y ∷ ys) x h e = get_elem-All P i ys x h.1 e

  elem_or_stop :
      (n i : ℕ) (o : Option (List Names))
      → All (NamesBelow n) (elim o [ none ↦ [] | some rcs ↦ rcs ])
      → Gives (NamesBelow n) (elim o [
        | none ↦ ok no_names
        | some rcs ↦ elim (get_elem? rcs i) [ none ↦ err undefined | some c ↦ ok c ]
      ])
  elem_or_stop n i none h = Gives-ok tt
  elem_or_stop n i (some rcs) h =
      Gives_weaken (λ c e. get_elem-All (NamesBelow n) i rcs c h e)
        (Gives-some (get_elem? rcs i) undefined)

  given_next :
      (s : State Num)
      → Sound A lib inp s
      → Gives (NamesBelow s.ic.next) (elim inp.rcs_in [
        | none ↦ ok no_names
        | some rcs ↦ elim (get_elem? rcs (s.index + 1)) [ none ↦ err undefined | some c ↦ ok c ]
      ])
  given_next s h = elem_or_stop s.ic.next (s.index + 1) inp.rcs_in h.given

  pub next_replacement-Sound :
      (s : State Num) → Sound A lib inp s → Gives (Sound A lib inp) (next_replacement A lib inp s)
  unfolding next_replacement
  next_replacement-Sound s h = Gives->>= _ _ (given_next s h) (λ names k. Gives-ok (record {
    valid = h.valid;
    names = k;
    given = h.given;
    reps = h.reps;
    pcs = tt;
    bpcs = tt;
    lhs = tt;
    asserted = h.asserted;
    no_lhs = λ m. refl;
    largest = greatest_nil;
  }))

  pub push_rep-Sound :
      (m : InstMapping) (s : State Num)
      → Sound A lib inp s
      → MappingBelow s.ic.next m
      → Asserted inp.rk m
      → Gives (Sound A lib inp) (push_rep A lib inp m s)
  push_rep-Sound m s h below right = next_replacement-Sound _ (record {
    valid = h.valid;
    names = h.names;
    given = h.given;
    reps = All-snoc (ReplacementBelow s.ic.next) s.reps _ h.reps (below, h.pcs, h.bpcs);
    pcs = h.pcs;
    bpcs = h.bpcs;
    lhs = h.lhs;
    asserted =
        All-snoc (λ (r : ParsedReplacement). Asserted inp.rk r.mapping) s.reps _ h.asserted right;
    no_lhs = h.no_lhs;
    largest = h.largest;
  })

  -- A state that is sound, in a context that has `n` instructions at least.
  abbrev pub SoundFrom : ℕ → State Num → Type 0
  SoundFrom n s = Sound A lib inp s × (n ≤ s.ic.next)

  pub consume_token-SoundFrom :
      (n : ℕ) (s : State Num) → SoundFrom n s → Gives (SoundFrom n) (consume_token A lib s)
  consume_token-SoundFrom n s h =
      Gives_weaken (λ t k. (k.0, subst (λ (c : Context Num). n ≤ c.next) (sym k.1) h.1))
        (consume_token-Sound s h.0)

  -- Reading tokens and instructions does not change `LHS`.
  pub consume_token-lhs : (s : State Num) → Gives (λ t. t.lhs ≡ s.lhs) (consume_token A lib s)
  unfolding consume_token
  consume_token-lhs s = elim (Bool-cases (token_number (get_next_token s.lexer).token.kind == 0)) [
    | inl e ↦ rw e Gives-err
    | inr e ↦ rw e (Gives-ok refl)
  ]

  parse_inst_of-lhs :
      (k : TokenKind) (s : State Num) → Gives (λ r. r.1.lhs ≡ s.lhs) (parse_inst_of A lib inp k s)
  unfolding parse_inst_of
  parse_inst_of-lhs val_name s = Gives-reject (not (s.cur_tok.width == 0)) _ _ (
      Gives->>= _ _ (Gives-some (find_name s.context.insts s.cur_tok.name) _)
        (λ i e. Gives->>= _ _ (consume_token-lhs s) (λ t h. Gives-ok h)))
  parse_inst_of-lhs int s = Gives->>= _ _ (consume_token-lhs _) (λ t h. Gives-ok h)
  parse_inst_of-lhs untyped_int s = Gives->>= _ _ (consume_token-lhs _) (λ t h. Gives-ok h)
  parse_inst_of-lhs error s = Gives-err
  parse_inst_of-lhs ident s = Gives-err
  parse_inst_of-lhs comma s = Gives-err
  parse_inst_of-lhs equals s = Gives-err
  parse_inst_of-lhs known_bits s = Gives-err
  parse_inst_of-lhs open_paren s = Gives-err
  parse_inst_of-lhs close_paren s = Gives-err
  parse_inst_of-lhs open_bracket s = Gives-err
  parse_inst_of-lhs eof s = Gives-err

  pub parse_inst-lhs : (s : State Num) → Gives (λ r. r.1.lhs ≡ s.lhs) (parse_inst A lib inp s)
  parse_inst-lhs s = parse_inst_of-lhs s.cur_tok.kind s
