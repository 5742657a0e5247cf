-- ===== src/Parser/Lexer/Progress.antt =====
-- The lexer stays in its buffer and makes progress.
use Prim.Native.String.{String}
use souper.Prelude.{
  ◌++◌, ap, ◌∙◌, ℕ, ◌+◌, ◌-◌, ◌*◌, ◌≤◌, ◌≡◌, refl, Bool, true, false, List, [], ◌∷◌, length, ltb,
  ◌/◌, ◌==◌, not, ◌&&◌, ◌||◌, if◌then◌else◌, arith,
}
use souper.Parser.Token.{
  comma, equals, open_paren, close_paren, open_bracket, TokenKind, Token, Lexer, Lexed,
}
use souper.Parser.Lexer.{
  single, is_ident_char, is_alpha, is_pattern_char, same_text, known_bits_word, fail, accept,
  is_name_char, read_width, run_of, skip_run, skip_blank, width_suffix, value_token, lex_value,
  lex_known_bits, lex_word, int_token, lex_number, lex_found, is_digit, advance, at_end, peek,
  advance_unchecked, skip_unchecked,
}

-- The end of the text, and that of the memory that is known.
abbrev pub end_of_text : Lexer → ℕ
end_of_text l = l.pos + length l.rest

abbrev pub end_of : Lexer → ℕ
end_of l = l.pos + (length l.rest + length l.beyond)

-- The byte behind the text ends a fact `knownBits`, as the 0 does that LLVM keeps behind its buffers.
abbrev pub ends_reading : List ℕ → Bool
ends_reading [] = true
ends_reading (c ∷ cs) = not (c == b'=') && not (is_pattern_char c)

-- `l'` stands in the memory of `l`, not before `l`; if the text is terminated, it stands in the text.
abbrev pub Follows : Lexer → Lexer → Type 0
Follows l l' =
    (end_of l' ≡ end_of l)
    × (l.pos ≤ l'.pos)
    × (ends_reading l.beyond ≡ true → l'.beyond ≡ l.beyond)

-- What is returned stands between `from` and the lexer that is left, which follows `l`.
pub record Within (from : ℕ) (l : Lexer) (r : Lexed) : Type 0 where
  pub follows : Follows l r.lexer
  pub starts : from ≤ r.token.pos
  pub ends : r.token.pos + r.token.len ≤ r.lexer.pos

if-Within :
    {from : ℕ} {l : Lexer} {x y : Lexed} (b : Bool)
    → Within from l x
    → Within from l y
    → Within from l (if b then x else y)
if-Within true h k = h
if-Within false h k = k

fail-Within :
    (from : ℕ) (l l' : Lexer) (message : String) (p : ℕ)
    → Follows l l'
    → from ≤ p
    → p ≤ l'.pos
    → Within from l (fail message p l')
fail-Within from l l' message p h k k' = record {
  follows = h;
  starts = k;
  ends = omega (arith, k');
}

accept-Within :
    (from : ℕ) (l l' : Lexer) (t : Token)
    → Follows l l'
    → from ≤ t.pos
    → t.pos + t.len ≤ l'.pos
    → Within from l (accept t l')
accept-Within from l l' t h k k' = record { follows = h; starts = k; ends = k' }

run_of-length :
    (test : ℕ → Bool) (cs : List ℕ)
    → (length ((run_of test cs).0) + length ((run_of test cs).1)) ≡ length cs
unfolding run_of
run_of-length test [] = refl
run_of-length test (c ∷ cs) = ground (arith, run_of-length test cs)

skip_run-Follows : (test : ℕ → Bool) (l : Lexer) → Follows l ((skip_run test l).1)
unfolding skip_run
skip_run-Follows test l = (omega (arith, run_of-length test l.rest), omega arith, λ t. refl)

skip_run_pos :
    (test : ℕ → Bool) (l : Lexer) → (skip_run test l).1.pos ≡ l.pos + length (skip_run test l).0
unfolding skip_run
skip_run_pos test l = refl

pub advance-Follows : (l : Lexer) → Follows l (advance l)
advance-Follows l = follows l.rest refl
  where
    follows : (r : List ℕ) → l.rest ≡ r → Follows l (advance l)
    follows [] e = (ground (arith, e), ground (arith, e), ground (arith, e))
    follows (c ∷ cs) e = (ground (arith, e), ground (arith, e), ground (arith, e))

pub Follows-trans : (a b c : Lexer) → Follows a b → Follows b c → Follows a c
Follows-trans a b c h k = (
  omega (arith, h.0, k.0),
  omega (arith, h.1, k.1),
  λ t. k.2 (ap ends_reading (h.2 t) ∙ t) ∙ h.2 t,
)

-- `++Begin` moves on where there is a character.
pub advance_pos : (l : Lexer) → at_end l ≡ false → (advance l).pos ≡ l.pos + 1
advance_pos l h = ground arith

pub skip_blank-Follows :
    (m : List ℕ) (c : Bool) (cs : List ℕ) (pos begin num : ℕ)
    → (end_of_text (skip_blank m c cs pos begin num) ≡ pos + length cs)
      × (pos ≤ (skip_blank m c cs pos begin num).pos)
      × ((skip_blank m c cs pos begin num).beyond ≡ m)
unfolding skip_blank
skip_blank-Follows m comment [] pos begin num = (refl, omega arith, refl)
skip_blank-Follows m comment (c ∷ cs) pos begin num = ground (
  arith,
  skip_blank-Follows m (not (c == b'\n') && (comment || c == b';')) cs (pos + 1)
      (if c == b'\n' then pos + 1 else begin) (if c == b'\n' then num + 1 else num),
)

width_suffix-Within :
    (from : ℕ) (l l' : Lexer) (k : ℕ → Lexer → Lexed)
    → from ≤ l.pos
    → Follows l l'
    → ((w : ℕ) (end : Lexer) → Follows l end → Within from l (k w end))
    → Within from l (width_suffix l' k)
unfolding width_suffix
width_suffix-Within from l l' k a h hk =
    let l1 = advance l' in
    let l2 = advance l1 in
    let (digits, l3) = skip_run is_digit l2 in
    let h1 = Follows-trans l l' l1 h (advance-Follows l') in
    let h2 = Follows-trans l l1 l2 h1 (advance-Follows l1) in
    let h3 = Follows-trans l l2 l3 h2 (skip_run-Follows is_digit l2) in
    if-Within (at_end l1 || not (peek l1 == b'i'))
      (fail-Within from l l1 "expected 'i'" l1.pos h1 (omega (arith, a, h1)) (omega arith))
      (if-Within (length digits == 0)
        (fail-Within from l l3 "expected integer" l3.pos h3 (omega (arith, a, h3)) (omega arith))
        (if-Within (read_width 0 digits == 0)
          (fail-Within from l l3 "width must be at least 1" l2.pos h3 (omega (arith, a, h2))
            (skip_run-Follows is_digit l2).1)
          (hk (read_width 0 digits) l3 h3)))

value_token-Within :
    (l end : Lexer) (name : List ℕ) (w : ℕ)
    → Follows (advance l) end
    → Within l.pos (advance l) (value_token l.pos name w end)
unfolding value_token
value_token-Within l end name w h =
    accept-Within l.pos (advance l) end _ h (omega arith) (omega (arith, h, advance-Follows l))

lex_value-Within : (l : Lexer) → Within l.pos (advance l) (lex_value l)
unfolding lex_value
lex_value-Within l =
    let l0 = advance l in
    let (name, l1) = skip_run is_name_char l0 in
    let h0 = advance-Follows l in
    let h1 = skip_run-Follows is_name_char l0 in
    let accepted =
      (λ (w : ℕ) (end : Lexer) (h : Follows l0 end). value_token-Within l end name w h) in
    if-Within (length name == 0)
      (fail-Within l.pos l0 l1 "expected identifier" l1.pos h1 (omega (arith, h0, h1))
        (omega arith))
      (if-Within (not (at_end l1) && peek l1 == b':')
        (width_suffix-Within l.pos l0 l1 (value_token l.pos name) h0.1 h1 accepted)
        (accepted 0 l1 h1))

-- A step without a test for the end, over a '='.
advance_unchecked-Follows : (l : Lexer) → (peek l == b'=') ≡ true → Follows l (advance_unchecked l)
unfolding advance_unchecked
advance_unchecked-Follows l h = follows l.rest l.beyond h
  where
    follows :
        (r m : List ℕ)
        → (peek (record l { rest = r; beyond = m }) == b'=') ≡ true
        → Follows
            (record l { rest = r; beyond = m })
            (advance_unchecked (record l { rest = r; beyond = m }))
    follows [] [] h = (omega arith, omega arith, λ t. refl)
    follows [] (c ∷ cs) h = (omega arith, omega arith, λ t. absurd (ground (arith, h, t)))
    follows (c ∷ cs) m h = (omega arith, omega arith, λ t. refl)

run_of_stops : (m : List ℕ) → ends_reading m ≡ true → (run_of is_pattern_char m).0 ≡ []
unfolding run_of
run_of_stops [] h = refl
run_of_stops (c ∷ cs) h = ground (arith, h)

-- What `skip_unchecked` gives for the runs in the text and behind it.
abbrev pattern_end : Lexer → List ℕ × List ℕ → List ℕ × List ℕ → List ℕ × Lexer
pattern_end l r q = elim r.1 [
  | _ ∷ _ ↦ skip_run is_pattern_char l
  | [] ↦ elim q.0 [
    | [] ↦ skip_run is_pattern_char l
    | _ ∷ _ ↦
        (r.0 ++ q.0, record l { rest = q.1; beyond = []; pos = l.pos + length r.0 + length q.0 })
  ]
]

-- A pattern that is read without a test for the end.
skip_unchecked-Follows : (l : Lexer) → Follows l ((skip_unchecked is_pattern_char l).1)
unfolding skip_unchecked
skip_unchecked-Follows l =
    follows (run_of is_pattern_char l.rest) (run_of is_pattern_char l.beyond)
      (run_of-length is_pattern_char l.rest) (run_of-length is_pattern_char l.beyond)
      (run_of_stops l.beyond)
  where
    follows :
        (r q : List ℕ × List ℕ)
        → (length r.0 + length r.1) ≡ length l.rest
        → (length q.0 + length q.1) ≡ length l.beyond
        → (ends_reading l.beyond ≡ true → q.0 ≡ [])
        → Follows l (pattern_end l r q).1
    follows (r, x ∷ xs) q hr hq hs = skip_run-Follows is_pattern_char l
    follows (r, []) ([], q) hr hq hs = skip_run-Follows is_pattern_char l
    follows (r, []) (x ∷ xs, q) hr hq hs =
        (omega (arith, hr, hq), omega arith, λ t. absurd (cc (hs t)))

if_known-Within :
    {from : ℕ} {l : Lexer} {x y : Lexed} (b : Bool)
    → Within from l x
    → (b ≡ false → Within from l y)
    → Within from l (if b then x else y)
if_known-Within true h k = h
if_known-Within false h k = k refl

lex_known_bits-Within :
    (from : ℕ) (l l' : Lexer) → from ≤ l.pos → Follows l l' → Within from l (lex_known_bits from l')
unfolding lex_known_bits
lex_known_bits-Within from l l' a h =
    let l0 = advance_unchecked l' in
    let (pattern, l1) = skip_unchecked is_pattern_char l0 in
    if_known-Within (not (peek l' == b'='))
      (fail-Within from l l' "expected '=' for knownBits" l'.pos h (omega (arith, a, h.1))
        (omega arith))
      (λ found.
        let h0 = Follows-trans l l' l0 h (advance_unchecked-Follows l' (ground (arith, found))) in
        let h1 = Follows-trans l l0 l1 h0 (skip_unchecked-Follows l0) in
        if-Within (length pattern == 0)
          (fail-Within from l l1 "expected [0|1|x]+ for knownBits" l1.pos h1
            (omega (arith, a, h1.1)) (omega arith))
          (accept-Within from l l1 _ h1 (omega arith) (omega (arith, a, h1.1))))

lex_word-Within : (l : Lexer) → Within l.pos (advance l) (lex_word l)
unfolding lex_word
lex_word-Within l =
    let (more, l1) = skip_run is_ident_char (advance l) in
    let h0 = advance-Follows l in
    let h1 = skip_run-Follows is_ident_char (advance l) in
    if-Within (same_text (peek l ∷ more) known_bits_word)
      (lex_known_bits-Within l.pos (advance l) l1 h0.1 h1)
      (accept-Within l.pos (advance l) l1 _ h1 (omega arith) (omega (arith, h0, h1)))

int_token-Within :
    (l end : Lexer) (text : List ℕ) (w : ℕ)
    → Follows (advance l) end
    → Within l.pos (advance l) (int_token l.pos text w end)
unfolding int_token
int_token-Within l end text w h =
    let h0 = advance-Follows l in
    if-Within (ltb w ((length text - 1) * 64 / 22))
      (fail-Within l.pos (advance l) end "integer constant is too large for its width" end.pos h
        (omega (arith, h0, h)) (omega arith))
      (accept-Within l.pos (advance l) end _ h (omega arith) (omega (arith, h0, h)))

lex_number-Within : (l : Lexer) → at_end l ≡ false → Within l.pos (advance l) (lex_number l)
unfolding lex_number
lex_number-Within l e =
    let l0 = advance l in
    let (more, l1) = skip_run is_digit l0 in
    let text = peek l ∷ more in
    let h0 = advance-Follows l in
    let h1 = skip_run-Follows is_digit l0 in
    if-Within (length text == 1 && peek l == b'-')
      (fail-Within l.pos l0 l1 "unexpected character following a negative sign" l1.pos h1
        (omega (arith, h0, h1)) (omega arith))
      (if-Within (not (at_end l1) && peek l1 == b':')
        (width_suffix-Within l.pos l0 l1 (int_token l.pos text) h0.1 h1
          (λ (w : ℕ) (end : Lexer) (h : Follows l0 end). int_token-Within l end text w h))
        (accept-Within l.pos l0 l1 _ h1 (omega arith)
          (omega (arith, advance_pos l e, skip_run_pos is_digit l0))))

single-Within :
    (k : TokenKind) (l : Lexer) → at_end l ≡ false → Within l.pos (advance l) (single k l)
single-Within k l e =
    accept-Within l.pos (advance l) (advance l) _ (refl, omega arith, λ t. refl) (omega arith)
      (omega (arith, advance_pos l e))

pub lex_found-Within :
    (c : ℕ) (l : Lexer) → at_end l ≡ false → Within l.pos (advance l) (lex_found c l)
unfolding lex_found
lex_found-Within c l e = if-Within (c == b',') (single-Within comma l e) (
    if-Within (c == b'=') (single-Within equals l e) (
      if-Within (c == b'%') (lex_value-Within l) (
        if-Within (is_alpha c) (lex_word-Within l) (
          if-Within (c == b'-' || is_digit c) (lex_number-Within l e) (
            if-Within (c == b'(') (single-Within open_paren l e) (
              if-Within (c == b')') (single-Within close_paren l e) (
                if-Within (c == b'[') (single-Within open_bracket l e) record {
                  follows = (refl, omega arith, λ t. refl);
                  starts = omega arith;
                  ends = omega (arith, advance_pos l e);
                })))))))
