-- ===== src/Parser/Lexer/TestLexer.antt =====
-- lib/Parser/Parser.cpp: `TestLexer`, which prints the tokens of a text.
use souper.Prelude.{
  ℕ, zero, suc, ◌+◌, ◌≤◌, ◌<◌, ◌≡◌, refl, ap, ◌⊎◌, inl, inr, Bool, true, false, Option, none, some,
  List, [], ◌∷◌, length, arith,
}
use souper.Parser.Token.{TokenKind, error, eof, TokenPos, get_token_pos, Lexer, Lexed, ErrStr}
use souper.Parser.Lexer.{skip_blank, lex_found, accept, plain, advance, get_next_token}
use souper.Parser.Lexer.Progress.{
  Follows, Within, end_of_text, ends_reading, Follows-trans, skip_blank-Follows, advance-Follows,
  advance_pos, lex_found-Within,
}

-- What is printed of a token: where it stands, its kind and length, and the error.
pub record TestLine : Type 0 where
  pub token_pos : TokenPos
  pub kind : TokenKind
  pub len : ℕ
  pub err_str : Option ErrStr

abbrev pub is_error : TokenKind → Bool
is_error error = true
is_error _ = false

abbrev pub is_eof : TokenKind → Bool
is_eof eof = true
is_eof _ = false

abbrev test_line : Lexed → TestLine
test_line r = record {
  token_pos = get_token_pos r.lexer r.token;
  kind = r.token.kind;
  len = r.token.len;
  err_str = elim (is_error r.token.kind) [ true ↦ some r.err_str | false ↦ none ];
}

-- The loop; `none` says that the fuel is out.
unfoldable pub test_lexer : ℕ → Lexer → Option (List TestLine)
test_lexer zero l = none
test_lexer (suc fuel) l =
    let r = get_next_token l in
    let rest = test_lexer fuel r.lexer in
    elim (is_eof r.token.kind) [
      | true ↦ some []
      | false ↦ elim rest [ none ↦ none | some lines ↦ some (test_line r ∷ lines) ]
    ]

-- How much is left to read, with the memory behind the text.
abbrev pub left : Lexer → ℕ
left l = length l.rest + length l.beyond

record Moves (l : Lexer) (r : Lexed) : Type 0 where
  within : Within l.pos l r
  shorter : ((r.token.kind ≡ eof) × (r.lexer.rest ≡ [])) ⊎ (left r.lexer < left l)

token_after_blank :
    (l l1 : Lexer)
    → Follows l l1
    → (rest : List ℕ) → l1.rest ≡ rest
    → Moves l (elim rest [ [] ↦ accept (plain eof l1.pos 0) l1 | c ∷ cs ↦ lex_found c l1 ])
token_after_blank l l1 h [] e = record {
  within = record { follows = h; starts = h.1; ends = omega arith };
  shorter = inl (refl, e);
}
token_after_blank l l1 h (c ∷ cs) e =
    let found = lex_found-Within c l1 (ap (λ r. elim r [ [] ↦ true | x ∷ xs ↦ false ]) e) in
    let h1 = Follows-trans l l1 (advance l1) h (advance-Follows l1) in
    let h2 = Follows-trans l (advance l1) (lex_found c l1).lexer h1 found.follows in
    record {
      within = record {
        follows = h2;
        starts = omega (arith, h.1, found.starts);
        ends = found.ends;
      };
      shorter = inr (
          omega (
            arith,
            h.1,
            h2.0,
            found.follows.1,
            advance_pos l1 (ap (λ r. elim r [ [] ↦ true | x ∷ xs ↦ false ]) e),
          ));
    }

get_next_token-Moves : (l : Lexer) → Moves l (get_next_token l)
unfolding get_next_token
get_next_token-Moves l =
    let l1 = skip_blank l.beyond false l.rest l.pos l.line_begin l.line_num in
    let h = skip_blank-Follows l.beyond false l.rest l.pos l.line_begin l.line_num in
    token_after_blank l l1 (omega (arith, h.0, ap length h.2), h.1, λ t. h.2) l1.rest refl

-- What is returned stands in the text, and something of the text has been read.
pub record Advances (l : Lexer) (r : Lexed) : Type 0 where
  pub in_text : end_of_text r.lexer ≡ end_of_text l
  pub starts : l.pos ≤ r.token.pos
  pub ends : r.token.pos + r.token.len ≤ r.lexer.pos
  pub shorter : ((r.token.kind ≡ eof) × (r.lexer.rest ≡ [])) ⊎ (length r.lexer.rest < length l.rest)

-- Where the byte behind the text is no '=' and no character of a pattern, as the 0 behind LLVM's
-- buffers, `getNextToken` stays in its text: the token that it returns begins where the lexer stood or
-- later and ends where the lexer is left or before, and the lexer that is left has the same end of the
-- text, which it has not passed. Unless the token is `Eof` and nothing is left to read, it has moved on.
pub get_next_token-Advances :
    (l : Lexer) → ends_reading l.beyond ≡ true → Advances l (get_next_token l)
get_next_token-Advances l t =
    let m = get_next_token-Moves l in
    let same = ap length (m.within.follows.2 t) in
    record {
      in_text = omega (arith, m.within.follows.0, same);
      starts = m.within.starts;
      ends = m.within.ends;
      shorter = elim m.shorter [ inl h ↦ inl h | inr h ↦ inr (omega (arith, h, same)) ];
    }
