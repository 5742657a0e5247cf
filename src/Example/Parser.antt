-- ===== src/Example/Parser.antt =====
-- Witnesses on the texts `%x:i32 = add 1` and `% ;`.
use souper.Prelude.{refl, ℕ, ◌≡◌, List, [], ◌∷◌}
use souper.Parser.Token.{Lexer}
use souper.Parser.Lexer.{
  get_next_token, skip_blank, lex_found, lex_word, lex_known_bits, advance_unchecked,
  skip_unchecked, skip_run, run_of,
}
use souper.Parser.Lexer.TestLexer.{Advances, get_next_token-Advances}

abbrev lexer_of : List ℕ → Lexer
lexer_of text = record { rest = text; beyond = 0 ∷ []; pos = 0; line_begin = 0; line_num = 1 }

abbrev sum_text : Lexer
sum_text = lexer_of (
    b'%' ∷ b'x' ∷ b':' ∷ b'i' ∷ b'3' ∷ b'2' ∷ b' ' ∷ b'=' ∷ b' ' ∷ b'a' ∷ b'd' ∷ b'd' ∷ b' ' ∷ b'1'
    ∷ [])

get_next_token_example : Advances sum_text (get_next_token sum_text)
get_next_token_example = get_next_token-Advances sum_text refl

-- A text that ends in the word `knownBits`, with other bytes behind it.
abbrev open_text : Lexer
open_text = record (lexer_of (b'k' ∷ b'n' ∷ b'o' ∷ b'w' ∷ b'n' ∷ b'B' ∷ b'i' ∷ b't' ∷ b's' ∷ [])) {
  beyond = b'=' ∷ b'1' ∷ b'0' ∷ b'!' ∷ [];
}

-- The lexer passes the end of that text, which is at 9.
passes_end : (get_next_token open_text).lexer.pos ≡ 12
unfolding get_next_token skip_blank lex_found lex_word lex_known_bits advance_unchecked
    skip_unchecked skip_run run_of
passes_end = refl
