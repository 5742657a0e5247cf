-- ===== src/Parser/Lexer.antt =====
-- lib/Parser/Parser.cpp: `Lexer::getNextToken`.
pub mod Progress
pub mod TestLexer
use Prim.Native.String.{String}
use souper.Prelude.{
  ℕ, ◌+◌, ◌-◌, ◌*◌, ◌/◌, u32, Bool, true, false, ◌&&◌, ◌||◌, not, ltb, leb, ◌==◌, if◌then◌else◌,
  List, [], ◌∷◌, ◌++◌, length, none, some,
}
use souper.Parser.Token.{
  TokenKind, error, ident, val_name, comma, equals, int, untyped_int, known_bits, open_paren,
  close_paren, open_bracket, eof, Token, Lexer, Lexed, text_of, unexpected,
}

abbrev pub is_digit : ℕ → Bool
is_digit c = leb b'0' c && leb c b'9'

abbrev pub is_alpha : ℕ → Bool
is_alpha c = (leb b'a' c && leb c b'z') || (leb b'A' c && leb c b'Z')

-- The characters of a value's name.
abbrev pub is_name_char : ℕ → Bool
is_name_char c = is_digit c || is_alpha c || c == b'_'

-- The characters that continue an identifier.
abbrev pub is_ident_char : ℕ → Bool
is_ident_char c = is_alpha c || c == b'.'

abbrev pub is_pattern_char : ℕ → Bool
is_pattern_char c = c == b'0' || c == b'1' || c == b'x'

-- `*Begin`, which may be the byte behind the end. LLVM keeps a 0 behind its buffers, which also stands for
-- memory that is not known.
abbrev pub peek : Lexer → ℕ
peek l = elim l.rest [ [] ↦ elim l.beyond [ [] ↦ 0 | c ∷ cs ↦ c ] | c ∷ cs ↦ c ]

abbrev pub at_end : Lexer → Bool
at_end l = elim l.rest [ [] ↦ true | c ∷ cs ↦ false ]

-- `++Begin`, where `Begin` is not the end.
abbrev pub advance : Lexer → Lexer
advance l = elim l.rest [ [] ↦ l | c ∷ cs ↦ record l { rest = cs; pos = l.pos + 1 } ]

-- `while (Begin != End && test(*Begin)) ++Begin;`: the text passed over, and what follows it.
unfoldable pub run_of : (ℕ → Bool) → List ℕ → List ℕ × List ℕ
run_of test [] = ([], [])
run_of test (c ∷ cs) = let r = run_of test cs in if test c then (c ∷ r.0, r.1) else ([], c ∷ cs)

unfoldable pub skip_run : (ℕ → Bool) → Lexer → List ℕ × Lexer
skip_run test l =
    let r = run_of test l.rest in (r.0, record l { rest = r.1; pos = l.pos + length r.0 })

-- `++Begin` without a test for the end.
unfoldable pub advance_unchecked : Lexer → Lexer
advance_unchecked l = elim l.rest [
  | c ∷ cs ↦ advance l
  | [] ↦ elim l.beyond [ [] ↦ l | c ∷ cs ↦ record l { rest = cs; beyond = []; pos = l.pos + 1 } ]
]

-- `while (test(*Begin)) ++Begin;`, which does not look for the end.
unfoldable pub skip_unchecked : (ℕ → Bool) → Lexer → List ℕ × Lexer
skip_unchecked test l =
    let r = run_of test l.rest in
    let q = run_of test l.beyond in
    let within = skip_run test l in
    let past : List ℕ × Lexer =
      (r.0 ++ q.0, record l { rest = q.1; beyond = []; pos = l.pos + length r.0 + length q.0 }) in
    elim r.1 [ _ ∷ _ ↦ within | [] ↦ elim q.0 [ [] ↦ within | _ ∷ _ ↦ past ] ]

-- `Width = Width*10 + (*Begin - '0')`, over a run of digits.
unfoldable pub read_width : ℕ → List ℕ → ℕ
read_width w [] = w
read_width w (c ∷ cs) = read_width (u32 (w * 10 + (c - b'0'))) cs

-- White space and comments: the loop at the head of `getNextToken`. In a comment, only the end of the
-- line is looked for.
unfoldable pub skip_blank : List ℕ → Bool → List ℕ → ℕ → ℕ → ℕ → Lexer
skip_blank beyond comment [] pos begin num = record {
  rest = [];
  beyond = beyond;
  pos = pos;
  line_begin = begin;
  line_num = num;
}
skip_blank beyond comment (c ∷ cs) pos begin num =
    let newline = c == b'\n' in
    let blank = c == b' ' || c == b'\t' || c == b'\r' in
    let opens = c == b';' in
    let next =
      skip_blank beyond (not newline && (comment || opens)) cs (pos + 1)
        (if newline then pos + 1 else begin) (if newline then num + 1 else num) in
    if newline || comment || blank || opens
    then next
    else record { rest = c ∷ cs; beyond = beyond; pos = pos; line_begin = begin; line_num = num }

abbrev pub plain : TokenKind → ℕ → ℕ → Token
plain k pos len = record {
  kind = k;
  pos = pos;
  len = len;
  val = none;
  name = [];
  width = 0;
  pattern_string = [];
}

abbrev pub fail : String → ℕ → Lexer → Lexed
fail message pos l = record { token = plain error pos 0; err_str = text_of message; lexer = l }

abbrev pub accept : Token → Lexer → Lexed
accept t l = record { token = t; err_str = text_of ""; lexer = l }

-- `:i` and a width, from the colon on; `k` continues with the width.
unfoldable pub width_suffix : Lexer → (ℕ → Lexer → Lexed) → Lexed
width_suffix l k =
    let l1 = advance l in
    let l2 = advance l1 in
    let (digits, l3) = skip_run is_digit l2 in
    let width = read_width 0 digits in
    if at_end l1 || not (peek l1 == b'i')
    then fail "expected 'i'" l1.pos l1
    else if length digits == 0
    then fail "expected integer" l3.pos l3
    else if width == 0
    then fail "width must be at least 1" l2.pos l3
    else k width l3

-- The case of '%'.
unfoldable pub value_token : ℕ → List ℕ → ℕ → Lexer → Lexed
value_token start name width l =
    accept (record (plain val_name start (l.pos - start)) { name = name; width = width }) l

unfoldable pub lex_value : Lexer → Lexed
lex_value l =
    let (name, l1) = skip_run is_name_char (advance l) in
    let typed = width_suffix l1 (value_token l.pos name) in
    if length name == 0
    then fail "expected identifier" l1.pos l1
    else if not (at_end l1) && peek l1 == b':'
    then typed
    else value_token l.pos name 0 l1

-- The bytes of "knownBits".
abbrev pub known_bits_word : List ℕ
known_bits_word = b'k' ∷ b'n' ∷ b'o' ∷ b'w' ∷ b'n' ∷ b'B' ∷ b'i' ∷ b't' ∷ b's' ∷ []

abbrev pub same_text : List ℕ → List ℕ → Bool
same_text [] [] = true
same_text (x ∷ xs) (y ∷ ys) = x == y && same_text xs ys
same_text _ _ = false

-- What follows the word `knownBits`, which began at `start`. Neither the byte for '=' nor those of the
-- pattern are compared with the end.
unfoldable pub lex_known_bits : ℕ → Lexer → Lexed
lex_known_bits start l =
    let (pattern, l1) = skip_unchecked is_pattern_char (advance_unchecked l) in
    if not (peek l == b'=')
    then fail "expected '=' for knownBits" l.pos l
    else if length pattern == 0
    then fail "expected [0|1|x]+ for knownBits" l1.pos l1
    else accept (record (plain known_bits start (l1.pos - start)) { pattern_string = pattern }) l1

unfoldable pub lex_word : Lexer → Lexed
lex_word l =
    let (more, l1) = skip_run is_ident_char (advance l) in
    if same_text (peek l ∷ more) known_bits_word
    then lex_known_bits l.pos l1
    else accept (plain ident l.pos (l1.pos - l.pos)) l1

-- A number with a width; `text` is its decimal text. The test is that of APInt::fromString.
unfoldable pub int_token : ℕ → List ℕ → ℕ → Lexer → Lexed
int_token start text width l =
    if ltb width ((length text - 1) * 64 / 22)
    then fail "integer constant is too large for its width" l.pos l
    else accept (record (plain int start (l.pos - start)) { val = some (width, text) }) l

unfoldable pub lex_number : Lexer → Lexed
lex_number l =
    let (more, l1) = skip_run is_digit (advance l) in
    let text = peek l ∷ more in
    let typed = width_suffix l1 (int_token l.pos text) in
    if length text == 1 && peek l == b'-'
    then fail "unexpected character following a negative sign" l1.pos l1
    else if not (at_end l1) && peek l1 == b':'
    then typed
    else accept
        (record (plain untyped_int l.pos (length text)) { val = some (length text * 5, text) }) l1

-- One character that is a token of its own.
abbrev pub single : TokenKind → Lexer → Lexed
single k l = accept (plain k l.pos 1) (advance l)

-- From `FoundChar` on.
unfoldable pub lex_found : ℕ → Lexer → Lexed
lex_found c l =
    if c == b','
    then single comma l
    else if c == b'='
    then single equals l
    else if c == b'%'
    then lex_value l
    else if is_alpha c
    then lex_word l
    else if c == b'-' || is_digit c
    then lex_number l
    else if c == b'('
    then single open_paren l
    else if c == b')'
    then single close_paren l
    else if c == b'['
    then single open_bracket l
    else record (fail "" l.pos (advance l)) { err_str = unexpected c }

unfoldable pub get_next_token : Lexer → Lexed
get_next_token l =
    let l1 = skip_blank l.beyond false l.rest l.pos l.line_begin l.line_num in
    elim l1.rest [ [] ↦ accept (plain eof l1.pos 0) l1 | c ∷ cs ↦ lex_found c l1 ]
