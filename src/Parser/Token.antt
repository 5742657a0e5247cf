-- ===== src/Parser/Token.antt =====
-- lib/Parser/Parser.cpp: tokens, and the state of the lexer.
use Prim.Native.String.{String}
use souper.Prelude.{ℕ, ◌+◌, ◌-◌, List, Option}

-- `Token::Kind`.
pub data TokenKind : Type 0 where
  error : TokenKind
  ident val_name comma equals int untyped_int known_bits : TokenKind
  open_paren close_paren open_bracket eof : TokenKind

-- `struct Token`. `val` holds the arguments of the constructor of the token's APInt, the width and the
-- decimal text; texts are lists of bytes, and positions count from the start of the buffer.
pub record Token : Type 0 where
  pub kind : TokenKind
  pub pos : ℕ
  pub len : ℕ
  pub val : Option (ℕ × List ℕ)
  pub name : List ℕ
  pub width : ℕ
  pub pattern_string : List ℕ

-- `struct Lexer`: `rest` is the text from `Begin` to `End`, `pos` is `Begin`, and `beyond` is what the
-- memory behind `End` holds, as far as it is known. Once `Begin` is behind `End`, it never equals `End`
-- again: then `rest` is all of the memory that is left, and `beyond` is empty.
pub record Lexer : Type 0 where
  pub rest : List ℕ
  pub beyond : List ℕ
  pub pos : ℕ
  pub line_begin : ℕ
  pub line_num : ℕ

-- The texts of `ErrStr`: one of the source, or "unexpected '", a character and "'".
pub data ErrStr : Type 0 where
  text_of : String → ErrStr
  unexpected : ℕ → ErrStr

-- What `getNextToken` returns, the text it stores in `ErrStr`, and the lexer that it leaves.
pub record Lexed : Type 0 where
  pub token : Token
  pub err_str : ErrStr
  pub lexer : Lexer

-- `struct TokenPos` and `Lexer::getTokenPos`.
pub record TokenPos : Type 0 where
  pub line : ℕ
  pub col : ℕ

pub get_token_pos : Lexer → Token → TokenPos
get_token_pos l t = record { line = l.line_num; col = t.pos - l.line_begin + 1 }
