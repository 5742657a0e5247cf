-- ===== src/Parser/State.antt =====
-- lib/Parser/Parser.cpp: `struct Parser`, its tokens and its errors; lib/Inst/Inst.cpp:
-- `ReplacementContext`, as far as the parser uses it.
use Prim.Native.String.{String}
use Prim.Native.Char.{code}
use souper.Prelude.{
  ℕ, zero, suc, ◌+◌, Bool, true, false, not, ◌==◌, if◌then◌else◌, List, [], ◌∷◌, ◌++◌, Option, none,
  some, get_elem?,
}
use souper.Inst.Kind.{Kind}
use souper.Inst.Names.{string_switch, kind_cases}
use souper.Inst.Graph.{Block}
use souper.Inst.Context.{Library, Context, get_const, get_untyped_const}
use souper.Llvm.ApInt.{ApInt}
use souper.Parser.Token.{
  TokenKind, error, ident, val_name, comma, equals, int, untyped_int, known_bits, open_paren,
  close_paren, open_bracket, eof, Token, Lexer, TokenPos, get_token_pos, ErrStr, text_of,
  unexpected,
}
use souper.Parser.Lexer.{same_text, get_next_token}
use souper.Parser.Message.{Message, str, bytes, Checked, ok, err, ◌>>=◌, ◌>>◌, reject, map_err}
use souper.Parser.TypeCheck.{at, type_check_ops_matching_widths}

-- The bytes of a text of the source.
abbrev pub codes : String → List ℕ
codes String.[] = []
codes (String.◌∷◌ c s) = code c ∷ codes s

-- `Inst::getKind` of a text that is given as bytes.
abbrev pub kind_of : List ℕ → Kind
kind_of s = string_switch (λ t. same_text (codes t) s) kind_cases Kind.no_kind

-- The value of an enumerator of `Token::Kind`.
abbrev pub token_number : TokenKind → ℕ
token_number error = 0
token_number ident = 1
token_number val_name = 2
token_number comma = 3
token_number equals = 4
token_number int = 5
token_number untyped_int = 6
token_number known_bits = 7
token_number open_paren = 8
token_number close_paren = 9
token_number open_bracket = 10
token_number eof = 11

pub data ReplacementKind : Type 0 where
  parse_lhs parse_rhs parse_both : ReplacementKind

-- `NameToInst` and `NameToBlock` of `ReplacementContext`; the last entry for a name is in front.
pub record Names : Type 0 where
  pub insts : List (List ℕ × ℕ)
  pub blocks : List (List ℕ × Block)

abbrev pub no_names : Names
no_names = record { insts = []; blocks = [] }

abbrev pub find_name : {T : Type 0} → List (List ℕ × T) → List ℕ → Option T
find_name [] n = none
find_name ((m, x) ∷ rest) n = if same_text m n then some x else find_name rest n

-- `ReplacementContext::empty`.
abbrev pub has_no_names : Names → Bool
has_no_names c = elim c.insts [ _ ∷ _ ↦ false | [] ↦ elim c.blocks [ _ ∷ _ ↦ false | [] ↦ true ] ]

-- `InstMapping`, whose pointers may be null.
pub record InstMapping : Type 0 where
  pub lhs : Option ℕ
  pub rhs : Option ℕ

pub record BlockPcMapping : Type 0 where
  pub block : Block
  pub pred_idx : ℕ
  pub pc : InstMapping

pub record ParsedReplacement : Type 0 where
  pub mapping : InstMapping
  pub pcs : List InstMapping
  pub bpcs : List BlockPcMapping

-- What the parser is constructed with and never changes: the text, the mode, and the contexts of the
-- left-hand sides; `keeps` says that `RCsOut` is not null.
pub record Input : Type 0 where
  pub buffer : List ℕ
  pub rk : ReplacementKind
  pub rcs_in : Option (List Names)
  pub keeps : Bool

-- The other fields of `struct Parser`, and the context that it fills. BlockPCIdxMap goes from the
-- address of a block to a number.
pub record State (N : Type 0) : Type 0 where
  pub lexer : Lexer
  pub cur_tok : Token
  pub ic : Context N
  pub reps : List ParsedReplacement
  pub rcs_out : List Names
  pub context : Names
  pub index : ℕ
  pub reserved_const_counter : ℕ
  pub pcs : List InstMapping
  pub bpcs : List BlockPcMapping
  pub block_pc_idx_map : List (ℕ × ℕ)
  pub external_uses_set : List ℕ
  pub lhs : Option ℕ

-- Why parsing stops early: an error at a place, code that the source takes for unreachable or that has
-- no defined behaviour, or the end of the fuel.
pub data Stop : Type 0 where
  failed : TokenPos → Message → Stop
  undefined : Stop
  out_of_fuel : Stop

abbrev pub lexer_message : ErrStr → Message
lexer_message (text_of s) = str s ∷ []
lexer_message (unexpected c) = str "unexpected '" ∷ bytes (c ∷ []) ∷ str "'" ∷ []

-- `StringRef(Pos, Len)`.
abbrev pub take_bytes : ℕ → List ℕ → List ℕ
take_bytes zero bs = []
take_bytes (suc n) [] = []
take_bytes (suc n) (b ∷ bs) = b ∷ take_bytes n bs

abbrev pub drop_bytes : ℕ → List ℕ → List ℕ
drop_bytes zero bs = bs
drop_bytes (suc n) [] = []
drop_bytes (suc n) (b ∷ bs) = drop_bytes n bs

-- `Token::str`.
abbrev pub token_text : Input → Token → List ℕ
token_text inp t = take_bytes t.len (drop_bytes t.pos inp.buffer)

module _ (A : ApInt) (lib : Library A) where
  open A use {Num, of, of_decimal}

  -- `makeErrStr(ErrStr)`, without the name of the file.
  abbrev pub make_err_str : State Num → Message → Stop
  make_err_str s m = failed (get_token_pos s.lexer s.cur_tok) m

  abbrev pub is_tok : TokenKind → State Num → Bool
  is_tok k s = token_number s.cur_tok.kind == token_number k

  unfoldable pub consume_token : State Num → Checked Stop (State Num)
  consume_token s =
      let r = get_next_token s.lexer in
      let s1 = record s { lexer = r.lexer; cur_tok = r.token } in
      if is_tok error s1 then err (make_err_str s1 (lexer_message r.err_str)) else ok s1

  -- A test of the kind of the token, which must hold.
  abbrev pub expect : TokenKind → Stop → State Num → Checked Stop (Unit {0})
  expect k e s = reject (not (is_tok k s)) e

  abbrev pub has_text : Input → State Num → String → Bool
  has_text inp s t = same_text (token_text inp s.cur_tok) (codes t)

  abbrev pub token_val : Token → Num
  token_val t = elim t.val [ none ↦ of 1 0 | some v ↦ of_decimal v.0 v.1 ]

  -- `parseInst`, on the kind of the token.
  unfoldable pub parse_inst_of : Input → TokenKind → State Num → Checked Stop (ℕ × State Num)
  parse_inst_of inp val_name s = do
    reject (not (s.cur_tok.width == 0))
        (make_err_str s (str "inst reference may not have a width" ∷ []))
    i ← (elim (find_name s.context.insts s.cur_tok.name) [
      | none ↦ err (make_err_str s (str "%" ∷ bytes s.cur_tok.name ∷ str " is not an inst" ∷ []))
      | some i ↦ ok i
    ])
    s1 ← consume_token s
    ok (i, s1)
  parse_inst_of inp int s = do
    let r = get_const A lib (token_val s.cur_tok) s.ic
    s1 ← consume_token (record s { ic = r.1 })
    ok (r.0, s1)
  parse_inst_of inp untyped_int s = do
    let r = get_untyped_const A lib (token_val s.cur_tok) s.ic
    s1 ← consume_token (record s { ic = r.1 })
    ok (r.0, s1)
  parse_inst_of inp _ s =
      err (
        make_err_str s
          (str "unexpected token: '" ∷ bytes (token_text inp s.cur_tok) ∷ str "'" ∷ []))

  abbrev pub parse_inst : Input → State Num → Checked Stop (ℕ × State Num)
  parse_inst inp s = parse_inst_of inp s.cur_tok.kind s

  -- `parseInstMapping`: both pointers, and the state.
  unfoldable pub parse_inst_mapping : Input → State Num → Checked Stop ((ℕ × ℕ) × State Num)
  parse_inst_mapping inp s = do
    a ← parse_inst inp s
    b ← parse_inst inp a.1
    r ← map_err (make_err_str b.1) (type_check_ops_matching_widths A lib (a.0 ∷ b.0 ∷ []) b.1.ic)
    ok ((at A lib r.0 0, at A lib r.0 1), record b.1 { ic = r.1 })

  -- `nextReplacement`. Past the end of RCsIn its subscript has no defined behaviour.
  unfoldable pub next_replacement : Input → State Num → Checked Stop (State Num)
  next_replacement inp s = do
    names ← (elim inp.rcs_in [
      | none ↦ ok no_names
      | some rcs ↦ elim (get_elem? rcs (s.index + 1)) [ none ↦ err undefined | some c ↦ ok c ]
    ])
    ok (record s {
      pcs = [];
      bpcs = [];
      block_pc_idx_map = [];
      rcs_out = if inp.keeps then s.rcs_out ++ s.context ∷ [] else s.rcs_out;
      index = s.index + 1;
      context = names;
      lhs = none;
    })

  -- `Reps.push_back(...)` and `nextReplacement()`.
  abbrev pub push_rep : Input → InstMapping → State Num → Checked Stop (State Num)
  push_rep inp m s =
      next_replacement inp
        (record s { reps = s.reps ++ record { mapping = m; pcs = s.pcs; bpcs = s.bpcs } ∷ [] })
