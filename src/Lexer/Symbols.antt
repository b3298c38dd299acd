-- ===== src/Lexer/Symbols.antt =====
-- source/compiler/lexer.c: the switch of `lex` over punctuation, operators and ends of lines.
pub mod Spelling
mod Tests
use aer.Base.{
  ℕ, zero, suc, ◌+◌, ◌-◌, Bool, true, false, List, [], ◌∷◌, Option, none, some, leb, ltb, ◌==◌,
  if◌then◌else◌, length, drop,
}
use aer.Base.Bytes.{Bytes}
use aer.Lexer.{Lexer, byte_at, next}

pub data TokenType : Type 0 where
  token_or token_pipe token_and token_bitwise_or token_bitwise_xor token_bitwise_and : TokenType
  token_equal token_not_equal token_less token_greater token_less_equal token_greater_equal :
      TokenType
  token_in token_left_shift token_right_shift token_add token_subtract token_multiply : TokenType
  token_divide token_modulo token_floor_divide token_as token_assign token_add_assign : TokenType
  token_subtract_assign token_multiply_assign token_divide_assign token_modulo_assign : TokenType
  token_floor_divide_assign token_left_shift_assign token_right_shift_assign : TokenType
  token_and_assign token_or_assign token_xor_assign token_not token_bitwise_not : TokenType
  token_open_parenthese token_close_parenthese token_open_bracket token_close_bracket : TokenType
  token_open_brace token_close_brace token_colon token_dot token_dot_dot token_identifier :
      TokenType
  token_integer token_real token_true token_false token_string token_if token_else : TokenType
  token_for token_struct token_function token_return token_break token_continue token_null :
      TokenType
  token_import token_defer token_comma token_indent token_dedent token_new_line : TokenType
  token_end_of_file token_error : TokenType

-- A token with the number of its bytes, as `emit` takes them.
abbrev pub Emit : Type 0
Emit = TokenType × ℕ

-- `if (b[1] == c) { emit(two, 2); return; }`, and what follows
abbrev pub second : Bytes → ℕ → TokenType → Emit → Emit
second b c two rest = if byte_at (next b) == c then (two, 2) else rest

-- `if (b[1] == c) { if (b[2] == '=') { emit(three, 3); return; } emit(two, 2); return; }`
abbrev pub third : Bytes → ℕ → TokenType → TokenType → Emit → Emit
third b c three two rest =
    if byte_at (next b) == c
    then (if byte_at (next (next b)) == 61 then (three, 3) else (two, 2))
    else rest

-- The cases of the switch; `none` is a byte that it does not name.
unfoldable pub lex_symbol : Bytes → Option Emit
lex_symbol b =
    let c = byte_at b in
    if c == 44
    then some (token_comma, 1)
    else if c == 10
    then some (token_new_line, 1)
    else if c == 40
    then some (token_open_parenthese, 1)
    else if c == 41
    then some (token_close_parenthese, 1)
    else if c == 91
    then some (token_open_bracket, 1)
    else if c == 93
    then some (token_close_bracket, 1)
    else if c == 123
    then some (token_open_brace, 1)
    else if c == 125
    then some (token_close_brace, 1)
    else if c == 58
    then some (token_colon, 1)
    else if c == 46
    then some (second b 46 token_dot_dot (token_dot, 1))
    else if c == 126
    then some (token_bitwise_not, 1)
    else if c == 42
    then some (second b 61 token_multiply_assign (token_multiply, 1))
    else if c == 47
    then some (
        third b 47 token_floor_divide_assign token_floor_divide
          (second b 61 token_divide_assign (token_divide, 1)))
    else if c == 37
    then some (second b 61 token_modulo_assign (token_modulo, 1))
    else if c == 43
    then some (second b 61 token_add_assign (token_add, 1))
    else if c == 45
    then some (second b 61 token_subtract_assign (token_subtract, 1))
    else if c == 33
    then some (second b 61 token_not_equal (token_not, 1))
    else if c == 61
    then some (second b 61 token_equal (token_assign, 1))
    else if c == 60
    then some (
        third b 60 token_left_shift_assign token_left_shift
          (second b 61 token_less_equal (token_less, 1)))
    else if c == 62
    then some (
        third b 62 token_right_shift_assign token_right_shift
          (second b 61 token_greater_equal (token_greater, 1)))
    else if c == 38
    then some (second b 38 token_and (second b 61 token_and_assign (token_bitwise_and, 1)))
    else if c == 124
    then some (
        second b 124 token_or
          (second b 62 token_pipe (second b 61 token_or_assign (token_bitwise_or, 1))))
    else if c == 94
    then some (second b 61 token_xor_assign (token_bitwise_xor, 1))
    else none

-- `bracket_depth++`, `if (bracket_depth > 0) bracket_depth--`
unfoldable pub bracket_after : TokenType → ℕ → ℕ
bracket_after token_open_parenthese depth = depth + 1
bracket_after token_open_bracket depth = depth + 1
bracket_after token_open_brace depth = depth + 1
bracket_after token_close_parenthese depth = depth - 1
bracket_after token_close_bracket depth = depth - 1
bracket_after token_close_brace depth = depth - 1
bracket_after _ depth = depth

unfoldable pub line_start_after : TokenType → Bool → Bool
line_start_after token_new_line _ = true
line_start_after _ start = start

abbrev pub emitted : Lexer → Option Emit → TokenType × Lexer
emitted l none = (token_error, record l { buffer = drop 1 l.buffer })
emitted l (some (t, n)) = (
  t,
  record l {
    buffer = drop n l.buffer;
    bracket_depth = bracket_after t l.bracket_depth;
    at_line_start = line_start_after t l.at_line_start;
  },
)

-- The switch at a byte that is not the end of the source, with the error for an unknown byte.
unfoldable pub lex_switch : Lexer → TokenType × Lexer
lex_switch l = emitted l (lex_symbol l.buffer)
