-- ===== src/Lexer/Symbols/Tests.antt =====
-- Operators in small sources, and instances of the theorems.
use aer.Base.{◌<◌, ◌≡◌, refl, true, [], ◌∷◌, some, arith, length}
use aer.Base.Bytes.{Bytes}
use aer.Base.Int.{pos}
use aer.Lexer.Symbols.Spelling.{Spelled, lex_symbol-Spelled, lex_switch-advances}
use aer.Lexer.Symbols.{TokenType, lex_symbol, lex_switch}
use aer.Lexer.{Lexer}

-- `<<=1`
abbrev shift_assign : Bytes
shift_assign = 60 ∷ 60 ∷ 61 ∷ 49 ∷ []

shift : lex_symbol shift_assign ≡ some (TokenType.token_left_shift_assign, 3)
unfolding lex_symbol
shift = refl

lex_symbol-Spelled_example : Spelled shift_assign (TokenType.token_left_shift_assign, 3)
lex_symbol-Spelled_example =
    lex_symbol-Spelled shift_assign (TokenType.token_left_shift_assign, 3) shift

-- `$`, which is no token
abbrev dollar : Lexer
dollar = record {
  buffer = 36 ∷ [];
  indent_stack = 0 ∷ [];
  pending_dedents = pos 0;
  at_line_start = true;
  bracket_depth = 0;
}

lex_switch-advances_example : length (lex_switch dollar).1.buffer < length dollar.buffer
lex_switch-advances_example = lex_switch-advances dollar (λ e. omega arith)
