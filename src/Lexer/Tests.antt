-- ===== src/Lexer/Tests.antt =====
-- Lines of small sources, and instances of the theorems.
use aer.Base.{ℕ, ◌≤◌, ◌≡◌, refl, true, false, List, [], ◌∷◌, some, arith}
use aer.Base.Bytes.{Bytes}
use aer.Base.Int.{pos}
use aer.Lexer.Balance.{IsIndented, owed, Balanced, lex_indentation-end, lex_end-Balanced}
use aer.Lexer.Indentation.{IsStack}
use aer.Lexer.{
  Lexer, LineToken, Outcome, byte_at, skip_spaces, skip_comment, count_spaces, line_text,
  skip_blank, lex_indentation, start_line, compare_indent, lex_end,
}

abbrev line : Bytes → List ℕ → Lexer
line b stack = record {
  buffer = b;
  indent_stack = stack;
  pending_dedents = pos 0;
  at_line_start = true;
  bracket_depth = 0;
}

-- A comment line, and a line of four spaces and an `x`.
abbrev source : Bytes
source = 35 ∷ 10 ∷ 32 ∷ 32 ∷ 32 ∷ 32 ∷ 120 ∷ []

opens :
    lex_indentation (line source (0 ∷ []))
    ≡ some (
        Outcome.token LineToken.indent
          (record (line (120 ∷ []) (4 ∷ 0 ∷ [])) { at_line_start = false }))
unfolding lex_indentation start_line compare_indent skip_blank line_text skip_spaces skip_comment
    count_spaces
opens = refl

-- Two open levels, and a last line of eight spaces without a newline.
abbrev trailing : Lexer
trailing = line (32 ∷ 32 ∷ 32 ∷ 32 ∷ 32 ∷ 32 ∷ 32 ∷ 32 ∷ []) (8 ∷ 4 ∷ 0 ∷ [])

trailing-IsIndented : IsIndented trailing
unfolding IsStack
trailing-IsIndented = record { order = (omega arith, (omega arith, refl)); inside = omega arith }

trailing-owed : owed trailing ≡ 2
unfolding owed
trailing-owed = refl

trailing_line : skip_blank 9 trailing.buffer ≡ some trailing.buffer
unfolding skip_blank line_text skip_spaces skip_comment
trailing_line = refl

trailing_end : byte_at (skip_spaces trailing.buffer) ≡ 0
unfolding skip_spaces
trailing_end = refl

trailing_spaces : 8 ≤ count_spaces trailing.buffer 0
unfolding count_spaces
trailing_spaces = omega arith

lex_indentation-end_example :
    (m : Lexer) × (lex_indentation trailing ≡ some (Outcome.token LineToken.dedent m))
    × (owed m ≡ 0)
lex_indentation-end_example =
    lex_indentation-end trailing trailing.buffer trailing-IsIndented (omega arith) refl refl
      trailing_line trailing_end trailing_spaces

lex_end-Balanced_example : Balanced trailing (lex_end trailing)
lex_end-Balanced_example = lex_end-Balanced trailing trailing-IsIndented refl
