-- ===== src/Lexer/Words/Tests.antt =====
-- Tokens of small sources, and instances of the theorems.
use aer.Base.{ℕ, ◌≤◌, ◌<◌, ◌≡◌, refl, true, false, [], ◌∷◌, ◌++◌, some, arith, length}
use aer.Base.Bytes.{Bytes, codes}
use aer.Base.Int.{pos}
use aer.Json.{print_int}
use aer.Json.Decode.{is_digit}
use aer.Lexer.{Lexer, byte_at}
use aer.Lexer.Symbols.{TokenType}
use aer.Lexer.Words.Work.{work}
use aer.Lexer.Words.Ends.{lex_times, lex-reaches_end}
use aer.Lexer.Words.Keywords.{Read, lex_identifier-Read}
use aer.Lexer.Words.Numbers.{integer_token, lex_number-print_int}
use aer.Lexer.Words.Strings.{IsBody, lex_string-IsBody}
use aer.Lexer.Words.{
  Payload, Token, Lexed, lex_hex, skip_whitespace, lex_identifier, lex_string, lex_number, lex,
  strip_cr,
}

abbrev at_text : Bytes → Lexer
at_text b = record {
  buffer = b;
  indent_stack = 0 ∷ [];
  pending_dedents = pos 0;
  at_line_start = false;
  bracket_depth = 0;
}

abbrev before : Token
before = record { type = TokenType.token_new_line; value = Payload.no_value }

-- A reader of doubles that takes one byte.
abbrev one_byte : Bytes → ℕ × ℕ
one_byte b = (0, 1)

one_byte-reads :
    (b : Bytes) → is_digit (byte_at b) ≡ true → (0 < (one_byte b).1) × ((one_byte b).1 ≤ length b)
one_byte-reads [] digit = absurd (ground arith)
one_byte-reads (c ∷ b) digit = (omega arith, omega arith)

abbrev assignment : Lexer
assignment = at_text (codes "in1 = 7")

assignment-work : work assignment ≤ 15
unfolding work
assignment-work = omega arith

lex-reaches_end_example :
    (n : ℕ) × (n ≤ 15)
    × (x : Lexed) × (lex_times one_byte n before assignment ≡ some x)
    × (x.token.type ≡ TokenType.token_end_of_file)
lex-reaches_end_example =
    lex-reaches_end one_byte one_byte-reads 15 before assignment (omega arith) assignment-work

-- `if` is a keyword, and `in1` is none.
lex_identifier-Read_example :
    Read before (codes "in1") (lex_identifier before assignment).token
    × ((lex_identifier before assignment).reports ≡ [])
    × ((lex_identifier before assignment).lexer ≡ record assignment { buffer = codes " = 7" })
lex_identifier-Read_example =
    lex_identifier-Read (codes "in1") (codes " = 7") before assignment refl
      (refl, (refl, (refl, tt))) refl (omega arith)

-- The string a\", of three bytes between its quotes.
abbrev quoted : Bytes
quoted = 97 ∷ 92 ∷ 34 ∷ []

quoted-IsBody : IsBody quoted
quoted-IsBody =
    IsBody.plain 97 _ (λ e. omega arith) (λ e. omega arith) (λ e. omega arith) (λ e. omega arith)
      (IsBody.escape 34 [] (λ e. omega arith) IsBody.done)

lex_string-IsBody_example :
    lex_string before (at_text (34 ∷ 97 ∷ 92 ∷ 34 ∷ 34 ∷ 59 ∷ [])) ≡ record {
      token = record { type = TokenType.token_string; value = Payload.string_value quoted };
      reports = [];
      lexer = at_text (59 ∷ []);
    }
lex_string-IsBody_example =
    lex_string-IsBody before (at_text (34 ∷ 97 ∷ 92 ∷ 34 ∷ 34 ∷ 59 ∷ [])) quoted (59 ∷ []) refl
      quoted-IsBody (omega arith)

seven : print_int (pos 7) ≡ 55 ∷ []
unfolding print_int
seven = refl

lex_number-print_int_example :
    lex_number one_byte before (at_text (print_int (pos 7) ++ codes "..9"))
    ≡ integer_token (at_text (print_int (pos 7) ++ codes "..9")) 7 (codes "..9")
lex_number-print_int_example =
    lex_number-print_int one_byte before (at_text (print_int (pos 7) ++ codes "..9")) 7
      (codes "..9") (omega arith) (record { word = refl; dot = refl }) refl

hex :
    lex one_byte before (at_text (codes "  0xFf;"))
    ≡ some (record {
      token = record { type = TokenType.token_integer; value = Payload.integer_value (pos 255) };
      reports = [];
      lexer = at_text (codes ";");
    })
unfolding lex skip_whitespace lex_hex
hex = refl

no_newlines : strip_cr (97 ∷ 13 ∷ 10 ∷ []) ≡ 97 ∷ 10 ∷ []
unfolding strip_cr
no_newlines = refl
