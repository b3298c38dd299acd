-- ===== src/Lexer/Words.antt =====
-- source/compiler/lexer.c: white space and comments, words, strings and numbers, and `lex` as a whole.
--
-- The text of an identifier or of a string is the list of its bytes; `aer_make_string` copies it.
-- A number is kept as it is before `aer_int` or `aer_real` boxes it. Errors go to `error_at` and `error`;
-- here they are listed beside the token.
pub mod Progress
pub mod Layout
pub mod Work
pub mod Ends
pub mod Strings
pub mod Keywords
pub mod Numbers
mod Tests
use Prim.Native.Nat.{min}
use aer.Base.{
  ℕ, zero, suc, ◌+◌, ◌-◌, ◌*◌, ◌%◌, ◌^◌, Bool, true, false, not, ◌&&◌, ◌||◌, List, [], ◌∷◌, ◌++◌,
  Option, none, some, leb, ltb, ◌==◌, if◌then◌else◌, length, take, drop,
}
use aer.Base.Bytes.{Bytes, codes, str_equal}
use aer.Base.Int.{ℤ, pos, negsuc}
use aer.Json.Decode.{is_digit, skip_digits, digits_value, hex_value, hex_digits}
use aer.Lexer.{
  Lexer, LineToken, Outcome, indent_reset, byte_at, next, skip_comment, lex_indentation, lex_end,
}
use aer.Lexer.Symbols.{TokenType, lex_symbol, lex_switch}

-- What a token carries.
pub data Payload : Type 0 where
  no_value : Payload
  string_value : Bytes → Payload
  boolean_value : Bool → Payload
  integer_value : ℤ → Payload
  real_value : ℕ → Payload

pub record Token : Type 0 where
  pub type : TokenType
  pub value : Payload

pub data Report : Type 0 where
  no_hex_digits integer_overflow after_integer no_fraction after_float : Report
  unterminated unterminated_lines unknown_character : Report
  tabs_in_indentation indentation_too_deep no_outer_indentation : Report

-- The global `token` and the lexer after a call, and the errors that the call reported.
pub record Lexed : Type 0 where
  pub token : Token
  pub reports : List Report
  pub lexer : Lexer

-- `while (*src) { if (*src != '\r') *dst++ = *src; src++; }`
unfoldable pub strip_cr : Bytes → Bytes
strip_cr [] = []
strip_cr (c ∷ src) =
    let rest = strip_cr src in if c == 0 then [] else if c == 13 then rest else c ∷ rest

abbrev pub shell : Lexer → Bytes → Lexer
shell l line = indent_reset (record l { buffer = strip_cr line })

abbrev pub emit : Token → Lexer → TokenType → ℕ → Lexed
emit t l type n = record {
  token = record t { type = type };
  reports = [];
  lexer = record l { buffer = drop n l.buffer };
}

-- `token.value = v; emit(type, n)`, after some errors
abbrev pub emit_value : Lexer → List Report → TokenType → Payload → ℕ → Lexed
emit_value l reports type v n = record {
  token = record { type = type; value = v };
  reports = reports;
  lexer = record l { buffer = drop n l.buffer };
}

-- An error after which the token stays as it was.
abbrev pub reported : Token → Lexer → Report → Lexed
reported t l r = record { token = t; reports = r ∷ []; lexer = l }

abbrev pub is_alpha : ℕ → Bool
is_alpha c = leb 65 c && leb c 90 || leb 97 c && leb c 122

abbrev pub is_word : ℕ → Bool
is_word c = is_alpha c || (is_digit c || c == 95)

-- `(unsigned int)(end - buf)`
abbrev pub count_to : Bytes → Bytes → ℕ
count_to buf end = (length buf - length end) % 2 ^ 32

-- `while (*current->buffer == ' ' || *current->buffer == '\t')`
unfoldable pub skip_whitespace : Bytes → Bytes
skip_whitespace [] = []
skip_whitespace (c ∷ p) = if c == 32 || c == 9 then skip_whitespace p else c ∷ p

-- Inside a bracket a newline is white space.
abbrev pub is_joined : ℕ → Bytes → Bool
is_joined depth p = byte_at p == 10 && ltb 0 depth

-- `none` when the fuel runs out.
unfoldable pub skip_whitespace_and_comments : ℕ → ℕ → Bytes → Option Bytes
skip_whitespace_and_comments zero depth b = none
skip_whitespace_and_comments (suc n) depth b =
    let p = skip_whitespace b in
    let rest =
      skip_whitespace_and_comments n depth (if is_joined depth p then next p else skip_comment p) in
    if is_joined depth p || byte_at p == 35 then rest else some p

-- The bytes behind the hexadecimal digits at the head.
unfoldable pub skip_hex : Bytes → Bytes
skip_hex [] = []
skip_hex (c ∷ p) = if ltb (hex_value c) 16 then skip_hex p else c ∷ p

abbrev pub is_end_bad : ℕ → Bool
is_end_bad c = is_alpha c || c == 95

abbrev pub report_if : Bool → Report → List Report
report_if b r = if b then r ∷ [] else []

-- `strtoll` saturates, and sets `errno` when it does.
abbrev pub out_of_range : ℕ → Bool
out_of_range v = ltb (2 ^ 63 - 1) v

abbrev pub saturated : ℕ → ℤ
saturated v = pos (min v (2 ^ 63 - 1))

-- `buf` starts with 0x or 0X.
unfoldable pub lex_hex : Token → Lexer → Lexed
unfolding skip_hex hex_digits
lex_hex t l =
    let buf = l.buffer in
    let digits = next (next buf) in
    let end = skip_hex digits in
    let v = hex_digits digits 0 in
    if not (ltb (hex_value (byte_at digits)) 16)
    then record (emit t l TokenType.token_error 2) { reports = Report.no_hex_digits ∷ [] }
    else emit_value l
        (report_if (out_of_range v) Report.integer_overflow
          ++ report_if (is_end_bad (byte_at end)) Report.after_integer)
        TokenType.token_integer (Payload.integer_value (saturated v)) (count_to buf end)

-- A number that is no integer, where `strtod` gave the bits `r.0` and read `r.1` bytes.
unfoldable pub lex_float : Lexer → List Report → ℕ → ℕ × ℕ → Lexed
lex_float l reports int_len r =
    emit_value l
      (reports
        ++ report_if (leb (r.1 % 2 ^ 32) ((int_len + 1) % 2 ^ 32)) Report.no_fraction
        ++ report_if (is_end_bad (byte_at (drop r.1 l.buffer))) Report.after_float)
      TokenType.token_real (Payload.real_value r.0) (r.1 % 2 ^ 32)

-- An integer that ends at `end`, unless a fraction follows.
unfoldable pub lex_decimal : (Bytes → ℕ × ℕ) → Lexer → Lexed
unfolding skip_digits digits_value
lex_decimal strtod l =
    let buf = l.buffer in
    let end = skip_digits buf in
    let v = digits_value buf 0 in
    let reports = report_if (out_of_range v) Report.integer_overflow in
    if not (byte_at end == 46) || byte_at (next end) == 46
    then emit_value l (reports ++ report_if (is_end_bad (byte_at end)) Report.after_integer)
        TokenType.token_integer (Payload.integer_value (saturated v)) (count_to buf end)
    else lex_float l reports (count_to buf end) (strtod buf)

unfoldable pub lex_number : (Bytes → ℕ × ℕ) → Token → Lexer → Lexed
lex_number strtod t l =
    let x = byte_at (next l.buffer) in
    if byte_at l.buffer == 48 && (x == 120 || x == 88) then lex_hex t l else lex_decimal strtod l

-- The table of `lex_keyword`.
abbrev pub keywords : List (Bytes × TokenType)
keywords =
    (codes "if", TokenType.token_if)
    ∷ (codes "else", TokenType.token_else)
    ∷ (codes "for", TokenType.token_for)
    ∷ (codes "in", TokenType.token_in)
    ∷ (codes "as", TokenType.token_as)
    ∷ (codes "struct", TokenType.token_struct)
    ∷ (codes "function", TokenType.token_function)
    ∷ (codes "return", TokenType.token_return)
    ∷ (codes "break", TokenType.token_break)
    ∷ (codes "continue", TokenType.token_continue)
    ∷ (codes "null", TokenType.token_null)
    ∷ (codes "import", TokenType.token_import)
    ∷ (codes "defer", TokenType.token_defer)
    ∷ []

-- `len == length && strncmp(b, word, length) == 0`
abbrev pub is_word_at : Bytes → ℕ → Bytes → Bool
is_word_at word n b = length word == n && str_equal (take n b) word

unfoldable pub find_keyword : List (Bytes × TokenType) → ℕ → Bytes → Option TokenType
find_keyword [] n b = none
find_keyword ((word, type) ∷ table) n b =
    let rest = find_keyword table n b in if is_word_at word n b then some type else rest

abbrev pub keyword_token : Token → Lexer → ℕ → Option TokenType → Option Lexed
keyword_token t l n none = none
keyword_token t l n (some type) = some (emit t l type n)

unfoldable pub lex_keyword : Token → Lexer → ℕ → Option Lexed
unfolding str_equal find_keyword
lex_keyword t l n =
    if is_word_at (codes "true") n l.buffer
    then some (emit_value l [] TokenType.token_true (Payload.boolean_value true) 4)
    else if is_word_at (codes "false") n l.buffer
    then some (emit_value l [] TokenType.token_false (Payload.boolean_value false) 5)
    else keyword_token t l n (find_keyword keywords n l.buffer)

-- The loop of `lex_identifier`.
unfoldable pub skip_word : Bytes → Bytes
skip_word [] = []
skip_word (c ∷ p) = if is_word c then skip_word p else c ∷ p

-- `if (!lex_keyword(length)) emit_string_token(TOKEN_IDENTIFIER, length)`
abbrev pub or_identifier : Lexer → ℕ → Option Lexed → Lexed
or_identifier l n none =
    emit_value l [] TokenType.token_identifier (Payload.string_value (take n l.buffer)) n
or_identifier l n (some x) = x

unfoldable pub lex_identifier : Token → Lexer → Lexed
unfolding skip_word lex_keyword
lex_identifier t l =
    let n = count_to l.buffer (skip_word l.buffer) in or_identifier l n (lex_keyword t l n)

-- The loop of `lex_string`, at a byte behind a backslash or not.
unfoldable pub string_end : Bool → Bytes → Bytes
string_end _ [] = []
string_end true (c ∷ p) = string_end false p
string_end false (c ∷ p) =
    let rest = string_end (c == 92 && not (byte_at p == 0)) p in
    if c == 34 || (c == 0 || c == 10) then c ∷ p else rest

-- The string from `start` to `end`, where the closing quotes take `quotes` bytes.
abbrev pub string_token : Token → Lexer → Bytes → Bytes → ℕ → Report → Lexed
string_token t l start end quotes r =
    if byte_at end == 34
    then emit_value (record l { buffer = end }) [] TokenType.token_string
        (Payload.string_value (take (count_to start end) start)) quotes
    else reported t (record l { buffer = end }) r

unfoldable pub lex_string : Token → Lexer → Lexed
unfolding string_end
lex_string t l =
    let start = next l.buffer in
    string_token t l start (string_end false start) 1 Report.unterminated

abbrev pub is_triple : Bytes → Bool
is_triple b = byte_at b == 34 && (byte_at (next b) == 34 && byte_at (next (next b)) == 34)

unfoldable pub lines_end : Bytes → Bytes
lines_end [] = []
lines_end (c ∷ p) = let rest = lines_end p in if c == 0 || is_triple (c ∷ p) then c ∷ p else rest

unfoldable pub lex_multiline_string : Token → Lexer → Lexed
unfolding lines_end
lex_multiline_string t l =
    let start = drop 3 l.buffer in
    string_token t l start (lines_end start) 3 Report.unterminated_lines

abbrev pub line_type : LineToken → TokenType
line_type LineToken.indent = TokenType.token_indent
line_type LineToken.dedent = TokenType.token_dedent
line_type LineToken.end_of_file = TokenType.token_end_of_file

abbrev pub at_indentation : Token → Outcome → Lexed
at_indentation t (Outcome.token lt m) = emit t m (line_type lt) 0
at_indentation t (Outcome.tabs m) = reported t m Report.tabs_in_indentation
at_indentation t (Outcome.too_deep m) = reported t m Report.indentation_too_deep
at_indentation t (Outcome.no_outer_level m) = reported t m Report.no_outer_indentation
at_indentation t (Outcome.text m) = record { token = t; reports = []; lexer = m }

abbrev pub unknown : Option (TokenType × ℕ) → List Report
unknown none = Report.unknown_character ∷ []
unknown (some _) = []

-- The switch, with the error for a byte that it does not name.
unfoldable pub lex_operator : Token → Lexer → Lexed
unfolding lex_symbol lex_switch
lex_operator t l =
    let (type, m) = lex_switch l in
    record { token = record t { type = type }; reports = unknown (lex_symbol l.buffer); lexer = m }

-- The token at the first byte of a text.
unfoldable pub lex_token : (Bytes → ℕ × ℕ) → Token → Lexer → Lexed
unfolding lex_number lex_identifier lex_string lex_multiline_string lex_operator
lex_token strtod t l =
    let c = byte_at l.buffer in
    if is_digit c
    then lex_number strtod t l
    else if is_alpha c || c == 95
    then lex_identifier t l
    else if is_triple l.buffer
    then lex_multiline_string t l
    else if c == 34
    then lex_string t l
    else if c == 0
    then at_indentation t (lex_end l)
    else lex_operator t l

abbrev pub lex_behind : (Bytes → ℕ × ℕ) → Token → Lexer → Option Bytes → Option Lexed
lex_behind strtod t l none = none
lex_behind strtod t l (some b) = some (lex_token strtod t (record l { buffer = b }))

abbrev pub lex_text : (Bytes → ℕ × ℕ) → Token → Option Outcome → Option Lexed
lex_text strtod t none = none
lex_text strtod t (some (Outcome.text l)) =
    lex_behind strtod t l
      (skip_whitespace_and_comments (suc (length l.buffer)) l.bracket_depth l.buffer)
lex_text strtod t (some o) = some (at_indentation t o)

-- `lex`, where `strtod` gives the bits of the double and the number of bytes that it reads.
unfoldable pub lex : (Bytes → ℕ × ℕ) → Token → Lexer → Option Lexed
unfolding lex_indentation skip_whitespace_and_comments lex_token
lex strtod t l = lex_text strtod t (lex_indentation l)
