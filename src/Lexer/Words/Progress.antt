-- ===== src/Lexer/Words/Progress.antt =====
-- Every token of the text takes a byte or more.
use aer.Base.{
  ℕ, ◌%◌, ◌^◌, ◌≤◌, ◌<◌, ◌≡◌, ◌≢◌, refl, inl, inr, Bool, true, false, not, ◌&&◌, ◌||◌, List, [],
  ◌∷◌, ◌++◌, arith, ltb, ◌==◌, unequal, Bool-cases, Option-cases, length, drop, length-drop,
  length-append,
}
use aer.Base.Bytes.{Bytes, codes}
use aer.Json.Decode.{is_digit, skip_digits, hex_value}
use aer.Lexer.{Lexer, byte_at, next}
use aer.Lexer.Symbols.{TokenType, lex_switch, lex_symbol}
use aer.Lexer.Symbols.Spelling.{lex_switch-advances}
use aer.Lexer.Words.{
  Payload, Token, Report, Lexed, emit, emit_value, is_alpha, is_word, count_to, skip_hex, lex_hex,
  lex_float, lex_decimal, lex_number, lex_keyword, or_identifier, skip_word, lex_identifier,
  string_end, string_token, lex_string, is_triple, lines_end, lex_multiline_string, lex_operator,
  lex_token, find_keyword, keywords, is_word_at,
}

-- The call took bytes and left the indentation as it was.
pub record Advanced (l : Lexer) (x : Lexed) : Type 0 where
  pub shorter : length x.lexer.buffer < length l.buffer
  pub stack : x.lexer.indent_stack ≡ l.indent_stack
  pub pending : x.lexer.pending_dedents ≡ l.pending_dedents

pub filled : (b : Bytes) → byte_at b ≢ 0 → 0 < length b
filled [] here = absurd (here refl)
filled (c ∷ b) here = omega arith

next-shorter : (b : Bytes) → 0 < length b → length (next b) < length b
next-shorter [] h = absurd (omega arith)
next-shorter (c ∷ b) h = omega arith

next-le : (b : Bytes) → length (next b) ≤ length b
next-le [] = omega arith
next-le (c ∷ b) = omega arith

skip_digits-le : (b : Bytes) → length (skip_digits b) ≤ length b
unfolding skip_digits
skip_digits-le [] = omega arith
skip_digits-le (c ∷ b) =
    let rest = skip_digits-le b in
    elim (Bool-cases (is_digit c)) [
      | inl digit ↦ rw (digit) (omega arith)
      | inr other ↦ rw (other) (omega arith)
    ]

skip_digits-lt : (b : Bytes) → is_digit (byte_at b) ≡ true → length (skip_digits b) < length b
unfolding skip_digits
skip_digits-lt [] h = absurd (ground arith)
skip_digits-lt (c ∷ b) h = let rest = skip_digits-le b in rw (h) (omega arith)

skip_word-le : (b : Bytes) → length (skip_word b) ≤ length b
unfolding skip_word
skip_word-le [] = omega arith
skip_word-le (c ∷ b) =
    let rest = skip_word-le b in
    elim (Bool-cases (is_word c)) [
      | inl word ↦ rw (word) (omega arith)
      | inr other ↦ rw (other) (omega arith)
    ]

skip_word-lt : (b : Bytes) → is_word (byte_at b) ≡ true → length (skip_word b) < length b
unfolding skip_word
skip_word-lt [] h = absurd (ground arith)
skip_word-lt (c ∷ b) h = let rest = skip_word-le b in rw (h) (omega arith)

skip_hex-le : (b : Bytes) → length (skip_hex b) ≤ length b
unfolding skip_hex
skip_hex-le [] = omega arith
skip_hex-le (c ∷ b) =
    let rest = skip_hex-le b in
    elim (Bool-cases (ltb (hex_value c) 16)) [
      | inl digit ↦ rw (digit) (omega arith)
      | inr other ↦ rw (other) (omega arith)
    ]

string_end-le : (e : Bool) (b : Bytes) → length (string_end e b) ≤ length b
unfolding string_end
string_end-le e [] = elim e [ true ↦ omega arith | false ↦ omega arith ]
string_end-le true (c ∷ b) = let rest = string_end-le false b in omega arith
string_end-le false (c ∷ b) =
    let rest = string_end-le (c == 92 && not (byte_at b == 0)) b in
    elim (Bool-cases (c == 34 || (c == 0 || c == 10))) [
      | inl stop ↦ rw (stop) (omega arith)
      | inr more ↦ rw (more) (omega arith)
    ]

lines_end-le : (b : Bytes) → length (lines_end b) ≤ length b
unfolding lines_end
lines_end-le [] = omega arith
lines_end-le (c ∷ b) =
    let rest = lines_end-le b in
    elim (Bool-cases (c == 0 || is_triple (c ∷ b))) [
      | inl stop ↦ rw (stop) (omega arith)
      | inr more ↦ rw (more) (omega arith)
    ]

-- Fewer than 2^32 bytes are counted exactly.
count_to-some : (b e : Bytes) → length b < 2 ^ 32 → length e < length b → 0 < count_to b e
count_to-some b e small less = omega arith

pub count_to-append : (s rest : Bytes) → length s < 2 ^ 32 → count_to (s ++ rest) rest ≡ length s
count_to-append s rest small = let size = length-append s rest in omega arith

module _ (l : Lexer) (some_bytes : 0 < length l.buffer) where
  emit_value-Advanced :
      (reports : List Report) (type : TokenType) (v : Payload) (n : ℕ)
      → 0 < n
      → Advanced l (emit_value l reports type v n)
  emit_value-Advanced reports type v n taken =
      let left = length-drop n l.buffer in
      record { shorter = omega arith; stack = refl; pending = refl }

  emit-Advanced : (t : Token) (type : TokenType) (n : ℕ) → 0 < n → Advanced l (emit t l type n)
  emit-Advanced t type n taken =
      let left = length-drop n l.buffer in
      record { shorter = omega arith; stack = refl; pending = refl }

  string_token-Advanced :
      (t : Token) (start end : Bytes) (quotes : ℕ) (r : Report)
      → length start < length l.buffer
      → length end ≤ length start
      → Advanced l (string_token t l start end quotes r)
  string_token-Advanced t start end quotes r less le =
      let left = length-drop quotes end in
      elim (Bool-cases (byte_at end == 34)) [
        | inl closed ↦ rw (closed) (record { shorter = omega arith; stack = refl; pending = refl })
        | inr cut ↦ rw (cut) (record { shorter = omega arith; stack = refl; pending = refl })
      ]

  lex_operator-Advanced : (t : Token) → byte_at l.buffer ≢ 0 → Advanced l (lex_operator t l)
  unfolding lex_operator lex_switch
  lex_operator-Advanced t here =
      let less = lex_switch-advances l here in
      elim (Option-cases (lex_symbol l.buffer)) [
        | inl unnamed ↦ record {
          shorter = less;
          stack = rw (unnamed) refl;
          pending = rw (unnamed) refl;
        }
        | inr (e, found) ↦ record {
          shorter = less;
          stack = rw (found) refl;
          pending = rw (found) refl;
        }
      ]

  lex_string-Advanced : (t : Token) → Advanced l (lex_string t l)
  unfolding lex_string
  lex_string-Advanced t =
      string_token-Advanced t (next l.buffer) (string_end false (next l.buffer)) 1
        Report.unterminated (next-shorter l.buffer some_bytes) (string_end-le false (next l.buffer))

  lex_multiline_string-Advanced : (t : Token) → Advanced l (lex_multiline_string t l)
  unfolding lex_multiline_string
  lex_multiline_string-Advanced t =
      let left = length-drop 3 l.buffer in
      string_token-Advanced t (drop 3 l.buffer) (lines_end (drop 3 l.buffer)) 3
        Report.unterminated_lines (omega arith) (lines_end-le (drop 3 l.buffer))

  lex_keyword-Advanced :
      (t : Token) (n : ℕ) → 0 < n → Advanced l (or_identifier l n (lex_keyword t l n))
  unfolding lex_keyword
  lex_keyword-Advanced t n taken = elim (Bool-cases (is_word_at (codes "true") n l.buffer)) [
    | inl true_word ↦ rw (true_word) (emit_value-Advanced _ _ _ 4 (omega arith))
    | inr no_true ↦ elim (Bool-cases (is_word_at (codes "false") n l.buffer)) [
      | inl false_word ↦ rw (no_true, false_word) (emit_value-Advanced _ _ _ 5 (omega arith))
      | inr no_false ↦ elim (Option-cases (find_keyword keywords n l.buffer)) [
        | inl other ↦ rw (no_true, no_false, other) (emit_value-Advanced _ _ _ n taken)
        | inr (type, found) ↦ rw (no_true, no_false, found) (emit-Advanced t type n taken)
      ]
    ]
  ]

  module _ (small : length l.buffer < 2 ^ 32) where
    lex_identifier-Advanced :
        (t : Token) → is_word (byte_at l.buffer) ≡ true → Advanced l (lex_identifier t l)
    unfolding lex_identifier
    lex_identifier-Advanced t word =
        lex_keyword-Advanced t (count_to l.buffer (skip_word l.buffer))
          (count_to-some l.buffer (skip_word l.buffer) small (skip_word-lt l.buffer word))

    lex_hex-Advanced : (t : Token) → byte_at l.buffer ≢ 0 → Advanced l (lex_hex t l)
    unfolding lex_hex
    lex_hex-Advanced t here =
        let digits = next (next l.buffer) in
        let one = next-shorter l.buffer some_bytes in
        let two = next-le (next l.buffer) in
        let le = skip_hex-le digits in
        elim (Bool-cases (ltb (hex_value (byte_at digits)) 16)) [
          | inl digit ↦ rw (digit) (
              emit_value-Advanced _ _ _ (count_to l.buffer (skip_hex digits))
                (count_to-some l.buffer (skip_hex digits) small (omega arith)))
          | inr other ↦
              let e = emit-Advanced t TokenType.token_error 2 (omega arith) in
              rw (other) (record { shorter = e.shorter; stack = refl; pending = refl })
        ]

    module _ (strtod : Bytes → ℕ × ℕ)
        (reads : (b : Bytes)
          → is_digit (byte_at b) ≡ true
          → (0 < (strtod b).1) × ((strtod b).1 ≤ length b)) where
      lex_decimal-Advanced : is_digit (byte_at l.buffer) ≡ true → Advanced l (lex_decimal strtod l)
      unfolding lex_decimal lex_float
      lex_decimal-Advanced digit =
          let (some_read, inside) = reads l.buffer digit in
          let less = skip_digits-lt l.buffer digit in
          elim (Bool-cases (
            not (byte_at (skip_digits l.buffer) == 46)
            || byte_at (next (skip_digits l.buffer)) == 46)) [
              | inl whole ↦ rw (whole) (
                  emit_value-Advanced _ _ _ (count_to l.buffer (skip_digits l.buffer))
                    (count_to-some l.buffer (skip_digits l.buffer) small less))
              | inr real ↦
                  rw (real) (emit_value-Advanced _ _ _ ((strtod l.buffer).1 % 2 ^ 32) (omega arith))
            ]

      lex_number-Advanced :
          (t : Token) → is_digit (byte_at l.buffer) ≡ true → Advanced l (lex_number strtod t l)
      unfolding lex_number
      lex_number-Advanced t digit =
          let x = byte_at (next l.buffer) in
          elim (Bool-cases (byte_at l.buffer == 48 && (x == 120 || x == 88))) [
            | inl hex ↦ rw (hex) (lex_hex-Advanced t (λ e. ground arith))
            | inr decimal ↦ rw (decimal) (lex_decimal-Advanced digit)
          ]

      -- Before the end of the source the token that is read takes a byte or more.
      pub lex_token-Advanced :
          (t : Token) → byte_at l.buffer ≢ 0 → Advanced l (lex_token strtod t l)
      unfolding lex_token
      lex_token-Advanced t here =
          let c = byte_at l.buffer in
          let inside : (c == 0) ≡ false = unequal _ _ here in
          elim (Bool-cases (is_digit c)) [
            | inl digit ↦ rw (digit) (lex_number-Advanced t digit)
            | inr no_digit ↦ elim (Bool-cases (is_alpha c || c == 95)) [
              | inl letter ↦
                  rw (no_digit, letter) (lex_identifier-Advanced t (rw (no_digit) letter))
              | inr no_letter ↦ elim (Bool-cases (is_triple l.buffer)) [
                | inl triple ↦ rw (no_digit, no_letter, triple) (lex_multiline_string-Advanced t)
                | inr no_triple ↦ elim (Bool-cases (c == 34)) [
                  | inl quote ↦ rw (no_digit, no_letter, no_triple, quote) (lex_string-Advanced t)
                  | inr no_quote ↦
                      rw (no_digit, no_letter, no_triple, no_quote, inside)
                        (lex_operator-Advanced t here)
                ]
              ]
            ]
          ]
