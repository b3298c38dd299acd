-- ===== src/Lexer/Words/Numbers.antt =====
-- A decimal number in a source is read back.
use Prim.Native.Nat.{min}
use aer.Base.{
  ℕ, ◌+◌, ◌-◌, ◌*◌, ◌^◌, ◌<◌, ◌≡◌, inl, inr, refl, ap, ◌∙◌, true, false, not, ◌&&◌, ◌||◌, [], ◌∷◌,
  ◌++◌, arith, ◌==◌, length, ◌≤◌, drop-append,
}
use aer.Base.Bytes.{Bytes}
use aer.Base.Int.{pos}
use aer.Json.{decimal, print_int}
use aer.Json.Decode.{is_digit, digits_value}
use aer.Json.Digits.{AreDigits, Printed, skip_digits-append, decimal-Printed, length-decimal}
use aer.Lexer.{Lexer, byte_at, next}
use aer.Lexer.Symbols.{TokenType}
use aer.Lexer.Words.Progress.{count_to-append}
use aer.Lexer.Words.{
  Payload, Token, Lexed, is_word, is_end_bad, out_of_range, lex_decimal, lex_number,
}

digits_value-append :
    (s rest : Bytes) (v : ℕ)
    → AreDigits s
    → is_digit (byte_at rest) ≡ false
    → digits_value (s ++ rest) v ≡ digits_value s v
unfolding digits_value
digits_value-append [] [] v h stop = refl
digits_value-append [] (c ∷ rest) v h stop = rw (stop) refl
digits_value-append (c ∷ s) rest v h stop =
    rw (h.0) (digits_value-append s rest (v * 10 + (c - 48)) h.1 stop)

-- What may follow an integer: no letter, digit or underscore, and a dot only where it starts a range.
pub record Closed (rest : Bytes) : Type 0 where
  pub word : is_word (byte_at rest) ≡ false
  pub dot : (not (byte_at rest == 46) || byte_at (next rest) == 46) ≡ true

abbrev pub integer_token : Lexer → ℕ → Bytes → Lexed
integer_token l n rest = record {
  token = record { type = TokenType.token_integer; value = Payload.integer_value (pos n) };
  reports = [];
  lexer = record l { buffer = rest };
}

module _ (strtod : Bytes → ℕ × ℕ) (t : Token) (l : Lexer) (n : ℕ) (s rest : Bytes)
    (small : n < 2 ^ 63) (closed : Closed rest) (printed : Printed n s)
    (short : length s ≤ 20) where
  not_hex :
      let x = byte_at (next (s ++ rest)) in
      (byte_at (s ++ rest) == 48 && (x == 120 || x == 88)) ≡ false
  not_hex =
      let stop = closed.word in
      elim (printed.leading rest) [
        | inl zero_alone ↦ rw (zero_alone) (ground arith)
        | inr (no_zero, digit) ↦ rw (no_zero) refl
      ]

  number-Printed : l.buffer ≡ s ++ rest → lex_number strtod t l ≡ integer_token l n rest
  unfolding lex_number lex_decimal
  number-Printed at =
      let word = closed.word in
      let digit : is_digit (byte_at rest) ≡ false = ground arith in
      let bad : is_end_bad (byte_at rest) ≡ false = ground arith in
      let end = skip_digits-append s rest printed.digits digit in
      let value = digits_value-append s rest 0 printed.digits digit ∙ printed.value in
      let range : out_of_range n ≡ false = ground arith in
      let least : min n (2 ^ 63 - 1) ≡ n = omega arith in
      let count = count_to-append s rest (omega arith) in
      let dot = closed.dot in
      rw (at, not_hex, end, value, range, least, count, dot, bad)
        (ap (λ (b : Bytes). integer_token l n b) (drop-append s rest))

-- An integer below 2^63 that is printed with "%lld" is read back as this integer, with no error, and just its
-- digits are taken, where no letter, digit or underscore follows, and no dot but that of a range.
pub lex_number-print_int :
    (strtod : Bytes → ℕ × ℕ) (t : Token) (l : Lexer) (n : ℕ) (rest : Bytes)
    → n < 2 ^ 63
    → Closed rest
    → l.buffer ≡ print_int (pos n) ++ rest
    → lex_number strtod t l ≡ integer_token l n rest
unfolding print_int
lex_number-print_int strtod t l n rest small closed at =
    number-Printed strtod t l n (decimal 20 n) rest small closed
      (decimal-Printed 20 n (omega arith) (omega arith)) (length-decimal 20 n) at
