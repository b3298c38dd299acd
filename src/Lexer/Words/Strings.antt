-- ===== src/Lexer/Words/Strings.antt =====
-- The body of a string, and the string token for it.
use aer.Base.{
  ℕ, ◌^◌, ◌<◌, ◌≡◌, ◌≢◌, refl, false, ◌||◌, [], ◌∷◌, ◌++◌, arith, ◌==◌, unequal, length,
  take-append,
}
use aer.Base.Bytes.{Bytes}
use aer.Lexer.{Lexer}
use aer.Lexer.Symbols.{TokenType}
use aer.Lexer.Words.Progress.{count_to-append}
use aer.Lexer.Words.{Payload, Token, count_to, string_end, lex_string}

-- What may stand between two quotes: a backslash takes the next byte with it, and a quote, a newline or the end
-- of the source stands only behind a backslash, the end not even there.
pub data IsBody : Bytes → Type 0 where
  done : IsBody []
  plain : (c : ℕ) (s : Bytes) → c ≢ 34 → c ≢ 0 → c ≢ 10 → c ≢ 92 → IsBody s → IsBody (c ∷ s)
  escape : (c : ℕ) (s : Bytes) → c ≢ 0 → IsBody s → IsBody (92 ∷ c ∷ s)

string_end-IsBody : (s rest : Bytes) → IsBody s → string_end false (s ++ 34 ∷ rest) ≡ 34 ∷ rest
unfolding string_end
string_end-IsBody _ rest IsBody.done = refl
string_end-IsBody _ rest (IsBody.plain c s no_quote no_end no_line no_slash h) =
    let go : (c == 34 || (c == 0 || c == 10)) ≡ false = ground arith in
    let slash : (c == 92) ≡ false = unequal _ _ no_slash in
    rw (go, slash) (string_end-IsBody s rest h)
string_end-IsBody _ rest (IsBody.escape c s no_end h) =
    let inside : (c == 0) ≡ false = unequal _ _ no_end in rw (inside) (string_end-IsBody s rest h)

-- A quote, a body and a quote are read as the body, all of its bytes as they stand, and the lexer is left behind the
-- second quote, where the string is shorter than 2^32 bytes.
pub lex_string-IsBody :
    (t : Token) (l : Lexer) (s rest : Bytes)
    → l.buffer ≡ 34 ∷ s ++ 34 ∷ rest
    → IsBody s
    → length s < 2 ^ 32
    → lex_string t l ≡ record {
      token = record { type = TokenType.token_string; value = Payload.string_value s };
      reports = [];
      lexer = record l { buffer = rest };
    }
unfolding lex_string
lex_string-IsBody t l s rest at body small =
    let end = string_end-IsBody s rest body in
    let count : count_to (s ++ 34 ∷ rest) (34 ∷ rest) ≡ length s =
      count_to-append s (34 ∷ rest) small in
    rw (at, end, count, take-append s (34 ∷ rest)) refl
