-- ===== src/Lexer/Words/Keywords.antt =====
-- A word is a keyword or an identifier.
use aer.Base.{
  ℕ, ◌^◌, ◌<◌, ◌≡◌, ◌≢◌, ◌⊎◌, inl, inr, refl, sym, ap, ◌∙◌, true, false, List, [], ◌∷◌, ◌++◌,
  Option, none, some, arith, ◌==◌, ==_iff, length, drop, take-append, drop-append, Bool-cases,
  Option-cases, some-injective,
}
use mathlib.Core.Bool.{false≢true}
use aer.Base.Bytes.{Bytes, codes, str_equal_refl, eq_of_str_equal}
use aer.Lexer.{Lexer, byte_at}
use aer.Lexer.Symbols.{TokenType}
use aer.Lexer.Words.Progress.{count_to-append}
use aer.Lexer.Words.{
  Payload, Token, is_word, keywords, is_word_at, find_keyword, lex_keyword, skip_word,
  lex_identifier,
}

abbrev pub In : {A : Type 0} → A → List A → Type 0
In x [] = ⊥
In x (y ∷ ys) = (x ≡ y) ⊎ In x ys

abbrev pub AreWord : Bytes → Type 0
AreWord [] = Unit
AreWord (c ∷ s) = (is_word c ≡ true) × AreWord s

abbrev pub words : List (Bytes × TokenType) → List Bytes
words [] = []
words ((word, _) ∷ table) = word ∷ words table

-- The token for a word, where the token before it was `t`: a keyword keeps the value of that token.
pub data Read (t : Token) (s : Bytes) : Token → Type 0 where
  truth :
      s ≡ codes "true"
      → Read t s (record { type = TokenType.token_true; value = Payload.boolean_value true })
  falsehood :
      s ≡ codes "false"
      → Read t s (record { type = TokenType.token_false; value = Payload.boolean_value false })
  keyword : (k : TokenType) → In (s, k) keywords → Read t s (record t { type = k })
  identifier :
      ¬ In s (codes "true" ∷ codes "false" ∷ words keywords)
      → Read t s (record { type = TokenType.token_identifier; value = Payload.string_value s })

skip_word-append :
    (s rest : Bytes) → AreWord s → is_word (byte_at rest) ≡ false → skip_word (s ++ rest) ≡ rest
unfolding skip_word
skip_word-append [] [] h stop = refl
skip_word-append [] (c ∷ rest) h stop = rw (stop) refl
skip_word-append (c ∷ s) rest (first, h) stop = rw (first) (skip_word-append s rest h stop)

module _ (s rest : Bytes) where
  word-eq : (word : Bytes) → is_word_at word (length s) (s ++ rest) ≡ true → s ≡ word
  word-eq word h = let whole = rw (take-append s rest) at h in eq_of_str_equal s word (ground arith)

  word_self : is_word_at s (length s) (s ++ rest) ≡ true
  word_self =
      let same = str_equal_refl s in
      let size : (length s == length s) ≡ true = (==_iff _ _).1 refl in
      rw (take-append s rest, size, same) refl

  word-ne : (word : Bytes) → is_word_at word (length s) (s ++ rest) ≡ false → s ≢ word
  word-ne word h same =
      let wrong = rw (sym same) at h in let right = word_self in false≢true (sym wrong ∙ right)

  find_keyword-In :
      (table : List (Bytes × TokenType)) (k : TokenType)
      → find_keyword table (length s) (s ++ rest) ≡ some k
      → In (s, k) table
  unfolding find_keyword
  find_keyword-In [] k run = absurd cc
  find_keyword-In ((word, type) ∷ table) k run =
      elim (Bool-cases (is_word_at word (length s) (s ++ rest))) [
        | inl here ↦
            let type_of : type ≡ k = some-injective (rw (here) at run) in
            inl (
              ap (λ (w : Bytes). (w, k)) (word-eq word here)
              ∙ ap (λ (y : TokenType). (word, y)) (sym type_of))
        | inr other ↦ inr (find_keyword-In table k (rw (other) at run))
      ]

  find_keyword-none :
      (table : List (Bytes × TokenType))
      → find_keyword table (length s) (s ++ rest) ≡ none
      → ¬ In s (words table)
  unfolding find_keyword
  find_keyword-none [] run none_there = none_there
  find_keyword-none ((word, type) ∷ table) run (inl here) =
      elim (Bool-cases (is_word_at word (length s) (s ++ rest))) [
        | inl found ↦
            let e : ◌≡◌ {A = Option TokenType} (some type) none = rw (found) at run in absurd cc
        | inr other ↦ word-ne word other here
      ]
  find_keyword-none ((word, type) ∷ table) run (inr there) =
      elim (Bool-cases (is_word_at word (length s) (s ++ rest))) [
        | inl found ↦
            let e : ◌≡◌ {A = Option TokenType} (some type) none = rw (found) at run in absurd cc
        | inr other ↦ find_keyword-none table (rw (other) at run) there
      ]

  drop-word : (w : Bytes) → s ≡ w → drop (length w) (s ++ rest) ≡ rest
  drop-word w same = rw (sym same) (drop-append s rest)

  behind :
      (l : Lexer) (n : ℕ)
      → drop n (s ++ rest) ≡ rest
      → ◌≡◌ {A = Lexer} (record l { buffer = drop n (s ++ rest) }) (record l { buffer = rest })
  behind l n left = ap (λ (b : Bytes). record l { buffer = b }) left

  unreserved :
      is_word_at (codes "true") (length s) (s ++ rest) ≡ false
      → is_word_at (codes "false") (length s) (s ++ rest) ≡ false
      → find_keyword keywords (length s) (s ++ rest) ≡ none
      → ¬ In s (codes "true" ∷ codes "false" ∷ words keywords)
  unreserved no_true no_false other (inl e) = word-ne (codes "true") no_true e
  unreserved no_true no_false other (inr (inl e)) = word-ne (codes "false") no_false e
  unreserved no_true no_false other (inr (inr e)) = find_keyword-none keywords other e

  -- A run of letters, digits and underscores, shorter than 2^32 bytes, is read as one token: the keyword that it
  -- is, or an identifier with all its bytes where it is none of the table and not `true` or `false`. Just the
  -- word is taken, and no error is reported.
  pub lex_identifier-Read :
      (t : Token) (l : Lexer)
      → l.buffer ≡ s ++ rest
      → AreWord s
      → is_word (byte_at rest) ≡ false
      → length s < 2 ^ 32
      → Read t s (lex_identifier t l).token
        × ((lex_identifier t l).reports ≡ [])
        × ((lex_identifier t l).lexer ≡ record l { buffer = rest })
  unfolding lex_identifier lex_keyword
  lex_identifier-Read t l at word stop small =
      let end = skip_word-append s rest word stop in
      let count = count_to-append s rest small in
      let left = drop-append s rest in
      let whole = take-append s rest in
      elim (Bool-cases (is_word_at (codes "true") (length s) (s ++ rest))) [
        | inl here ↦
            let same = word-eq (codes "true") here in
            rw (at, end, count, here)
              (Read.truth same, refl, behind l 4 (drop-word (codes "true") same))
        | inr no_true ↦ elim (Bool-cases (is_word_at (codes "false") (length s) (s ++ rest))) [
          | inl here ↦
              let same = word-eq (codes "false") here in
              rw (at, end, count, no_true, here)
                (Read.falsehood same, refl, behind l 5 (drop-word (codes "false") same))
          | inr no_false ↦ elim (Option-cases (find_keyword keywords (length s) (s ++ rest))) [
            | inl other ↦
                rw (at, end, count, no_true, no_false, other, whole)
                  (
                    Read.identifier (unreserved no_true no_false other),
                    refl,
                    behind l (length s) left,
                  )
            | inr (k, found) ↦
                rw (at, end, count, no_true, no_false, found)
                  (
                    Read.keyword k (find_keyword-In keywords k found),
                    refl,
                    behind l (length s) left,
                  )
          ]
        ]
      ]
