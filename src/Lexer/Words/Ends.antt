-- ===== src/Lexer/Words/Ends.antt =====
-- Calls of `lex` come to the end of the source.
use aer.Base.{
  ℕ, zero, suc, ◌-◌, ◌^◌, ◌≤◌, ◌<◌, ◌≡◌, ◌≢◌, ◌⊎◌, refl, ap, inl, inr, true, false, ◌||◌, Option,
  none, some, arith, ltb, ◌==◌, ==_iff, Bool-cases, length,
}
use aer.Base.Bytes.{Bytes}
use aer.Json.Decode.{is_digit}
use aer.Lexer.{Lexer, Outcome, byte_at, lex_end}
use aer.Lexer.Symbols.{TokenType}
use aer.Lexer.Words.Progress.{filled, lex_token-Advanced}
use aer.Lexer.Words.{Token, Lexed, is_alpha, lex_token, at_indentation, lex_behind, lex_text, lex}
use aer.Lexer.Words.Layout.{skip_layout-some}
use aer.Lexer.Words.Work.{work, bottom-one, Left, due_parts, Started, lex_indentation-Started}

-- The last of `n + 1` calls of `lex`.
unfoldable pub lex_times : (Bytes → ℕ × ℕ) → ℕ → Token → Lexer → Option Lexed
lex_times strtod zero t l = lex strtod t l
lex_times strtod (suc n) t l = elim (lex strtod t l) [
  | none ↦ none
  | some x ↦ lex_times strtod n x.token x.lexer
]

lex_times-suc :
    (strtod : Bytes → ℕ × ℕ) (n : ℕ) (t : Token) (l : Lexer) (x : Lexed) (r : Option Lexed)
    → lex strtod t l ≡ some x
    → lex_times strtod n x.token x.lexer ≡ r
    → lex_times strtod (suc n) t l ≡ r
unfolding lex_times
lex_times-suc strtod n t l x r run runs = rw (run, lex_times) runs

-- The token is the end of the source, or the call leaves less work.
pub record Forward (l : Lexer) (x : Lexed) : Type 0 where
  pub shorter : length x.lexer.buffer ≤ length l.buffer
  pub done : (work x.lexer < work l) ⊎ (x.token.type ≡ TokenType.token_end_of_file)

lex_end-Forward :
    (t : Token) (l m : Lexer)
    → Left (work l) (length l.buffer) m
    → Forward l (at_indentation t (lex_end m))
unfolding lex_end work
lex_end-Forward t l m left =
    let less = left.less in
    let short = left.short in
    let one = bottom-one m.indent_stack in
    let parts = due_parts (length m.indent_stack - 1) in
    elim (Bool-cases (ltb 1 (length m.indent_stack))) [
      | inl open_levels ↦
          let two : 1 < length m.indent_stack = ground arith in
          rw (open_levels) (record { shorter = omega arith; done = inl (omega arith) })
      | inr closed ↦ rw (closed) (record { shorter = omega arith; done = inr refl })
    ]

lex_token-end :
    (strtod : Bytes → ℕ × ℕ) (t : Token) (m : Lexer)
    → byte_at m.buffer ≡ 0
    → lex_token strtod t m ≡ at_indentation t (lex_end m)
unfolding lex_token
lex_token-end strtod t m end =
    let digit : is_digit (byte_at m.buffer) ≡ false = ground arith in
    let letter : (is_alpha (byte_at m.buffer) || byte_at m.buffer == 95) ≡ false = ground arith in
    let quote : (byte_at m.buffer == 34) ≡ false = ground arith in
    let zero_byte : (byte_at m.buffer == 0) ≡ true = ground arith in
    rw (digit, letter, quote, zero_byte) refl

work-less :
    (l m : Lexer) (w : ℕ)
    → length m.buffer < length l.buffer
    → m.indent_stack ≡ l.indent_stack
    → m.pending_dedents ≡ l.pending_dedents
    → work l ≤ w
    → work m < w
unfolding work
work-less l m w shorter stack pending le = elim (Bool-cases m.at_line_start) [
  | inl start ↦ rw (stack, pending, start) (omega arith)
  | inr inside ↦ rw (stack, pending, inside) (omega arith)
]

Left-shorter :
    (l m : Lexer) (b : Bytes)
    → Left (work l) (length l.buffer) m
    → length b ≤ length m.buffer
    → Left (work l) (length l.buffer) (record m { buffer = b })
unfolding work
Left-shorter l m b left le =
    let less = left.less in
    let short = left.short in record { less = omega arith; short = omega arith }

module _ (strtod : Bytes → ℕ × ℕ)
    (reads : (b : Bytes)
      → is_digit (byte_at b) ≡ true
      → (0 < (strtod b).1) × ((strtod b).1 ≤ length b)) where
  lex_token-Forward :
      (t : Token) (l m : Lexer)
      → length l.buffer < 2 ^ 32
      → Left (work l) (length l.buffer) m
      → Forward l (lex_token strtod t m)
  unfolding work
  lex_token-Forward t l m small left =
      let less = left.less in
      let short = left.short in
      elim (Bool-cases (byte_at m.buffer == 0)) [
        | inl end ↦ rw (lex_token-end strtod t m ((==_iff _ _).0 end)) (lex_end-Forward t l m left)
        | inr more ↦
            let here : byte_at m.buffer ≢ 0 = λ e. ground arith in
            let a = lex_token-Advanced m (filled m.buffer here) (omega arith) strtod reads t here in
            let shorter = a.shorter in
            record {
              shorter = omega arith;
              done = inl (
                  work-less m (lex_token strtod t m).lexer (work l) shorter a.stack a.pending less);
            }
      ]

  lex_behind-Forward :
      (t : Token) (l m : Lexer)
      → length l.buffer < 2 ^ 32
      → Left (work l) (length l.buffer) m
      → (x : Lexed) × (lex_text strtod t (some (Outcome.text m)) ≡ some x) × Forward l x
  lex_behind-Forward t l m small left =
      let (b, run, le) =
        skip_layout-some (suc (length m.buffer)) m.bracket_depth m.buffer (omega arith) in
      let n : Lexer = record m { buffer = b } in
      (
        lex_token strtod t n,
        ap (lex_behind strtod t m) run,
        lex_token-Forward t l n small (Left-shorter l m b left le),
      )

  outcome-Forward :
      (t : Token) (l : Lexer) (o : Outcome)
      → length l.buffer < 2 ^ 32
      → Started l o
      → (x : Lexed) × (lex_text strtod t (some o) ≡ some x) × Forward l x
  unfolding Started
  outcome-Forward t l (Outcome.token lt m) small (less, short) =
      (_, refl, record { shorter = short; done = inl less })
  outcome-Forward t l (Outcome.tabs m) small (less, short) =
      (_, refl, record { shorter = short; done = inl less })
  outcome-Forward t l (Outcome.too_deep m) small (less, short) =
      (_, refl, record { shorter = short; done = inl less })
  outcome-Forward t l (Outcome.no_outer_level m) small (less, short) =
      (_, refl, record { shorter = short; done = inl less })
  outcome-Forward t l (Outcome.text m) small left = lex_behind-Forward t l m small left

  -- A call of `lex` returns: it leaves less work, or gives the token of the end of the source.
  lex-Forward :
      (t : Token) (l : Lexer)
      → length l.buffer < 2 ^ 32
      → (x : Lexed) × (lex strtod t l ≡ some x) × Forward l x
  unfolding lex
  lex-Forward t l small =
      let (o, run, started) = lex_indentation-Started l in
      let (x, made, forward) = outcome-Forward t l o small started in (x, rw (run) made, forward)

  -- On a source of fewer than 2^32 bytes calls of `lex`, from any token and any state of the lexer, come to the
  -- token of the end of the source: two calls for each byte, one for each open level and each queued
  -- DEDENT and two more are enough, whatever errors are reported on the way. `strtod` has to
  -- read a byte or more of a text that starts with a digit, and no more than there are.
  pub lex-reaches_end :
      (w : ℕ) (t : Token) (l : Lexer)
      → length l.buffer < 2 ^ 32
      → work l ≤ w
      → (n : ℕ) × (n ≤ w)
        × (x : Lexed) × (lex_times strtod n t l ≡ some x)
        × (x.token.type ≡ TokenType.token_end_of_file)
  unfolding lex_times
  lex-reaches_end zero t l small le =
      let (x, run, forward) = lex-Forward t l small in
      elim forward.done [
        | inr end ↦ (0, omega arith, x, run, end)
        | inl less ↦ absurd (omega arith)
      ]
  lex-reaches_end (suc w) t l small le =
      let (x, run, forward) = lex-Forward t l small in
      let shorter = forward.shorter in
      elim forward.done [
        | inr end ↦ (0, omega arith, x, run, end)
        | inl less ↦
            let (n, few, y, runs, end) =
              lex-reaches_end w x.token x.lexer (omega arith) (omega arith) in
            (suc n, omega arith, y, lex_times-suc strtod n t l x (some y) run runs, end)
      ]
