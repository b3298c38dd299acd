-- ===== src/Error/Message.antt =====
-- The message of an error at the current token.
use aer.Base.{
  ℕ, zero, suc, ◌+◌, ◌-◌, ◌%◌, ◌^◌, ◌<◌, ◌≡◌, ◌⊎◌, refl, ap, sym, Bool, ◌∙◌, true, false, [], ◌∷◌,
  ◌++◌, arith, ltb, lt→ltb, Option, some, length, take, drop, replicate, length-append, drop-append,
  take-append,
}
use mathlib.Core.List.{append_assoc}
use aer.Base.Bytes.{Bytes, byte_at, codes, c_string}
use aer.Error.{
  Errors, formatted, append_fmt, emit_error, with_precision, pad, error_at, aer_had_error,
}
use aer.Error.Clip.{append_fmt-clip, pad-clip}
use aer.Json.{decimal}
use aer.Json.Digits.{AreDigits, decimal-Printed, length-decimal}
use aer.Error.Lines.{
  InLine, NoNul, lines_above, count_above, scan_lines-cursor, line_end-InLine, c_string-NoNul,
  c_string-take, take-take,
}

NoNul-append : (a b : Bytes) → NoNul a → NoNul b → NoNul (a ++ b)
NoNul-append [] b h k = k
NoNul-append (c ∷ a) b (no_end, h) k = (no_end, NoNul-append a b h k)

NoNul-replicate : (n : ℕ) → NoNul (replicate n 32)
NoNul-replicate zero = tt
NoNul-replicate (suc n) = (λ e. omega arith, NoNul-replicate n)

InLine-NoNul : (s : Bytes) → InLine s → NoNul s
InLine-NoNul [] h = tt
InLine-NoNul (c ∷ s) (no_line, no_end, h) = (no_end, InLine-NoNul s h)

AreDigits-NoNul : (s : Bytes) → AreDigits s → NoNul s
AreDigits-NoNul [] h = tt
AreDigits-NoNul (c ∷ s) (digit, h) = (λ e. ground arith, AreDigits-NoNul s h)

drop-two : (a b c : Bytes) → drop (length a + length b) (a ++ (b ++ c)) ≡ c
drop-two a b c =
    let count = length-append a b in
    let at : length a + length b ≡ length (a ++ b) = omega arith in
    rw (at, ← append_assoc a b c) (drop-append (a ++ b) c)

take-none : (n : ℕ) → ◌≡◌ {A = Bytes} (take n []) []
take-none zero = refl
take-none (suc n) = refl

abbrev no_nul : Bytes → Bool
no_nul [] = true
no_nul (zero ∷ s) = false
no_nul (suc c ∷ s) = no_nul s

NoNul-text : (s : Bytes) → no_nul s ≡ true → NoNul s
NoNul-text [] h = tt
NoNul-text (zero ∷ s) h = absurd cc
NoNul-text (suc c ∷ s) h = (λ e. omega arith, NoNul-text s h)

-- The pieces of a message, each written behind the head of the ones before it.
pieces :
    (n col : ℕ) (x y msg z : Bytes)
    → append_fmt
        (suc n)
        (append_fmt
          (suc n)
          (append_fmt (suc n) (pad (suc n) (append_fmt (suc n) [] (some x)) col) (some y))
          (some msg))
        (some z)
      ≡ take n ((((x ++ replicate col 32) ++ y) ++ msg) ++ z)
pieces n col x y msg z =
    let none_yet = take-none n in
    let start : append_fmt (suc n) [] (some x) ≡ take n x =
      ap (λ (b : Bytes). append_fmt (suc n) b (some x)) (sym none_yet) ∙ append_fmt-clip n [] x in
    rw
      (
        start,
        pad-clip n col x,
        append_fmt-clip n (x ++ replicate col 32) y,
        append_fmt-clip n ((x ++ replicate col 32) ++ y) msg,
      )
      (append_fmt-clip n (((x ++ replicate col 32) ++ y) ++ msg) z)

abbrev pub caret : Bytes
caret = 94 ∷ 10 ∷ codes "Error: "

-- The number of a line and its text, and the indentation of the line below it.
abbrev pub quoted_line : ℕ → Bytes → Bytes
quoted_line n text = decimal 10 n ++ (codes " | " ++ (text ++ (10 ∷ codes "    ")))

-- The line of the cursor with its number; below it four spaces, one for each byte before the cursor and a caret,
-- and then the message.
abbrev pub message : ℕ → Bytes → Bytes → Bytes → Bytes
message n left right msg =
    (((quoted_line n (left ++ right) ++ replicate (length left) 32) ++ caret) ++ msg) ++ (10 ∷ [])

quoted_line-NoNul : (n : ℕ) (text : Bytes) → n < 2 ^ 32 → NoNul text → NoNul (quoted_line n text)
quoted_line-NoNul n text small h =
    let printed = decimal-Printed 10 n (omega arith) (omega arith) in
    let bar = NoNul-text (codes " | ") refl in
    let indented = NoNul-text (10 ∷ codes "    ") refl in
    NoNul-append (decimal 10 n) (codes " | " ++ (text ++ (10 ∷ codes "    ")))
      (AreDigits-NoNul (decimal 10 n) printed.digits)
      (NoNul-append (codes " | ") (text ++ (10 ∷ codes "    ")) bar
        (NoNul-append text (10 ∷ codes "    ") h indented))

message-NoNul :
    (n : ℕ) (left right msg : Bytes)
    → n < 2 ^ 32
    → InLine left
    → InLine right
    → NoNul msg
    → NoNul (message n left right msg)
message-NoNul n left right msg small h k m =
    let text = NoNul-append left right (InLine-NoNul left h) (InLine-NoNul right k) in
    let first = quoted_line-NoNul n (left ++ right) small text in
    let q = quoted_line n (left ++ right) in
    let sp = replicate (length left) 32 in
    let padded = NoNul-append q sp first (NoNul-replicate (length left)) in
    let head = NoNul-append (q ++ sp) caret padded (NoNul-text caret refl) in
    NoNul-append (((q ++ sp) ++ caret) ++ msg) (10 ∷ [])
      (NoNul-append ((q ++ sp) ++ caret) msg head m) (NoNul-text (10 ∷ []) refl)

module _ (e : Errors) (above : Option Bytes) (left right tail msg : Bytes) (before : InLine left)
    (behind : InLine right) (stop : (byte_at tail ≡ 10) ⊎ (byte_at tail ≡ 0))
    (short : length left + length right + 18 < 2 ^ 31) (few : count_above above + 1 < 2 ^ 32)
    (no_nul_in : NoNul msg) where
  abbrev source : Bytes
  source = lines_above above ++ (left ++ (right ++ tail))

  abbrev cursor_at : ℕ
  cursor_at = length (lines_above above) + length left

  line_text : with_precision (length left + length right) (left ++ (right ++ tail)) ≡ left ++ right
  line_text =
      let fits : ltb (length left + length right) (2 ^ 31) ≡ true = ground arith in
      let size = length-append left right in
      let count : length left + length right ≡ length (left ++ right) = omega arith in
      rw
        (
          fits,
          c_string-NoNul left (right ++ tail) (InLine-NoNul left before),
          c_string-NoNul right tail (InLine-NoNul right behind),
          ← append_assoc left right (c_string tail),
          count,
        )
        (take-append (left ++ right) (c_string tail))

  -- The first piece is no longer than an `int` counts.
  quoted_line_fits :
      formatted (quoted_line (1 + count_above above) (left ++ right))
      ≡ some (quoted_line (1 + count_above above) (left ++ right))
  quoted_line_fits =
      let n = 1 + count_above above in
      let digits = length-decimal 10 n in
      let text = length-append left right in
      let behind_text = length-append (left ++ right) (10 ∷ codes "    ") in
      let behind_bar = length-append (codes " | ") ((left ++ right) ++ (10 ∷ codes "    ")) in
      let whole =
        length-append (decimal 10 n) (codes " | " ++ ((left ++ right) ++ (10 ∷ codes "    "))) in
      let fits : ltb (length (quoted_line n (left ++ right))) (2 ^ 31) ≡ true =
        lt→ltb _ _ (omega arith) in
      rw (fits) refl

  error_at-message :
      (error_at e source cursor_at (some msg)).last_error_msg
      ≡ take 2047 (message (1 + count_above above) left right msg)
  unfolding error_at emit_error
  error_at-message =
      let cursor = drop-two (lines_above above) left (right ++ tail) in
      let scan = scan_lines-cursor above left (right ++ tail) before few in
      let end = line_end-InLine right tail behind stop in
      let one = length-append left (right ++ tail) in
      let two = length-append right tail in
      let line_len : (length (left ++ (right ++ tail)) - length tail) % 2 ^ 32
          ≡ length left + length right =
        omega arith in
      let col : (length (left ++ (right ++ tail)) - length (right ++ tail)) % 2 ^ 32 ≡ length left =
        omega arith in
      let whole = message (1 + count_above above) left right msg in
      let written =
        pieces 2047 (length left) (quoted_line (1 + count_above above) (left ++ right)) caret msg
          (10 ∷ []) in
      let plain =
        message-NoNul (1 + count_above above) left right msg (omega arith) before behind
          no_nul_in in
      rw
        (
          cursor,
          scan,
          end,
          line_len,
          col,
          line_text,
          quoted_line_fits,
          written,
          c_string-take 2047 whole plain,
        )
        (take-take 2047 whole)

  -- An error at the cursor makes a message of the number and the text of the cursor's line, then a line of four
  -- spaces, one space for each byte of the line before the cursor and a caret, and then the text of the
  -- error. Its first 2047 bytes are the last error and go to the callback that is set, or else to
  -- `stderr`, and an error is recorded. The line has fewer than 2^31 - 18 bytes, the source fewer than
  -- 2^32 lines, and no NUL stands in the line or the text.
  pub error_at-Message :
      ((error_at e source cursor_at (some msg)).last_error_msg
        ≡ take 2047 (message (1 + count_above above) left right msg))
      × ((error_at e source cursor_at (some msg)).sent
          ≡ e.sent
            ++ ((e.error_callback, take 2047 (message (1 + count_above above) left right msg))
                ∷ []))
      × (aer_had_error (error_at e source cursor_at (some msg)) ≡ true)
  unfolding error_at emit_error
  error_at-Message =
      let last = error_at-message in
      (last, ap (λ (m : Bytes). e.sent ++ ((e.error_callback, m) ∷ [])) last, refl)
