-- ===== src/Error/Lines.antt =====
-- The line of a cursor in a source, and C strings without a NUL.
use aer.Base.{
  ℕ, zero, suc, ◌+◌, ◌%◌, ◌^◌, ◌<◌, ◌≡◌, ◌≢◌, ◌⊎◌, refl, ap, ◌∙◌, inl, inr, true, false, ◌||◌, [],
  ◌∷◌, ◌++◌, arith, ◌==◌, Option, none, some, length, take, length-append, if◌then◌else◌, unequal,
  Bool-cases,
}
use mathlib.Core.List.{append_assoc}
use aer.Base.Bytes.{Bytes, byte_at, c_string}
use aer.Error.{scan_lines, line_end}

-- No byte ends a line or the source.
abbrev pub InLine : Bytes → Type 0
InLine [] = Unit
InLine (c ∷ s) = (c ≢ 10) × (c ≢ 0) × InLine s

abbrev pub NoNul : Bytes → Type 0
NoNul [] = Unit
NoNul (c ∷ s) = (c ≢ 0) × NoNul s

abbrev pub newlines : Bytes → ℕ
newlines [] = 0
newlines (c ∷ s) = if c == 10 then suc (newlines s) else newlines s

scan_lines-InLine :
    (s p start : Bytes) (line : ℕ)
    → InLine s
    → scan_lines (length s) (s ++ p) line start ≡ (line, start)
unfolding scan_lines
scan_lines-InLine [] p start line h = refl
scan_lines-InLine (c ∷ s) p start line (no_line, no_end, h) =
    let other : (c == 10) ≡ false = unequal _ _ no_line in
    rw (other) (scan_lines-InLine s p start line h)

scan_lines-newline :
    (n c : ℕ) (p start : Bytes) (line : ℕ)
    → (c == 10) ≡ true
    → line + 1 < 2 ^ 32
    → scan_lines (suc n) (c ∷ p) line start ≡ scan_lines n p (line + 1) p
unfolding scan_lines
scan_lines-newline n c p start line ends small =
    let counted : (line + 1) % 2 ^ 32 ≡ line + 1 = omega arith in rw (ends, counted) refl

scan_lines-other :
    (n c : ℕ) (p start : Bytes) (line : ℕ)
    → (c == 10) ≡ false
    → scan_lines (suc n) (c ∷ p) line start ≡ scan_lines n p line start
unfolding scan_lines
scan_lines-other n c p start line other = rw (other) refl

scan_lines-above :
    (a p start : Bytes) (k line : ℕ)
    → line + newlines a + 1 < 2 ^ 32
    → scan_lines (length a + suc k) (a ++ (10 ∷ p)) line start
      ≡ scan_lines k p (line + newlines a + 1) p
scan_lines-above [] p start k line small =
    let rounds : 0 + suc k ≡ suc k = omega arith in
    let total : line + 1 ≡ line + 0 + 1 = omega arith in
    ap (λ (n : ℕ). scan_lines n (10 ∷ p) line start) rounds
    ∙ scan_lines-newline k 10 p start line refl (omega arith)
    ∙ ap (λ (n : ℕ). scan_lines k p n p) total
scan_lines-above (c ∷ a) p start k line small =
    let q = a ++ (10 ∷ p) in
    let rounds : suc (length a) + suc k ≡ suc (length a + suc k) = omega arith in
    let first = ap (λ (n : ℕ). scan_lines n (c ∷ q) line start) rounds in
    elim (Bool-cases (c == 10)) [
      | inl line_ends ↦
          let count : newlines (c ∷ a) ≡ suc (newlines a) = rw (line_ends) refl in
          let total : line + 1 + newlines a + 1 ≡ line + newlines (c ∷ a) + 1 = omega arith in
          first
          ∙ scan_lines-newline (length a + suc k) c q start line line_ends (omega arith)
          ∙ scan_lines-above a p q k (line + 1) (omega arith)
          ∙ ap (λ (n : ℕ). scan_lines k p n p) total
      | inr other ↦
          let count : newlines (c ∷ a) ≡ newlines a = rw (other) refl in
          let total : line + newlines a + 1 ≡ line + newlines (c ∷ a) + 1 = omega arith in
          first
          ∙ scan_lines-other (length a + suc k) c q start line other
          ∙ scan_lines-above a p start k line (omega arith)
          ∙ ap (λ (n : ℕ). scan_lines k p n p) total
    ]

pub line_end-InLine :
    (s tail : Bytes)
    → InLine s
    → (byte_at tail ≡ 10) ⊎ (byte_at tail ≡ 0)
    → line_end (s ++ tail) ≡ tail
unfolding line_end
line_end-InLine [] [] h stop = refl
line_end-InLine [] (c ∷ tail) h stop =
    let ends : (c == 10 || c == 0) ≡ true = ground arith in rw (ends) refl
line_end-InLine (c ∷ s) tail (no_line, no_end, h) stop =
    let more : (c == 10 || c == 0) ≡ false = ground arith in
    rw (more) (line_end-InLine s tail h stop)

pub c_string-NoNul : (s p : Bytes) → NoNul s → c_string (s ++ p) ≡ s ++ c_string p
c_string-NoNul [] p h = refl
c_string-NoNul (zero ∷ s) p (no_end, h) = absurd (no_end refl)
c_string-NoNul (suc c ∷ s) p (no_end, h) = ap (λ (x : Bytes). suc c ∷ x) (c_string-NoNul s p h)

pub c_string-take : (n : ℕ) (s : Bytes) → NoNul s → c_string (take n s) ≡ take n s
c_string-take zero s h = refl
c_string-take (suc n) [] h = refl
c_string-take (suc n) (zero ∷ s) (no_end, h) = absurd (no_end refl)
c_string-take (suc n) (suc c ∷ s) (no_end, h) = ap (λ (x : Bytes). suc c ∷ x) (c_string-take n s h)

pub take-take : (n : ℕ) (s : Bytes) → take n (take n s) ≡ take n s
take-take zero s = refl
take-take (suc n) [] = refl
take-take (suc n) (c ∷ s) = ap (λ (x : Bytes). c ∷ x) (take-take n s)

-- The text above the line of the cursor: none, or one that ends with a newline.
abbrev pub lines_above : Option Bytes → Bytes
lines_above none = []
lines_above (some a) = a ++ (10 ∷ [])

abbrev pub count_above : Option Bytes → ℕ
count_above none = 0
count_above (some a) = suc (newlines a)

pub scan_lines-cursor :
    (above : Option Bytes) (left p : Bytes)
    → InLine left
    → count_above above + 1 < 2 ^ 32
    → scan_lines
        (length (lines_above above) + length left)
        (lines_above above ++ (left ++ p))
        1
        (lines_above above ++ (left ++ p))
      ≡ (1 + count_above above, left ++ p)
scan_lines-cursor none left p h small =
    let rounds : 0 + length left ≡ length left = omega arith in
    rw (rounds) (scan_lines-InLine left p (left ++ p) 1 h)
scan_lines-cursor (some a) left p h small =
    let rounds : length (a ++ (10 ∷ [])) + length left ≡ length a + suc (length left) =
      omega (arith, length-append a (10 ∷ [])) in
    let total : 1 + newlines a + 1 ≡ 1 + suc (newlines a) = omega arith in
    rw (rounds, append_assoc a (10 ∷ []) (left ++ p), ← total)
      (scan_lines-above a (left ++ p) (a ++ (10 ∷ (left ++ p))) (length left) 1 (omega arith)
        ∙ scan_lines-InLine left p (left ++ p) (1 + newlines a + 1) h)
