-- ===== src/Lexer/Words/Layout.antt =====
-- Blank lines, white space and comments end, and take no more bytes than there are.
use aer.Base.{
  ℕ, zero, suc, ◌+◌, ◌%◌, ◌^◌, ◌≤◌, ◌<◌, ◌≡◌, refl, sym, inl, inr, false, ◌||◌, [], ◌∷◌, Option,
  some, arith, ◌==◌, ==_iff, Bool-cases, length,
}
use aer.Base.Bytes.{Bytes}
use aer.Lexer.{byte_at, next, line_text, skip_spaces, skip_comment, skip_blank, count_spaces}
use aer.Lexer.Indentation.{skip_comment-le, line_text-le}
use aer.Lexer.Words.{skip_whitespace, is_joined, skip_whitespace_and_comments}

next-le : (b : Bytes) → length (next b) ≤ length b
next-le [] = omega arith
next-le (c ∷ b) = omega arith

pub skip_blank-le : (n : ℕ) (b r : Bytes) → skip_blank n b ≡ some r → length r ≤ length b
unfolding skip_blank
skip_blank-le zero b r run = absurd cc
skip_blank-le (suc n) b r run = elim (Bool-cases (byte_at (line_text b) == 10)) [
  | inl blank ↦
      let rest = skip_blank-le n (next (line_text b)) r (rw (blank) at run) in
      let one = next-le (line_text b) in let two = line_text-le b in omega arith
  | inr text ↦
      let whole : ◌≡◌ {A = Option Bytes} (some b) (some r) = rw (text) at run in
      let same : b ≡ r = cc in rw (sym same) (omega arith)
]

-- The number of leading spaces that are counted is that of the bytes they take.
spaces-taken :
    (b : Bytes) (spaces : ℕ) → count_spaces b spaces + length (skip_spaces b) ≤ spaces + length b
unfolding count_spaces skip_spaces
spaces-taken [] spaces = omega arith
spaces-taken (c ∷ b) spaces =
    let rest = spaces-taken b ((spaces + 1) % 2 ^ 32) in
    elim (Bool-cases (c == 32)) [
      | inl space ↦ rw (space) (omega arith)
      | inr other ↦ rw (other) (omega arith)
    ]

pub leading : (b : Bytes) → count_spaces b 0 + length (skip_spaces b) ≤ length b
leading b = let taken = spaces-taken b 0 in omega arith

skip_whitespace-le : (b : Bytes) → length (skip_whitespace b) ≤ length b
unfolding skip_whitespace
skip_whitespace-le [] = omega arith
skip_whitespace-le (c ∷ b) =
    let rest = skip_whitespace-le b in
    elim (Bool-cases (c == 32 || c == 9)) [
      | inl white ↦ rw (white) (omega arith)
      | inr other ↦ rw (other) (omega arith)
    ]

skip_comment-lt : (b : Bytes) → byte_at b ≡ 35 → length (skip_comment b) < length b
unfolding skip_comment
skip_comment-lt [] h = absurd (omega arith)
skip_comment-lt (c ∷ b) h =
    let rest = skip_comment-le b in
    let more : (c == 10 || c == 0) ≡ false = ground arith in rw (more) (omega arith)

next-lt : (b : Bytes) → byte_at b ≡ 10 → length (next b) < length b
next-lt [] h = absurd (omega arith)
next-lt (c ∷ b) h = omega arith

-- With a round for each byte and one more, the white space and the comments end.
pub skip_layout-some :
    (n depth : ℕ) (b : Bytes)
    → length b < n
    → (r : Bytes) × (skip_whitespace_and_comments n depth b ≡ some r) × (length r ≤ length b)
unfolding skip_whitespace_and_comments
skip_layout-some zero depth b h = absurd (omega arith)
skip_layout-some (suc n) depth b h =
    let p : Bytes = skip_whitespace b in
    let le = skip_whitespace-le b in
    elim (Bool-cases (is_joined depth p)) [
      | inl joined ↦
          let less = next-lt p (ground arith) in
          let (r, run, short) = skip_layout-some n depth (next p) (omega arith) in
          (r, rw (joined) run, omega arith)
      | inr alone ↦ elim (Bool-cases (byte_at p == 35)) [
        | inl comment ↦
            let less = skip_comment-lt p ((==_iff _ _).0 comment) in
            let (r, run, short) = skip_layout-some n depth (skip_comment p) (omega arith) in
            (r, rw (alone, comment) run, omega arith)
        | inr text ↦ (p, rw (alone, text) refl, le)
      ]
    ]
