-- ===== src/Lexer/Indentation.antt =====
-- The loop over blank lines ends, and the stack of indentations stays in order.
use aer.Base.{
  ℕ, zero, suc, ◌+◌, ◌≤◌, ◌<◌, ◌≡◌, refl, ap, inl, inr, true, false, ◌||◌, List, [], ◌∷◌, some,
  arith, ltb, ◌==◌, ==_iff, Bool-cases, length,
}
use aer.Base.Bytes.{Bytes}
use aer.Lexer.{
  byte_at, next, skip_spaces, skip_comment, line_text, skip_blank, pop_levels, top_of, bottom,
}

pub skip_spaces-le : (b : Bytes) → length (skip_spaces b) ≤ length b
unfolding skip_spaces
skip_spaces-le [] = omega arith
skip_spaces-le (c ∷ p) = let rest = skip_spaces-le p in ground arith

pub skip_comment-le : (b : Bytes) → length (skip_comment b) ≤ length b
unfolding skip_comment
skip_comment-le [] = omega arith
skip_comment-le (c ∷ p) =
    let rest = skip_comment-le p in
    elim (Bool-cases (c == 10 || c == 0)) [
      | inl stop ↦ rw (stop) (omega arith)
      | inr more ↦ rw (more) (omega arith)
    ]

pub line_text-le : (b : Bytes) → length (line_text b) ≤ length b
unfolding line_text
line_text-le b =
    let one = skip_spaces-le b in
    let two = skip_comment-le (skip_spaces b) in
    elim (Bool-cases (byte_at (skip_spaces b) == 35)) [
      | inl comment ↦ rw (comment) (omega arith)
      | inr plain ↦ rw (plain) (omega arith)
    ]

next-lt : (b : Bytes) → byte_at b ≡ 10 → length (next b) < length b
next-lt [] h = absurd (omega arith)
next-lt (c ∷ p) h = omega arith

-- With a round for each byte and one more the loop over blank lines ends.
pub skip_blank-some : (n : ℕ) (b : Bytes) → length b < n → (r : Bytes) × (skip_blank n b ≡ some r)
unfolding skip_blank
skip_blank-some zero b h = elim h [ ]
skip_blank-some (suc n) b h = elim (Bool-cases (byte_at (line_text b) == 10)) [
  | inl blank ↦
      let shorter = next-lt (line_text b) ((==_iff _ _).0 blank) in
      let le = line_text-le b in
      let (r, run) = skip_blank-some n (next (line_text b)) (omega arith) in (r, rw (blank) run)
  | inr text ↦ (b, rw (text) refl)
]

-- The top first, each level is indented more than the one below, down to 0.
unfoldable pub IsStack : List ℕ → Type 0
IsStack [] = ⊥
IsStack (level ∷ []) = level ≡ 0
IsStack (level ∷ below ∷ stack) = (below < level) × IsStack (below ∷ stack)

pub record Popped (stack : List ℕ) (spaces pops : ℕ) (r : List ℕ × ℕ) : Type 0 where
  pub order : IsStack r.0
  pub count : length r.0 + r.1 ≡ length stack + pops
  pub low : top_of r.0 ≤ spaces
  pub more : pops ≤ r.1

pub pop_levels-Popped :
    (stack : List ℕ) (spaces pops : ℕ)
    → IsStack stack
    → Popped stack spaces pops (pop_levels stack spaces pops)
unfolding pop_levels IsStack
pop_levels-Popped [] spaces pops h = absurd h
pop_levels-Popped (level ∷ []) spaces pops h = record {
  order = h;
  count = refl;
  low = omega arith;
  more = omega arith;
}
pop_levels-Popped (level ∷ below ∷ stack) spaces pops h = elim (Bool-cases (ltb spaces level)) [
  | inl deep ↦
      let p = pop_levels-Popped (below ∷ stack) spaces (pops + 1) h.1 in
      rw (deep) (record {
        order = p.order;
        count = omega (arith, p.count);
        low = p.low;
        more = omega (arith, p.more);
      })
  | inr stay ↦
      rw (stay) (record { order = h; count = refl; low = ground arith; more = omega arith })
]

-- A line indented less than the top closes a level.
pub pop_levels-some :
    (stack : List ℕ) (spaces : ℕ)
    → IsStack stack
    → spaces < top_of stack
    → 0 < (pop_levels stack spaces 0).1
unfolding pop_levels IsStack
pop_levels-some [] spaces h less = absurd h
pop_levels-some (level ∷ []) spaces h less = absurd (omega arith)
pop_levels-some (level ∷ below ∷ stack) spaces h less =
    let deep : ltb spaces level ≡ true = ground arith in
    let p = pop_levels-Popped (below ∷ stack) spaces 1 h.1 in rw (deep) p.more

pub pop_levels-none :
    (stack : List ℕ) (spaces : ℕ) → top_of stack ≤ spaces → pop_levels stack spaces 0 ≡ (stack, 0)
unfolding pop_levels
pop_levels-none [] spaces h = refl
pop_levels-none (level ∷ []) spaces h = refl
pop_levels-none (level ∷ below ∷ stack) spaces h =
    let stay : ltb spaces level ≡ false = ground arith in rw (stay) refl

pub bottom_lem : (stack : List ℕ) → IsStack stack → bottom stack ≡ 0 ∷ []
unfolding bottom IsStack
bottom_lem [] h = absurd h
bottom_lem (level ∷ []) h = ap (λ (x : ℕ). x ∷ []) h
bottom_lem (level ∷ below ∷ stack) h = bottom_lem (below ∷ stack) h.1
