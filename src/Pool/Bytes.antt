-- ===== src/Pool/Bytes.antt =====
-- The bits of a state byte.
use aer.Base.{
  ◌||◌, ℕ, ◌+◌, ◌*◌, ◌/◌, ◌%◌, ◌≡◌, refl, ap, ◌∙◌, inl, inr, Bool, true, false, not, ◌&&◌, arith,
  ◌==◌, Bool-cases, bit_and, bit_or,
}
use aer.Base.Bits.{bit_and-ones, bit_and-shift, bit_or_step, bit_or-zero}
use aer.Pool.{has, marked, old, free, remembered, unmarked}
use aer.Pool.SweepCell.{swept, dies}

mark_bit : (s : ℕ) → bit_and s marked ≡ s % 2
mark_bit s = bit_and-ones 1 s

old_bit : (s : ℕ) → bit_and s old ≡ s / 2 % 2 * 2
old_bit s = bit_and-shift 1 s 1 ∙ ap (λ (x : ℕ). x * 2) (bit_and-ones 1 (s / 2))

free_bit : (s : ℕ) → bit_and s free ≡ s / 4 % 2 * 4
free_bit s = bit_and-shift 2 s 1 ∙ ap (λ (x : ℕ). x * 4) (bit_and-ones 1 (s / 4))

remembered_bit : (s : ℕ) → bit_and s remembered ≡ s / 8 % 2 * 8
remembered_bit s = bit_and-shift 3 s 1 ∙ ap (λ (x : ℕ). x * 8) (bit_and-ones 1 (s / 8))

unmarked_value : (s : ℕ) → unmarked s ≡ s / 2 % 128 * 2
unmarked_value s = bit_and-shift 1 s 127 ∙ ap (λ (x : ℕ). x * 2) (bit_and-ones 7 (s / 2))

or-marked : (s : ℕ) → bit_or s marked ≡ s / 2 * 2 + 1
or-marked s = omega (arith, bit_or_step s 1, bit_or-zero (s / 2))

or-old : (s : ℕ) → bit_or s old ≡ s / 4 * 4 + 2 + s % 2
or-old s = omega (arith, bit_or_step s 2, or-marked (s / 2))

-- Clearing the mark leaves the other bits.
pub unmarked_lem :
    (s : ℕ)
    → (has (unmarked s) marked ≡ false)
      × (has (unmarked s) old ≡ has s old)
      × (has (unmarked s) free ≡ has s free)
      × (has (unmarked s) remembered ≡ has s remembered)
unfolding has
unmarked_lem s =
    let u = unmarked_value s in
    (
      (let b : bit_and (unmarked s) marked ≡ 0 = mark_bit (unmarked s) ∙ omega arith in
          rw (b) refl),
      ap (λ (x : ℕ). not (x == 0)) (old_bit (unmarked s) ∙ (omega (arith, old_bit s))),
      ap (λ (x : ℕ). not (x == 0)) (free_bit (unmarked s) ∙ (omega (arith, free_bit s))),
      ap (λ (x : ℕ). not (x == 0))
          (remembered_bit (unmarked s) ∙ (omega (arith, remembered_bit s))),
    )

-- A mark sets its bit and leaves the others.
pub marked_lem :
    (s : ℕ)
    → (has (bit_or s marked) marked ≡ true)
      × (has (bit_or s marked) old ≡ has s old)
      × (has (bit_or s marked) free ≡ has s free)
      × (has (bit_or s marked) remembered ≡ has s remembered)
unfolding has
marked_lem s =
    let u = or-marked s in
    let t : ℕ = bit_or s marked in
    (
      (let b : bit_and (bit_or s marked) marked ≡ 1 = mark_bit (bit_or s marked) ∙ omega arith in
          rw (b) refl),
      ap (λ (x : ℕ). not (x == 0)) (old_bit t ∙ (omega (arith, old_bit s))),
      ap (λ (x : ℕ). not (x == 0)) (free_bit t ∙ (omega (arith, free_bit s))),
      ap (λ (x : ℕ). not (x == 0)) (remembered_bit t ∙ (omega (arith, remembered_bit s))),
    )

-- Promotion sets its bit and leaves the others.
pub old_lem :
    (s : ℕ)
    → (has (bit_or s old) old ≡ true)
      × (has (bit_or s old) marked ≡ has s marked)
      × (has (bit_or s old) free ≡ has s free)
      × (has (bit_or s old) remembered ≡ has s remembered)
unfolding has
old_lem s =
    let u = or-old s in
    let t : ℕ = bit_or s old in
    (
      (let b : bit_and (bit_or s old) old ≡ 2 = old_bit (bit_or s old) ∙ omega arith in
          rw (b) refl),
      ap (λ (x : ℕ). not (x == 0)) (mark_bit t ∙ (omega (arith, mark_bit s))),
      ap (λ (x : ℕ). not (x == 0)) (free_bit t ∙ (omega (arith, free_bit s))),
      ap (λ (x : ℕ). not (x == 0)) (remembered_bit t ∙ (omega (arith, remembered_bit s))),
    )

and-right : (a b : Bool) → (a && b) ≡ true → b ≡ true
and-right true b h = h
and-right false b h = cc

-- A cell that survives a sweep is old afterwards, and remembered if it was.
pub swept-survives :
    (young_only : Bool) (s : ℕ)
    → has s free ≡ false
    → dies young_only s ≡ false
    → (has (swept young_only s) free ≡ false)
      × (has (swept young_only s) old ≡ true)
      × (has (swept young_only s) remembered ≡ has s remembered)
unfolding swept dies
swept-survives y s live lives =
    let (u1, u2, u3, u4) = unmarked_lem s in
    let (o1, o2, o3, o4) = old_lem (unmarked s) in
    elim (Bool-cases (y && has s old)) [
      | inl skipped ↦ rw (live, skipped) (live, and-right y (has s old) skipped, refl)
      | inr young ↦ elim (Bool-cases (has s marked)) [
        | inl marks ↦ rw (live, young, marks) (o3 ∙ u3 ∙ live, o1, o4 ∙ u4)
        | inr lost ↦ let gone : dies y s ≡ true = rw (live, young, lost) refl in cc
      ]
    ]

-- After a full sweep a cell is freed if it was before, or had no mark.
pub swept-free : (s : ℕ) → has (swept false s) free ≡ (has s free || not (has s marked))
unfolding swept has
swept-free s =
    let (_, _, u3, _) = unmarked_lem s in
    let (_, _, o3, _) = old_lem (unmarked s) in
    elim (Bool-cases (has s free)) [
      | inl freed ↦ rw (freed) freed
      | inr live ↦ elim (Bool-cases (has s marked)) [
        | inl marks ↦ rw (live, marks) (o3 ∙ u3 ∙ live)
        | inr lost ↦ rw (live, lost) refl
      ]
    ]
