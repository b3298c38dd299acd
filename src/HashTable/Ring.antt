-- ===== src/HashTable/Ring.antt =====
-- Slots on a ring of `c` places: walking and measuring forwards.
use aer.Base.{ℕ, ◌+◌, ◌-◌, ◌%◌, ◌^◌, ◌∙◌, ◌≤◌, ◌<◌, ◌≡◌, ◌≢◌, arith, ltb, leb, if◌then◌else◌}
use native.Mathlib.Nat.{mod-eq_of_lt, mod-eq-sub-mod}

-- `d` places on from `a`, less than once round.
unfoldable pub walk : ℕ → ℕ → ℕ → ℕ
walk c a d = if ltb (a + d) c then a + d else a + d - c

-- The places from `a` on to `b`.
unfoldable pub dist : ℕ → ℕ → ℕ → ℕ
dist c a b = if leb a b then b - a else b + c - a

pub walk-eq-mod : (c a d : ℕ) → a < c → d ≤ c → (a + d) % c ≡ walk c a d
unfolding walk
walk-eq-mod c a d ha hd = ground (
  arith,
  mod-eq_of_lt {n = a + d} {m = c},
  mod-eq-sub-mod {n = a + d} {m = c},
  mod-eq_of_lt {n = a + d - c} {m = c},
)

pub walk-lt : (c a d : ℕ) → a < c → d < c → walk c a d < c
unfolding walk
walk-lt c a d ha hd = ground arith

pub dist-lt : (c a b : ℕ) → a < c → b < c → dist c a b < c
unfolding dist
dist-lt c a b ha hb = ground arith

pub walk-dist : (c a b : ℕ) → a < c → b < c → walk c a (dist c a b) ≡ b
unfolding walk dist
walk-dist c a b ha hb = ground arith

pub dist-walk : (c a d : ℕ) → a < c → d < c → dist c a (walk c a d) ≡ d
unfolding walk dist
dist-walk c a d ha hd = ground arith

-- Two walks that meet go on together.
pub walk_together :
    (c a b d s r : ℕ)
    → a < c
    → b < c
    → s < c
    → d + r < c
    → s + r < c
    → walk c a d ≡ walk c b s
    → walk c a (d + r) ≡ walk c b (s + r)
unfolding walk
walk_together c a b d s r ha hb hs hr hr' e = ground arith

-- A place further on along a walk.
pub dist_along :
    (c a b d p : ℕ)
    → a < c
    → b < c
    → p < c
    → d ≤ dist c a p
    → walk c a d ≡ b
    → dist c b p + d ≡ dist c a p
unfolding walk dist
dist_along c a b d p ha hb hp hd e = ground arith

pub walk-zero : (c a : ℕ) → a < c → walk c a 0 ≡ a
unfolding walk
walk-zero c a h = ground arith

pub dist_self : (c a : ℕ) → dist c a a ≡ 0
unfolding dist
dist_self c a = ground arith

pub dist-ne-zero : (c a b : ℕ) → a < c → b < c → a ≢ b → 1 ≤ dist c a b
unfolding dist
dist-ne-zero c a b ha hb h = ground arith

-- A walk from `a` that meets one from `b` at its place `s`: the places from there on, by their
-- distance from `b`.
pub walk_beyond :
    (c a b d s r : ℕ)
    → a < c
    → b < c
    → s ≤ r
    → r < c
    → d + (r - s) < c
    → walk c a d ≡ walk c b s
    → walk c a (d + (r - s)) ≡ walk c b r
unfolding walk
walk_beyond c a b d s r ha hb hsr hr hd e = ground arith

-- The end of such a walk, where it does not come round to `b` again.
pub dist_beyond :
    (c a b d s p : ℕ)
    → a < c
    → b < c
    → p < c
    → s < c
    → d ≤ dist c a p
    → s + (dist c a p - d) < c
    → walk c a d ≡ walk c b s
    → dist c b p ≡ s + (dist c a p - d)
unfolding walk dist
dist_beyond c a b d s p ha hb hp hs hd hr e = ground arith

walk-suc : (c a s : ℕ) → a < c → s + 1 < c → walk c (walk c a s) 1 ≡ walk c a (s + 1)
unfolding walk
walk-suc c a s h hs = ground arith

-- One place on, as the code computes it.
pub next_slot :
    (c a s : ℕ) → a < c → c ≤ 2 ^ 31 → s + 1 < c → (walk c a s + 1) % 2 ^ 32 % c ≡ walk c a (s + 1)
next_slot c a s h bound hs =
    let here = walk-lt c a s h (omega arith) in
    let flat : (walk c a s + 1) % 2 ^ 32 ≡ walk c a s + 1 = omega arith in
    rw flat (walk-eq-mod c (walk c a s) 1 here (omega arith) ∙ walk-suc c a s h hs)
