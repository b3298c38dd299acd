-- ===== src/Pool/Regions.antt =====
-- The cells that the loops over cells and slabs cover.
use aer.Base.{
  ℕ, suc, ◌+◌, ◌≤◌, ◌<◌, ◌≡◌, inl, inr, Bool, true, false, ◌&&◌, arith, leb, ltb, ◌==◌, Bool-cases,
}
use aer.Pool.{Pool, carved_count}

-- `n` cells of slab `i` from cell `j` on.
abbrev pub cells_from : ℕ → ℕ → ℕ → ℕ → ℕ → Bool
cells_from n i j k l = (i == k) && (leb j l && ltb l (j + n))

-- The cells in use of the slabs `i` up to `i + n`.
abbrev pub slabs_from : Pool → ℕ → ℕ → ℕ → ℕ → Bool
slabs_from p n i k l = (leb i k && ltb k (i + n)) && ltb l (carved_count p k)

-- The same with the counts of the slabs as numbers: `c` of slab `i`, and `d` of slab `k`.
abbrev pub rows : ℕ → ℕ → ℕ → ℕ → ℕ → Bool
rows d n i k l = (leb i k && ltb k (i + n)) && ltb l d

pub rows_first :
    (c d e n i k l : ℕ)
    → (i ≡ k → c ≡ d)
    → cells_from c i 0 k l ≡ true
    → (rows e n (i + 1) k l ≡ false) × (rows d (suc n) i k l ≡ true)
rows_first c d e n i k l agree on =
    let same : i ≡ k = ground arith in
    let count = agree same in let low : l < c = ground arith in (ground arith, ground arith)

pub rows_later :
    (c d n i k l : ℕ)
    → (i ≡ k → c ≡ d)
    → cells_from c i 0 k l ≡ false
    → rows d (suc n) i k l ≡ rows d n (i + 1) k l
rows_later c d n i k l agree off = elim (Bool-cases (i == k)) [
  | inl same ↦
      let here : i ≡ k = ground arith in
      let count = agree here in let high : d ≤ l = ground arith in ground arith
  | inr other ↦ ground arith
]

pub rows_none : (d i k l : ℕ) → rows d 0 i k l ≡ false
rows_none d i k l = ground arith

pub above_row : (c i k l : ℕ) → i + 1 ≤ k → cells_from c i 0 k l ≡ false
above_row c i k l h = ground arith
