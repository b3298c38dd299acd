-- ===== src/Pool/Chain.antt =====
-- The free list: a chain of distinct freed cells through the memory.
use mathlib.Core.Path.{ap₂}
use aer.Base.{
  ℕ, ◌≤◌, ◌<◌, ◌≡◌, ◌≢◌, sym, ap, ◌∙◌, inl, inr, true, false, List, [], ◌∷◌, Option, some, arith,
  Bool-cases, length,
}
use aer.Pool.Slots.{IsLaid, IsSlot, same_slot, pool_cell_state-address}
use aer.Pool.State.{Alike, Alike-carved_count}
use aer.Pool.{Pool, Heap, free, has, state_at, address, carved_count, pool_cell_state}

-- The cell has been handed out before.
abbrev pub IsCarved : Pool → ℕ → ℕ → Type 0
IsCarved p i j = (i < length p.slabs) × (j < carved_count p i)

pub IsCarved-IsSlot :
    (p : Pool) (i j : ℕ) → p.next_index ≤ p.elems_per_slab → IsCarved p i j → IsSlot p i j
IsCarved-IsSlot p i j h (hi, hj) = (hi, ground arith)

pub Alike-IsCarved : (p q : Pool) → Alike p q → (i j : ℕ) → IsCarved p i j → IsCarved q i j
Alike-IsCarved p q a i j (hi, hj) =
    (omega (arith, a.slab_count), rw (Alike-carved_count p q a i) hj)

unfoldable pub Avoids : ℕ → ℕ → List (ℕ × ℕ) → Type 0
Avoids i j [] = Unit {0}
Avoids i j ((k, l) ∷ rest) = (same_slot i j k l ≡ false) × Avoids i j rest

-- The list of the cells that a pointer leads to, each freed, up to NULL.
unfoldable pub Chained : Pool → (ℕ → ℕ) → ℕ → List (ℕ × ℕ) → Type 0
unfolding Avoids
Chained p links head [] = head ≡ 0
Chained p links head ((i, j) ∷ rest) =
    IsCarved p i j
    × (has (state_at p i j) free ≡ true)
    × (head ≡ address p i j)
    × Avoids i j rest
    × Chained p links (links (address p i j)) rest

pub same_slot-true : (i j k l : ℕ) → same_slot i j k l ≡ true → (i ≡ k) × (j ≡ l)
same_slot-true i j k l h = (ground arith, ground arith)

pub same_slot-false : (i j k l : ℕ) → (i ≡ k → j ≢ l) → same_slot i j k l ≡ false
same_slot-false i j k l h = ground arith

-- Different cells have different addresses.
pub address-ne :
    (p : Pool) (i j k l : ℕ)
    → IsLaid p
    → IsSlot p i j
    → IsSlot p k l
    → same_slot i j k l ≡ false
    → address p i j ≢ address p k l
address-ne p i j k l laid here there other e =
    let found : ◌≡◌ {A = Option (ℕ × ℕ)} (some (i, j)) (some (k, l)) =
      sym (pool_cell_state-address p i j laid here)
      ∙ ap (pool_cell_state p) e
      ∙ pool_cell_state-address p k l laid there in
    let slab : i ≡ k = cc in
    let cell : j ≡ l = cc in let same : same_slot i j k l ≡ true = ground arith in cc

-- A cell that is not freed is not on the list.
pub Chained-Avoids :
    (p : Pool) (links : ℕ → ℕ) (i j head : ℕ) (spare : List (ℕ × ℕ))
    → has (state_at p i j) free ≡ false
    → Chained p links head spare
    → Avoids i j spare
unfolding Chained Avoids
Chained-Avoids p links i j head [] live c = tt
Chained-Avoids p links i j head ((k, l) ∷ rest) live c = (
  elim (Bool-cases (same_slot i j k l)) [
    | inl same ↦
        let (ek, el) = same_slot-true i j k l same in
        let flag : has (state_at p i j) free ≡ true =
          ap₂ (λ (x y : ℕ). has (state_at p x y) free) ek el ∙ c.1 in
        cc
    | inr other ↦ other
  ],
  Chained-Avoids p links i j (links (address p k l)) rest live c.4,
)

-- A change of one cell keeps a list that avoids it.
pub Chained-keep :
    (p q : Pool) (links links' : ℕ → ℕ) (i j head : ℕ) (spare : List (ℕ × ℕ))
    → ((k l : ℕ) → IsCarved p k l → IsCarved q k l)
    → ((k l : ℕ) → address q k l ≡ address p k l)
    → ((k l : ℕ)
        → same_slot i j k l ≡ false
        → has (state_at p k l) free ≡ true
        → has (state_at q k l) free ≡ true)
    → ((k l : ℕ)
        → IsCarved p k l
        → same_slot i j k l ≡ false
        → links' (address p k l) ≡ links (address p k l))
    → Avoids i j spare
    → Chained p links head spare
    → Chained q links' head spare
unfolding Chained Avoids
Chained-keep p q links links' i j head [] carved same flags next avoids c = c
Chained-keep p q links links' i j head ((k, l) ∷ rest) carved same flags next avoids c = (
  carved k l c.0,
  flags k l avoids.0 c.1,
  c.2 ∙ sym (same k l),
  c.3,
  (rw (same k l, next k l c.0 avoids.0)
      (Chained-keep p q links links' i j (links (address p k l)) rest carved same flags next
        avoids.1 c.4)),
)

-- A pool with its free list in good order.
pub record IsHeap (h : Heap) : Type 0 where
  pub laid : IsLaid h.pool
  pub next_le : h.pool.next_index ≤ h.pool.elems_per_slab
  -- without a slab the first allocation takes one
  pub ungrown : length h.pool.slabs ≡ 0 → h.pool.next_index ≡ h.pool.elems_per_slab
  pub spare : List (ℕ × ℕ)
  pub chained : Chained h.pool h.links h.pool.free_list spare
