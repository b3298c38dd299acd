-- ===== src/Pool/Slots.antt =====
-- Cells by slab and index, and the address that leads back to them.
use native.Mathlib.Nat.{mul-div_cancel, mul-le-mul_right}
use aer.Base.{
  ℕ, zero, suc, ◌+◌, ◌-◌, ◌*◌, ◌/◌, ◌≤◌, ◌<◌, ◌≡◌, ◌≢◌, ap, ◌∙◌, ◌⊎◌, inl, inr, Bool, true, false,
  ◌&&◌, List, [], ◌∷◌, some, arith, leb, ltb, ◌==◌, length, get_or,
}
use aer.Pool.{Slab, Pool, no_slab, slab_at, address, slot_from, pool_cell_state}

abbrev pub same_slot : ℕ → ℕ → ℕ → ℕ → Bool
same_slot i j k l = (i == k) && (j == l)

-- What every pool has from its first slab on: cells of some size, and slabs that do not overlap.
pub record IsLaid (p : Pool) : Type 0 where
  pub sized : 0 < p.elem_size
  pub filled : 0 < p.elems_per_slab
  pub widths : (i : ℕ) → i < length p.slabs → length (slab_at p i).states ≡ p.elems_per_slab
  pub apart :
      (i k : ℕ)
      → i < length p.slabs
      → k < length p.slabs
      → i ≢ k
      → ((slab_at p i).base + p.elem_size * p.elems_per_slab ≤ (slab_at p k).base)
        ⊎ ((slab_at p k).base + p.elem_size * p.elems_per_slab ≤ (slab_at p i).base)
  pub based : (i : ℕ) → i < length p.slabs → 0 < (slab_at p i).base

-- The cell lies in a slab.
abbrev pub IsSlot : Pool → ℕ → ℕ → Type 0
IsSlot p i j = (i < length p.slabs) × (j < p.elems_per_slab)

slot_from_lem :
    (es n : ℕ) (ss : List Slab) (cell i first : ℕ)
    → i < length ss
    → (get_or ss i no_slab).base ≤ cell
    → cell < (get_or ss i no_slab).base + es * n
    → ((k : ℕ)
        → k < i
        → (leb (get_or ss k no_slab).base cell && ltb cell ((get_or ss k no_slab).base + es * n))
          ≡ false)
    → slot_from es n ss cell first ≡ some (i + first, (cell - (get_or ss i no_slab).base) / es)
unfolding slot_from
slot_from_lem es n [] cell i first h low high others = elim h [ ]
slot_from_lem es n (s ∷ ss) cell zero first h low high others =
    let inside : (leb s.base cell && ltb cell (s.base + es * n)) ≡ true = ground arith in
    rw (inside) (ap (λ (x : ℕ). some (x, (cell - s.base) / es)) (omega arith))
slot_from_lem es n (s ∷ ss) cell (suc i) first h low high others =
    let outside : (leb s.base cell && ltb cell (s.base + es * n)) ≡ false =
      others 0 (omega arith) in
    rw (outside) (
      slot_from_lem es n ss cell i (first + 1) (omega arith) low high
        (λ k less. others (suc k) (omega arith))
      ∙ ap (λ (x : ℕ). some (x, (cell - (get_or ss i no_slab).base) / es)) (omega arith))

-- A cell ends before its slab does.
pub cell_bytes : (es n j : ℕ) → 0 < es → j < n → j * es < es * n
cell_bytes es n j h less = let whole = mul-le-mul_right es less in omega arith

-- The state byte of a cell is found from its address.
pub pool_cell_state-address :
    (p : Pool) (i j : ℕ) → IsLaid p → IsSlot p i j → pool_cell_state p (address p i j) ≡ some (i, j)
unfolding pool_cell_state
pool_cell_state-address p i j laid (hi, hj) =
    let bytes = cell_bytes p.elem_size p.elems_per_slab j laid.sized hj in
    let offset : address p i j - (slab_at p i).base ≡ j * p.elem_size = omega arith in
    let index : (address p i j - (slab_at p i).base) / p.elem_size ≡ j =
      ap (λ (x : ℕ). x / p.elem_size) offset ∙ mul-div_cancel j laid.sized in
    slot_from_lem p.elem_size p.elems_per_slab p.slabs (address p i j) i 0 hi (omega arith)
      (omega arith)
      (λ k less. elim (laid.apart i k hi (omega arith) (λ e. omega arith)) [
        | inl before ↦ ground arith
        | inr behind ↦ ground arith
      ])
    ∙ rw (index) (ap (λ (x : ℕ). some (x, j)) (omega arith))
