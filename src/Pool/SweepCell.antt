-- ===== src/Pool/SweepCell.antt =====
-- What `pool_sweep` does to one cell.
use aer.Base.{
  ℕ, ◌≡◌, refl, sym, ap, ◌∙◌, inl, inr, Bool, not, ◌&&◌, ◌||◌, List, [], ◌∷◌, some, if◌then◌else◌,
  Bool-cases, bit_or,
}
use mathlib.Core.Path.{ap₂}
use aer.Pool.Chain.{IsCarved, IsHeap, same_slot-true}
use aer.Pool.Free.{Written, write-Written, pool_free-Written}
use aer.Pool.Slots.{same_slot}
use aer.Pool.State.{Alike, Alike-refl}
use aer.Pool.{
  Pool, Heap, free, old, marked, unmarked, has, state_at, write_state, address, sweep_cell,
}

-- A state byte after a sweep: freed and, in a minor sweep, old cells stay; a marked cell loses its mark and is old;
-- any other cell is freed.
unfoldable pub swept : Bool → ℕ → ℕ
swept young_only s =
    if has s free || (young_only && has s old)
    then s
    else if has s marked
    then bit_or (unmarked s) old
    else free

-- The cells that a sweep frees.
unfoldable pub dies : Bool → ℕ → Bool
dies young_only s = not (has s free || (young_only && has s old) || has s marked)

unfoldable pub dead : Bool → Pool → ℕ → ℕ → List ℕ
dead young_only p i j = if dies young_only (state_at p i j) then address p i j ∷ [] else []

-- The heap `g` is `h` with the cell swept.
pub record SweptCell (young_only : Bool) (h : Heap) (i j : ℕ) (g : Heap) : Type 0 where
  pub heap : IsHeap g
  pub alike : Alike h.pool g.pool
  pub states :
      (k l : ℕ)
      → state_at g.pool k l ≡ (
          if same_slot i j k l then swept young_only (state_at h.pool k l) else state_at h.pool k l)

module _ (young_only : Bool) (h : Heap) (ok : IsHeap h) (i j : ℕ)
    (carved : IsCarved h.pool i j) where
  abbrev s : ℕ
  s = state_at h.pool i j

  kept-SweptCell : swept young_only s ≡ s → SweptCell young_only h i j h
  kept-SweptCell same = record {
    heap = ok;
    alike = Alike-refl h.pool;
    states = λ k l. elim (Bool-cases (same_slot i j k l)) [
      | inl here ↦
          let (slab, cell) = same_slot-true i j k l here in
          let there : state_at h.pool k l ≡ s = sym (ap₂ (state_at h.pool) slab cell) in
          rw (here) (there ∙ sym same ∙ ap (swept young_only) (sym there))
      | inr other ↦ rw (other) refl
    ];
  }

  Written-SweptCell :
      (g : Heap) (t : ℕ) → swept young_only s ≡ t → Written h i j t g → SweptCell young_only h i j g
  Written-SweptCell g t value w = record {
    heap = w.heap;
    alike = w.alike;
    states = λ k l. w.states k l ∙ elim (Bool-cases (same_slot i j k l)) [
      | inl here ↦
          let (slab, cell) = same_slot-true i j k l here in
          rw (here) (sym value ∙ ap (swept young_only) (ap₂ (state_at h.pool) slab cell))
      | inr other ↦ rw (other) refl
    ];
  }

  pub sweep_cell-SweptCell :
      (g : Heap) × (sweep_cell young_only h i j ≡ some (g, dead young_only h.pool i j))
      × SweptCell young_only h i j g
  unfolding sweep_cell swept dies dead
  sweep_cell-SweptCell = elim (Bool-cases (has s free)) [
    | inl freed ↦ (h, rw (freed) refl, kept-SweptCell (rw (freed) refl))
    | inr live ↦ elim (Bool-cases (young_only && has s old)) [
      | inl skipped ↦ (h, rw (live, skipped) refl, kept-SweptCell (rw (live, skipped) refl))
      | inr young ↦ elim (Bool-cases (has s marked)) [
        | inl survives ↦ (
          record h { pool = write_state h.pool i j (bit_or (unmarked s) old) },
          rw (live, young, survives) refl,
          Written-SweptCell _ (bit_or (unmarked s) old) (rw (live, young, survives) refl)
              (write-Written h ok i j carved (bit_or (unmarked s) old) live),
        )
        | inr lost ↦
            let (g, run, w) = pool_free-Written h ok i j carved live in
            (
              g,
              rw (live, young, lost, run) refl,
              Written-SweptCell g free (rw (live, young, lost) refl) w,
            )
      ]
    ]
  ]
