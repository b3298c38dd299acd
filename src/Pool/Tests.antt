-- ===== src/Pool/Tests.antt =====
-- Runs of a small pool, and instances of the theorems.
use aer.Base.{
  ℕ, zero, suc, ◌+◌, ◌%◌, ◌^◌, ◌≤◌, ◌<◌, ◌≡◌, ◌⊎◌, refl, false, List, [], ◌∷◌, some, arith, length,
  map,
}
use aer.Pool.Alloc.{Allocated, pool_alloc-Allocated}
use aer.Pool.Chain.{Chained, Avoids, IsHeap}
use aer.Pool.Collect.{AllCarved, Unmarked, pool_clear_marks-Unmarked}
use aer.Pool.Cycle.{Collected, collect, collect-Collected}
use aer.Pool.Mark.{Marked, pool_mark-Marked}
use aer.Pool.Free.{CellFreed, pool_free-CellFreed}
use aer.Pool.Grow.{IsFresh}
use aer.Pool.Regions.{slabs_from}
use aer.Pool.Sweep.{Swept, pool_sweep-Swept, dead_slabs}
use aer.Pool.Slots.{same_slot}
use aer.Pool.{
  marked, state_at, pool_mark, pool_clear_marks, Pool, Heap, Slab, free, has, pool_init, pool_alloc,
  pool_free, pool_sweep, sweep_slabs, sweep_cells, pool_cell_state, slot_from, write_state, address,
  ◌>>=◌,
}

-- One slab of four cells: a marked cell, an unmarked one, a freed one, and one not handed out.
abbrev heap : Heap
heap = record {
  pool = record {
    slabs = (record { base = 4096; states = 1 ∷ 0 ∷ 4 ∷ 0 ∷ [] }) ∷ [];
    slab_cap = 4;
    next_index = 3;
    elem_size = 16;
    elems_per_slab = 4;
    free_list = 4128;
  };
  links = λ _. 0;
  total_alloc_count = 3;
}

abbrev states_of : Heap × List ℕ → List (List ℕ) × ℕ × List ℕ
states_of (h, freed) = (map (λ (s : Slab). s.states) h.pool.slabs, h.pool.free_list, freed)

-- The marked cell becomes old, the unmarked one heads the free list.
sweep :
    pool_sweep false heap >>= (λ r. some (states_of r))
    ≡ some ((2 ∷ 4 ∷ 4 ∷ 0 ∷ []) ∷ [], 4112, 4112 ∷ [])
unfolding pool_sweep sweep_slabs sweep_cells aer.Pool.sweep_cell pool_free pool_cell_state slot_from
    write_state has
sweep = refl

heap-IsHeap : IsHeap heap
unfolding Chained Avoids has
heap-IsHeap = record {
  laid = record {
    sized = omega arith;
    filled = omega arith;
    widths = λ i h. widths i h;
    apart = λ i k hi hk other. absurd (other (omega arith));
    based = λ i h. based i h;
  };
  next_le = omega arith;
  ungrown = λ h. absurd (omega arith);
  spare = (0, 2) ∷ [];
  chained = ((omega arith, omega arith), refl, refl, tt, refl);
}
  where
    widths : (i : ℕ) → i < 1 → length (aer.Pool.slab_at heap.pool i).states ≡ 4
    widths zero h = refl
    widths (suc i) h = absurd (omega arith)

    based : (i : ℕ) → i < 1 → 0 < (aer.Pool.slab_at heap.pool i).base
    based zero h = omega arith
    based (suc i) h = absurd (omega arith)

far-IsFresh : IsFresh heap.pool 8192
far-IsFresh = record { positive = omega arith; clear = λ k h. clear k h }
  where
    clear :
        (k : ℕ)
        → k < 1
        → (8192 + 64 ≤ (aer.Pool.slab_at heap.pool k).base)
          ⊎ ((aer.Pool.slab_at heap.pool k).base + 64 ≤ 8192)
    clear zero h = omega arith
    clear (suc k) h = absurd (omega arith)

pool_alloc-Allocated_example :
    (cell : ℕ) × (g : Heap) × (pool_alloc 8192 heap ≡ some (cell, g))
    × Allocated heap.pool cell g
    × (g.total_alloc_count ≡ (heap.total_alloc_count + 1) % 2 ^ 32)
pool_alloc-Allocated_example = pool_alloc-Allocated heap 8192 heap-IsHeap far-IsFresh

live : has 0 free ≡ false
unfolding has
live = refl

pool_free-CellFreed_example :
    (g : Heap) × (pool_free heap (address heap.pool 0 1) ≡ some g)
    × CellFreed heap heap-IsHeap 0 1 (omega arith, omega arith) g
pool_free-CellFreed_example =
    pool_free-CellFreed heap heap-IsHeap 0 1 (omega arith, omega arith) live

pool_sweep-Swept_example :
    (g : Heap) × (pool_sweep false heap
      ≡ some (g, dead_slabs false heap.pool (length heap.pool.slabs) 0))
    × Swept false (slabs_from heap.pool (length heap.pool.slabs) 0) heap g
pool_sweep-Swept_example = pool_sweep-Swept false heap heap-IsHeap

pool_mark-Marked_example :
    (q : Pool) × (pool_mark heap.pool (address heap.pool 0 1)
      ≡ some (has (state_at heap.pool 0 1) marked, q))
    × Marked (same_slot 0 1) heap q
pool_mark-Marked_example = pool_mark-Marked heap heap-IsHeap 0 1 (omega arith, omega arith)

pool_clear_marks-Unmarked_example : Unmarked heap (pool_clear_marks heap.pool)
pool_clear_marks-Unmarked_example = pool_clear_marks-Unmarked heap heap-IsHeap

second-AllCarved : AllCarved heap.pool ((0, 1) ∷ [])
unfolding AllCarved
second-AllCarved = ((omega arith, omega arith), tt)

collect-Collected_example :
    (r : Heap × List ℕ) × (collect heap ((0, 1) ∷ []) ≡ some r) × Collected heap ((0, 1) ∷ []) r.0
collect-Collected_example = collect-Collected heap ((0, 1) ∷ []) heap-IsHeap second-AllCarved
