-- ===== src/Pool/Sweep.antt =====
-- The loops of `pool_sweep` over the cells of a slab and over the slabs.
use aer.Base.{
  ℕ, zero, suc, ◌+◌, ◌≤◌, ◌<◌, ◌≡◌, refl, sym, ap, ◌∙◌, inl, inr, Bool, true, false, List, [], ◌++◌,
  some, arith, if◌then◌else◌, Bool-cases, length,
}
use mathlib.Core.Path.{ap₂}
use aer.Pool.Chain.{IsHeap}
use aer.Pool.Regions.{cells_from, slabs_from, rows, rows_first, rows_later, rows_none, above_row}
use aer.Pool.Slots.{same_slot}
use aer.Pool.State.{Alike, Alike-refl, Alike-trans, Alike-address, Alike-carved_count}
use aer.Pool.SweepCell.{swept, dead, sweep_cell-SweptCell}
use aer.Pool.{Pool, Heap, state_at, carved_count, sweep_cells, sweep_slabs, pool_sweep}

-- The freed cells of slab `i` from cell `j`, in order.
unfoldable pub dead_cells : Bool → Pool → ℕ → ℕ → ℕ → List ℕ
dead_cells young_only p zero i j = []
dead_cells young_only p (suc n) i j = dead young_only p i j ++ dead_cells young_only p n i (j + 1)

unfoldable pub dead_slabs : Bool → Pool → ℕ → ℕ → List ℕ
dead_slabs young_only p zero i = []
dead_slabs young_only p (suc n) i =
    dead_cells young_only p (carved_count p i) i 0 ++ dead_slabs young_only p n (i + 1)

-- Slots whose states agree give the same freed cells.
dead_cells-keep :
    (young_only : Bool) (p q : Pool) (n i j : ℕ)
    → Alike p q
    → ((l : ℕ) → j ≤ l → state_at q i l ≡ state_at p i l)
    → dead_cells young_only q n i j ≡ dead_cells young_only p n i j
unfolding dead_cells dead
dead_cells-keep y p q zero i j a same = refl
dead_cells-keep y p q (suc n) i j a same =
    rw
      (
        same j (omega arith),
        Alike-address p q a i j,
        dead_cells-keep y p q n i (j + 1) a (λ l h. same l (omega arith)),
      )
      refl

dead_slabs-keep :
    (young_only : Bool) (p q : Pool) (n i : ℕ)
    → Alike p q
    → ((k l : ℕ) → i ≤ k → state_at q k l ≡ state_at p k l)
    → dead_slabs young_only q n i ≡ dead_slabs young_only p n i
unfolding dead_slabs
dead_slabs-keep y p q zero i a same = refl
dead_slabs-keep y p q (suc n) i a same =
    ap₂ (λ (xs ys : List ℕ). xs ++ ys)
      (ap (λ (c : ℕ). dead_cells y q c i 0) (Alike-carved_count p q a i)
        ∙ dead_cells-keep y p q (carved_count p i) i 0 a (λ l _. same i l (omega arith)))
      (dead_slabs-keep y p q n (i + 1) a (λ k l h. same k l (omega arith)))

-- The heap `g` is `h` with the cells of a region swept.
pub record Swept (young_only : Bool) (region : ℕ → ℕ → Bool) (h g : Heap) : Type 0 where
  pub heap : IsHeap g
  pub alike : Alike h.pool g.pool
  pub states :
      (k l : ℕ)
      → state_at g.pool k l
        ≡ (if region k l then swept young_only (state_at h.pool k l) else state_at h.pool k l)

-- Two disjoint regions one after the other.
Swept-join :
    (young_only : Bool) (first second both : ℕ → ℕ → Bool) (h g f : Heap)
    → ((k l : ℕ) → first k l ≡ true → (second k l ≡ false) × (both k l ≡ true))
    → ((k l : ℕ) → first k l ≡ false → both k l ≡ second k l)
    → Swept young_only first h g
    → Swept young_only second g f
    → Swept young_only both h f
Swept-join y first second both h g f here elsewhere a b = record {
  heap = b.heap;
  alike = Alike-trans h.pool g.pool f.pool a.alike b.alike;
  states = λ k l. b.states k l ∙ elim (Bool-cases (first k l)) [
    | inl inside ↦ let (off, on) = here k l inside in rw (off, on) (a.states k l ∙ rw (inside) refl)
    | inr outside ↦
        let same : state_at g.pool k l ≡ state_at h.pool k l = a.states k l ∙ rw (outside) refl in
        rw (same, elsewhere k l outside) refl
  ];
}

sweep_cells-Swept :
    (young_only : Bool) (n : ℕ) (h : Heap) (i j : ℕ)
    → IsHeap h
    → i < length h.pool.slabs
    → j + n ≤ carved_count h.pool i
    → (g : Heap) × (sweep_cells young_only n h i j ≡ some (g, dead_cells young_only h.pool n i j))
      × Swept young_only (cells_from n i j) h g
unfolding sweep_cells dead_cells
sweep_cells-Swept y zero h i j ok inside below = (
  h,
  refl,
  record {
    heap = ok;
    alike = Alike-refl h.pool;
    states = λ k l. let nowhere : cells_from 0 i j k l ≡ false = ground arith in rw (nowhere) refl;
  },
)
sweep_cells-Swept y (suc n) h i j ok inside below =
    let (g, run, one) = sweep_cell-SweptCell y h ok i j (inside, omega arith) in
    let (f, rest, more) =
      sweep_cells-Swept y n g i (j + 1) one.heap (omega (arith, one.alike.slab_count))
        (omega (arith, Alike-carved_count h.pool g.pool one.alike i)) in
    let later : dead_cells y g.pool n i (j + 1) ≡ dead_cells y h.pool n i (j + 1) =
      dead_cells-keep y h.pool g.pool n i (j + 1) one.alike (λ l above.
        one.states i l
        ∙ (let other : same_slot i j i l ≡ false = ground arith in rw (other) refl)) in
    (
      f,
      rw (run, rest, later) refl,
      Swept-join y (same_slot i j) (cells_from n i (j + 1)) (cells_from (suc n) i j) h g f
          (λ k l on. (ground arith, ground arith)) (λ k l off. ground arith)
          (record { heap = one.heap; alike = one.alike; states = one.states }) more,
    )

sweep_slabs-Swept :
    (young_only : Bool) (n : ℕ) (h : Heap) (i : ℕ)
    → IsHeap h
    → i + n ≤ length h.pool.slabs
    → (g : Heap) × (sweep_slabs young_only n h i ≡ some (g, dead_slabs young_only h.pool n i))
      × Swept young_only (slabs_from h.pool n i) h g
unfolding sweep_slabs dead_slabs
sweep_slabs-Swept y zero h i ok below = (
  h,
  refl,
  record {
    heap = ok;
    alike = Alike-refl h.pool;
    states = λ k l.
        let nowhere : slabs_from h.pool 0 i k l ≡ false = rows_none (carved_count h.pool k) i k l in
        rw (nowhere) refl;
  },
)
sweep_slabs-Swept y (suc n) h i ok below =
    let (g, run, one) =
      sweep_cells-Swept y (carved_count h.pool i) h i 0 ok (omega arith) (omega arith) in
    let (f, rest, more) =
      sweep_slabs-Swept y n g (i + 1) one.heap (omega (arith, one.alike.slab_count)) in
    let later : dead_slabs y g.pool n (i + 1) ≡ dead_slabs y h.pool n (i + 1) =
      dead_slabs-keep y h.pool g.pool n (i + 1) one.alike (λ k l above.
        one.states k l
        ∙ (let other : cells_from (carved_count h.pool i) i 0 k l ≡ false =
              above_row (carved_count h.pool i) i k l above in
            rw (other) refl)) in
    (
      f,
      rw (run, rest, later) refl,
      Swept-join y (cells_from (carved_count h.pool i) i 0) (slabs_from g.pool n (i + 1))
          (slabs_from h.pool (suc n) i) h g f
          (λ k l on.
            rows_first (carved_count h.pool i) (carved_count h.pool k) (carved_count g.pool k) n i k
              l (ap (carved_count h.pool)) on)
          (λ k l off.
            rows_later (carved_count h.pool i) (carved_count h.pool k) n i k l
              (ap (carved_count h.pool)) off
            ∙ ap (λ (d : ℕ). rows d n (i + 1) k l)
                (sym (Alike-carved_count h.pool g.pool one.alike k)))
          one more,
    )

-- `pool_sweep` of a heap in order returns, with the free list in order. Every cell in use has the state that the sweep owes to its
-- byte, every other cell keeps its byte, addresses stay, and `on_free` was called with the cells that had to die,
-- each once, in the order of the slabs.
pub pool_sweep-Swept :
    (young_only : Bool) (h : Heap)
    → IsHeap h
    → (g : Heap) × (pool_sweep young_only h
        ≡ some (g, dead_slabs young_only h.pool (length h.pool.slabs) 0))
      × Swept young_only (slabs_from h.pool (length h.pool.slabs) 0) h g
unfolding pool_sweep
pool_sweep-Swept y h ok = sweep_slabs-Swept y (length h.pool.slabs) h 0 ok (omega arith)
