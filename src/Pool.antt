-- ===== src/Pool.antt =====
-- source/utilities/pool.c: the slab allocator with the state byte of each cell.
--
-- Pointers are addresses, and NULL is 0. `slabs` and `cell_state`, which are arrays of the same
-- length, are one list. The first word of every cell is a memory `links`, since the free list runs
-- through it and elements are at least a pointer wide. The address that `xmalloc` returns for a slab is an argument, and the calls of
-- `on_free` are recorded. `none` stands for the fatal error of `pool_cell_state`.
pub mod Slots
pub mod State
pub mod Chain
pub mod Free
pub mod Grow
pub mod Alloc
pub mod SweepCell
pub mod Regions
pub mod Sweep
pub mod Bytes
pub mod Marks
pub mod Mark
pub mod Collect
pub mod Cycle
mod Tests
use aer.Base.{
  ℕ, zero, suc, ◌+◌, ◌-◌, ◌*◌, ◌/◌, ◌%◌, ◌^◌, Bool, true, false, not, ◌&&◌, List, [], ◌∷◌, ◌++◌,
  Option, none, some, leb, ltb, ◌==◌, if◌then◌else◌, length, get_or, set, replicate, bit_and,
  bit_or,
}

pub record Slab : Type 0 where
  pub base : ℕ
  pub states : List ℕ

pub record Pool : Type 0 where
  pub slabs : List Slab
  pub slab_cap : ℕ
  pub next_index : ℕ
  pub elem_size : ℕ
  pub elems_per_slab : ℕ
  pub free_list : ℕ

-- A pool with the memory that its free list runs through, and `pool_total_alloc_count`.
pub record Heap : Type 0 where
  pub pool : Pool
  pub links : ℕ → ℕ
  pub total_alloc_count : ℕ

abbrev pub marked : ℕ
marked = 1

abbrev pub old : ℕ
old = 2

abbrev pub free : ℕ
free = 4

abbrev pub remembered : ℕ
remembered = 8

-- `(state & bit) != 0`
unfoldable pub has : ℕ → ℕ → Bool
has state bit = not (bit_and state bit == 0)

-- `state & ~POOL_MARKED`, on a byte
abbrev pub unmarked : ℕ → ℕ
unmarked state = bit_and state 0xfe

abbrev pub initial_slabs : ℕ
initial_slabs = 4

unfoldable pub pool_init : ℕ → ℕ → Pool
pool_init elem_size elems_per_slab = record {
  slabs = [];
  slab_cap = 0;
  next_index = elems_per_slab;
  elem_size = elem_size;
  elems_per_slab = elems_per_slab;
  free_list = 0;
}

abbrev pub no_slab : Slab
no_slab = record { base = 0; states = [] }

abbrev pub slab_at : Pool → ℕ → Slab
slab_at p i = get_or p.slabs i no_slab

-- `p->cell_state[i][j]`
abbrev pub state_at : Pool → ℕ → ℕ → ℕ
state_at p i j = get_or (slab_at p i).states j 0

unfoldable pub write_state : Pool → ℕ → ℕ → ℕ → Pool
write_state p i j s = record p {
  slabs = set p.slabs i (record (slab_at p i) { states = set (slab_at p i).states j s });
}

-- `p->slabs[i] + (size_t)j * p->elem_size`
abbrev pub address : Pool → ℕ → ℕ → ℕ
address p i j = (slab_at p i).base + j * p.elem_size

unfoldable pub pool_grow : ℕ → Pool → Pool
pool_grow fresh p = record p {
  slabs = p.slabs ++ (record { base = fresh; states = replicate p.elems_per_slab 0 } ∷ []);
  slab_cap =
      if leb p.slab_cap (length p.slabs)
      then (if p.slab_cap == 0 then initial_slabs else p.slab_cap * 2 % 2 ^ 32)
      else p.slab_cap;
  next_index = 0;
}

-- The scan over the slabs from slab `i` on; the pair stands for the pointer to the state byte.
unfoldable pub slot_from : ℕ → ℕ → List Slab → ℕ → ℕ → Option (ℕ × ℕ)
slot_from elem_size elems_per_slab [] cell i = none
slot_from elem_size elems_per_slab (s ∷ ss) cell i =
    if leb s.base cell && ltb cell (s.base + elem_size * elems_per_slab)
    then some (i, (cell - s.base) / elem_size)
    else slot_from elem_size elems_per_slab ss cell (i + 1)

unfoldable pub pool_cell_state : Pool → ℕ → Option (ℕ × ℕ)
pool_cell_state p cell = slot_from p.elem_size p.elems_per_slab p.slabs cell 0

infixl 5 ◌>>=◌
abbrev pub ◌>>=◌ {ℓ κ} : {A : Type ℓ} {B : Type κ} → Option A → (A → Option B) → Option B
none >>= f = none
some a >>= f = f a

unfoldable pub pool_owns : Pool → ℕ → Bool
pool_owns p cell = elim (pool_cell_state p cell) [ none ↦ false | some _ ↦ true ]

-- The cell from the free list, with a state byte of 0.
unfoldable pub reuse : Heap → ℕ → Option (ℕ × Heap)
reuse h cell = do
  (i, j) ← pool_cell_state h.pool cell
  some (cell, record h { pool = write_state (record h.pool { free_list = h.links cell }) i j 0 })

-- The next cell of the last slab.
unfoldable pub carve : Heap → Pool → ℕ → ℕ × Heap
carve h p i = (
  address p i p.next_index,
  record h { pool = record (write_state p i p.next_index 0) { next_index = p.next_index + 1 } },
)

unfoldable pub room : ℕ → Pool → Pool
room fresh p = if leb p.elems_per_slab p.next_index then pool_grow fresh p else p

-- `fresh` is the address of a new slab, if one is needed.
unfoldable pub pool_alloc : ℕ → Heap → Option (ℕ × Heap)
pool_alloc fresh h =
    let counted : Heap = record h { total_alloc_count = (h.total_alloc_count + 1) % 2 ^ 32 } in
    let p : Pool = room fresh h.pool in
    if not (h.pool.free_list == 0)
    then reuse counted h.pool.free_list
    else some (carve counted p (length p.slabs - 1))

unfoldable pub pool_free : Heap → ℕ → Option Heap
pool_free h cell = do
  (i, j) ← pool_cell_state h.pool cell
  some (record h {
    pool = record (write_state h.pool i j free) { free_list = cell };
    links = λ a. if cell == a then h.pool.free_list else h.links a;
  })

-- The result tells whether the cell was marked already.
unfoldable pub pool_mark : Pool → ℕ → Option (Bool × Pool)
pool_mark p cell = do
  (i, j) ← pool_cell_state p cell
  let s = state_at p i j
  if has s marked then some (true, p) else some (false, write_state p i j (bit_or s marked))

unfoldable pub set_bit : Pool → ℕ → ℕ → Option Pool
set_bit p cell bit = do
  (i, j) ← pool_cell_state p cell
  some (write_state p i j (bit_or (state_at p i j) bit))

unfoldable pub pool_promote : Pool → ℕ → Option Pool
pool_promote p cell = set_bit p cell old

unfoldable pub pool_mark_remembered : Pool → ℕ → Option Pool
pool_mark_remembered p cell = set_bit p cell remembered

unfoldable pub test_bit : Pool → ℕ → ℕ → Option Bool
test_bit p cell bit = do (i, j) ← pool_cell_state p cell; some (has (state_at p i j) bit)

unfoldable pub pool_is_young : Pool → ℕ → Option Bool
pool_is_young p cell = test_bit p cell old >>= λ b. some (not b)

unfoldable pub pool_is_freed : Pool → ℕ → Option Bool
pool_is_freed p cell = test_bit p cell free

unfoldable pub pool_is_remembered : Pool → ℕ → Option Bool
pool_is_remembered p cell = test_bit p cell remembered

-- The number of cells of slab `i` that have been handed out at all.
abbrev pub carved_count : Pool → ℕ → ℕ
carved_count p i = if i + 1 == length p.slabs then p.next_index else p.elems_per_slab

-- The body of the inner loop of `pool_sweep`, with the addresses that `on_free` is called with.
unfoldable pub sweep_cell : Bool → Heap → ℕ → ℕ → Option (Heap × List ℕ)
sweep_cell young_only h i j =
    let s = state_at h.pool i j in
    if has s free
    then some (h, [])
    else if young_only && has s old
    then some (h, [])
    else if has s marked
    then some (record h { pool = write_state h.pool i j (bit_or (unmarked s) old) }, [])
    else (pool_free h (address h.pool i j) >>= λ g. some (g, address h.pool i j ∷ []))

-- The inner loop from cell `j` of slab `i`, with `n` cells left.
pub sweep_cells : Bool → ℕ → Heap → ℕ → ℕ → Option (Heap × List ℕ)
sweep_cells young_only zero h i j = some (h, [])
sweep_cells young_only (suc n) h i j = do
  (g, freed) ← sweep_cell young_only h i j
  (g', rest) ← sweep_cells young_only n g i (j + 1)
  some (g', freed ++ rest)

-- The outer loop from slab `i`, with `n` slabs left.
pub sweep_slabs : Bool → ℕ → Heap → ℕ → Option (Heap × List ℕ)
sweep_slabs young_only zero h i = some (h, [])
sweep_slabs young_only (suc n) h i = do
  (g, freed) ← sweep_cells young_only (carved_count h.pool i) h i 0
  (g', rest) ← sweep_slabs young_only n g (i + 1)
  some (g', freed ++ rest)

unfoldable pub pool_sweep : Bool → Heap → Option (Heap × List ℕ)
unfolding sweep_cells sweep_slabs
pool_sweep young_only h = sweep_slabs young_only (length h.pool.slabs) h 0

pub clear_cells : ℕ → Pool → ℕ → ℕ → Pool
clear_cells zero p i j = p
clear_cells (suc n) p i j = clear_cells n (write_state p i j (unmarked (state_at p i j))) i (j + 1)

pub clear_slabs : ℕ → Pool → ℕ → Pool
clear_slabs zero p i = p
clear_slabs (suc n) p i = clear_slabs n (clear_cells (carved_count p i) p i 0) (i + 1)

unfoldable pub pool_clear_marks : Pool → Pool
unfolding clear_cells clear_slabs
pool_clear_marks p = clear_slabs (length p.slabs) p 0
