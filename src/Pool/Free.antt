-- ===== src/Pool/Free.antt =====
-- `pool_free`, and the writes that leave the free list as it is.
use mathlib.Core.Path.{subst}
use aer.Base.{
  unequal, ℕ, ◌≡◌, ◌≢◌, refl, sym, ap, ◌∙◌, true, false, ◌∷◌, some, arith, ◌==◌, ==_iff,
  if◌then◌else◌,
}
use aer.Pool.Chain.{
  IsCarved, IsCarved-IsSlot, Alike-IsCarved, Chained, Chained-Avoids, Chained-keep, address-ne,
  IsHeap,
}
use aer.Pool.Slots.{IsSlot, same_slot, pool_cell_state-address}
use aer.Pool.State.{
  Alike, Alike-head, Alike-IsLaid, Alike-address, write_state-Alike, state_at-write_state,
}
use aer.Pool.{Pool, Heap, free, has, state_at, write_state, address, pool_cell_state, pool_free}

-- What a write of the byte `s` at a cell owes to the heap before it.
pub record Written (h : Heap) (i j s : ℕ) (g : Heap) : Type 0 where
  pub heap : IsHeap g
  pub alike : Alike h.pool g.pool
  pub states :
      (k l : ℕ) → state_at g.pool k l ≡ (if same_slot i j k l then s else state_at h.pool k l)
  pub count : g.total_alloc_count ≡ h.total_alloc_count

module _ (h : Heap) (ok : IsHeap h) (i j : ℕ) (carved : IsCarved h.pool i j) where
  abbrev pub slot : IsSlot h.pool i j
  slot = IsCarved-IsSlot h.pool i j ok.next_le carved

  pub found : pool_cell_state h.pool (address h.pool i j) ≡ some (i, j)
  found = pool_cell_state-address h.pool i j ok.laid slot

  module _ (s : ℕ) where
    abbrev pub after : Pool
    after = write_state h.pool i j s

    pub after-Alike : Alike h.pool after
    after-Alike = write_state-Alike h.pool i j s ok.laid slot

    pub after-states :
        (k l : ℕ) → state_at after k l ≡ (if same_slot i j k l then s else state_at h.pool k l)
    after-states = state_at-write_state h.pool i j s ok.laid slot

    pub after-elsewhere :
        (k l : ℕ) → same_slot i j k l ≡ false → state_at after k l ≡ state_at h.pool k l
    after-elsewhere k l other = after-states k l ∙ rw (other) refl

  -- A write at a cell that is not freed leaves the free list as it is.
  pub write-Written :
      (s : ℕ)
      → has (state_at h.pool i j) free ≡ false
      → Written h i j s (record h { pool = after s })
  unfolding write_state
  write-Written s live = record {
    heap = record {
      laid = Alike-IsLaid h.pool (after s) (after-Alike s) ok.laid;
      next_le = ok.next_le;
      ungrown = λ none_yet. ok.ungrown (sym (after-Alike s).slab_count ∙ none_yet);
      spare = ok.spare;
      chained =
          Chained-keep h.pool (after s) h.links h.links i j h.pool.free_list ok.spare
            (Alike-IsCarved h.pool (after s) (after-Alike s))
            (Alike-address h.pool (after s) (after-Alike s))
            (λ k l other flag. rw (after-elsewhere s k l other) flag) (λ k l _ other. refl)
            (Chained-Avoids h.pool h.links i j h.pool.free_list ok.spare live ok.chained)
            ok.chained;
    };
    alike = after-Alike s;
    states = after-states s;
    count = refl;
  }

  linked : ℕ → ℕ
  linked a = if address h.pool i j == a then h.pool.free_list else h.links a

  freed : Heap
  freed = record h { pool = record (after free) { free_list = address h.pool i j }; links = linked }

  freed-Alike : Alike h.pool freed.pool
  unfolding freed
  freed-Alike = Alike-head h.pool (after free) (address h.pool i j) (after-Alike free)

  freed-state : has (state_at freed.pool i j) free ≡ true
  unfolding freed has
  freed-state =
      let self : same_slot i j i j ≡ true = ground arith in
      let here : state_at (after free) i j ≡ free = after-states free i j ∙ rw (self) refl in
      ap (λ (s : ℕ). has s free) here

  linked-elsewhere :
      (k l : ℕ)
      → IsCarved h.pool k l
      → same_slot i j k l ≡ false
      → linked (address h.pool k l) ≡ h.links (address h.pool k l)
  unfolding linked
  linked-elsewhere k l there other =
      let apart =
        address-ne h.pool i j k l ok.laid slot (IsCarved-IsSlot h.pool k l ok.next_le there)
          other in
      rw (unequal _ _ apart) refl

  linked-here : linked (address h.pool i j) ≡ h.pool.free_list
  unfolding linked
  linked-here =
      let self : (address h.pool i j == address h.pool i j) ≡ true = (==_iff _ _).1 refl in
      rw (self) refl

  freed-Chained :
      has (state_at h.pool i j) free ≡ false
      → Chained freed.pool linked (address h.pool i j) ((i, j) ∷ ok.spare)
  unfolding freed Chained
  freed-Chained live =
      let avoids = Chained-Avoids h.pool h.links i j h.pool.free_list ok.spare live ok.chained in
      (
        Alike-IsCarved h.pool freed.pool freed-Alike i j carved,
        freed-state,
        sym (Alike-address h.pool freed.pool freed-Alike i j),
        avoids,
        subst (λ (a : ℕ). Chained freed.pool linked a ok.spare)
            (sym (ap linked (Alike-address h.pool freed.pool freed-Alike i j) ∙ linked-here))
            (Chained-keep h.pool freed.pool h.links linked i j h.pool.free_list ok.spare
              (Alike-IsCarved h.pool freed.pool freed-Alike)
              (Alike-address h.pool freed.pool freed-Alike)
              (λ k l other flag. rw (after-elsewhere free k l other) flag) linked-elsewhere avoids
              ok.chained),
      )

  -- What freeing the cell owes: the write of POOL_FREE, and the cell at the head of the free list, with the list
  -- there was behind it.
  pub record CellFreed (g : Heap) : Type 0 where
    pub written : Written h i j free g
    pub head : g.pool.free_list ≡ address h.pool i j
    pub next : g.links (address h.pool i j) ≡ h.pool.free_list
    pub others : (a : ℕ) → a ≢ address h.pool i j → g.links a ≡ h.links a
    pub spare : written.heap.spare ≡ (i, j) ∷ ok.spare

  linked-other : (a : ℕ) → a ≢ address h.pool i j → linked a ≡ h.links a
  unfolding linked
  linked-other a other =
      let apart : (address h.pool i j == a) ≡ false = unequal _ _ (λ e. other (sym e)) in
      rw (apart) refl

  -- On a heap in order `pool_free` of a cell that has been handed out and is not freed returns. The cell is
  -- then at the head of the free list, with the list that there was behind it, and the links of all other
  -- cells are as they were. Its state byte is POOL_FREE, whatever it was, every other byte is as it
  -- was, addresses stay, and the heap is in order.
  pub pool_free-CellFreed :
      has (state_at h.pool i j) free ≡ false
      → (g : Heap) × (pool_free h (address h.pool i j) ≡ some g) × CellFreed g
  unfolding pool_free freed linked write_state
  pool_free-CellFreed live = (
    freed,
    rw (found) refl,
    record {
      written = record {
        heap = record {
          laid = Alike-IsLaid h.pool freed.pool freed-Alike ok.laid;
          next_le = ok.next_le;
          ungrown = λ none_yet. ok.ungrown (sym freed-Alike.slab_count ∙ none_yet);
          spare = (i, j) ∷ ok.spare;
          chained = freed-Chained live;
        };
        alike = freed-Alike;
        states = after-states free;
        count = refl;
      };
      head = refl;
      next = linked-here;
      others = linked-other;
      spare = refl;
    },
  )

  pub pool_free-Written :
      has (state_at h.pool i j) free ≡ false
      → (g : Heap) × (pool_free h (address h.pool i j) ≡ some g) × Written h i j free g
  pool_free-Written live = let (g, run, done) = pool_free-CellFreed live in (g, run, done.written)
