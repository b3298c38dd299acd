-- ===== src/Pool/Alloc.antt =====
-- `pool_alloc`: a cell that is not in use, young and unmarked.
use mathlib.Core.Path.{subst}
use aer.Base.{
  ℕ, ◌+◌, ◌-◌, ◌%◌, ◌^◌, ◌≡◌, refl, sym, ap, ◌∙◌, inl, inr, true, false, List, [], ◌∷◌, some, arith,
  ◌==◌, ==_iff, if◌then◌else◌, Bool-cases, length,
}
use aer.Pool.Chain.{IsCarved, IsCarved-IsSlot, Alike-IsCarved, Chained, Chained-keep, IsHeap}
use aer.Pool.Grow.{IsFresh, HasRoom, room-HasRoom}
use aer.Pool.Slots.{IsLaid, IsSlot, same_slot, pool_cell_state-address}
use aer.Pool.State.{
  Alike, Alike-refl, Alike-trans, Alike-head, Alike-IsLaid, Alike-IsSlot, Alike-address,
  write_state-Alike, state_at-write_state,
}
use aer.Pool.{
  Pool, Heap, free, has, state_at, write_state, address, carved_count, pool_cell_state, reuse,
  carve, room, pool_alloc,
}

-- What an allocation from the pool `p` owes: `cell` was not in use, and nothing that was has changed.
pub record Allocated (p : Pool) (cell : ℕ) (g : Heap) : Type 0 where
  pub heap : IsHeap g
  pub slab : ℕ
  pub index : ℕ
  pub carved : IsCarved g.pool slab index
  pub at : cell ≡ address g.pool slab index
  pub born : state_at g.pool slab index ≡ 0
  pub unused : IsCarved p slab index → has (state_at p slab index) free ≡ true
  pub kept :
      (k l : ℕ)
      → IsCarved p k l
      → same_slot slab index k l ≡ false
      → IsCarved g.pool k l
        × (state_at g.pool k l ≡ state_at p k l)
        × (address g.pool k l ≡ address p k l)

module _ (h : Heap) (ok : IsHeap h) (count : ℕ) where
  abbrev counted : Heap
  counted = record h { total_alloc_count = count }

  -- The head of the free list is taken off.
  module _ (i j : ℕ) (rest : List (ℕ × ℕ))
      (chained : Chained h.pool h.links h.pool.free_list ((i, j) ∷ rest)) where
    abbrev popped : Pool
    popped = record h.pool { free_list = h.links h.pool.free_list }

    popped-Alike : Alike h.pool popped
    popped-Alike = Alike-head h.pool h.pool (h.links h.pool.free_list) (Alike-refl h.pool)

    popped-IsLaid : IsLaid popped
    popped-IsLaid = Alike-IsLaid h.pool popped popped-Alike ok.laid

    in_use : IsCarved h.pool i j
    unfolding Chained
    in_use = chained.0

    slot : IsSlot popped i j
    slot =
        Alike-IsSlot h.pool popped popped-Alike i j (IsCarved-IsSlot h.pool i j ok.next_le in_use)

    abbrev taken : Pool
    taken = write_state popped i j 0

    taken-Alike : Alike h.pool taken
    taken-Alike =
        Alike-trans h.pool popped taken popped-Alike
          (write_state-Alike popped i j 0 popped-IsLaid slot)

    taken-states :
        (k l : ℕ) → state_at taken k l ≡ (if same_slot i j k l then 0 else state_at h.pool k l)
    taken-states = state_at-write_state popped i j 0 popped-IsLaid slot

    elsewhere : (k l : ℕ) → same_slot i j k l ≡ false → state_at taken k l ≡ state_at h.pool k l
    elsewhere k l other = taken-states k l ∙ rw (other) refl

    reuse-Allocated :
        (g : Heap) × (reuse counted h.pool.free_list ≡ some (h.pool.free_list, g))
        × Allocated h.pool h.pool.free_list g
        × (g.total_alloc_count ≡ count)
    unfolding reuse Chained write_state
    reuse-Allocated =
        let found : pool_cell_state h.pool h.pool.free_list ≡ some (i, j) =
          ap (pool_cell_state h.pool) chained.2
          ∙ pool_cell_state-address h.pool i j ok.laid
              (IsCarved-IsSlot h.pool i j ok.next_le in_use) in
        let self : same_slot i j i j ≡ true = ground arith in
        (
          record counted { pool = taken },
          rw (found) refl,
          record {
            heap = record {
              laid = Alike-IsLaid h.pool taken taken-Alike ok.laid;
              next_le = ok.next_le;
              ungrown = λ none_yet. ok.ungrown (sym taken-Alike.slab_count ∙ none_yet);
              spare = rest;
              chained =
                  subst (λ (a : ℕ). Chained taken h.links a rest) (sym (ap h.links chained.2))
                    (Chained-keep h.pool taken h.links h.links i j (h.links (address h.pool i j))
                      rest (Alike-IsCarved h.pool taken taken-Alike)
                      (Alike-address h.pool taken taken-Alike)
                      (λ k l other flag. rw (elsewhere k l other) flag) (λ k l _ other. refl)
                      chained.3 chained.4);
            };
            slab = i;
            index = j;
            carved = Alike-IsCarved h.pool taken taken-Alike i j in_use;
            at = chained.2 ∙ sym (Alike-address h.pool taken taken-Alike i j);
            born = taken-states i j ∙ rw (self) refl;
            unused = λ _. chained.1;
            kept = λ k l there other. (
              Alike-IsCarved h.pool taken taken-Alike k l there,
              elsewhere k l other,
              Alike-address h.pool taken taken-Alike k l,
            );
          },
          refl,
        )

  -- A free list that is not NULL has a head.
  reuse_any :
      (spare : List (ℕ × ℕ))
      → Chained h.pool h.links h.pool.free_list spare
      → (h.pool.free_list == 0) ≡ false
      → (g : Heap) × (reuse counted h.pool.free_list ≡ some (h.pool.free_list, g))
        × Allocated h.pool h.pool.free_list g
        × (g.total_alloc_count ≡ count)
  unfolding Chained
  reuse_any [] c listed = let null : (h.pool.free_list == 0) ≡ true = (==_iff _ _).1 c in cc
  reuse_any ((i, j) ∷ rest) c listed = reuse-Allocated i j rest c

  -- Without a free list the next cell of the last slab is handed out.
  module _ (q : Pool) (space : HasRoom h.pool q) where
    abbrev last : ℕ
    last = length q.slabs - 1

    last_slot : IsSlot q last q.next_index
    last_slot = (omega (arith, space.some_slab), space.room_left)

    abbrev cut : Pool
    cut = write_state q last q.next_index 0

    cut-Alike : Alike q cut
    cut-Alike = write_state-Alike q last q.next_index 0 space.laid last_slot

    cut-IsLaid : IsLaid cut
    cut-IsLaid = Alike-IsLaid q cut cut-Alike space.laid

    abbrev longer : Pool
    longer = record cut { next_index = q.next_index + 1 }

    longer-IsLaid : IsLaid longer
    longer-IsLaid = record {
      sized = cut-IsLaid.sized;
      filled = cut-IsLaid.filled;
      widths = cut-IsLaid.widths;
      apart = cut-IsLaid.apart;
      based = cut-IsLaid.based;
    }

    longer-count :
        (k : ℕ)
        → carved_count longer k
          ≡ (if k + 1 == length q.slabs then q.next_index + 1 else q.elems_per_slab)
    unfolding write_state
    longer-count k = rw (cut-Alike.slab_count) refl

    longer-IsCarved : (k l : ℕ) → IsCarved q k l → IsCarved longer k l
    unfolding write_state
    longer-IsCarved k l (hk, hl) =
        let counted = longer-count k in (omega (arith, cut-Alike.slab_count), ground arith)

    longer-last : IsCarved longer last q.next_index
    unfolding write_state
    longer-last =
        let counted = longer-count last in
        let end : (last + 1 == length q.slabs) ≡ true =
          (==_iff _ _).1 (omega (arith, space.some_slab)) in
        (omega (arith, cut-Alike.slab_count, space.some_slab), ground arith)

    carve-Allocated :
        h.pool.free_list ≡ 0 → Allocated h.pool (carve counted q last).0 (carve counted q last).1
    unfolding carve Chained write_state
    carve-Allocated none_free =
        let states = state_at-write_state q last q.next_index 0 space.laid last_slot in
        let self : same_slot last q.next_index last q.next_index ≡ true = ground arith in
        record {
          heap = record {
            laid = longer-IsLaid;
            next_le = omega (arith, cut-Alike.per_slab, space.room_left);
            ungrown = λ none_yet. absurd (omega (arith, cut-Alike.slab_count, space.some_slab));
            spare = [];
            chained = space.same_head ∙ none_free;
          };
          slab = last;
          index = q.next_index;
          carved = longer-last;
          at = sym (Alike-address q cut cut-Alike last q.next_index);
          born = states last q.next_index ∙ rw (self) refl;
          unused = λ there. absurd (space.unused there);
          kept = λ k l there other. (
            longer-IsCarved k l (space.carved k l there),
            states k l ∙ rw (other) (space.states k l there),
            Alike-address q cut cut-Alike k l ∙ space.addresses k l there,
          );
        }

-- `pool_alloc` on a heap in order returns, given memory for one more slab apart from the others: a cell that was
-- freed or never handed out, with a state byte of 0. Every other cell keeps its address and its state, the
-- free list stays in order, and the count of allocations goes up by one, modulo 2^32.
pub pool_alloc-Allocated :
    (h : Heap) (fresh : ℕ)
    → IsHeap h
    → IsFresh h.pool fresh
    → (cell : ℕ) × (g : Heap) × (pool_alloc fresh h ≡ some (cell, g))
      × Allocated h.pool cell g
      × (g.total_alloc_count ≡ (h.total_alloc_count + 1) % 2 ^ 32)
unfolding pool_alloc carve
pool_alloc-Allocated h fresh ok new =
    let count : ℕ = (h.total_alloc_count + 1) % 2 ^ 32 in
    elim (Bool-cases (h.pool.free_list == 0)) [
      | inl none_free ↦
          let space = room-HasRoom h.pool fresh ok.laid new ok.next_le ok.ungrown in
          let r : ℕ × Heap =
            carve (counted h ok count) (room fresh h.pool) (length (room fresh h.pool).slabs - 1) in
          (
            r.0,
            r.1,
            rw (none_free) refl,
            carve-Allocated h ok count (room fresh h.pool) space ((==_iff _ _).0 none_free),
            refl,
          )
      | inr listed ↦
          let (g, run, result, counts) = reuse_any h ok count ok.spare ok.chained listed in
          (h.pool.free_list, g, rw (listed) run, result, counts)
    ]
