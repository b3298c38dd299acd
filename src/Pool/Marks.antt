-- ===== src/Pool/Marks.antt =====
-- `pool_mark`, `pool_promote`, `pool_mark_remembered` and `pool_clear_marks`: bits other than that of a freed cell.
use aer.Base.{
  ℕ, zero, suc, ◌+◌, ◌≤◌, ◌<◌, ◌≡◌, refl, sym, ap, ◌∙◌, inl, inr, Bool, true, false, List, [], ◌∷◌,
  arith, if◌then◌else◌, Bool-cases, length,
}
use mathlib.Core.Path.{ap₂, subst}
use aer.Pool.Bytes.{unmarked_lem}
use aer.Pool.Chain.{IsCarved, IsCarved-IsSlot, Alike-IsCarved, Chained, IsHeap, same_slot-true}
use aer.Pool.Slots.{same_slot}
use aer.Pool.State.{
  Alike, Alike-refl, Alike-trans, Alike-address, Alike-IsLaid, Alike-carved_count,
  write_state-Alike, state_at-write_state,
}
use aer.Pool.Regions.{cells_from, slabs_from, rows, rows_first, rows_later, rows_none}
use aer.Pool.{
  Pool, Heap, free, unmarked, has, state_at, write_state, address, carved_count, clear_cells,
  clear_slabs,
}

-- Pools alike whose freed cells stay freed have the same free list.
Chained-flags :
    (p q : Pool) (links : ℕ → ℕ) (head : ℕ) (spare : List (ℕ × ℕ))
    → Alike p q
    → ((k l : ℕ) → has (state_at q k l) free ≡ has (state_at p k l) free)
    → Chained p links head spare
    → Chained q links head spare
unfolding Chained
Chained-flags p q links head [] a flags c = c
Chained-flags p q links head ((i, j) ∷ rest) a flags c = (
  Alike-IsCarved p q a i j c.0,
  flags i j ∙ c.1,
  c.2 ∙ sym (Alike-address p q a i j),
  c.3,
  rw (Alike-address p q a i j) (Chained-flags p q links (links (address p i j)) rest a flags c.4),
)

-- The pool `q` is `p` with the bytes of a region changed by `f`.
pub record Changed (f : ℕ → ℕ) (region : ℕ → ℕ → Bool) (p q : Pool) : Type 0 where
  pub alike : Alike p q
  pub head : q.free_list ≡ p.free_list
  pub states :
      (k l : ℕ) → state_at q k l ≡ (if region k l then f (state_at p k l) else state_at p k l)

-- A change that leaves the bit of freed cells keeps the free list in order.
pub Changed-IsHeap :
    (f : ℕ → ℕ) (region : ℕ → ℕ → Bool) (h : Heap) (q : Pool)
    → ((s : ℕ) → has (f s) free ≡ has s free)
    → IsHeap h
    → Changed f region h.pool q
    → IsHeap (record h { pool = q })
Changed-IsHeap f region h q keeps ok c = record {
  laid = Alike-IsLaid h.pool q c.alike ok.laid;
  next_le = omega (arith, c.alike.next, c.alike.per_slab, ok.next_le);
  ungrown = λ none_yet.
      c.alike.next ∙ ok.ungrown (sym c.alike.slab_count ∙ none_yet) ∙ sym c.alike.per_slab;
  spare = ok.spare;
  chained =
      subst (λ (a : ℕ). Chained q h.links a ok.spare) (sym c.head)
        (Chained-flags h.pool q h.links h.pool.free_list ok.spare c.alike
          (λ k l. ap (λ (s : ℕ). has s free) (c.states k l) ∙ elim (Bool-cases (region k l)) [
            | inl inside ↦ rw (inside) (keeps (state_at h.pool k l))
            | inr outside ↦ rw (outside) refl
          ])
          ok.chained);
}

module _ (h : Heap) (ok : IsHeap h) (i j : ℕ) (carved : IsCarved h.pool i j) where
  pub write-Changed :
      (f : ℕ → ℕ)
      → Changed f (same_slot i j) h.pool (write_state h.pool i j (f (state_at h.pool i j)))
  unfolding write_state
  write-Changed f =
      let slot = IsCarved-IsSlot h.pool i j ok.next_le carved in
      let t : ℕ = f (state_at h.pool i j) in
      record {
        alike = write_state-Alike h.pool i j t ok.laid slot;
        head = refl;
        states = λ k l.
            state_at-write_state h.pool i j t ok.laid slot k l
            ∙ elim (Bool-cases (same_slot i j k l)) [
              | inl here ↦
                  let (slab, cell) = same_slot-true i j k l here in
                  rw (here) (ap f (ap₂ (state_at h.pool) slab cell))
              | inr other ↦ rw (other) refl
            ];
      }

Changed-join :
    (f : ℕ → ℕ) (first second both : ℕ → ℕ → Bool) (p q r : Pool)
    → ((k l : ℕ) → first k l ≡ true → (second k l ≡ false) × (both k l ≡ true))
    → ((k l : ℕ) → first k l ≡ false → both k l ≡ second k l)
    → Changed f first p q
    → Changed f second q r
    → Changed f both p r
Changed-join f first second both p q r here elsewhere a b = record {
  alike = Alike-trans p q r a.alike b.alike;
  head = b.head ∙ a.head;
  states = λ k l. b.states k l ∙ elim (Bool-cases (first k l)) [
    | inl inside ↦ let (off, on) = here k l inside in rw (off, on) (a.states k l ∙ rw (inside) refl)
    | inr outside ↦
        let same : state_at q k l ≡ state_at p k l = a.states k l ∙ rw (outside) refl in
        rw (same, elsewhere k l outside) refl
  ];
}

clear_cells-Changed :
    (n : ℕ) (h : Heap) (i j : ℕ)
    → IsHeap h
    → i < length h.pool.slabs
    → j + n ≤ carved_count h.pool i
    → Changed unmarked (cells_from n i j) h.pool (clear_cells n h.pool i j)
unfolding clear_cells
clear_cells-Changed zero h i j ok inside below = record {
  alike = Alike-refl h.pool;
  head = refl;
  states = λ k l. let nowhere : cells_from 0 i j k l ≡ false = ground arith in rw (nowhere) refl;
}
clear_cells-Changed (suc n) h i j ok inside below =
    let q : Pool = write_state h.pool i j (unmarked (state_at h.pool i j)) in
    let one = write-Changed h ok i j (inside, omega arith) unmarked in
    let ok' = Changed-IsHeap unmarked (same_slot i j) h q (λ s. (unmarked_lem s).2) ok one in
    let more =
      clear_cells-Changed n (record h { pool = q }) i (j + 1) ok'
        (omega (arith, one.alike.slab_count))
        (omega (arith, Alike-carved_count h.pool q one.alike i)) in
    Changed-join unmarked (same_slot i j) (cells_from n i (j + 1)) (cells_from (suc n) i j) h.pool q
      (clear_cells n q i (j + 1)) (λ k l on. (ground arith, ground arith)) (λ k l off. ground arith)
      one more

pub clear_slabs-Changed :
    (n : ℕ) (h : Heap) (i : ℕ)
    → IsHeap h
    → i + n ≤ length h.pool.slabs
    → Changed unmarked (slabs_from h.pool n i) h.pool (clear_slabs n h.pool i)
unfolding clear_slabs
clear_slabs-Changed zero h i ok below = record {
  alike = Alike-refl h.pool;
  head = refl;
  states = λ k l.
      let nowhere : slabs_from h.pool 0 i k l ≡ false = rows_none (carved_count h.pool k) i k l in
      rw (nowhere) refl;
}
clear_slabs-Changed (suc n) h i ok below =
    let count : ℕ = carved_count h.pool i in
    let q : Pool = clear_cells count h.pool i 0 in
    let one = clear_cells-Changed count h i 0 ok (omega arith) (omega arith) in
    let ok' = Changed-IsHeap unmarked (cells_from count i 0) h q (λ s. (unmarked_lem s).2) ok one in
    let more =
      clear_slabs-Changed n (record h { pool = q }) (i + 1) ok'
        (omega (arith, one.alike.slab_count)) in
    Changed-join unmarked (cells_from count i 0) (slabs_from q n (i + 1))
      (slabs_from h.pool (suc n) i) h.pool q (clear_slabs n q (i + 1))
      (λ k l on.
        rows_first count (carved_count h.pool k) (carved_count q k) n i k l
          (ap (carved_count h.pool)) on)
      (λ k l off.
        rows_later count (carved_count h.pool k) n i k l (ap (carved_count h.pool)) off
        ∙ ap (λ (d : ℕ). rows d n (i + 1) k l) (sym (Alike-carved_count h.pool q one.alike k)))
      one more
