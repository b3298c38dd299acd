-- ===== src/Pool/Mark.antt =====
-- `pool_mark`: the bits of the state bytes.
use mathlib.Core.Path.{ap₂, subst}
use aer.Base.{
  ℕ, ◌≡◌, refl, sym, ap, ◌∙◌, inl, inr, Bool, true, false, ◌||◌, some, Bool-cases, bit_or,
}
use aer.Pool.Bytes.{marked_lem}
use aer.Pool.Chain.{IsCarved, IsCarved-IsSlot, IsHeap, same_slot-true}
use aer.Pool.Marks.{Changed-IsHeap, write-Changed}
use aer.Pool.Slots.{same_slot, pool_cell_state-address}
use aer.Pool.State.{Alike, Alike-refl}
use aer.Pool.{
  Pool, Heap, free, old, marked, remembered, has, state_at, write_state, address, pool_mark,
}

-- The bits of a byte but the mark.
pub record SameBits (s t : ℕ) : Type 0 where
  pub same_free : has t free ≡ has s free
  pub same_old : has t old ≡ has s old
  pub same_remembered : has t remembered ≡ has s remembered

pub SameBits-refl : (s : ℕ) → SameBits s s
SameBits-refl s = record { same_free = refl; same_old = refl; same_remembered = refl }

pub SameBits-trans : (s t u : ℕ) → SameBits s t → SameBits t u → SameBits s u
SameBits-trans s t u a b = record {
  same_free = b.same_free ∙ a.same_free;
  same_old = b.same_old ∙ a.same_old;
  same_remembered = b.same_remembered ∙ a.same_remembered;
}

-- The pool `q` is `p` with the marks of a region set.
pub record Marked (region : ℕ → ℕ → Bool) (h : Heap) (q : Pool) : Type 0 where
  pub heap : IsHeap (record h { pool = q })
  pub alike : Alike h.pool q
  pub marks :
      (k l : ℕ) → has (state_at q k l) marked ≡ (has (state_at h.pool k l) marked || region k l)
  pub rest : (k l : ℕ) → SameBits (state_at h.pool k l) (state_at q k l)

module _ (h : Heap) (ok : IsHeap h) (i j : ℕ) (carved : IsCarved h.pool i j) where
  abbrev byte : ℕ
  byte = state_at h.pool i j

  abbrev set_mark : ℕ → ℕ
  set_mark s = bit_or s marked

  or_true : (b : Bool) → (b || true) ≡ true
  or_true true = refl
  or_true false = refl

  or_false : (b : Bool) → (b || false) ≡ b
  or_false true = refl
  or_false false = refl

  unset-Marked :
      has byte marked ≡ false
      → Marked (same_slot i j) h (write_state h.pool i j (bit_or byte marked))
  unset-Marked clear =
      let q : Pool = write_state h.pool i j (bit_or byte marked) in
      let c = write-Changed h ok i j carved set_mark in
      record {
        heap = Changed-IsHeap set_mark (same_slot i j) h q (λ s. (marked_lem s).2) ok c;
        alike = c.alike;
        marks = λ k l.
            ap (λ (s : ℕ). has s marked) (c.states k l) ∙ elim (Bool-cases (same_slot i j k l)) [
              | inl here ↦ rw (here) ((marked_lem (state_at h.pool k l)).0 ∙ sym (or_true _))
              | inr other ↦ rw (other) (sym (or_false _))
            ];
        rest = λ k l.
            subst (SameBits (state_at h.pool k l)) (sym (c.states k l))
              (elim (Bool-cases (same_slot i j k l)) [
                | inl here ↦
                    let (_, o, f, r) = marked_lem (state_at h.pool k l) in
                    rw (here) (record { same_free = f; same_old = o; same_remembered = r })
                | inr other ↦ rw (other) (SameBits-refl (state_at h.pool k l))
              ]);
      }

  set-Marked : has byte marked ≡ true → Marked (same_slot i j) h h.pool
  set-Marked on = record {
    heap = ok;
    alike = Alike-refl h.pool;
    marks = λ k l. elim (Bool-cases (same_slot i j k l)) [
      | inl here ↦
          let (slab, cell) = same_slot-true i j k l here in
          let there : has (state_at h.pool k l) marked ≡ true =
            ap (λ (s : ℕ). has s marked) (sym (ap₂ (state_at h.pool) slab cell)) ∙ on in
          rw (here, there) refl
      | inr other ↦ rw (other) (sym (or_false _))
    ];
    rest = λ k l. SameBits-refl (state_at h.pool k l);
  }

  -- On a heap in order `pool_mark` of a cell that has been handed out tells whether the cell was marked before. Afterwards it is marked
  -- and no other bit of any byte has changed.
  pub pool_mark-Marked :
      (q : Pool) × (pool_mark h.pool (address h.pool i j) ≡ some (has byte marked, q))
      × Marked (same_slot i j) h q
  unfolding pool_mark
  pool_mark-Marked =
      let found =
        pool_cell_state-address h.pool i j ok.laid (IsCarved-IsSlot h.pool i j ok.next_le carved) in
      elim (Bool-cases (has byte marked)) [
        | inl on ↦ (h.pool, rw (found, on) refl, set-Marked on)
        | inr off ↦
            (write_state h.pool i j (bit_or byte marked), rw (found, off) refl, unset-Marked off)
      ]
