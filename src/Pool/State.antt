-- ===== src/Pool/State.antt =====
-- A write of one state byte: the other bytes stay, and so does the layout.
use mathlib.Core.Path.{ap₂}
use aer.Base.{
  ℕ, ◌+◌, ◌*◌, ◌≡◌, refl, sym, ap, ◌∙◌, inl, inr, arith, ◌==◌, ==_iff, if◌then◌else◌, Bool-cases,
  length, length-set, get_or, set,
}
use aer.Base.Writes.{get_or-set}
use aer.Pool.Slots.{IsLaid, IsSlot, same_slot}
use aer.Pool.{Slab, Pool, no_slab, slab_at, state_at, write_state, address, carved_count}

-- Two pools that differ in their state bytes and their free list at most.
pub record Alike (p q : Pool) : Type 0 where
  pub slab_count : length q.slabs ≡ length p.slabs
  pub base : (k : ℕ) → (slab_at q k).base ≡ (slab_at p k).base
  pub width : (k : ℕ) → length (slab_at q k).states ≡ length (slab_at p k).states
  pub next : q.next_index ≡ p.next_index
  pub size : q.elem_size ≡ p.elem_size
  pub per_slab : q.elems_per_slab ≡ p.elems_per_slab

pub Alike-refl : (p : Pool) → Alike p p
Alike-refl p = record {
  slab_count = refl;
  base = λ k. refl;
  width = λ k. refl;
  next = refl;
  size = refl;
  per_slab = refl;
}

pub Alike-trans : (p q r : Pool) → Alike p q → Alike q r → Alike p r
Alike-trans p q r a b = record {
  slab_count = b.slab_count ∙ a.slab_count;
  base = λ k. b.base k ∙ a.base k;
  width = λ k. b.width k ∙ a.width k;
  next = b.next ∙ a.next;
  size = b.size ∙ a.size;
  per_slab = b.per_slab ∙ a.per_slab;
}

-- The head of the free list is no part of the layout.
pub Alike-head : (p q : Pool) (a : ℕ) → Alike p q → Alike p (record q { free_list = a })
Alike-head p q a alike = record {
  slab_count = alike.slab_count;
  base = alike.base;
  width = alike.width;
  next = alike.next;
  size = alike.size;
  per_slab = alike.per_slab;
}

pub Alike-address : (p q : Pool) → Alike p q → (i j : ℕ) → address q i j ≡ address p i j
Alike-address p q a i j = ap₂ (λ (b n : ℕ). b + j * n) (a.base i) a.size

pub Alike-IsSlot : (p q : Pool) → Alike p q → (i j : ℕ) → IsSlot p i j → IsSlot q i j
Alike-IsSlot p q a i j (hi, hj) = (omega (arith, a.slab_count), omega (arith, a.per_slab))

pub Alike-carved_count : (p q : Pool) → Alike p q → (i : ℕ) → carved_count q i ≡ carved_count p i
Alike-carved_count p q a i = rw (a.slab_count, a.next, a.per_slab) refl

pub Alike-IsLaid : (p q : Pool) → Alike p q → IsLaid p → IsLaid q
Alike-IsLaid p q a laid =
    let n = a.slab_count in
    record {
      sized = rw (a.size) laid.sized;
      filled = rw (a.per_slab) laid.filled;
      widths = λ i h. a.width i ∙ laid.widths i (omega arith) ∙ sym a.per_slab;
      apart = λ i k hi hk other.
          rw (a.base i, a.base k, a.size, a.per_slab)
            (laid.apart i k (omega arith) (omega arith) other);
      based = λ i h. rw (a.base i) (laid.based i (omega arith));
    }

module _ (p : Pool) (i j s : ℕ) (laid : IsLaid p) (slot : IsSlot p i j) where
  abbrev written : Slab
  written = record (slab_at p i) { states = set (slab_at p i).states j s }

  slab_at-write_state :
      (k : ℕ) → slab_at (write_state p i j s) k ≡ (if i == k then written else slab_at p k)
  unfolding write_state
  slab_at-write_state k = get_or-set p.slabs i k written no_slab slot.0

  pub write_state-Alike : Alike p (write_state p i j s)
  unfolding write_state
  write_state-Alike = record {
    slab_count = length-set p.slabs i written;
    base = λ k. ap (λ (x : Slab). x.base) (slab_at-write_state k) ∙ elim (Bool-cases (i == k)) [
      | inl same ↦
          let here : i ≡ k = (==_iff i k).0 same in
          rw (same) (ap (λ (x : ℕ). (slab_at p x).base) here)
      | inr other ↦ rw (other) refl
    ];
    width = λ k.
        ap (λ (x : Slab). length x.states) (slab_at-write_state k) ∙ elim (Bool-cases (i == k)) [
          | inl same ↦
              let here : i ≡ k = (==_iff i k).0 same in
              rw (same) (
                length-set (slab_at p i).states j s
                ∙ ap (λ (x : ℕ). length (slab_at p x).states) here)
          | inr other ↦ rw (other) refl
        ];
    next = refl;
    size = refl;
    per_slab = refl;
  }

  -- The byte that was written, and every other byte.
  pub state_at-write_state :
      (k l : ℕ)
      → state_at (write_state p i j s) k l ≡ (if same_slot i j k l then s else state_at p k l)
  state_at-write_state k l =
      ap (λ (x : Slab). get_or x.states l 0) (slab_at-write_state k) ∙ elim (Bool-cases (i == k)) [
        | inl same ↦
            let here : i ≡ k = (==_iff i k).0 same in
            let wide = laid.widths i slot.0 in
            rw (same) (
              get_or-set (slab_at p i).states j l s 0 (omega (arith, slot.1))
              ∙ ap (λ (x : ℕ). if j == l then s else state_at p x l) here)
        | inr other ↦ rw (other) refl
      ]
