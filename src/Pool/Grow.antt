-- ===== src/Pool/Grow.antt =====
-- `pool_grow`, and a pool with room for the next cell.
use aer.Base.{
  ℕ, ◌+◌, ◌-◌, ◌*◌, ◌≤◌, ◌<◌, ◌≡◌, ◌≢◌, refl, sym, ap, ◌∙◌, ◌⊎◌, inl, inr, true, [], ◌∷◌, arith,
  leb, ◌==◌, Bool-cases, length, length-append, length-replicate, replicate, get_or,
}
use aer.Base.Writes.{get_or-append, get_or-append_last}
use aer.Pool.Chain.{IsCarved}
use aer.Pool.Slots.{IsLaid}
use aer.Pool.{Slab, Pool, no_slab, slab_at, state_at, address, carved_count, pool_grow, room}

-- Memory at `fresh` for one more slab, apart from the slabs of the pool.
pub record IsFresh (p : Pool) (fresh : ℕ) : Type 0 where
  pub positive : 0 < fresh
  pub clear :
      (k : ℕ)
      → k < length p.slabs
      → (fresh + p.elem_size * p.elems_per_slab ≤ (slab_at p k).base)
        ⊎ ((slab_at p k).base + p.elem_size * p.elems_per_slab ≤ fresh)

-- A pool `q` with the cells of `p` and room for one that `p` has not handed out.
pub record HasRoom (p q : Pool) : Type 0 where
  pub laid : IsLaid q
  pub room_left : q.next_index < q.elems_per_slab
  pub some_slab : 0 < length q.slabs
  pub same_head : q.free_list ≡ p.free_list
  pub carved : (k l : ℕ) → IsCarved p k l → IsCarved q k l
  pub states : (k l : ℕ) → IsCarved p k l → state_at q k l ≡ state_at p k l
  pub addresses : (k l : ℕ) → IsCarved p k l → address q k l ≡ address p k l
  pub unused : IsCarved p (length q.slabs - 1) q.next_index → ⊥

swap : {A B : Type 0} → A ⊎ B → B ⊎ A
swap (inl a) = inr a
swap (inr b) = inl b

zero_or_more : (n : ℕ) → (n ≡ 0) ⊎ (0 < n)
zero_or_more n = omega arith

-- Of the last slab as many cells are in use as the next index says.
pub last_carved :
    (p : Pool) → 0 < length p.slabs → carved_count p (length p.slabs - 1) ≡ p.next_index
last_carved p h =
    let end : (length p.slabs - 1 + 1 == length p.slabs) ≡ true = ground arith in rw (end) refl

lt_or_eq : (k n : ℕ) → k < n + 1 → (k < n) ⊎ (k ≡ n)
lt_or_eq k n h = omega arith

module _ (p : Pool) (fresh : ℕ) (laid : IsLaid p) (new : IsFresh p fresh) where
  abbrev slab : Slab
  slab = record { base = fresh; states = replicate p.elems_per_slab 0 }

  abbrev grown : Pool
  grown = pool_grow fresh p

  grown-length : length grown.slabs ≡ length p.slabs + 1
  unfolding pool_grow
  grown-length = length-append p.slabs (slab ∷ [])

  old_slab : (k : ℕ) → k < length p.slabs → slab_at grown k ≡ slab_at p k
  unfolding pool_grow
  old_slab k h = get_or-append p.slabs (slab ∷ []) k no_slab h

  new_slab : (k : ℕ) → k ≡ length p.slabs → slab_at grown k ≡ slab
  unfolding pool_grow
  new_slab k h = ap (λ (n : ℕ). slab_at grown n) h ∙ get_or-append_last p.slabs slab no_slab

  grown-widths :
      (i : ℕ) → i < length p.slabs + 1 → length (slab_at grown i).states ≡ p.elems_per_slab
  grown-widths i h = elim (lt_or_eq i (length p.slabs) h) [
    | inl older ↦ rw (old_slab i older) (laid.widths i older)
    | inr last ↦ rw (new_slab i last) (length-replicate p.elems_per_slab 0)
  ]

  grown-based : (i : ℕ) → i < length p.slabs + 1 → 0 < (slab_at grown i).base
  grown-based i h = elim (lt_or_eq i (length p.slabs) h) [
    | inl older ↦ rw (old_slab i older) (laid.based i older)
    | inr last ↦ rw (new_slab i last) new.positive
  ]

  grown-apart :
      (i k : ℕ)
      → i < length p.slabs + 1
      → k < length p.slabs + 1
      → i ≢ k
      → ((slab_at grown i).base + p.elem_size * p.elems_per_slab ≤ (slab_at grown k).base)
        ⊎ ((slab_at grown k).base + p.elem_size * p.elems_per_slab ≤ (slab_at grown i).base)
  grown-apart i k hi hk other = elim (lt_or_eq i (length p.slabs) hi) [
    | inl older ↦ elim (lt_or_eq k (length p.slabs) hk) [
      | inl older' ↦ rw (old_slab i older, old_slab k older') (laid.apart i k older older' other)
      | inr last ↦ rw (old_slab i older, new_slab k last) (swap (new.clear i older))
    ]
    | inr last ↦ elim (lt_or_eq k (length p.slabs) hk) [
      | inl older ↦ rw (new_slab i last, old_slab k older) (new.clear k older)
      | inr last' ↦ absurd (other (last ∙ sym last'))
    ]
  ]

  grown-IsLaid : IsLaid grown
  unfolding pool_grow
  grown-IsLaid =
      let n = grown-length in
      record {
        sized = laid.sized;
        filled = laid.filled;
        widths = λ i h. grown-widths i (omega arith);
        apart = λ i k hi hk other. grown-apart i k (omega arith) (omega arith) other;
        based = λ i h. grown-based i (omega arith);
      }

  grown-HasRoom : p.elems_per_slab ≡ p.next_index → HasRoom p grown
  unfolding pool_grow
  grown-HasRoom full =
      let n = grown-length in
      record {
        laid = grown-IsLaid;
        room_left = laid.filled;
        some_slab = omega arith;
        same_head = refl;
        carved = λ k l h. (omega arith, ground arith);
        states = λ k l h. ap (λ (x : Slab). get_or x.states l 0) (old_slab k h.0);
        addresses = λ k l h. ap (λ (x : Slab). x.base + l * p.elem_size) (old_slab k h.0);
        unused = λ h. omega arith;
      }

-- `pool_alloc` has such a pool, growing it if the last slab is full.
pub room-HasRoom :
    (p : Pool) (fresh : ℕ)
    → IsLaid p
    → IsFresh p fresh
    → p.next_index ≤ p.elems_per_slab
    → (length p.slabs ≡ 0 → p.next_index ≡ p.elems_per_slab)
    → HasRoom p (room fresh p)
unfolding room
room-HasRoom p fresh laid new le ungrown = elim (Bool-cases (leb p.elems_per_slab p.next_index)) [
  | inl full ↦ rw (full) (grown-HasRoom p fresh laid new (ground arith))
  | inr space ↦
      let less : p.next_index < p.elems_per_slab = ground arith in
      let some_slab : 0 < length p.slabs = elim (zero_or_more (length p.slabs)) [
        | inl no_slabs ↦ absurd (omega (arith, ungrown no_slabs))
        | inr more ↦ more
      ] in
      rw (space) (record {
        laid = laid;
        room_left = less;
        some_slab = some_slab;
        same_head = refl;
        carved = λ k l h. h;
        states = λ k l h. refl;
        addresses = λ k l h. refl;
        unused = λ h. let last = last_carved p some_slab in omega (arith, h.1);
      })
]
