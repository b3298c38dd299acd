-- ===== src/HashTable/Loops.antt =====
-- The three probe loops of the table end at the place of the key.
use native.Mathlib.Nat.{pow-le-pow_right}
use aer.Base.{ℕ, zero, suc, ◌+◌, ◌%◌, ◌^◌, ◌≤◌, ◌<◌, ◌≡◌, ap, ◌∙◌, ◌⊎◌, inl, inr, arith, length}
use aer.Base.Bytes.{Bytes}
use aer.Hash.{hash_key}
use aer.HashTable.Live.{
  occupied, IsShaped, free_slot, matches-true, matches-false, landed, found_at,
}
use aer.HashTable.Ring.{walk, dist, dist-lt, walk-dist, walk-eq-mod}
use aer.HashTable.Search.{home, home-lt, Site, site, probe-walk}
use aer.HashTable.{HashTable, bucket, insert, probe, get_from, find_from}

le_cases : (a b : ℕ) → a ≤ b → (a < b) ⊎ (a ≡ b)
le_cases a b h = omega arith

module _ {ℓ} {V : Type ℓ} (t : HashTable V) (shape : IsShaped t) (k : Bytes) where
  pub positive : 0 < t.capacity
  positive = omega arith

  pub capacity_le : t.capacity ≤ 2 ^ 31
  capacity_le = rw shape.power (pow-le-pow_right (omega arith) shape.exponent_le)

  abbrev pub Place : Type ℓ
  Place = Site t.capacity (home t.capacity) (home-lt t.capacity positive) (bucket t) k

  -- A table of this shape has a place for every key.
  pub place_of : Place
  place_of =
      let room : occupied t.buckets < length t.buckets = omega (arith, shape.spare) in
      let (p, inside, free) = free_slot t.buckets room in
      site t.capacity (home t.capacity) (home-lt t.capacity positive) (bucket t) k p
        (omega (arith, shape.width)) free

  probe_here :
      (i : ℕ)
      → i < t.capacity
      → probe t.capacity (hash_key k) i ≡ walk t.capacity (home t.capacity k) i
  unfolding home
  probe_here i h =
      rw shape.power
        (probe-walk shape.exponent (hash_key k) i shape.exponent_le (rw shape.power at h))

  module _ (s : Place) where
    abbrev far : ℕ
    far = dist t.capacity (home t.capacity k) s.place

    far-lt : far < t.capacity
    far-lt =
        dist-lt t.capacity (home t.capacity k) s.place (home-lt t.capacity positive k)
          s.reached.inside

    probe_there : probe t.capacity (hash_key k) far ≡ s.place
    probe_there =
        probe_here far far-lt
        ∙ walk-dist t.capacity (home t.capacity k) s.place (home-lt t.capacity positive k)
            s.reached.inside

    -- The loop of `hashtable_put` ends at the place.
    pub insert-landed :
        (v : V) (n i : ℕ)
        → i + n ≡ t.capacity
        → i ≤ far
        → insert t (hash_key k) k v n i ≡ landed t s.place k v (bucket t s.place)
    unfolding insert landed
    insert-landed v zero i e h = let f = far-lt in absurd (omega arith)
    insert-landed v (suc n) i e h = elim (le_cases i far h) [
      | inl less ↦
          let (f, full, other) = s.reached.passes i less in
          let l = far-lt in
          rw
            (
              probe_here i (omega arith),
              full,
              matches-false f k (shape.lengths _ f full) other,
              insert,
            )
            (insert-landed v n (i + 1) (omega arith) (omega arith))
      | inr same ↦
          let here : probe t.capacity (hash_key k) i ≡ s.place =
            ap (probe t.capacity (hash_key k)) same ∙ probe_there in
          elim s.content [
            | inl free ↦ rw (here, free, insert) (rw here)
            | inr (f, full, mine) ↦
                rw (here, full, matches-true f k (shape.lengths _ f full) mine, insert) (rw here)
          ]
    ]

    -- The loop of `hashtable_get` ends at the place.
    pub get_from-found_at :
        (n i : ℕ)
        → i + n ≡ t.capacity
        → i ≤ far
        → get_from t (hash_key k) k n i ≡ found_at s.place (bucket t s.place)
    unfolding get_from found_at
    get_from-found_at zero i e h = let f = far-lt in absurd (omega arith)
    get_from-found_at (suc n) i e h = elim (le_cases i far h) [
      | inl less ↦
          let (f, full, other) = s.reached.passes i less in
          let l = far-lt in
          rw
            (
              probe_here i (omega arith),
              full,
              matches-false f k (shape.lengths _ f full) other,
              get_from,
            )
            (get_from-found_at n (i + 1) (omega arith) (omega arith))
      | inr same ↦
          let here : probe t.capacity (hash_key k) i ≡ s.place =
            ap (probe t.capacity (hash_key k)) same ∙ probe_there in
          elim s.content [
            | inl free ↦ rw (here, free, get_from)
            | inr (f, full, mine) ↦
                rw (here, full, matches-true f k (shape.lengths _ f full) mine, get_from) (rw here)
          ]
    ]

    -- In `hashtable_remove` the start is reduced before the sum, and the sum wraps at 32 bits.
    remove_here :
        (i : ℕ)
        → i < t.capacity
        → (home t.capacity k % 2 ^ 32 + i) % 2 ^ 32 % t.capacity
          ≡ walk t.capacity (home t.capacity k) i
    remove_here i h =
        let inside = home-lt t.capacity positive k in
        let bound = capacity_le in
        let flat : (home t.capacity k % 2 ^ 32 + i) % 2 ^ 32 ≡ home t.capacity k + i =
          omega arith in
        ap (λ (j : ℕ). j % t.capacity) flat
        ∙ walk-eq-mod t.capacity (home t.capacity k) i inside (omega arith)

    -- The search loop of `hashtable_remove` ends at the place.
    pub find_from-found_at :
        (n i : ℕ)
        → i + n ≡ t.capacity
        → i ≤ far
        → find_from t k (home t.capacity k % 2 ^ 32) n i ≡ found_at s.place (bucket t s.place)
    unfolding find_from found_at
    find_from-found_at zero i e h = let f = far-lt in absurd (omega arith)
    find_from-found_at (suc n) i e h = elim (le_cases i far h) [
      | inl less ↦
          let (f, full, other) = s.reached.passes i less in
          let l = far-lt in
          rw
            (
              remove_here i (omega arith),
              full,
              matches-false f k (shape.lengths _ f full) other,
              find_from,
            )
            (find_from-found_at n (i + 1) (omega arith) (omega arith))
      | inr same ↦
          let here : (home t.capacity k % 2 ^ 32 + i) % 2 ^ 32 % t.capacity ≡ s.place =
            ap (λ (j : ℕ). (home t.capacity k % 2 ^ 32 + j) % 2 ^ 32 % t.capacity) same
            ∙ remove_here far far-lt
            ∙ walk-dist t.capacity (home t.capacity k) s.place (home-lt t.capacity positive k)
                s.reached.inside in
          elim s.content [
            | inl free ↦ rw (here, free, find_from)
            | inr (f, full, mine) ↦
                rw (here, full, matches-true f k (shape.lengths _ f full) mine, find_from) (rw here)
          ]
    ]
