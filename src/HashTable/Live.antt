-- ===== src/HashTable/Live.antt =====
-- The invariant of an allocated table, and its probe loops in terms of the place they stop at.
use aer.Base.{
  ℕ, zero, suc, ◌+◌, ◌*◌, ◌%◌, ◌^◌, ◌≤◌, ◌<◌, ◌≡◌, ◌≢◌, refl, inl, inr, List, [], ◌∷◌, ◌++◌, none,
  some, Option, arith, Bool-cases, length, get_or, set, true, false,
}
use aer.Base.Bytes.{Bytes}
use aer.Hash.{hash_match_iff, strlen32}
use aer.HashTable.Placement.{update, IsPlaced, IsUnique}
use aer.HashTable.Search.{home}
use aer.HashTable.{
  HashTableEntry, Bucket, HashTable, Freed, key_of, bucket, put_bucket, matches, free_payload,
}

module _ {ℓ} {V : Type ℓ} where
  -- The number of entries in the buckets.
  unfoldable pub occupied : List (Bucket V) → ℕ
  occupied [] = 0
  occupied (none ∷ bs) = occupied bs
  occupied (some _ ∷ bs) = suc (occupied bs)

  -- The shape of an allocated table: a power of two of buckets, counted, not all of them used.
  pub record IsShaped (t : HashTable V) : Type ℓ where
    pub exponent : ℕ
    pub exponent_le : exponent ≤ 31
    pub power : t.capacity ≡ 2 ^ exponent
    pub roomy : 16 ≤ t.capacity
    pub width : length t.buckets ≡ t.capacity
    pub counted : t.count ≡ occupied t.buckets
    pub spare : t.count < t.capacity
    pub lengths : (p : ℕ) (e : HashTableEntry V) → bucket t p ≡ some e → e.len ≡ strlen32 e.key

  -- Each key stands once, where probing finds it. The load is at most one entry past the bound at
  -- which a put rehashes.
  pub record IsLive (t : HashTable V) : Type ℓ where
    pub shape : IsShaped t
    pub sparse : t.count * 100 < t.capacity * 70 + 100
    pub placed : IsPlaced t.capacity (home t.capacity) (bucket t)
    pub unique : IsUnique t.capacity (bucket t)

  -- A write into the list of buckets is a write at its slot.
  pub set-update :
      (bs : List (Bucket V)) (p : ℕ) (x : Bucket V)
      → p < length bs
      → (j : ℕ) → get_or (set bs p x) j none ≡ update (λ i. get_or bs i none) p x j
  set-update [] p x h j = absurd (omega arith)
  set-update (b ∷ bs) zero x h zero = refl
  set-update (b ∷ bs) zero x h (suc j) = ground arith
  set-update (b ∷ bs) (suc p) x h zero = ground arith
  set-update (b ∷ bs) (suc p) x h (suc j) = ground (arith, set-update bs p x (omega arith) j)

  abbrev pub one_if : Bucket V → ℕ
  one_if none = 0
  one_if (some _) = 1

  pub occupied-set :
      (bs : List (Bucket V)) (p : ℕ) (x : Bucket V)
      → p < length bs
      → occupied (set bs p x) + one_if (get_or bs p none) ≡ occupied bs + one_if x
  unfolding occupied
  occupied-set [] p x h = absurd (omega arith)
  occupied-set (b ∷ bs) zero x h = ground arith
  occupied-set (none ∷ bs) (suc p) x h = omega (arith, occupied-set bs p x (omega arith))
  occupied-set (some e ∷ bs) (suc p) x h = omega (arith, occupied-set bs p x (omega arith))

  -- Fewer entries than buckets leave a free slot.
  pub free_slot :
      (bs : List (Bucket V))
      → occupied bs < length bs
      → (p : ℕ) × (p < length bs) × (get_or bs p none ≡ none)
  unfolding occupied
  free_slot [] h = absurd (omega arith)
  free_slot (none ∷ bs) h = (0, omega arith, refl)
  free_slot (some e ∷ bs) h =
      let (p, low, free) = free_slot bs (omega arith) in (suc p, omega arith, free)

  pub matches-true :
      (e : HashTableEntry V) (k : Bytes) → e.len ≡ strlen32 e.key → e.key ≡ k → matches e k ≡ true
  matches-true e k l same = rw l ((hash_match_iff e.key k).1 same)

  pub matches-false :
      (e : HashTableEntry V) (k : Bytes) → e.len ≡ strlen32 e.key → e.key ≢ k → matches e k ≡ false
  matches-false e k l other = elim (Bool-cases (matches e k)) [
    | inl same ↦ absurd (other ((hash_match_iff e.key k).0 (rw l at same)))
    | inr no_match ↦ no_match
  ]

  -- What `hashtable_put` does at the place where its search stops.
  unfoldable pub landed : HashTable V → ℕ → Bytes → V → Bucket V → HashTable V × List (Freed V)
  landed t p k v none = (
    record t {
      buckets = set t.buckets p (some (record { key = k; len = strlen32 k; payload = v }));
      count = (t.count + 1) % 2 ^ 32;
    },
    [],
  )
  landed t p k v (some e) = (
    put_bucket t p (some (record e { payload = v })),
    free_payload t e.payload ++ (key_of k ∷ []),
  )

  -- What a search returns there.
  unfoldable pub found_at : ℕ → Bucket V → Option ℕ
  found_at p none = none
  found_at p (some _) = some p
