-- ===== src/HashTable/Entries.antt =====
-- The entries of a table as a list of keys with their values, in the order of the buckets.
use aer.Base.{
  ℕ, suc, zero, ◌<◌, ◌≡◌, ◌↔◌, refl, sym, ap, ◌∙◌, Bool, List, [], ◌∷◌, ◌++◌, Option, none, some,
  arith, length, get_elem?, get_or, if◌then◌else◌, some-injective,
}
use aer.Base.Bytes.{Bytes}
use aer.HashTable.Contents.{Represents}
use aer.HashTable.Live.{occupied}
use aer.HashTable.Placement.{IsUnique}
use aer.HashTable.{HashTable, HashTableEntry, Bucket, Freed, key_of, box_of, bucket, release_all}

module _ {ℓ} {V : Type ℓ} where
  abbrev pub entries : List (Bucket V) → List (Bytes × V)
  entries [] = []
  entries (none ∷ bs) = entries bs
  entries (some e ∷ bs) = (e.key, e.payload) ∷ entries bs

  -- A key of each entry is released, and its value where values are boxed.
  unfoldable pub releases_of : Bool → List (Bytes × V) → List (Freed V)
  releases_of is_inline [] = []
  releases_of is_inline ((k, v) ∷ es) =
      key_of k ∷ ((if is_inline then [] else box_of v ∷ []) ++ releases_of is_inline es)

  -- The entries of a list are the pairs of a map.
  abbrev pub AreEntriesOf : (Bytes → Option V) → List (Bytes × V) → Type ℓ
  AreEntriesOf f es =
      (k : Bytes) (v : V) → (f k ≡ some v) ↔ ((i : ℕ) × (get_elem? es i ≡ some (k, v)))

  pub length-entries : (bs : List (Bucket V)) → length (entries bs) ≡ occupied bs
  unfolding occupied
  length-entries [] = refl
  length-entries (none ∷ bs) = length-entries bs
  length-entries (some e ∷ bs) = ap suc (length-entries bs)

  pub release_all-releases_of :
      (t : HashTable V) (bs : List (Bucket V))
      → release_all t bs ≡ releases_of t.is_inline (entries bs)
  unfolding release_all releases_of
  release_all-releases_of t [] = refl
  release_all-releases_of t (none ∷ bs) = release_all-releases_of t bs
  release_all-releases_of t (some e ∷ bs) = rw (release_all-releases_of t bs) refl

  entry_at :
      (bs : List (Bucket V)) (p : ℕ) (e : HashTableEntry V)
      → get_or bs p none ≡ some e
      → (i : ℕ) × (get_elem? (entries bs) i ≡ some (e.key, e.payload))
  entry_at [] p e h = cc
  entry_at (none ∷ bs) zero e h = cc
  entry_at (some d ∷ bs) zero e h =
      (0, ap (λ (x : HashTableEntry V). some (x.key, x.payload)) (some-injective h))
  entry_at (none ∷ bs) (suc p) e h = entry_at bs p e h
  entry_at (some d ∷ bs) (suc p) e h = let (i, at) = entry_at bs p e h in (suc i, at)

  -- The slot of the entry at an index of the list.
  abbrev slot_index : List (Bucket V) → ℕ → ℕ
  slot_index [] i = 0
  slot_index (none ∷ bs) i = suc (slot_index bs i)
  slot_index (some d ∷ bs) zero = 0
  slot_index (some d ∷ bs) (suc i) = suc (slot_index bs i)

  slot_of_entry :
      (bs : List (Bucket V)) (i : ℕ) (k : Bytes) (v : V)
      → get_elem? (entries bs) i ≡ some (k, v)
      → (e : HashTableEntry V) × (slot_index bs i < length bs)
        × (get_or bs (slot_index bs i) none ≡ some e)
        × ◌≡◌ {A = Bytes × V} (e.key, e.payload) (k, v)
  slot_of_entry [] i k v h = cc
  slot_of_entry (none ∷ bs) i k v h =
      let (e, inside, at, same) = slot_of_entry bs i k v h in (e, omega arith, at, same)
  slot_of_entry (some d ∷ bs) zero k v h = (d, omega arith, refl, some-injective h)
  slot_of_entry (some d ∷ bs) (suc i) k v h =
      let (e, inside, at, same) = slot_of_entry bs i k v h in (e, omega arith, at, same)

  slot_index-injective :
      (bs : List (Bucket V)) (i j : ℕ) (x y : Bytes × V)
      → get_elem? (entries bs) i ≡ some x
      → get_elem? (entries bs) j ≡ some y
      → slot_index bs i ≡ slot_index bs j
      → i ≡ j
  slot_index-injective [] i j x y h g e = cc
  slot_index-injective (none ∷ bs) i j x y h g e = slot_index-injective bs i j x y h g (omega arith)
  slot_index-injective (some d ∷ bs) zero zero x y h g e = refl
  slot_index-injective (some d ∷ bs) zero (suc j) x y h g e = absurd (omega arith)
  slot_index-injective (some d ∷ bs) (suc i) zero x y h g e = absurd (omega arith)
  slot_index-injective (some d ∷ bs) (suc i) (suc j) x y h g e =
      ap suc (slot_index-injective bs i j x y h g (omega arith))

  -- No key stands in the list twice.
  abbrev pub HaveKeysOnce : List (Bytes × V) → Type ℓ
  HaveKeysOnce es =
      (i j : ℕ) (k : Bytes) (v w : V)
      → get_elem? es i ≡ some (k, v)
      → get_elem? es j ≡ some (k, w)
      → i ≡ j

  pub IsUnique-HaveKeysOnce :
      (t : HashTable V)
      → length t.buckets ≡ t.capacity
      → IsUnique t.capacity (bucket t)
      → HaveKeysOnce (entries t.buckets)
  IsUnique-HaveKeysOnce t width unique i j k v w h g =
      let (e, inside, at, same) = slot_of_entry t.buckets i k v h in
      let (d, inside', at', same') = slot_of_entry t.buckets j k w g in
      let key_of_e = ap (λ (x : Bytes × V). x.0) same in
      let key_of_d = ap (λ (x : Bytes × V). x.0) same' in
      slot_index-injective t.buckets i j (k, v) (k, w) h g
        (unique (slot_index t.buckets i) (slot_index t.buckets j) e d (omega arith) (omega arith) at
          at' (key_of_e ∙ sym key_of_d))

  pub Represents-AreEntriesOf :
      (t : HashTable V) (f : Bytes → Option V)
      → length t.buckets ≡ t.capacity
      → Represents t.capacity (bucket t) f
      → AreEntriesOf f (entries t.buckets)
  Represents-AreEntriesOf t f width rep k v = (
    λ found.
        let h = (rep k v).0 found in
        let (i, at) = entry_at t.buckets h.slot h.entry h.there in
        let key = h.its_key in let value = h.its_value in (i, at ∙ ap some (rw (key, value) refl)),
    λ (i, at).
        let (e, inside, there, same) = slot_of_entry t.buckets i k v at in
        (rep k v).1 (record {
          slot = slot_index t.buckets i;
          entry = e;
          inside = omega arith;
          there = there;
          its_key = ap (λ (x : Bytes × V). x.0) same;
          its_value = ap (λ (x : Bytes × V). x.1) same;
        }),
  )
