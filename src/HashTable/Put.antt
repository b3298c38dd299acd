-- ===== src/HashTable/Put.antt =====
-- `hashtable_put` where it does not have to grow the table.
use aer.Base.{
  ℕ, suc, ◌+◌, ◌*◌, ◌%◌, ◌^◌, ◌≤◌, ◌<◌, ◌≡◌, refl, ◌∙◌, inl, inr, List, [], ◌∷◌, ◌++◌, Option, none,
  some, arith, false, leb, length, if◌then◌else◌,
}
use native.Mathlib.Nat.{div-lt_iff_lt-mul, mod-eq_of_lt}
use aer.Base.Bytes.{Bytes, str_equal}
use aer.Hash.{hash_key}
use aer.HashTable.Contents.{IsOnly, Represents-same}
use aer.HashTable.Landing.{
  place-IsOnly, released, bump, after, landed-after, after-IsShaped, after-IsUnique, after-IsPlaced,
  after-Represents,
}
use aer.HashTable.Live.{IsShaped, IsLive}
use aer.HashTable.Loops.{Place, place_of, insert-landed, capacity_le, positive}
use aer.HashTable.Lookup.{lookup-payload_at, lookup-Represents}
use aer.HashTable.{
  HashTable, Bucket, Freed, Result, key_of, bucket, free_payload, insert, load, high, lookup,
  payload_at, prepare, put_fuel,
}

module _ {ℓ} {V : Type ℓ} where
  -- One more entry, unless the key was there.
  abbrev pub added : Option V → ℕ
  added none = 1
  added (some _) = 0

  pub added-le : (o : Option V) → added o ≤ 1
  added-le none = omega arith
  added-le (some _) = omega arith

  -- The value that was there is released, with the caller's copy of the key.
  abbrev pub replaced : HashTable V → Bytes → Option V → List (Freed V)
  replaced t k none = []
  replaced t k (some v) = free_payload t v ++ (key_of k ∷ [])

  -- What a put of `v` under `k` owes: the map is updated at the key and nowhere else.
  pub record Stored (t : HashTable V) (k : Bytes) (v : V) (r : HashTable V × List (Freed V))
      : Type ℓ where
    pub live : IsLive r.0
    pub reads : (q : Bytes) → lookup r.0 q ≡ (if str_equal k q then some v else lookup t q)
    pub counts : r.0.count ≡ t.count + added (lookup t k)
    pub frees : r.1 ≡ replaced t k (lookup t k)
    pub mode : r.0.is_inline ≡ t.is_inline

-- Below the bound on the load nothing is done before the loop of a put.
module _ {ℓ} {V : Type ℓ} (t : HashTable V) (shape : IsShaped t)
    (low : t.count * 100 < t.capacity * 70) (small : t.count * 100 < 2 ^ 32) where
  light : leb high (load t.count t.capacity) ≡ false
  light =
      let flat : t.count * 100 % 2 ^ 32 ≡ t.count * 100 = mod-eq_of_lt small in
      let below =
        (div-lt_iff_lt-mul {x = t.count * 100} {y = 70} (positive t shape [])).1 (omega arith) in
      rw flat (ground arith)

  pub ready :
      (again : HashTable V → Bytes → V → Result V) (bs : List (Bucket V))
      → 0 < length bs
      → prepare again t bs ≡ some (t, [])
  unfolding prepare
  ready again [] h = elim h [ ]
  ready again (b ∷ bs) h = rw light

  -- So the put is the write at the place of the key.
  pub put_shaped :
      (f : ℕ) (k : Bytes) (v : V) (s : Place t shape k)
      → put_fuel (suc f) t k v ≡ some (after t shape k v s, released t k (bucket t s.place))
  unfolding put_fuel
  put_shaped f k v s = rw (
    ready (put_fuel f) t.buckets (rw shape.width (positive t shape k)),
    insert-landed t shape k s v t.capacity 0 (omega arith) (omega arith),
    landed-after t shape k v s,
  )

module _ {ℓ} {V : Type ℓ} (t : HashTable V) (k : Bytes) (v : V) (live : IsLive t)
    (low : t.count * 100 < t.capacity * 70) where
  abbrev spot : Place t live.shape k
  spot = place_of t live.shape k

  alone : IsOnly t.capacity (bucket t) k spot.place
  alone = place-IsOnly t live.shape k v spot live.placed live.unique

  bump-added : bump t.count (bucket t spot.place) ≡ t.count + added (lookup t k)
  unfolding bump
  bump-added =
      let bound = capacity_le t live.shape k in
      rw (lookup-payload_at t live.shape k spot) (elim spot.content [
        | inl free ↦ rw (free, payload_at) (omega arith)
        | inr (e, full, _) ↦ rw (full, payload_at) (omega arith)
      ])

  released-replaced : released t k (bucket t spot.place) ≡ replaced t k (lookup t k)
  unfolding released
  released-replaced = rw (lookup-payload_at t live.shape k spot) (elim spot.content [
    | inl free ↦ rw (free, payload_at)
    | inr (e, full, _) ↦ rw (full, payload_at)
  ])

  stored : HashTable V × List (Freed V)
  stored = (after t live.shape k v spot, released t k (bucket t spot.place))

  stored-IsLive : IsLive (after t live.shape k v spot)
  stored-IsLive =
      let up = bump-added in
      let one = added-le (lookup t k) in
      record {
        shape = after-IsShaped t live.shape k v spot (λ _. omega arith);
        sparse = omega arith;
        placed = after-IsPlaced t live.shape k v spot live.placed;
        unique = after-IsUnique t live.shape k v spot alone live.unique;
      }

  -- The loop stores the value, in the same number of buckets.
  pub insert-Stored :
      (r : HashTable V × List (Freed V)) × (insert t (hash_key k) k v t.capacity 0 ≡ r)
      × Stored t k v r
      × (r.0.capacity ≡ t.capacity)
  insert-Stored = (
    (after t live.shape k v spot, released t k (bucket t spot.place)),
    insert-landed t live.shape k spot v t.capacity 0 (omega arith) (omega arith)
        ∙ landed-after t live.shape k v spot,
    record {
      live = stored-IsLive;
      reads =
          Represents-same t.capacity (bucket (after t live.shape k v spot)) _ _
            (lookup-Represents (after t live.shape k v spot) stored-IsLive)
            (after-Represents t live.shape k v spot alone (lookup t) (lookup-Represents t live));
      counts = bump-added;
      frees = released-replaced;
      mode = refl;
    },
    refl,
  )

  -- Below the bound on the load a put goes straight to that loop.
  pub put_light :
      (f : ℕ)
      → t.count * 100 < 2 ^ 32
      → (r : HashTable V × List (Freed V)) × (put_fuel (suc f) t k v ≡ some r)
        × Stored t k v r
        × (r.0.capacity ≡ t.capacity)
  unfolding put_fuel prepare
  put_light f small =
      let (r, run, stored_there, same) = insert-Stored in
      (
        r,
        rw (
          ready t live.shape low small (put_fuel f) t.buckets
              (rw live.shape.width (positive t live.shape k)),
          run,
        ),
        stored_there,
        same,
      )
