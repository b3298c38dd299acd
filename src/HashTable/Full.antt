-- ===== src/HashTable/Full.antt =====
-- Tables of 2^26 buckets and more, where the product of the load test wraps at 32 bits.
use native.Mathlib.Nat.{mod-lt, div-lt_iff_lt-mul}
use aer.Base.{
  ℕ, zero, suc, ◌+◌, ◌*◌, ◌%◌, ◌^◌, ◌≤◌, ◌<◌, ◌≡◌, ◌≢◌, refl, List, [], ◌∷◌, some, arith, false,
  leb, length,
}
use aer.Base.Bytes.{Bytes}
use aer.Hash.{hash_key, strlen32}
use aer.HashTable.Live.{matches-false}
use aer.HashTable.{
  HashTableEntry, Bucket, HashTable, Result, load, high, bucket, probe, insert, prepare, put_fuel,
  hashtable_put,
}

-- The wrapped product is below 2^32, so that the quotient is below 64.
pub load-lt : (count capacity : ℕ) → 2 ^ 26 ≤ capacity → leb high (load count capacity) ≡ false
load-lt count capacity big =
    let wrapped : count * 100 % 2 ^ 32 < 2 ^ 32 = omega arith in
    let few : load count capacity < 64 =
      (div-lt_iff_lt-mul {x = count * 100 % 2 ^ 32} {y = 64} (omega arith)).1 (omega arith) in
    ground arith

module _ {ℓ} {V : Type ℓ} where
  -- Every bucket holds another key.
  abbrev pub IsFull : HashTable V → Bytes → Type ℓ
  IsFull t k =
      (p : ℕ)
      → p < t.capacity
      → (e : HashTableEntry V) × (bucket t p ≡ some e) × (e.len ≡ strlen32 e.key) × (e.key ≢ k)

module _ {ℓ} {V : Type ℓ} (t : HashTable V) (k : Bytes) (v : V) where
  insert_full : IsFull t k → 0 < t.capacity → (n i : ℕ) → insert t (hash_key k) k v n i ≡ (t, [])
  unfolding insert probe
  insert_full full some_room zero i = refl
  insert_full full some_room (suc n) i =
      let (e, there, len, other) =
        full (probe t.capacity (hash_key k) i) (mod-lt ((hash_key k + i) % 2 ^ 64) some_room) in
      rw (there, matches-false e k len other, insert) (insert_full full some_room n (i + 1))

  prepare_wide :
      (again : HashTable V → Bytes → V → Result V) (bs : List (Bucket V))
      → 0 < length bs
      → 2 ^ 26 ≤ t.capacity
      → prepare again t bs ≡ some (t, [])
  unfolding prepare
  prepare_wide again [] h big = elim h [ ]
  prepare_wide again (b ∷ bs) h big = rw (load-lt t.count t.capacity big)

  -- A table of 2^26 buckets or more is not grown, whatever its count: when each bucket holds another
  -- key, a put of `k` changes nothing, and its key and value are neither stored nor released.
  pub hashtable_put-IsFull :
      2 ^ 26 ≤ t.capacity
      → length t.buckets ≡ t.capacity
      → IsFull t k
      → hashtable_put t k v ≡ some (t, [])
  unfolding hashtable_put put_fuel
  hashtable_put-IsFull big width full = rw (
    prepare_wide (put_fuel 1) t.buckets (omega arith) big,
    insert_full full (omega arith) t.capacity 0,
  )
