-- ===== src/HashTable.antt =====
-- source/utilities/hashtable.c: the open-addressing table behind HashMap and DictMap.
--
-- A bucket is `none` where the source has the zeroed entry, whose key is NULL. `buckets` is `[]`
-- where the source has NULL. `free` is recorded: each operation returns what it has released.
-- Pointers into the table are slot numbers.
pub mod Ring
pub mod Placement
pub mod Contents
pub mod Chain
pub mod Search
pub mod Live
pub mod Loops
pub mod Lookup
pub mod Landing
pub mod Put
pub mod Grow
pub mod Scan
pub mod Rehash
pub mod Store
pub mod Clearing
pub mod Remove
pub mod Delete
pub mod Entries
pub mod Clear
pub mod Full
pub mod Run
mod Tests
use aer.Base.{
  ℕ, zero, suc, ◌+◌, ◌-◌, ◌*◌, ◌/◌, ◌%◌, ◌^◌, Bool, true, false, List, [], ◌∷◌, ◌++◌, Option, none,
  some, leb, ◌==◌, if◌then◌else◌, length, get_or, set, replicate,
}
use aer.Base.Bytes.{Bytes}
use aer.Hash.{hash_key, hash_match, strlen32}

pub record HashTableEntry {ℓ} (V : Type ℓ) : Type ℓ where
  pub key : Bytes
  pub len : ℕ
  pub payload : V

abbrev pub Bucket {ℓ} : Type ℓ → Type ℓ
Bucket V = Option (HashTableEntry V)

pub record HashTable {ℓ} (V : Type ℓ) : Type ℓ where
  pub buckets : List (Bucket V)
  pub count : ℕ
  pub capacity : ℕ
  pub is_inline : Bool

-- What `free` was called on.
pub data Freed {ℓ} (V : Type ℓ) : Type ℓ where
  key_of : Bytes → Freed V
  box_of : V → Freed V

abbrev pub Result {ℓ} : Type ℓ → Type ℓ
Result V = Option (HashTable V × List (Freed V))

abbrev pub init_size : ℕ
init_size = 16

abbrev pub high : ℕ
high = 70

abbrev pub low : ℕ
low = 50

infixl 5 ◌>>=◌
abbrev pub ◌>>=◌ {ℓ κ} : {A : Type ℓ} {B : Type κ} → Option A → (A → Option B) → Option B
none >>= f = none
some a >>= f = f a

-- `(count * 100) / capacity`, where the product wraps at 32 bits
abbrev pub load : ℕ → ℕ → ℕ
load count capacity = count * 100 % 2 ^ 32 / capacity

-- `t->buckets[(hash + i) % t->capacity]`, where the sum wraps at 64 bits
unfoldable pub probe : ℕ → ℕ → ℕ → ℕ
probe capacity hash i = (hash + i) % 2 ^ 64 % capacity

-- `while ((count * 100) / capacity >= LOW) capacity *= 2`; `none` when the fuel runs out
pub grow_capacity : ℕ → ℕ → ℕ → Option ℕ
grow_capacity zero count capacity = none
grow_capacity (suc f) count capacity =
    let wider = grow_capacity f count (capacity * 2 % 2 ^ 32) in
    if leb low (load count capacity) then wider else some capacity

-- A capacity of 32 bits is doubled to 0 in 32 rounds.
abbrev pub doublings : ℕ
doublings = 33

module _ {ℓ} {V : Type ℓ} where
  -- Boxed payloads own an allocation, inline ones own nothing.
  abbrev pub free_payload : HashTable V → V → List (Freed V)
  free_payload t p = if t.is_inline then [] else box_of p ∷ []

  abbrev pub bucket : HashTable V → ℕ → Bucket V
  bucket t i = get_or t.buckets i none

  abbrev pub put_bucket : HashTable V → ℕ → Bucket V → HashTable V
  put_bucket t i b = record t { buckets = set t.buckets i b }

  abbrev pub matches : HashTableEntry V → Bytes → Bool
  matches e key = hash_match e.key e.len key (strlen32 key)

  -- The loop of `hashtable_put` from round `i`, with `n` rounds left. A full table without the key
  -- is left as it was.
  pub insert : HashTable V → ℕ → Bytes → V → ℕ → ℕ → HashTable V × List (Freed V)
  insert t hash key value zero i = (t, [])
  insert t hash key value (suc n) i =
      let p = probe t.capacity hash i in
      let rest = insert t hash key value n (i + 1) in
      elim (bucket t p) [
        | some e ↦
            if matches e key
            then (
              put_bucket t p (some (record e { payload = value })),
              free_payload t e.payload ++ (key_of key ∷ []),
            )
            else rest
        | none ↦ (
          record t {
            buckets =
                set t.buckets p (some (record { key = key; len = strlen32 key; payload = value }));
            count = (t.count + 1) % 2 ^ 32;
          },
          [],
        )
      ]

  -- The loop of `rehash` over the old buckets, with the call of `hashtable_put` given.
  pub reinsert_all :
      (HashTable V → Bytes → V → Result V)
      → List (Bucket V)
      → HashTable V
      → List (Freed V)
      → Result V
  reinsert_all again [] copy freed = some (copy, freed)
  reinsert_all again (none ∷ bs) copy freed = reinsert_all again bs copy freed
  reinsert_all again (some e ∷ bs) copy freed = do
    (copy', released) ← again copy e.key e.payload
    reinsert_all again bs copy' (freed ++ released)

  pub rehash : (HashTable V → Bytes → V → Result V) → HashTable V → Result V
  unfolding grow_capacity reinsert_all
  rehash again t = do
    capacity ← grow_capacity doublings t.count t.capacity
    reinsert_all again t.buckets
        (record t { buckets = replicate capacity none; capacity = capacity; count = 0 }) []

  -- The tests at the head of `hashtable_put`: allocate, or grow a loaded table.
  pub prepare : (HashTable V → Bytes → V → Result V) → HashTable V → List (Bucket V) → Result V
  prepare again t [] =
      some (record t { buckets = replicate init_size none; capacity = init_size }, [])
  prepare again t (_ ∷ _) =
      if leb high (load t.count t.capacity) then rehash again t else some (t, [])

  -- `hashtable_put` and `rehash` call each other; the first argument bounds the depth.
  pub put_fuel : ℕ → HashTable V → Bytes → V → Result V
  put_fuel zero t key value = none
  put_fuel (suc f) t key value = do
    (t', moved) ← prepare (put_fuel f) t t.buckets
    let (t'', released) = insert t' (hash_key key) key value t'.capacity 0
    some (t'', moved ++ released)

  -- A put may rehash, and the puts of a rehash do not.
  unfoldable pub hashtable_put : HashTable V → Bytes → V → Result V
  unfolding put_fuel prepare rehash insert
  hashtable_put t key value = put_fuel 2 t key value

  -- The loop of `hashtable_get`; the slot stands for the pointer to its payload.
  pub get_from : HashTable V → ℕ → Bytes → ℕ → ℕ → Option ℕ
  get_from t hash key zero i = none
  get_from t hash key (suc n) i =
      let p = probe t.capacity hash i in
      let rest = get_from t hash key n (i + 1) in
      elim (bucket t p) [ some e ↦ if matches e key then some p else rest | none ↦ none ]

  -- With no buckets the capacity is 0, and the loop makes no round.
  pub get_slot : HashTable V → Bytes → List (Bucket V) → Option ℕ
  get_slot t key [] = none
  get_slot t key (_ ∷ _) = get_from t (hash_key key) key t.capacity 0

  unfoldable pub hashtable_get : HashTable V → Bytes → Option ℕ
  unfolding get_slot get_from
  hashtable_get t key = get_slot t key t.buckets

  -- Reading through the pointer that `hashtable_get` returned.
  abbrev pub payload_at : HashTable V → ℕ → Option V
  payload_at t p = elim (bucket t p) [ some e ↦ some e.payload | none ↦ none ]

  -- `hashmap_get` and `dictmap_get`
  unfoldable pub lookup : HashTable V → Bytes → Option V
  lookup t key = hashtable_get t key >>= payload_at t

  -- The search loop of `hashtable_remove`: indices wrap at 32 bits.
  pub find_from : HashTable V → Bytes → ℕ → ℕ → ℕ → Option ℕ
  find_from t key start zero i = none
  find_from t key start (suc n) i =
      let p = (start + i) % 2 ^ 32 % t.capacity in
      let rest = find_from t key start n (i + 1) in
      elim (bucket t p) [ none ↦ none | some e ↦ if matches e key then some p else rest ]

  -- `t->buckets[p] = (HashTableEntry){0}; t->count--;`
  abbrev pub clear_bucket : HashTable V → ℕ → HashTable V
  clear_bucket t p = record t {
    buckets = set t.buckets p none;
    count = (t.count + 2 ^ 32 - 1) % 2 ^ 32;
  }

  -- The loop behind the removal: each entry up to the next empty slot is taken out and put again.
  pub reinsert_chain : ℕ → HashTable V → ℕ → ℕ → List (Freed V) → Result V
  reinsert_chain zero t cap pos freed = none
  reinsert_chain (suc f) t cap pos freed = elim (bucket t pos) [
    | none ↦ some (t, freed)
    | some e ↦ do
      (t', released) ← hashtable_put (clear_bucket t pos) e.key e.payload
      reinsert_chain f t' cap ((pos + 1) % 2 ^ 32 % cap) (freed ++ released)
  ]

  pub remove_at : HashTable V → ℕ → Result V
  unfolding reinsert_chain
  remove_at t found = elim (bucket t found) [
    | none ↦ some (t, [])
    | some e ↦
        reinsert_chain t.capacity (clear_bucket t found) t.capacity
          ((found + 1) % 2 ^ 32 % t.capacity) (key_of e.key ∷ free_payload t e.payload)
  ]

  pub remove_key : HashTable V → Bytes → List (Bucket V) → Result V
  unfolding find_from remove_at
  remove_key t key [] = some (t, [])
  remove_key t key (_ ∷ _) =
      elim (find_from t key (hash_key key % t.capacity % 2 ^ 32) t.capacity 0) [
        | none ↦ some (t, [])
        | some found ↦ remove_at t found
      ]

  -- `none` when the loop behind the removal has not ended after a round for each slot
  unfoldable pub hashtable_remove : HashTable V → Bytes → Result V
  unfolding remove_key hashtable_put
  hashtable_remove t key = remove_key t key t.buckets

  -- The loop of `hashtable_clear`: what it releases, and what it leaves.
  pub release_all : HashTable V → List (Bucket V) → List (Freed V)
  release_all t [] = []
  release_all t (none ∷ bs) = release_all t bs
  release_all t (some e ∷ bs) = key_of e.key ∷ (free_payload t e.payload ++ release_all t bs)

  pub clear_all : List (Bucket V) → List (Bucket V)
  clear_all [] = []
  clear_all (_ ∷ bs) = none ∷ clear_all bs

  pub clear_buckets : HashTable V → List (Bucket V) → HashTable V × List (Freed V)
  unfolding release_all clear_all
  clear_buckets t [] = (t, [])
  clear_buckets t (b ∷ bs) =
      (record t { buckets = clear_all (b ∷ bs); count = 0 }, release_all t (b ∷ bs))

  unfoldable pub hashtable_clear : HashTable V → HashTable V × List (Freed V)
  unfolding clear_buckets
  hashtable_clear t = clear_buckets t t.buckets

  unfoldable pub hashtable_free : HashTable V → HashTable V × List (Freed V)
  unfolding hashtable_clear
  hashtable_free t =
      let (t', released) = hashtable_clear t in
      (record { buckets = []; count = 0; capacity = 0; is_inline = false }, released)
