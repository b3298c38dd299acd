-- ===== src/HashTable/Tests.antt =====
-- Runs of the table on small inputs, and instances of the theorems.
use aer.Base.{
  length, get_or, ap, ◌+◌, ◌%◌, ◌/◌, ◌^◌, ◌<◌, ℕ, suc, zero, ◌≡◌, refl, ◌∙◌, inl, inr, none, some,
  Option, List, [], ◌∷◌, true, map, arith,
}
use aer.Base.Bytes.{Bytes, str_equal}
use aer.Hash.{hash_key, hash_match}
use aer.HashTable.Clear.{Cleared, hashtable_clear-Cleared}
use aer.HashTable.Delete.{Removed, hashtable_remove-Removed}
use aer.HashTable.Grow.{Grown, grow_capacity-Grown}
use aer.HashTable.Full.{IsFull, hashtable_put-IsFull}
use aer.HashTable.Live.{IsLive}
use aer.HashTable.Lookup.{lookup-Represents}
use aer.HashTable.Contents.{Represents}
use aer.HashTable.Put.{Stored}
use aer.HashTable.Rehash.{Rehashed, rehash-Rehashed}
use aer.HashTable.Run.{Call, Refines, run, run_map, run-Refines}
use aer.HashTable.Store.{IsValid, hashtable_put-Stored}
use aer.HashTable.{
  Bucket, HashTable, Freed, hashtable_put, lookup, hashtable_remove, hashtable_clear, ◌>>=◌, probe,
  hashtable_get, rehash, put_fuel, grow_capacity, doublings, bucket,
}

abbrev pub empty : HashTable ℕ
empty = record { buckets = []; count = 0; capacity = 0; is_inline = true }

abbrev put : HashTable ℕ → Bytes → ℕ → Option (HashTable ℕ)
put t k v = hashtable_put t k v >>= λ r. some r.0

abbrev fill : ℕ → HashTable ℕ → Option (HashTable ℕ)
fill zero t = some t
fill (suc n) t = put t (n ∷ []) n >>= fill n

abbrev after : List Bytes → List Bytes → HashTable ℕ → Option (List (Option ℕ) × ℕ × ℕ)
after [] seen t = some (map (lookup t) seen, t.count, t.capacity)
after (k ∷ gone) seen t = hashtable_remove t k >>= λ r. after gone seen r.0

-- Thirteen entries make the table grow.
growth : fill 13 empty >>= after [] ((5 ∷ []) ∷ (20 ∷ []) ∷ []) ≡ some (some 5 ∷ none ∷ [], 13, 32)
unfolding hashtable_put lookup hashtable_get hash_key hash_match probe str_equal
growth = refl

removal :
    fill 13 empty >>= after ((5 ∷ []) ∷ []) ((5 ∷ []) ∷ (6 ∷ []) ∷ [])
    ≡ some (none ∷ some 6 ∷ [], 12, 32)
unfolding hashtable_put lookup hashtable_get hash_key hash_match probe hashtable_remove str_equal
removal = refl

empty-IsValid : IsValid empty
empty-IsValid = inl (record { null = refl; no_count = refl; no_capacity = refl })

-- A table with one entry.
one_put :
    (r : HashTable ℕ × List (Freed ℕ)) × (hashtable_put empty (5 ∷ []) 7 ≡ some r)
    × Stored empty (5 ∷ []) 7 r
one_put = hashtable_put-Stored empty (5 ∷ []) 7 empty-IsValid (omega arith)

abbrev one : HashTable ℕ
one = one_put.0.0

one-IsLive : IsLive one
one-IsLive = one_put.2.live

no_entry : lookup empty (5 ∷ []) ≡ none
unfolding lookup hashtable_get hash_key
no_entry = refl

one-count : one.count ≡ 1
one-count = one_put.2.counts ∙ rw (no_entry) refl

hashtable_put-Stored_example :
    (r : HashTable ℕ × List (Freed ℕ)) × (hashtable_put one (6 ∷ []) 8 ≡ some r)
    × Stored one (6 ∷ []) 8 r
hashtable_put-Stored_example =
    hashtable_put-Stored one (6 ∷ []) 8 (inr one-IsLive) (omega (arith, one-count))

hashtable_remove-Removed_example :
    (r : HashTable ℕ × List (Freed ℕ)) × (hashtable_remove one (5 ∷ []) ≡ some r)
    × Removed one (5 ∷ []) r
hashtable_remove-Removed_example =
    hashtable_remove-Removed one (5 ∷ []) (inr one-IsLive) (omega (arith, one-count))

rehash-Rehashed_example :
    (r : HashTable ℕ) × (rehash (put_fuel 1) one ≡ some (r, [])) × Rehashed one r
rehash-Rehashed_example = rehash-Rehashed 0 one one-IsLive (omega (arith, one-count))

hashtable_clear-Cleared_example : Cleared one (hashtable_clear one)
hashtable_clear-Cleared_example = hashtable_clear-Cleared one (inr one-IsLive)

lookup-Represents_example : Represents one.capacity (bucket one) (lookup one)
lookup-Represents_example = lookup-Represents one one-IsLive

grow_capacity-Grown_example : (c : ℕ) × (grow_capacity doublings 12 16 ≡ some c) × Grown 12 16 c
grow_capacity-Grown_example =
    grow_capacity-Grown doublings 12 16 4 (omega arith) (omega arith) (omega arith) refl
      (omega arith)

abbrev calls : List (Call ℕ)
calls = Call.put (1 ∷ []) 10 ∷ Call.put (2 ∷ []) 20 ∷ Call.remove (1 ∷ []) ∷ []

run-Refines_example :
    (r : HashTable ℕ) × (run one calls ≡ some r) × Refines (run_map (lookup one) calls) r
run-Refines_example =
    run-Refines calls one (lookup one) (record { valid = inr one-IsLive; reads = λ q. refl })
      (omega (arith, one-count))

-- A bucket with a key of its own: the slot in four digits, none of them the byte 0.
abbrev digits : ℕ → Bytes
digits i =
    (1 + i % 128) ∷ (1 + i / 128 % 128) ∷ (1 + i / 128 / 128 % 128) ∷ (1 + i / 128 / 128 / 128) ∷ []

abbrev used : ℕ → Bucket ℕ
used i = some (record { key = digits i; len = 4; payload = i })

slots : ℕ → ℕ → List (Bucket ℕ)
slots zero i = []
slots (suc n) i = used i ∷ slots n (i + 1)

length-slots : (n i : ℕ) → length (slots n i) ≡ n
unfolding slots
length-slots zero i = refl
length-slots (suc n) i = ap suc (length-slots n (i + 1))

get_or-slots : (n i p : ℕ) → p < n → get_or (slots n i) p none ≡ used (i + p)
unfolding slots
get_or-slots zero i p h = elim h [ ]
get_or-slots (suc n) i zero h = ap used (omega arith)
get_or-slots (suc n) i (suc p) h = get_or-slots n (i + 1) p (omega arith) ∙ ap used (omega arith)

abbrev packed : HashTable ℕ
packed = record { buckets = slots (2 ^ 26) 0; count = 2 ^ 26; capacity = 2 ^ 26; is_inline = true }

packed-IsFull : IsFull packed []
packed-IsFull p h = (
  record { key = digits p; len = 4; payload = p },
  get_or-slots (2 ^ 26) 0 p h ∙ ap used (omega arith),
  refl,
  λ e. cc,
)

hashtable_put-IsFull_example : hashtable_put packed [] 0 ≡ some (packed, [])
hashtable_put-IsFull_example =
    hashtable_put-IsFull packed [] 0 (omega arith) (length-slots (2 ^ 26) 0) packed-IsFull
