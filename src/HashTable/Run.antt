-- ===== src/HashTable/Run.antt =====
-- Any sequence of calls on a table against a map from keys to values.
use aer.Base.{
  ◌+◌, ◌*◌, ◌^◌, ◌≤◌, ◌<◌, ◌≡◌, refl, ◌∙◌, inr, List, [], ◌∷◌, Option, none, some, arith, length,
  if◌then◌else◌,
}
use aer.Base.Bytes.{Bytes, str_equal}
use aer.HashTable.Clear.{hashtable_clear-Cleared}
use aer.HashTable.Delete.{hashtable_remove-Removed}
use aer.HashTable.Put.{added-le}
use aer.HashTable.Store.{IsValid, hashtable_put-Stored}
use aer.HashTable.{
  HashTable, Freed, Result, ◌>>=◌, lookup, hashtable_put, hashtable_remove, hashtable_clear,
}

-- A call that changes a table.
pub data Call {ℓ} (V : Type ℓ) : Type ℓ where
  put : Bytes → V → Call V
  remove : Bytes → Call V
  clear : Call V

module _ {ℓ} {V : Type ℓ} where
  abbrev pub perform : HashTable V → Call V → Result V
  perform t (Call.put k v) = hashtable_put t k v
  perform t (Call.remove k) = hashtable_remove t k
  perform t Call.clear = some (hashtable_clear t)

  unfoldable pub run : HashTable V → List (Call V) → Option (HashTable V)
  run t [] = some t
  run t (c ∷ cs) = perform t c >>= λ r. run r.0 cs

  -- What the call does to a map.
  abbrev pub on_map : (Bytes → Option V) → Call V → Bytes → Option V
  on_map m (Call.put k v) q = if str_equal k q then some v else m q
  on_map m (Call.remove k) q = if str_equal k q then none else m q
  on_map m Call.clear q = none

  unfoldable pub run_map : (Bytes → Option V) → List (Call V) → Bytes → Option V
  run_map m [] = m
  run_map m (c ∷ cs) = run_map (on_map m c) cs

  -- A valid table that reads as the map `m`.
  pub record Refines (m : Bytes → Option V) (t : HashTable V) : Type ℓ where
    pub valid : IsValid t
    pub reads : (q : Bytes) → lookup t q ≡ m q

  perform-Refines :
      (t : HashTable V) (m : Bytes → Option V) (c : Call V)
      → Refines m t
      → t.count * 100 < 2 ^ 32
      → (r : HashTable V × List (Freed V)) × (perform t c ≡ some r)
        × Refines (on_map m c) r.0
        × (r.0.count ≤ t.count + 1)
  perform-Refines t m (Call.put k v) ok small =
      let (r, done, s) = hashtable_put-Stored t k v ok.valid small in
      (
        r,
        done,
        record { valid = inr s.live; reads = λ q. s.reads q ∙ rw (ok.reads q) refl },
        omega (arith, s.counts, added-le (lookup t k)),
      )
  perform-Refines t m (Call.remove k) ok small =
      let (r, done, s) = hashtable_remove-Removed t k ok.valid small in
      (
        r,
        done,
        record { valid = s.valid; reads = λ q. s.reads q ∙ rw (ok.reads q) refl },
        omega (arith, s.counts, added-le (lookup t k)),
      )
  perform-Refines t m Call.clear ok small =
      let s = hashtable_clear-Cleared t ok.valid in
      (
        hashtable_clear t,
        refl,
        record { valid = s.valid; reads = s.empty },
        omega (arith, s.no_count),
      )

  -- Every sequence of puts, removals and clears from a valid table returns a valid table, if the count
  -- and the number of calls stay within 42,949,672 together; it reads as the map that the same calls make of what the table held.
  pub run-Refines :
      (cs : List (Call V)) (t : HashTable V) (m : Bytes → Option V)
      → Refines m t
      → (t.count + length cs) * 100 < 2 ^ 32
      → (r : HashTable V) × (run t cs ≡ some r) × Refines (run_map m cs) r
  unfolding run run_map
  run-Refines [] t m ok small = (t, refl, ok)
  run-Refines (c ∷ cs) t m ok small =
      let (s, done, next, grown) = perform-Refines t m c ok (omega arith) in
      let (r, rest, last) = run-Refines cs s.0 (on_map m c) next (omega arith) in
      (r, rw (done) rest, last)
