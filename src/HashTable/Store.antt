-- ===== src/HashTable/Store.antt =====
-- `hashtable_put` on every table: it returns, and updates the map at the key.
use aer.Base.{
  ℕ, suc, ◌+◌, ◌*◌, ◌/◌, ◌%◌, ◌^◌, ◌<◌, ◌≡◌, refl, sym, ap, ◌∙◌, ◌⊎◌, inl, inr, List, [], ◌∷◌,
  Option, none, some, arith, true, false, leb, Bool-cases, length,
}
use native.Mathlib.Nat.{div-lt_iff_lt-mul, mod-eq_of_lt}
use mathlib.Core.Path.{ap₂}
use aer.Base.Bytes.{Bytes}
use aer.HashTable.Grow.{leb-false, fresh, fresh-IsLive, lookup-fresh}
use aer.HashTable.Live.{IsLive}
use aer.HashTable.Put.{added, replaced, Stored, insert-Stored, put_light}
use aer.HashTable.Rehash.{rehash-Rehashed}
use aer.HashTable.{
  HashTable, Bucket, Freed, Result, load, high, init_size, lookup, hashtable_put, hashtable_get,
  get_slot, prepare, rehash, put_fuel,
}

module _ {ℓ} {V : Type ℓ} where
  -- A table before its first put.
  pub record IsUnused (t : HashTable V) : Type ℓ where
    pub null : t.buckets ≡ []
    pub no_count : t.count ≡ 0
    pub no_capacity : t.capacity ≡ 0

  abbrev pub IsValid : HashTable V → Type ℓ
  IsValid t = IsUnused t ⊎ IsLive t

  pub lookup-IsUnused : (t : HashTable V) → IsUnused t → (k : Bytes) → lookup t k ≡ none
  unfolding lookup hashtable_get get_slot
  lookup-IsUnused t unused k = rw (unused.null, get_slot)

  -- What a put owes to the table that the caller had, if it first moves to `t'`.
  moved_Stored :
      (t t' : HashTable V) (k : Bytes) (v : V) (r : HashTable V × List (Freed V))
      → ((q : Bytes) → lookup t' q ≡ lookup t q)
      → t'.count ≡ t.count
      → t'.is_inline ≡ t.is_inline
      → Stored t' k v r
      → Stored t k v r
  moved_Stored t t' k v r same counts mode s = record {
    live = s.live;
    reads = λ q. s.reads q ∙ rw (same q);
    counts = s.counts ∙ ap₂ (λ (n : ℕ) (o : Option V). n + added o) counts (same k);
    frees = s.frees ∙ ap (replaced t' k) (same k) ∙ replaced_same (lookup t k);
    mode = s.mode ∙ mode;
  }
    where
      replaced_same : (o : Option V) → replaced t' k o ≡ replaced t k o
      replaced_same none = refl
      replaced_same (some w) = rw mode

  prepare_unused :
      (again : HashTable V → Bytes → V → Result V) (t : HashTable V) (bs : List (Bucket V))
      → bs ≡ []
      → t.count ≡ 0
      → prepare again t bs ≡ some (fresh t init_size, [])
  unfolding prepare
  prepare_unused again t [] e h = rw h
  prepare_unused again t (b ∷ bs) e h = cc

  prepare_loaded :
      (again : HashTable V → Bytes → V → Result V) (t : HashTable V) (bs : List (Bucket V))
      → 0 < length bs
      → leb high (load t.count t.capacity) ≡ true
      → prepare again t bs ≡ rehash again t
  unfolding prepare
  prepare_loaded again t [] h loaded = elim h [ ]
  prepare_loaded again t (b ∷ bs) h loaded = rw loaded

  unloaded :
      (t : HashTable V)
      → IsLive t
      → t.count * 100 < 2 ^ 32
      → leb high (load t.count t.capacity) ≡ false
      → t.count * 100 < t.capacity * 70
  unloaded t live small light =
      let flat : t.count * 100 % 2 ^ 32 ≡ t.count * 100 = mod-eq_of_lt small in
      let some_room : 0 < t.capacity = omega (arith, live.shape.roomy) in
      let few : t.count * 100 / t.capacity < 70 = leb-false 70 _ (rw flat at light) in
      omega (arith, (div-lt_iff_lt-mul {x = t.count * 100} {y = 70} some_room).0 few)

  put_after :
      (f : ℕ) (t t' : HashTable V) (k : Bytes) (v : V)
      → prepare (put_fuel f) t t.buckets ≡ some (t', [])
      → IsLive t'
      → t'.count * 100 < t'.capacity * 70
      → (r : HashTable V × List (Freed V)) × (put_fuel (suc f) t k v ≡ some r) × Stored t' k v r
  unfolding put_fuel
  put_after f t t' k v moved live low =
      let (r, run, stored, _) = insert-Stored t' k v live low in (r, rw (moved, run), stored)

  -- `hashtable_put` on a valid table of up to 42,949,672 entries returns a live table. In it the key reads the new value
  -- and every other key what it read before; the count grows by one if the key is new; only the
  -- value that was replaced and the caller's copy of its key are released.
  pub hashtable_put-Stored :
      (t : HashTable V) (k : Bytes) (v : V)
      → IsValid t
      → t.count * 100 < 2 ^ 32
      → (r : HashTable V × List (Freed V)) × (hashtable_put t k v ≡ some r) × Stored t k v r
  unfolding hashtable_put
  hashtable_put-Stored t k v (inl unused) small =
      let start = fresh-IsLive t init_size 4 refl (omega arith) (omega arith) in
      let empty = lookup-fresh t init_size 4 refl (omega arith) (omega arith) in
      let (r, run, stored) =
        put_after 1 t (fresh t init_size) k v
          (prepare_unused (put_fuel 1) t t.buckets unused.null unused.no_count) start
          (omega arith) in
      (
        r,
        run,
        moved_Stored t (fresh t init_size) k v r (λ q. empty q ∙ sym (lookup-IsUnused t unused q))
            (sym unused.no_count) refl stored,
      )
  hashtable_put-Stored t k v (inr live) small =
      elim (Bool-cases (leb high (load t.count t.capacity))) [
        | inl loaded ↦
            let (t', moved, d) = rehash-Rehashed 0 t live small in
            let (r, run, stored) =
              put_after 1 t t' k v
                (prepare_loaded (put_fuel 1) t t.buckets
                    (omega (arith, live.shape.width, live.shape.roomy)) loaded
                  ∙ moved)
                d.live (omega (arith, d.half)) in
            (r, run, moved_Stored t t' k v r d.reads d.counts d.mode stored)
        | inr light ↦
            let (r, run, stored, _) = put_light t k v live (unloaded t live small light) 1 small in
            (r, run, stored)
      ]
