-- ===== src/HashTable/Delete.antt =====
-- `hashtable_remove` on every table: it returns, and clears the map at the key.
use mathlib.Core.Path.{subst}
use aer.Base.{
  ℕ, ◌+◌, ◌*◌, ◌%◌, ◌^◌, ◌<◌, ◌≡◌, ◌≢◌, refl, sym, ap, ◌∙◌, inl, inr, List, [], ◌∷◌, Option, none,
  some, arith, length, Bool-cases, if◌then◌else◌,
}
use aer.Base.Bytes.{Bytes, str_equal, str_equal_iff}
use aer.HashTable.Chain.{IsMended, Ends, IsMended-start}
use aer.HashTable.Clearing.{
  cleared_bucket, cleared-IsShaped, cleared_less, cleared-IsUnique, cleared-Represents,
}
use aer.HashTable.Contents.{Represents-same, update-cases}
use aer.HashTable.Live.{IsShaped, IsLive, free_slot, found_at}
use aer.HashTable.Lookup.{lookup-payload_at, lookup-Represents}
use aer.HashTable.Loops.{place_of, positive, capacity_le, find_from-found_at}
use aer.HashTable.Put.{added}
use aer.HashTable.Remove.{Mending, reinsert_chain-Mended}
use aer.HashTable.Ring.{walk, dist, walk-zero, walk-dist, dist-lt, dist-ne-zero, next_slot}
use aer.HashTable.Search.{home, home-lt}
use aer.HashTable.Store.{IsValid, lookup-IsUnused}
use aer.HashTable.{
  HashTable, HashTableEntry, Bucket, Freed, key_of, free_payload, bucket, clear_bucket, lookup,
  payload_at, find_from, remove_at, remove_key, hashtable_remove, Result,
}

module _ {ℓ} {V : Type ℓ} where
  -- The entry's key and value are released.
  abbrev pub discarded : HashTable V → Bytes → Option V → List (Freed V)
  discarded t k none = []
  discarded t k (some v) = key_of k ∷ free_payload t v

  -- What a removal of `k` owes: the map is cleared at the key and nowhere else.
  pub record Removed (t : HashTable V) (k : Bytes) (r : HashTable V × List (Freed V)) : Type ℓ where
    pub valid : IsValid r.0
    pub reads : (q : Bytes) → lookup r.0 q ≡ (if str_equal k q then none else lookup t q)
    pub counts : r.0.count + 1 ≡ t.count + added (lookup t k)
    pub frees : r.1 ≡ discarded t k (lookup t k)
    pub mode : r.0.is_inline ≡ t.is_inline

  -- Where the key is absent nothing changes.
  absent-Removed :
      (t : HashTable V) (k : Bytes) → IsValid t → lookup t k ≡ none → Removed t k (t, [])
  absent-Removed t k valid absent = record {
    valid = valid;
    reads = λ q. elim (Bool-cases (str_equal k q)) [
      | inl same ↦ let named : k ≡ q = (str_equal_iff k q).0 same in rw same (rw named at absent)
      | inr other ↦ rw other
    ];
    counts = rw absent;
    frees = rw absent;
    mode = refl;
  }

module _ {ℓ} {V : Type ℓ} (t : HashTable V) (live : IsLive t) (small : t.count * 100 < 2 ^ 32)
    (p : ℕ) (inside : p < t.capacity) (e : HashTableEntry V) (at : bucket t p ≡ some e) where
  -- The slot of the entry cleared, the loop may start behind it.
  abbrev rest : Bytes → Option V
  rest q = if str_equal e.key q then none else lookup t q

  shape : IsShaped (clear_bucket t p)
  shape = cleared-IsShaped t live.shape p inside e at

  less : (clear_bucket t p).count + 1 ≡ t.count
  less = cleared_less t live.shape p inside e at

  hole_ahead : Ends t.capacity (home t.capacity) p (bucket (clear_bucket t p)) 1
  hole_ahead =
      let (h, low, empty) =
        free_slot t.buckets
          (omega (arith, live.shape.spare, live.shape.counted, live.shape.width)) in
      let h_lt : h < t.capacity = omega (arith, live.shape.width) in
      let apart : p ≢ h = λ same. let full : bucket t h ≡ some e = rw (← same) at in cc in
      record {
        last = dist t.capacity p h;
        ahead = dist-ne-zero t.capacity p h inside h_lt apart;
        inside = dist-lt t.capacity p h inside h_lt;
        empty = rw (walk-dist t.capacity p h inside h_lt) (
            let there =
              ap (λ (b : ℕ → Bucket V). b h) (cleared_bucket t live.shape p inside e at) in
            elim (update-cases (bucket t) p h none) [
              | inl (_, ew) ↦ there ∙ ew
              | inr (_, ew) ↦ there ∙ ew ∙ empty
            ]);
      }

  pub cleared-Mending : Mending rest p (clear_bucket t p) 1
  cleared-Mending = record {
    shape = shape;
    sparse = omega (arith, less, live.sparse);
    small = omega (arith, less);
    unique = cleared-IsUnique t live.shape p inside e at live.unique;
    holds =
        cleared-Represents t live.shape p inside e at live.unique (lookup t)
          (lookup-Represents t live);
    inside = inside;
    mended =
        subst (λ (b : ℕ → Bucket V). IsMended t.capacity (home t.capacity) p b 1)
          (sym (cleared_bucket t live.shape p inside e at))
          (IsMended-start t.capacity (home t.capacity)
            (home-lt t.capacity (positive t live.shape e.key)) p inside (bucket t) live.placed);
    ends = hole_ahead;
  }

  remove_at-Removed :
      lookup t e.key ≡ some e.payload
      → (r : HashTable V × List (Freed V)) × (remove_at t p ≡ some r) × Removed t e.key r
  unfolding remove_at
  remove_at-Removed found =
      let freed : List (Freed V) = key_of e.key ∷ free_payload t e.payload in
      let (r, run, d) =
        reinsert_chain-Mended rest p t.capacity (clear_bucket t p) 1 freed cleared-Mending
          (omega arith) in
      let on =
        next_slot t.capacity p 0 inside (capacity_le t live.shape e.key)
          (omega (arith, live.shape.roomy)) in
      let next : (p + 1) % 2 ^ 32 % t.capacity ≡ walk t.capacity p 1 =
        rw (walk-zero t.capacity p inside) at on in
      (
        (r, freed),
        rw (at, next, remove_at) run,
        record {
          valid = inr d.live;
          reads =
              Represents-same r.capacity (bucket r) (lookup r) rest (lookup-Represents r d.live)
                d.holds;
          counts = rw found (omega (arith, d.counts, less));
          frees = rw found;
          mode = d.mode;
        },
      )

module _ {ℓ} {V : Type ℓ} where
  -- The search behind the tests at the head of `hashtable_remove`.
  remove_found : HashTable V → Option ℕ → Result V
  remove_found t none = some (t, [])
  remove_found t (some found) = remove_at t found

  remove_key-remove_found :
      (t : HashTable V) (k : Bytes) (bs : List (Bucket V))
      → 0 < length bs
      → remove_key t k bs ≡ remove_found t (find_from t k (home t.capacity k % 2 ^ 32) t.capacity 0)
  unfolding remove_key home remove_found
  remove_key-remove_found t k [] h = elim h [ ]
  remove_key-remove_found t k (b ∷ bs) h = ground arith

  -- `hashtable_remove` on a valid table of up to 42,949,672 entries returns a valid table. In it the key reads nothing and every other
  -- key what it read before; the count falls by one if the key was there; only the entry's key and
  -- value are released.
  pub hashtable_remove-Removed :
      (t : HashTable V) (k : Bytes)
      → IsValid t
      → t.count * 100 < 2 ^ 32
      → (r : HashTable V × List (Freed V)) × (hashtable_remove t k ≡ some r) × Removed t k r
  unfolding hashtable_remove remove_found found_at
  hashtable_remove-Removed t k (inl unused) small = (
    (t, []),
    ap (remove_key t k) unused.null,
    absent-Removed t k (inl unused) (lookup-IsUnused t unused k),
  )
  hashtable_remove-Removed t k (inr live) small =
      let s = place_of t live.shape k in
      let value = lookup-payload_at t live.shape k s in
      let run =
        remove_key-remove_found t k t.buckets (omega (arith, live.shape.width, live.shape.roomy))
        ∙ ap (remove_found t)
            (find_from-found_at t live.shape k s t.capacity 0 (omega arith) (omega arith)) in
      elim s.content [
        | inl free ↦
            ((t, []), run ∙ rw free, absent-Removed t k (inr live) (value ∙ rw (free, payload_at)))
        | inr (e, full, named) ↦
            let there : lookup t e.key ≡ some e.payload =
              ap (lookup t) named ∙ value ∙ rw (full, payload_at) in
            let (r, run', d) =
              remove_at-Removed t live small s.place s.reached.inside e full there in
            (r, run ∙ rw full run', subst (λ (x : Bytes). Removed t x r) named d)
      ]
