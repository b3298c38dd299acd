-- ===== src/HashTable/Rehash.antt =====
-- `rehash`: the grown copy holds the same map, and nothing is released.
use aer.Base.{
  ℕ, suc, ◌+◌, ◌*◌, ◌^◌, ◌≤◌, ◌<◌, ◌≡◌, refl, ap, ◌∙◌, inl, inr, List, [], ◌∷◌, ◌++◌, Option, none,
  some, arith, Bool-cases, length,
}
use mathlib.Core.List.{append-nil}
use aer.Base.Bytes.{Bytes, str_equal, str_equal_iff, str_equal_refl}
use aer.HashTable.Contents.{Represents-same}
use aer.HashTable.Grow.{grow_capacity-Grown, fresh, fresh-IsLive, lookup-fresh}
use aer.HashTable.Live.{IsLive, occupied}
use aer.HashTable.Lookup.{lookup-Represents}
use aer.HashTable.Put.{put_light}
use aer.HashTable.Scan.{scan, IsDistinct, scan-Represents, IsUnique-IsDistinct}
use aer.HashTable.{
  HashTable, Bucket, Freed, lookup, reinsert_all, rehash, put_fuel, bucket, doublings,
}

-- The first value, or else the second.
abbrev or_else {ℓ} : {A : Type ℓ} → Option A → Option A → Option A
or_else (some a) o = some a
or_else none o = o

or_else-none {ℓ} : {A : Type ℓ} (o : Option A) → or_else o none ≡ o
or_else-none (some a) = refl
or_else-none none = refl

module _ {ℓ} {V : Type ℓ} where
  -- What the reinsertion of `bs` into `copy` owes.
  record Reinserted (copy : HashTable V) (bs : List (Bucket V)) (r : HashTable V) : Type ℓ where
    live : IsLive r
    width : r.capacity ≡ copy.capacity
    reads : (q : Bytes) → lookup r q ≡ or_else (scan bs q) (lookup copy q)
    counts : r.count ≡ copy.count + occupied bs
    mode : r.is_inline ≡ copy.is_inline

  reinsert_all-Reinserted :
      (f : ℕ) (bs : List (Bucket V)) (copy : HashTable V) (freed : List (Freed V))
      → IsLive copy
      → (copy.count + occupied bs) * 100 < copy.capacity * 70
      → (copy.count + occupied bs) * 100 < 2 ^ 32
      → IsDistinct bs
      → ((q : Bytes) (v : V) → scan bs q ≡ some v → lookup copy q ≡ none)
      → (r : HashTable V) × (reinsert_all (put_fuel (suc f)) bs copy freed ≡ some (r, freed))
        × Reinserted copy bs r
  unfolding reinsert_all scan occupied
  reinsert_all-Reinserted f [] copy freed live low small distinct apart = (
    copy,
    refl,
    record { live = live; width = refl; reads = λ q. refl; counts = omega arith; mode = refl },
  )
  reinsert_all-Reinserted f (none ∷ bs) copy freed live low small distinct apart =
      let (r, run, d) = reinsert_all-Reinserted f bs copy freed live low small distinct apart in
      (
        r,
        run,
        record {
          live = d.live;
          width = d.width;
          reads = d.reads;
          counts = d.counts;
          mode = d.mode;
        },
      )
  reinsert_all-Reinserted f (some e ∷ bs) copy freed live low small distinct apart =
      let new : lookup copy e.key ≡ none = apart e.key e.payload (rw (str_equal_refl e.key)) in
      let (c, run, stored, wide) =
        put_light copy e.key e.payload live (omega arith) f (omega arith) in
      let grown : c.0.count ≡ copy.count + 1 = stored.counts ∙ rw new in
      let kept : freed ++ c.1 ≡ freed =
        ap (λ (l : List (Freed V)). freed ++ l) (stored.frees ∙ rw new) ∙ append-nil freed in
      let (r, run', d) =
        reinsert_all-Reinserted f bs c.0 (freed ++ c.1) stored.live (omega (arith, wide))
          (omega arith) distinct.1
          (λ q w found. elim (Bool-cases (str_equal e.key q)) [
            | inl same ↦
                let named : e.key ≡ q = (str_equal_iff e.key q).0 same in
                let none_left : scan bs q ≡ none = rw named at distinct.0 in cc
            | inr other ↦ stored.reads q ∙ rw other (apart q w (rw other found))
          ]) in
      (
        r,
        rw (run, kept) (rw kept at run'),
        record {
          live = d.live;
          width = d.width ∙ wide;
          reads = λ q. d.reads q ∙ elim (Bool-cases (str_equal e.key q)) [
            | inl same ↦
                let named : e.key ≡ q = (str_equal_iff e.key q).0 same in
                let none_left : scan bs q ≡ none = rw named at distinct.0 in
                rw (none_left, stored.reads q, same)
            | inr other ↦ rw (stored.reads q, other)
          ];
          counts = omega (arith, d.counts);
          mode = d.mode ∙ stored.mode;
        },
      )

  -- A rehash of a table keeps the map, the count and the mode, and leaves it under half full.
  pub record Rehashed (t r : HashTable V) : Type ℓ where
    pub live : IsLive r
    pub reads : (q : Bytes) → lookup r q ≡ lookup t q
    pub counts : r.count ≡ t.count
    pub mode : r.is_inline ≡ t.is_inline
    pub half : r.count * 100 < r.capacity * 50

  -- `rehash` of a live table of up to 42,949,672 entries returns a live table that every key reads as
  -- before, with the same count, less than half full; it releases nothing.
  pub rehash-Rehashed :
      (f : ℕ) (t : HashTable V)
      → IsLive t
      → t.count * 100 < 2 ^ 32
      → (r : HashTable V) × (rehash (put_fuel (suc f)) t ≡ some (r, [])) × Rehashed t r
  unfolding rehash
  rehash-Rehashed f t live small =
      let (c, run, grown) =
        grow_capacity-Grown doublings t.count t.capacity live.shape.exponent (omega arith)
          live.shape.exponent_le (omega arith) live.shape.power small in
      let wide : 16 ≤ c = omega (arith, live.shape.roomy, grown.larger) in
      let start = fresh-IsLive t c grown.exponent grown.power grown.exponent_le wide in
      let empty = lookup-fresh t c grown.exponent grown.power grown.exponent_le wide in
      let unique = rw (← live.shape.width) at live.unique in
      let full = scan-Represents t.buckets unique in
      let (r, run', d) =
        reinsert_all-Reinserted f t.buckets (fresh t c) [] start
          (omega (arith, live.shape.counted, grown.half)) (omega (arith, live.shape.counted))
          (IsUnique-IsDistinct t.buckets unique) (λ q v _. empty q) in
      (
        r,
        rw (run, run'),
        record {
          live = d.live;
          reads = λ q.
              d.reads q
              ∙ rw (empty q) (or_else-none (scan t.buckets q))
              ∙ Represents-same (length t.buckets) (bucket t) (scan t.buckets) (lookup t) full
                  (rw live.shape.width (lookup-Represents t live)) q;
          counts = d.counts ∙ omega (arith, live.shape.counted);
          mode = d.mode;
          half = omega (arith, d.counts, d.width, live.shape.counted, grown.half);
        },
      )
