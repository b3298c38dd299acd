-- ===== src/HashTable/Remove.antt =====
-- The loop behind a removal: it ends, keeps the map, and leaves a sound table.
use mathlib.Core.Path.{subst, fun_ext, ap₂}
use mathlib.Core.List.{append-nil}
use aer.Base.{
  ℕ, suc, zero, ◌+◌, ◌*◌, ◌^◌, ◌≤◌, ◌<◌, ◌≡◌, ◌≢◌, refl, sym, ap, ◌∙◌, inl, inr, List, [], Option,
  none, some, arith, Bool-cases, Option-cases, if◌then◌else◌,
}
use aer.Base.Bytes.{Bytes, str_equal, str_equal_iff}
use aer.HashTable.Chain.Step.{step-Ends, step-IsMended}
use aer.HashTable.Chain.{IsMended, Ends, IsMended-finish}
use aer.HashTable.Clearing.{
  cleared_bucket, cleared-IsShaped, cleared_less, cleared-IsUnique, cleared-Represents,
}
use aer.HashTable.Contents.{Represents, IsOnly, update-cases}
use aer.HashTable.Landing.{
  after, after-bucket, written, released, bump, after-IsShaped, after-IsUnique, after-Represents,
}
use aer.HashTable.Live.{IsShaped, IsLive}
use aer.HashTable.Loops.{Place, place_of, positive, capacity_le}
use aer.HashTable.Placement.{update, IsUnique, Reaches}
use aer.HashTable.Put.{put_shaped}
use aer.HashTable.Ring.{walk, walk-lt, next_slot}
use aer.HashTable.Search.{home, home-lt}
use aer.HashTable.{
  HashTable, HashTableEntry, Bucket, Freed, bucket, clear_bucket, hashtable_put, reinsert_chain,
}

module _ {ℓ} {V : Type ℓ} (f : Bytes → Option V) (start : ℕ) where
  -- The table when the loop stands at rank `s` behind the freed slot: it holds the map `f`.
  pub record Mending (t : HashTable V) (s : ℕ) : Type ℓ where
    pub shape : IsShaped t
    pub sparse : t.count * 100 < t.capacity * 70
    pub small : t.count * 100 < 2 ^ 32
    pub unique : IsUnique t.capacity (bucket t)
    pub holds : Represents t.capacity (bucket t) f
    pub inside : start < t.capacity
    pub mended : IsMended t.capacity (home t.capacity) start (bucket t) s
    pub ends : Ends t.capacity (home t.capacity) start (bucket t) s

  module _ (t : HashTable V) (s : ℕ) (m : Mending t s) (e : HashTableEntry V)
      (s_lt : s < t.capacity) (at : bucket t (walk t.capacity start s) ≡ some e) where
    abbrev pub pos : ℕ
    pos = walk t.capacity start s

    pub pos-lt : pos < t.capacity
    pos-lt = walk-lt t.capacity start s m.inside s_lt

    abbrev pub cleared : HashTable V
    cleared = clear_bucket t pos

    pub cleared_shape : IsShaped cleared
    cleared_shape = cleared-IsShaped t m.shape pos pos-lt e at

    less : cleared.count + 1 ≡ t.count
    less = cleared_less t m.shape pos pos-lt e at

    cleared_buckets : bucket cleared ≡ update (bucket t) pos none
    cleared_buckets = cleared_bucket t m.shape pos pos-lt e at

    abbrev pub spot : Place cleared cleared_shape e.key
    spot = place_of cleared cleared_shape e.key

    -- The entry's key is nowhere else.
    gone :
        (q : ℕ) (g : HashTableEntry V) → q < t.capacity → bucket cleared q ≡ some g → g.key ≢ e.key
    gone q g hq there same =
        let w : update (bucket t) pos none q ≡ some g =
          rw (← ap (λ (b : ℕ → Bucket V). b q) cleared_buckets) there in
        elim (update-cases (bucket t) pos q none) [
          | inl (_, ew) ↦ cc
          | inr (away, ew) ↦ away (m.unique pos q e g pos-lt hq at (sym ew ∙ w) (sym same))
        ]

    free : bucket cleared spot.place ≡ none
    free = elim spot.content [
      | inl empty ↦ empty
      | inr (g, full, named) ↦ absurd (gone spot.place g spot.reached.inside full named)
    ]

    abbrev pub again : HashTable V
    again = after cleared cleared_shape e.key e.payload spot

    pub put_again : hashtable_put cleared e.key e.payload ≡ some (again, [])
    unfolding hashtable_put released
    put_again =
        put_shaped cleared cleared_shape (omega (arith, less, m.sparse))
          (omega (arith, less, m.small)) 1 e.key e.payload spot
        ∙ rw free

    same_entry : written e.key e.payload (bucket cleared spot.place) ≡ e
    unfolding written
    same_entry = let l = m.shape.lengths pos e at in rw (free, ← l)

    pub again_count : again.count ≡ t.count
    unfolding bump
    again_count =
        let bound = capacity_le t m.shape e.key in rw free (omega (arith, less, m.shape.spare))

    alone : IsOnly t.capacity (bucket cleared) e.key spot.place
    alone q g hq there same = absurd (gone q g hq there same)

    -- Taken out and put again, the entry reads as before.
    restored :
        (q : Bytes)
        → (if str_equal e.key q then some e.payload else (if str_equal e.key q then none else f q))
          ≡ f q
    restored q = elim (Bool-cases (str_equal e.key q)) [
      | inl same ↦
          let named : e.key ≡ q = (str_equal_iff e.key q).0 same in
          let value = (m.holds q e.payload).1 (record {
            slot = pos;
            entry = e;
            inside = pos-lt;
            there = at;
            its_key = named;
            its_value = refl;
          }) in
          rw same (sym value)
      | inr other ↦ rw other
    ]

    again-bucket : bucket again ≡ update (update (bucket t) pos none) spot.place (some e)
    again-bucket =
        after-bucket cleared cleared_shape e.key e.payload spot
        ∙ ap₂ (λ (b : ℕ → Bucket V) (x : HashTableEntry V). update b spot.place (some x))
            cleared_buckets same_entry

    lands : (k : Bytes) → home t.capacity k < t.capacity
    lands = home-lt t.capacity (positive t m.shape e.key)

    reach : Reaches t.capacity (home t.capacity) (update (bucket t) pos none) e.key spot.place
    reach =
        subst (λ (b : ℕ → Bucket V). Reaches t.capacity (home t.capacity) b e.key spot.place)
          cleared_buckets spot.reached

    free_before : update (bucket t) pos none spot.place ≡ none
    free_before = subst (λ (b : ℕ → Bucket V). b spot.place ≡ none) cleared_buckets free

    pub round : Mending again (s + 1)
    round = record {
      shape =
          after-IsShaped cleared cleared_shape e.key e.payload spot
            (λ _. omega (arith, less, m.shape.spare));
      sparse = omega (arith, again_count, m.sparse);
      small = omega (arith, again_count, m.small);
      unique =
          after-IsUnique cleared cleared_shape e.key e.payload spot alone
            (cleared-IsUnique t m.shape pos pos-lt e at m.unique);
      holds =
          subst (λ (g : Bytes → Option V). Represents t.capacity (bucket again) g)
            (fun_ext restored)
            (after-Represents cleared cleared_shape e.key e.payload spot alone _
              (cleared-Represents t m.shape pos pos-lt e at m.unique f m.holds));
      inside = m.inside;
      mended =
          subst (λ (b : ℕ → Bucket V). IsMended t.capacity (home t.capacity) start b (s + 1))
            (sym again-bucket)
            (step-IsMended t.capacity (home t.capacity) lands start m.inside (bucket t) s e
              spot.place s_lt at m.mended m.ends reach free_before);
      ends =
          subst (λ (b : ℕ → Bucket V). Ends t.capacity (home t.capacity) start b (s + 1))
            (sym again-bucket)
            (step-Ends t.capacity (home t.capacity) lands start m.inside (bucket t) s e spot.place
              s_lt at m.mended m.ends reach free_before);
    }

  -- What the loop leaves.
  pub record Mended (t r : HashTable V) : Type ℓ where
    pub live : IsLive r
    pub holds : Represents r.capacity (bucket r) f
    pub counts : r.count ≡ t.count
    pub mode : r.is_inline ≡ t.is_inline

  -- With a round left for each slot ahead the loop ends, and releases nothing.
  pub reinsert_chain-Mended :
      (fuel : ℕ) (t : HashTable V) (s : ℕ) (freed : List (Freed V))
      → Mending t s
      → t.capacity ≤ s + fuel
      → (r : HashTable V) × (reinsert_chain fuel t t.capacity (walk t.capacity start s) freed
          ≡ some (r, freed))
        × Mended t r
  unfolding reinsert_chain
  reinsert_chain-Mended zero t s freed m room = absurd (omega (arith, m.ends.ahead, m.ends.inside))
  reinsert_chain-Mended (suc n) t s freed m room =
      elim (Option-cases (bucket t (walk t.capacity start s))) [
        | inl stop ↦ (
          t,
          rw (stop, reinsert_chain),
          record {
            live = record {
              shape = m.shape;
              sparse = omega (arith, m.sparse);
              placed =
                  IsMended-finish t.capacity (home t.capacity)
                    (home-lt t.capacity (positive t m.shape [])) start m.inside (bucket t) s
                    m.mended stop;
              unique = m.unique;
            };
            holds = m.holds;
            counts = refl;
            mode = refl;
          },
        )
        | inr (e, at) ↦
            let s_lt : s < t.capacity = omega (arith, m.ends.ahead, m.ends.inside) in
            let t' = again t s m e s_lt at in
            let m' = round t s m e s_lt at in
            let (r, run, d) = reinsert_chain-Mended n t' (s + 1) freed m' (omega arith) in
            let on =
              next_slot t.capacity start s m.inside (capacity_le t m.shape [])
                (omega (arith, m'.ends.ahead, m'.ends.inside)) in
            (
              r,
              rw (at, put_again t s m e s_lt at, on, append-nil freed, reinsert_chain) run,
              record {
                live = d.live;
                holds = d.holds;
                counts = d.counts ∙ again_count t s m e s_lt at;
                mode = d.mode;
              },
            )
      ]
