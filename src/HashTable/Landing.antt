-- ===== src/HashTable/Landing.antt =====
-- What writing an entry at the place of its key does to the table.
use mathlib.Core.Path.{fun_ext, subst, subst₂}
use aer.Base.{
  ℕ, ◌+◌, ◌%◌, ◌^◌, ◌<◌, ◌≡◌, refl, sym, ap, ◌∙◌, inl, inr, [], ◌∷◌, ◌++◌, List, Option, none, some,
  arith, length, set, length-set, if◌then◌else◌,
}
use aer.Base.Bytes.{Bytes, str_equal}
use aer.Hash.{strlen32}
use aer.HashTable.Contents.{Represents, IsOnly, update-cases, write-IsUnique, write-Represents}
use aer.HashTable.Live.{occupied, occupied-set, one_if, IsShaped, set-update, landed}
use aer.HashTable.Loops.{Place, positive, capacity_le}
use aer.HashTable.Placement.{update, IsPlaced, IsUnique, Reaches-IsAbsent, fill-IsPlaced}
use aer.HashTable.Search.{home, home-lt}
use aer.HashTable.{HashTable, HashTableEntry, Bucket, Freed, key_of, bucket, free_payload, Freed}

module _ {ℓ} {V : Type ℓ} where
  -- The entry that stands at the place afterwards.
  unfoldable pub written : Bytes → V → Bucket V → HashTableEntry V
  written k v none = record { key = k; len = strlen32 k; payload = v }
  written k v (some e) = record e { payload = v }

  -- What is counted and what is released.
  unfoldable pub bump : ℕ → Bucket V → ℕ
  bump n none = (n + 1) % 2 ^ 32
  bump n (some _) = n

  unfoldable pub released : HashTable V → Bytes → Bucket V → List (Freed V)
  released t k none = []
  released t k (some e) = free_payload t e.payload ++ (key_of k ∷ [])

  landed-written :
      (t : HashTable V) (p : ℕ) (k : Bytes) (v : V) (b : Bucket V)
      → landed t p k v b ≡ (
        record t { buckets = set t.buckets p (some (written k v b)); count = bump t.count b },
        released t k b,
      )
  unfolding landed written bump released
  landed-written t p k v none = refl
  landed-written t p k v (some e) = refl

  -- Where a bucket is written the others stay.
  pub bucket-set :
      (t : HashTable V) (p : ℕ) (x : Bucket V) (n : ℕ)
      → p < length t.buckets
      → bucket (record t { buckets = set t.buckets p x; count = n }) ≡ update (bucket t) p x
  bucket-set t p x n h = fun_ext (set-update t.buckets p x h)

module _ {ℓ} {V : Type ℓ} (t : HashTable V) (shape : IsShaped t) (k : Bytes) (v : V)
    (s : Place t shape k) where
  abbrev entry : HashTableEntry V
  entry = written k v (bucket t s.place)

  abbrev pub after : HashTable V
  after = record t {
    buckets = set t.buckets s.place (some entry);
    count = bump t.count (bucket t s.place);
  }

  pub landed-after :
      landed t s.place k v (bucket t s.place) ≡ (after, released t k (bucket t s.place))
  landed-after = landed-written t s.place k v (bucket t s.place)

  in_list : s.place < length t.buckets
  in_list = omega (arith, shape.width, s.reached.inside)

  entry_key : entry.key ≡ k
  unfolding written
  entry_key = elim s.content [ inl free ↦ rw free | inr (e, full, mine) ↦ rw full mine ]

  entry_value : entry.payload ≡ v
  unfolding written
  entry_value = elim s.content [ inl free ↦ rw free | inr (e, full, mine) ↦ rw full ]

  entry_len : entry.len ≡ strlen32 entry.key
  unfolding written
  entry_len = elim s.content [
    | inl free ↦ rw free
    | inr (e, full, mine) ↦ rw full (shape.lengths _ e full)
  ]

  pub after-bucket : bucket after ≡ update (bucket t) s.place (some entry)
  after-bucket = bucket-set t s.place (some entry) (bump t.count (bucket t s.place)) in_list

  after_counted :
      (bucket t s.place ≡ none → t.count + 1 < t.capacity)
      → (after.count ≡ occupied after.buckets) × (after.count < t.capacity)
  unfolding bump
  after_counted room =
      let sum = occupied-set t.buckets s.place (some entry) in_list in
      let bound = capacity_le t shape k in
      elim s.content [
        | inl free ↦
            let low = room free in
            let old : ◌≡◌ {A = ℕ} (one_if (bucket t s.place)) 0 = rw free in
            let new : bump t.count (bucket t s.place) ≡ t.count + 1 = rw free (omega arith) in
            (omega arith, omega arith)
        | inr (e, full, mine) ↦
            let old : ◌≡◌ {A = ℕ} (one_if (bucket t s.place)) 1 = rw full in
            let new : bump t.count (bucket t s.place) ≡ t.count = rw full in
            (omega arith, omega (arith, shape.spare))
      ]

  -- The shape is kept where there is room for one more.
  pub after-IsShaped : (bucket t s.place ≡ none → t.count + 1 < t.capacity) → IsShaped after
  after-IsShaped room = record {
    exponent = shape.exponent;
    exponent_le = shape.exponent_le;
    power = shape.power;
    roomy = shape.roomy;
    width = length-set t.buckets s.place (some entry) ∙ shape.width;
    counted = (after_counted room).0;
    spare = (after_counted room).1;
    lengths = λ p e at.
        let there : update (bucket t) s.place (some entry) p ≡ some e =
          rw (← ap (λ (g : ℕ → Bucket V). g p) after-bucket) at in
        elim (update-cases (bucket t) s.place p (some entry)) [
          | inl (_, ew) ↦ let l = entry_len in let same : entry ≡ e = cc in rw same at l
          | inr (_, ew) ↦ shape.lengths p e (sym ew ∙ there)
        ];
  }

  -- In a sound table the place is the only one for its key.
  pub place-IsOnly :
      IsPlaced t.capacity (home t.capacity) (bucket t)
      → IsUnique t.capacity (bucket t)
      → IsOnly t.capacity (bucket t) k s.place
  place-IsOnly placed unique q e hq at mine = elim s.content [
    | inl free ↦ absurd (
        Reaches-IsAbsent t.capacity (home t.capacity) (home-lt t.capacity (positive t shape k))
          (bucket t) k s.place placed s.reached free q e hq at mine)
    | inr (f, full, named) ↦ unique s.place q f e s.reached.inside hq full at (named ∙ sym mine)
  ]

  pub after-IsPlaced :
      IsPlaced t.capacity (home t.capacity) (bucket t)
      → IsPlaced t.capacity (home t.capacity) (bucket after)
  after-IsPlaced placed =
      subst (λ (b : ℕ → Bucket V). IsPlaced t.capacity (home t.capacity) b) (sym after-bucket)
        (fill-IsPlaced t.capacity (home t.capacity) (home-lt t.capacity (positive t shape k))
          (bucket t) s.place entry placed (rw entry_key s.reached))

  module _ (alone : IsOnly t.capacity (bucket t) k s.place) where
    only : IsOnly t.capacity (bucket t) entry.key s.place
    only q e hq at mine = alone q e hq at (mine ∙ entry_key)

    pub after-IsUnique : IsUnique t.capacity (bucket t) → IsUnique t.capacity (bucket after)
    after-IsUnique unique =
        subst (λ (b : ℕ → Bucket V). IsUnique t.capacity b) (sym after-bucket)
          (write-IsUnique t.capacity (bucket t) s.place entry unique only)

    -- The map has the new value under the key.
    pub after-Represents :
        (f : Bytes → Option V)
        → Represents t.capacity (bucket t) f
        → Represents t.capacity (bucket after) (λ q. if str_equal k q then some v else f q)
    after-Represents f rep =
        let r =
          write-Represents t.capacity (bucket t) f s.place entry rep s.reached.inside only
            (λ old at. elim s.content [
              | inl free ↦ cc
              | inr (e, full, named) ↦
                  let same : e.key ≡ old.key = cc in sym same ∙ named ∙ sym entry_key
            ]) in
        subst
          (λ (b : ℕ → Bucket V).
            Represents t.capacity b (λ q. if str_equal k q then some v else f q))
          (sym after-bucket)
          (subst₂
            (λ (x : Bytes) (w : V).
              Represents t.capacity (update (bucket t) s.place (some entry))
                (λ q. if str_equal x q then some w else f q))
            entry_key entry_value r)
