-- ===== src/HashTable/Clearing.antt =====
-- Clearing one slot of a table.
use mathlib.Core.Path.{subst}
use aer.Base.{
  ℕ, ◌+◌, ◌-◌, ◌%◌, ◌^◌, ◌<◌, ◌≡◌, sym, ap, ◌∙◌, inl, inr, Option, none, some, arith, length,
  length-set, set, if◌then◌else◌,
}
use aer.Base.Bytes.{Bytes, str_equal}
use aer.HashTable.Contents.{Represents, update-cases, erase-IsUnique, erase-Represents}
use aer.HashTable.Landing.{bucket-set}
use aer.HashTable.Live.{IsShaped, occupied, occupied-set, one_if}
use aer.HashTable.Loops.{capacity_le}
use aer.HashTable.Placement.{update, IsUnique}
use aer.HashTable.{HashTable, HashTableEntry, Bucket, bucket, clear_bucket}

module _ {ℓ} {V : Type ℓ} (t : HashTable V) (shape : IsShaped t) (p : ℕ) (inside : p < t.capacity)
    (e : HashTableEntry V) (at : bucket t p ≡ some e) where
  in_list : p < length t.buckets
  in_list = omega (arith, shape.width)

  pub cleared_bucket : bucket (clear_bucket t p) ≡ update (bucket t) p none
  cleared_bucket = bucket-set t p none ((t.count + 2 ^ 32 - 1) % 2 ^ 32) in_list

  cleared_count :
      (occupied (set t.buckets p none) + 1 ≡ t.count) × ((clear_bucket t p).count + 1 ≡ t.count)
  cleared_count =
      let sum = occupied-set t.buckets p none in_list in
      let one : ◌≡◌ {A = ℕ} (one_if (bucket t p)) 1 = rw at in
      let bound = capacity_le t shape e.key in
      (omega (arith, shape.counted), omega (arith, shape.counted, shape.spare))

  -- A slot cleared leaves the table in shape, with one entry less.
  pub cleared-IsShaped : IsShaped (clear_bucket t p)
  cleared-IsShaped = record {
    exponent = shape.exponent;
    exponent_le = shape.exponent_le;
    power = shape.power;
    roomy = shape.roomy;
    width = length-set t.buckets p none ∙ shape.width;
    counted = omega (arith, cleared_count);
    spare = omega (arith, cleared_count, shape.spare);
    lengths = λ q f there.
        let w : update (bucket t) p none q ≡ some f =
          rw (← ap (λ (g : ℕ → Bucket V). g q) cleared_bucket) there in
        elim (update-cases (bucket t) p q none) [
          | inl (_, ew) ↦ cc
          | inr (_, ew) ↦ shape.lengths q f (sym ew ∙ w)
        ];
  }

  pub cleared_less : (clear_bucket t p).count + 1 ≡ t.count
  cleared_less = cleared_count.1

  module _ (unique : IsUnique t.capacity (bucket t)) where
    pub cleared-IsUnique : IsUnique t.capacity (bucket (clear_bucket t p))
    cleared-IsUnique =
        subst (λ (b : ℕ → Bucket V). IsUnique t.capacity b) (sym cleared_bucket)
          (erase-IsUnique t.capacity (bucket t) p unique)

    pub cleared-Represents :
        (f : Bytes → Option V)
        → Represents t.capacity (bucket t) f
        → Represents t.capacity
            (bucket (clear_bucket t p))
            (λ q. if str_equal e.key q then none else f q)
    cleared-Represents f rep =
        subst
          (λ (b : ℕ → Bucket V).
            Represents t.capacity b (λ q. if str_equal e.key q then none else f q))
          (sym cleared_bucket) (erase-Represents t.capacity (bucket t) f p e rep unique inside at)
