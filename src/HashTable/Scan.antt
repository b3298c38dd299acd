-- ===== src/HashTable/Scan.antt =====
-- The entries of a list of buckets, read from front to back.
use aer.Base.{
  ℕ, suc, zero, ◌≡◌, ◌≢◌, refl, sym, ◌∙◌, inl, inr, List, [], ◌∷◌, Option, none, some, arith,
  Bool-cases, Option-cases, length, get_or, if◌then◌else◌,
}
use aer.Base.Bytes.{Bytes, str_equal, str_equal_iff}
use aer.HashTable.Contents.{Represents, not_equal}
use aer.HashTable.Placement.{IsUnique, Holds}
use aer.HashTable.{Bucket, HashTableEntry}

module _ {ℓ} {V : Type ℓ} where
  -- The first value under the key.
  unfoldable pub scan : List (Bucket V) → Bytes → Option V
  scan [] k = none
  scan (none ∷ bs) k = scan bs k
  scan (some e ∷ bs) k = if str_equal e.key k then some e.payload else scan bs k

  abbrev pub at_list : List (Bucket V) → ℕ → Bucket V
  at_list bs i = get_or bs i none

  -- No key stands twice.
  abbrev pub IsDistinct : List (Bucket V) → Type ℓ
  IsDistinct [] = Unit
  IsDistinct (none ∷ bs) = IsDistinct bs
  IsDistinct (some e ∷ bs) = (scan bs e.key ≡ none) × IsDistinct bs

  later :
      (b : Bucket V) (bs : List (Bucket V)) (k : Bytes) (v : V)
      → Holds (length bs) (at_list bs) k v
      → Holds (length (b ∷ bs)) (at_list (b ∷ bs)) k v
  later b bs k v h = record {
    slot = suc h.slot;
    entry = h.entry;
    inside = omega (arith, h.inside);
    there = h.there;
    its_key = h.its_key;
    its_value = h.its_value;
  }

  pub scan-Holds :
      (bs : List (Bucket V)) (k : Bytes) (v : V)
      → scan bs k ≡ some v
      → Holds (length bs) (at_list bs) k v
  unfolding scan
  scan-Holds [] k v h = cc
  scan-Holds (none ∷ bs) k v h = later none bs k v (scan-Holds bs k v h)
  scan-Holds (some e ∷ bs) k v h = elim (Bool-cases (str_equal e.key k)) [
    | inl same ↦ record {
      slot = 0;
      entry = e;
      inside = omega arith;
      there = refl;
      its_key = (str_equal_iff e.key k).0 same;
      its_value = let there = rw same at h in cc;
    }
    | inr other ↦ later (some e) bs k v (scan-Holds bs k v (rw other at h))
  ]

  scan-none :
      (bs : List (Bucket V)) (k : Bytes) (p : ℕ) (e : HashTableEntry V)
      → scan bs k ≡ none
      → at_list bs p ≡ some e
      → e.key ≢ k
  unfolding scan
  scan-none [] k p e h at = cc
  scan-none (none ∷ bs) k zero e h at = cc
  scan-none (none ∷ bs) k (suc p) e h at = scan-none bs k p e h at
  scan-none (some f ∷ bs) k zero e h at = elim (Bool-cases (str_equal f.key k)) [
    | inl same ↦ let bad = rw same at h in cc
    | inr other ↦ let named : f.key ≡ e.key = cc in rw named at (not_equal f.key k other)
  ]
  scan-none (some f ∷ bs) k (suc p) e h at = elim (Bool-cases (str_equal f.key k)) [
    | inl same ↦ let bad = rw same at h in cc
    | inr other ↦ scan-none bs k p e (rw other at h) at
  ]

  pub scan-Represents :
      (bs : List (Bucket V))
      → IsUnique (length bs) (at_list bs)
      → Represents (length bs) (at_list bs) (scan bs)
  scan-Represents bs unique k v = (
    scan-Holds bs k v,
    λ h. elim (Option-cases (scan bs k)) [
      | inl gone ↦ absurd (scan-none bs k h.slot h.entry gone h.there h.its_key)
      | inr (w, found) ↦
          let g = scan-Holds bs k w found in
          let same =
            unique g.slot h.slot g.entry h.entry g.inside h.inside g.there h.there
              (g.its_key ∙ sym h.its_key) in
          let there : at_list bs g.slot ≡ some h.entry = rw same h.there in
          let one = g.there in let v1 = g.its_value in let v2 = h.its_value in cc
    ],
  )

  tail-IsUnique :
      (b : Bucket V) (bs : List (Bucket V))
      → IsUnique (length (b ∷ bs)) (at_list (b ∷ bs))
      → IsUnique (length bs) (at_list bs)
  tail-IsUnique b bs unique p q e f hp hq at at' same =
      let up = unique (suc p) (suc q) e f (omega arith) (omega arith) at at' same in omega arith

  pub IsUnique-IsDistinct :
      (bs : List (Bucket V)) → IsUnique (length bs) (at_list bs) → IsDistinct bs
  IsUnique-IsDistinct [] unique = tt
  IsUnique-IsDistinct (none ∷ bs) unique = IsUnique-IsDistinct bs (tail-IsUnique none bs unique)
  IsUnique-IsDistinct (some e ∷ bs) unique = (
    elim (Option-cases (scan bs e.key)) [
      | inl gone ↦ gone
      | inr (w, found) ↦
          let g = scan-Holds bs e.key w found in
          let bad =
            unique 0 (suc g.slot) e g.entry (omega arith) (omega (arith, g.inside)) refl g.there
              (sym g.its_key) in
          absurd (omega arith)
    ],
    IsUnique-IsDistinct bs (tail-IsUnique (some e) bs unique),
  )
