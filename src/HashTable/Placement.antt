-- ===== src/HashTable/Placement.antt =====
-- Where entries stand: the invariant of linear probing, over the buckets as a function of the slot.
use aer.Base.{
  ℕ, ◌<◌, ◌≡◌, ◌≢◌, sym, ap, ◌∙◌, ◌⊎◌, inl, inr, none, some, arith, ◌==◌, ==_iff, if◌then◌else◌,
  Bool-cases,
}
use aer.Base.Bytes.{Bytes}
use aer.HashTable.Ring.{walk, dist, walk-dist}
use aer.HashTable.{HashTableEntry, Bucket}

-- One slot changed.
abbrev pub update {ℓ} : {A : Type ℓ} → (ℕ → A) → ℕ → A → ℕ → A
update b p x j = if p == j then x else b j

-- `c` slots, and the slot at which the search for a key starts.
module _ {ℓ} {V : Type ℓ} (c : ℕ) (home : Bytes → ℕ) where
  -- Up to an entry, no slot of its probe sequence is empty.
  abbrev pub IsPlaced : (ℕ → Bucket V) → Type ℓ
  IsPlaced b =
      (p d : ℕ) (e : HashTableEntry V)
      → p < c
      → b p ≡ some e
      → d < dist c (home e.key) p
      → b (walk c (home e.key) d) ≢ none

  -- A search for the key comes to slot `p`: it meets only entries of other keys before.
  pub record Reaches (b : ℕ → Bucket V) (k : Bytes) (p : ℕ) : Type ℓ where
    pub inside : p < c
    pub passes :
        (d : ℕ)
        → d < dist c (home k) p
        → (e : HashTableEntry V) × (b (walk c (home k) d) ≡ some e) × (e.key ≢ k)

module _ {ℓ} {V : Type ℓ} (c : ℕ) where
  abbrev pub IsUnique : (ℕ → Bucket V) → Type ℓ
  IsUnique b =
      (p q : ℕ) (e f : HashTableEntry V)
      → p < c
      → q < c
      → b p ≡ some e
      → b q ≡ some f
      → e.key ≡ f.key
      → p ≡ q

  -- The table holds the value under the key.
  pub record Holds (b : ℕ → Bucket V) (k : Bytes) (v : V) : Type ℓ where
    pub slot : ℕ
    pub entry : HashTableEntry V
    pub inside : slot < c
    pub there : b slot ≡ some entry
    pub its_key : entry.key ≡ k
    pub its_value : entry.payload ≡ v

  abbrev pub IsAbsent : (ℕ → Bucket V) → Bytes → Type ℓ
  IsAbsent b k = (p : ℕ) (e : HashTableEntry V) → p < c → b p ≡ some e → e.key ≢ k

module _ {ℓ} {V : Type ℓ} where
  pub update-ne-none :
      (b : ℕ → Bucket V) (p j : ℕ) (e : HashTableEntry V)
      → b j ≢ none
      → update b p (some e) j ≢ none
  update-ne-none b p j e h = ground arith

lt_cases : (a b : ℕ) → (a < b) ⊎ ((a ≡ b) ⊎ (b < a))
lt_cases a b = omega arith

module _ {ℓ} {V : Type ℓ} (c : ℕ) (home : Bytes → ℕ) (home-lt : (k : Bytes) → home k < c) where
  -- Where the entry of the key stands, seen from a slot that its search reaches.
  pub Reaches-order :
      (b : ℕ → Bucket V) (k : Bytes) (p q : ℕ) (e : HashTableEntry V)
      → Reaches c home b k p
      → q < c
      → b q ≡ some e
      → e.key ≡ k
      → (p ≡ q) ⊎ (dist c (home k) p < dist c (home k) q)
  Reaches-order b k p q e r hq at same = elim (lt_cases (dist c (home k) p) (dist c (home k) q)) [
    | inl less ↦ inr less
    | inr (inl same_place) ↦ inl (
        sym (walk-dist c (home k) p (home-lt k) r.inside)
        ∙ ap (walk c (home k)) same_place
        ∙ walk-dist c (home k) q (home-lt k) hq)
    | inr (inr more) ↦
        let (f, found, other) = r.passes (dist c (home k) q) more in
        let here : b q ≡ some f = rw (walk-dist c (home k) q (home-lt k) hq) at found in
        let theirs : f.key ≡ k = cc in absurd (other theirs)
  ]

  -- A search that has reached an empty slot proves the key absent.
  pub Reaches-IsAbsent :
      (b : ℕ → Bucket V) (k : Bytes) (p : ℕ)
      → IsPlaced c home b
      → Reaches c home b k p
      → b p ≡ none
      → IsAbsent c b k
  Reaches-IsAbsent b k p placed r empty q e hq at same =
      elim (Reaches-order b k p q e r hq at same) [
        | inl here ↦ cc
        | inr less ↦
            let there = placed q (dist c (home k) p) e hq at (rw same less) in
            (rw (same, walk-dist c (home k) p (home-lt k) r.inside) at there) empty
      ]

  pub fill-IsPlaced :
      (b : ℕ → Bucket V) (p : ℕ) (e : HashTableEntry V)
      → IsPlaced c home b
      → Reaches c home b e.key p
      → IsPlaced c home (update b p (some e))
  fill-IsPlaced b p e placed r q d f hq at hd = update-ne-none b p _ e (elim (Bool-cases (p == q)) [
    | inl here ↦
        let mine : f.key ≡ e.key = cc (rw here at at) in
        let place : p ≡ q = (==_iff p q).0 here in
        let (g, found, other) = r.passes d (rw (mine, ← place) at hd) in rw (mine, found) (λ h. cc)
    | inr other ↦ placed q d f hq (rw other at at) hd
  ])
