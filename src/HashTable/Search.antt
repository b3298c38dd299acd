-- ===== src/HashTable/Search.antt =====
-- The three probe loops come to one place: the entry of the key, or the first empty slot.
use native.Mathlib.Nat.{
  pow-suc, one-le-pow, add-mul-mod_self_right, div-add-mod', mod-lt, mod-add-mod,
}
use aer.Base.{
  ℕ, zero, suc, ◌+◌, ◌-◌, ◌*◌, ◌/◌, ◌%◌, ◌^◌, ◌≤◌, ◌<◌, ◌≡◌, ◌≢◌, sym, ap, ◌∙◌, ◌⊎◌, inl, inr, none,
  some, arith, Bool-cases, Option-cases,
}
use aer.Base.Bytes.{Bytes, str_equal, str_equal_iff}
use aer.Hash.{hash_key}
use aer.HashTable.Contents.{not_equal}
use aer.HashTable.Placement.{Reaches}
use aer.HashTable.Ring.{walk, dist, walk-eq-mod, walk-lt, dist-lt, walk-dist, dist-walk}
use aer.HashTable.{HashTableEntry, Bucket, probe}

lt_or_eq : (d i : ℕ) → d < i + 1 → (d < i) ⊎ (d ≡ i)
lt_or_eq d i h = omega arith

module _ {ℓ} {V : Type ℓ} (c : ℕ) (home : Bytes → ℕ) (home-lt : (k : Bytes) → home k < c)
    (b : ℕ → Bucket V) (k : Bytes) where
  -- The place where a search for the key stops.
  pub record Site : Type ℓ where
    pub place : ℕ
    pub reached : Reaches c home b k place
    pub content : (b place ≡ none) ⊎ ((e : HashTableEntry V) × (b place ≡ some e) × (e.key ≡ k))

  abbrev Passed : ℕ → Type ℓ
  Passed i =
      (d : ℕ) → d < i → (e : HashTableEntry V) × (b (walk c (home k) d) ≡ some e) × (e.key ≢ k)

  Passed-more :
      (i : ℕ) (f : HashTableEntry V)
      → Passed i
      → b (walk c (home k) i) ≡ some f
      → f.key ≢ k
      → Passed (i + 1)
  Passed-more i f passed full other d h = elim (lt_or_eq d i h) [
    | inl less ↦ passed d less
    | inr same ↦ (f, rw same full, other)
  ]

  site_from : (n i : ℕ) → i + n ≡ c → Passed i → (hole : ℕ) → hole < c → b hole ≡ none → Site
  site_from zero i e passed hole inside empty =
      let d = dist-lt c (home k) hole (home-lt k) inside in
      let (f, full, _) = passed (dist c (home k) hole) (omega arith) in
      let there : b hole ≡ some f = rw (walk-dist c (home k) hole (home-lt k) inside) at full in cc
  site_from (suc n) i e passed hole inside empty =
      let p = walk c (home k) i in
      let reached : Reaches c home b k p = record {
        inside = walk-lt c (home k) i (home-lt k) (omega arith);
        passes = λ d h. passed d (rw (dist-walk c (home k) i (home-lt k) (omega arith)) at h);
      } in
      elim (Option-cases (b p)) [
        | inl free ↦ record { place = p; reached = reached; content = inl free }
        | inr (f, full) ↦ elim (Bool-cases (str_equal f.key k)) [
          | inl same ↦ record {
            place = p;
            reached = reached;
            content = inr (f, full, (str_equal_iff f.key k).0 same);
          }
          | inr other ↦
              site_from n (i + 1) (omega arith)
                (Passed-more i f passed full (not_equal f.key k other)) hole inside empty
        ]
      ]

  -- A table with a free slot has such a place for every key.
  pub site : (hole : ℕ) → hole < c → b hole ≡ none → Site
  site hole inside empty = site_from c 0 (omega arith) (λ d h. elim h [ ]) hole inside empty

-- The home slot of a key.
unfoldable pub home : ℕ → Bytes → ℕ
home c key = hash_key key % c

pub home-lt : (c : ℕ) → 0 < c → (k : Bytes) → home c k < c
unfolding home
home-lt c h k = mod-lt (hash_key k) h

-- A power of two divides a larger one.
pow_multiple : (e r : ℕ) → (m : ℕ) × (2 ^ (r + e) ≡ m * 2 ^ e)
pow_multiple e zero = (1, ground arith)
pow_multiple e (suc r) =
    let (m, h) = pow_multiple e r in
    (
      2 * m,
      (let up : 2 ^ (suc r + e) ≡ 2 ^ suc (r + e) = ap (λ (t : ℕ). 2 ^ t) (omega arith) in
          omega (arith, pow-suc 2 (r + e))),
    )

mod_of_multiple : (x w q m : ℕ) → w ≡ m * q → x % w % q ≡ x % q
mod_of_multiple x w q m h =
    let split : x ≡ x % w + x / w * m * q =
      omega (arith, div-add-mod' x w, ap (λ (t : ℕ). x / w * t) h) in
    sym (ap (λ (t : ℕ). t % q) split ∙ add-mul-mod_self_right (x % w) (x / w * m) q)

-- Wrapping the sum at 64 bits does not move the slot, since the capacity is a power of two.
pub probe-walk :
    (e hash i : ℕ) → e ≤ 31 → i < 2 ^ e → probe (2 ^ e) hash i ≡ walk (2 ^ e) (hash % 2 ^ e) i
unfolding probe
probe-walk e hash i he hi =
    let (m, h) = pow_multiple e (64 - e) in
    let sum : ◌≡◌ {A = ℕ} 64 (64 - e + e) = omega arith in
    let whole : 2 ^ 64 ≡ m * 2 ^ e = ap (λ (t : ℕ). 2 ^ t) sum ∙ h in
    mod_of_multiple (hash + i) (2 ^ 64) (2 ^ e) m whole
    ∙ sym (mod-add-mod hash (2 ^ e) i)
    ∙ walk-eq-mod (2 ^ e) (hash % 2 ^ e) i (mod-lt hash (omega (arith, one-le-pow e 2)))
        (omega arith)
