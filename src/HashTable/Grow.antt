-- ===== src/HashTable/Grow.antt =====
-- The loop that finds the new capacity of a rehash, and the empty table of that size.
use native.Mathlib.Nat.{
  le-div_iff_mul-le, div-lt_iff_lt-mul, mod-eq_of_lt, pow-le-pow_right, pow-suc, one-le-pow,
}
use aer.Base.{
  ℕ, suc, zero, ◌+◌, ◌*◌, ◌%◌, ◌^◌, ◌≤◌, ◌<◌, ◌≡◌, refl, sym, ◌⊎◌, inl, inr, none, some, arith,
  false, leb, Bool-cases, leb→le, replicate, length-replicate, get_or,
}
use aer.Base.Bytes.{Bytes}
use aer.HashTable.Contents.{Represents, Represents-same}
use aer.HashTable.Live.{IsLive, occupied}
use aer.HashTable.Lookup.{lookup-Represents}
use aer.HashTable.{HashTable, Bucket, bucket, load, low, lookup, grow_capacity}

lt_or_le : (a b : ℕ) → (a < b) ⊎ (b ≤ a)
lt_or_le a b = omega arith

-- A new capacity: a power of two, under half full.
pub record Grown (count capacity result : ℕ) : Type 0 where
  pub exponent : ℕ
  pub exponent_le : exponent ≤ 31
  pub power : result ≡ 2 ^ exponent
  pub larger : capacity ≤ result
  pub half : count * 100 < result * 50

-- A power of two up to twice a small count has a small exponent.
exponent_small : (e n : ℕ) → 2 ^ e ≤ 2 * n → n * 100 < 2 ^ 32 → e < 28
exponent_small e n le small = elim (lt_or_le e 28) [
  | inl h ↦ h
  | inr h ↦
      let p : 2 ^ 28 ≤ 2 ^ e = pow-le-pow_right {n = 2} (omega arith) h in absurd (omega arith)
]

pub leb-false : (a b : ℕ) → leb a b ≡ false → b < a
leb-false a b h = ground arith

-- The loop that doubles the capacity ends when the fuel covers the powers of two up to 2^29 and the
-- wrapped count is the count itself: at a power of two of 32 bits, no smaller than the first, of
-- which the count is less than half.
pub grow_capacity-Grown :
    (f count capacity e : ℕ)
    → 29 ≤ f + e
    → e ≤ 31
    → 0 < f
    → capacity ≡ 2 ^ e
    → count * 100 < 2 ^ 32
    → (c : ℕ) × (grow_capacity f count capacity ≡ some c) × Grown count capacity c
unfolding grow_capacity
grow_capacity-Grown zero count capacity e room small_e pos power small = absurd (omega arith)
grow_capacity-Grown (suc f) count capacity e room small_e pos power small =
    let flat : count * 100 % 2 ^ 32 ≡ count * 100 = mod-eq_of_lt small in
    let positive : 0 < capacity = rw power (one-le-pow e 2 (omega arith)) in
    elim (Bool-cases (leb low (load count capacity))) [
      | inl loaded ↦
          let many =
            (le-div_iff_mul-le {x = 50} {y = count * 100} positive).0
              (leb→le 50 _ (rw flat at loaded)) in
          let few = exponent_small e count (rw (← power) (omega arith)) small in
          let double : capacity * 2 % 2 ^ 32 ≡ 2 ^ suc e = omega (arith, pow-suc 2 e) in
          let (c, run, g) =
            grow_capacity-Grown f count (capacity * 2 % 2 ^ 32) (suc e) (omega arith) (omega arith)
              (omega arith) double small in
          (
            c,
            rw loaded run,
            record {
              exponent = g.exponent;
              exponent_le = g.exponent_le;
              power = g.power;
              larger = omega (arith, g.larger, pow-suc 2 e);
              half = g.half;
            },
          )
      | inr light ↦ (
        capacity,
        rw light,
        record {
          exponent = e;
          exponent_le = small_e;
          power = power;
          larger = omega arith;
          half = omega (
            arith,
            (div-lt_iff_lt-mul {x = count * 100} {y = 50} positive).0
                (leb-false 50 _ (rw flat at light)),
          );
        },
      )
    ]

module _ {ℓ} (V : Type ℓ) where
  occupied-replicate : (n : ℕ) → occupied (replicate {A = Bucket V} n none) ≡ 0
  unfolding occupied
  occupied-replicate zero = refl
  occupied-replicate (suc n) = occupied-replicate n

  get_or-replicate : (n i : ℕ) → get_or {A = Bucket V} (replicate n none) i none ≡ none
  get_or-replicate zero i = refl
  get_or-replicate (suc n) zero = refl
  get_or-replicate (suc n) (suc i) = get_or-replicate n i

module _ {ℓ} {V : Type ℓ} where
  -- The empty table of `n` buckets.
  abbrev pub fresh : HashTable V → ℕ → HashTable V
  fresh t n = record t { buckets = replicate n none; capacity = n; count = 0 }

  pub fresh-IsLive : (t : HashTable V) (n e : ℕ) → n ≡ 2 ^ e → e ≤ 31 → 16 ≤ n → IsLive (fresh t n)
  fresh-IsLive t n e power small roomy = record {
    shape = record {
      exponent = e;
      exponent_le = small;
      power = power;
      roomy = roomy;
      width = length-replicate n none;
      counted = sym (occupied-replicate V n);
      spare = omega arith;
      lengths = λ p f at. let free = get_or-replicate V n p in cc;
    };
    sparse = omega arith;
    placed = λ p d f hp at. let free = get_or-replicate V n p in cc;
    unique = λ p q f g hp hq at. let free = get_or-replicate V n p in cc;
  }

  pub lookup-fresh :
      (t : HashTable V) (n e : ℕ)
      → n ≡ 2 ^ e
      → e ≤ 31
      → 16 ≤ n
      → (k : Bytes) → lookup (fresh t n) k ≡ none
  lookup-fresh t n e power small roomy =
      let empty : Represents n (bucket (fresh t n)) (λ _. none) = λ k v.
        ((λ h. cc), λ h. let free = get_or-replicate V n h.slot in let there = h.there in cc) in
      Represents-same n (bucket (fresh t n)) (lookup (fresh t n)) (λ _. none)
        (lookup-Represents (fresh t n) (fresh-IsLive t n e power small roomy)) empty
