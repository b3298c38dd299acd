-- ===== src/ValueBox/Reals.antt =====
-- Pointers, booleans and reals in a word.
use aer.Base.{
  unequal, ℕ, ◌/◌, ◌%◌, ◌^◌, ◌<◌, ◌≡◌, refl, ap, ◌∙◌, inl, inr, Bool, true, false, arith, ◌==◌,
  ==_iff, Bool-cases, bit_and,
}
use aer.ValueBox.Fields.{tagged-sum, is_boxed_iff, aer_type-tagged, low_48}
use aer.ValueBox.{
  ValueType, type_code, boxed_test, payload_mask, is_boxed, aer_type, tagged, box_ptr, payload_ptr,
  aer_null, aer_bool, as_bool, aer_real, as_real, is_nan,
}

pub aer_null-tagged : aer_null ≡ tagged ValueType.null 0
unfolding aer_null
aer_null-tagged = refl

-- A pointer of 48 bits keeps its tag and its address in a word.
pub box_ptr-payload_ptr :
    (tag : ValueType) (p : ℕ)
    → p < 2 ^ 48
    → (aer_type (box_ptr tag p) ≡ tag) × (payload_ptr (box_ptr tag p) ≡ p)
unfolding box_ptr payload_ptr
box_ptr-payload_ptr tag p h =
    let whole : bit_and p payload_mask ≡ p = low_48 p ∙ omega arith in
    let sum = tagged-sum tag p h in
    (rw (whole) (aer_type-tagged tag p h), rw (whole) (low_48 (tagged tag p) ∙ omega arith))

pub as_bool-aer_bool :
    (b : Bool) → (aer_type (aer_bool b) ≡ ValueType.boolean) × (as_bool (aer_bool b) ≡ b)
unfolding aer_bool as_bool aer_type is_boxed aer.ValueBox.type_of_code
as_bool-aer_bool true = (refl, refl)
as_bool-aer_bool false = (refl, refl)

-- Every word that the test takes for a boxed value is a NaN as a double.
boxed-is_nan : (d : ℕ) → d < 2 ^ 64 → is_boxed d ≡ true → is_nan d ≡ true
unfolding is_nan
boxed-is_nan d small h =
    let top = (is_boxed_iff d small).0 h in
    let exponent : (d / 2 ^ 52 % 2 ^ 11 == 2047) ≡ true = (==_iff _ _).1 (omega arith) in
    let fraction : (d % 2 ^ 52 == 0) ≡ false = unequal _ _ (λ e. omega arith) in
    rw (exponent, fraction) refl

pub unboxed : (d : ℕ) → d < 2 ^ 64 → is_nan d ≡ false → is_boxed d ≡ false
unboxed d small h = elim (Bool-cases (is_boxed d)) [
  | inl boxed ↦ let nan = boxed-is_nan d small boxed in cc
  | inr plain ↦ plain
]

abbrev pub canonical_nan : ℕ
canonical_nan = tagged ValueType.real 0

aer_real-nan : (d : ℕ) → is_nan d ≡ true → aer_real d ≡ canonical_nan
unfolding aer_real
aer_real-nan d h = rw (h) refl

aer_real-plain : (d : ℕ) → is_nan d ≡ false → aer_real d ≡ d
unfolding aer_real
aer_real-plain d h = rw (h) refl

read_nan : is_nan (as_real canonical_nan) ≡ true
unfolding as_real is_boxed is_nan
read_nan = refl

-- `aer_real` gives a word of type real for every double. A double that is not a NaN is stored as
-- itself and read back exactly, and each NaN is stored as one word, which reads back as a NaN.
pub aer_real_lem :
    (d : ℕ)
    → d < 2 ^ 64
    → (aer_type (aer_real d) ≡ ValueType.real)
      × (is_nan d ≡ false → (aer_real d ≡ d) × (as_real (aer_real d) ≡ d))
      × (is_nan d ≡ true → (aer_real d ≡ canonical_nan) × (is_nan (as_real (aer_real d)) ≡ true))
unfolding aer_type as_real
aer_real_lem d small = elim (Bool-cases (is_nan d)) [
  | inl nan ↦
      let stored = aer_real-nan d nan in
      (
        ap aer_type stored ∙ aer_type-tagged ValueType.real 0 (omega arith),
        λ plain. cc,
        λ h. (stored, rw (stored) read_nan),
      )
  | inr plain ↦
      let stored = aer_real-plain d plain in
      let double = unboxed d small plain in
      (rw (stored, double) refl, λ h. (stored, rw (stored, double) refl), λ nan. cc)
]
