-- ===== src/ValueBox/Public.antt =====
-- The seam between the packed word and the public tagged union.
use aer.Base.{ℕ, Bool, ◌^◌, ◌<◌, ◌≡◌, refl, ap, ◌∙◌, false, arith}
use aer.ValueBox.Integers.{as_int-aer_int}
use aer.ValueBox.Reals.{box_ptr-payload_ptr, as_bool-aer_bool, aer_real_lem}
use aer.ValueBox.{
  ValueType, Value, char_of_bool, bool_of_char, aer_type, aer_null, aer_bool, aer_real, aer_int,
  box_ptr, is_nan, Longs, public_of, aer_val_to_public, aer_val_from_public, is_boxed, type_of_code,
}

-- A value that a host can pass exactly: booleans that are 0 or 1, addresses of 48 bits, and doubles that are
-- numbers.
unfoldable pub IsExact : Value → Type 0
IsExact Value.null_value = Unit {0}
IsExact (Value.boolean_value c) = c < 2
IsExact (Value.integer_value n) = Unit {0}
IsExact (Value.real_value d) = (d < 2 ^ 64) × (is_nan d ≡ false)
IsExact (Value.string_value p) = p < 2 ^ 48
IsExact (Value.function_value p) = p < 2 ^ 48
IsExact (Value.array_value p) = p < 2 ^ 48
IsExact (Value.dict_value p) = p < 2 ^ 48

as_type :
    (longs : Longs) (v : ℕ) (tag : ValueType)
    → aer_type v ≡ tag
    → aer_val_to_public longs v ≡ public_of tag longs v
unfolding aer_val_to_public
as_type longs v tag h = ap (λ (t : ValueType). public_of t longs v) h

aer_null-null_value : (longs : Longs) → aer_val_to_public longs aer_null ≡ Value.null_value
unfolding aer_val_to_public aer_type aer_null is_boxed type_of_code
aer_null-null_value longs = refl

-- A pointer of any of the four types comes back with its type.
pointer :
    (longs : Longs) (tag : ValueType) (p : ℕ)
    → p < 2 ^ 48
    → aer_val_to_public longs (box_ptr tag p) ≡ public_of tag longs (box_ptr tag p)
pointer longs tag p h = as_type longs (box_ptr tag p) tag (box_ptr-payload_ptr tag p h).0

-- A value that a host passes in is the value that it is passed back: null, a boolean that is 0
-- or 1, an integer of any size, a double that is not a NaN, and a pointer of 48 bits,
-- if the cell of a large integer has an address below 2^47.
pub aer_val_to_public-aer_val_from_public :
    (box : ℕ) (longs : Longs) (value : Value)
    → box < 2 ^ 47
    → IsExact value
    → aer_val_to_public
        (aer_val_from_public box longs value).1
        (aer_val_from_public box longs value).0
      ≡ value
unfolding aer_val_from_public IsExact
aer_val_to_public-aer_val_from_public box longs Value.null_value h exact = aer_null-null_value longs
aer_val_to_public-aer_val_from_public box longs (Value.boolean_value c) h exact =
    let (type, back) = as_bool-aer_bool (bool_of_char c) in
    let same : char_of_bool (bool_of_char c) ≡ c = ground arith in
    as_type longs (aer_bool (bool_of_char c)) ValueType.boolean type
    ∙ ap (λ (b : Bool). Value.boolean_value (char_of_bool b)) back
    ∙ ap Value.boolean_value same
aer_val_to_public-aer_val_from_public box longs (Value.integer_value n) h exact =
    let boxed = as_int-aer_int box longs n h in
    let r : ℕ × Longs = aer_int box longs n in
    as_type r.1 r.0 ValueType.integer boxed.type ∙ ap Value.integer_value boxed.reads
aer_val_to_public-aer_val_from_public box longs (Value.real_value d) h exact =
    let (type, plain, _) = aer_real_lem d exact.0 in
    as_type longs (aer_real d) ValueType.real type ∙ ap Value.real_value (plain exact.1).1
aer_val_to_public-aer_val_from_public box longs (Value.string_value p) h exact =
    pointer longs ValueType.string p exact
    ∙ ap Value.string_value (box_ptr-payload_ptr ValueType.string p exact).1
aer_val_to_public-aer_val_from_public box longs (Value.function_value p) h exact =
    pointer longs ValueType.function p exact
    ∙ ap Value.function_value (box_ptr-payload_ptr ValueType.function p exact).1
aer_val_to_public-aer_val_from_public box longs (Value.array_value p) h exact =
    pointer longs ValueType.array p exact
    ∙ ap Value.array_value (box_ptr-payload_ptr ValueType.array p exact).1
aer_val_to_public-aer_val_from_public box longs (Value.dict_value p) h exact =
    pointer longs ValueType.dict p exact
    ∙ ap Value.dict_value (box_ptr-payload_ptr ValueType.dict p exact).1
