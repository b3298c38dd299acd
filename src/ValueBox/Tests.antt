-- ===== src/ValueBox/Tests.antt =====
-- Words of small values, and instances of the theorems.
use aer.Base.{ℕ, ◌-◌, ◌^◌, ◌≡◌, refl, false, true, arith}
use aer.Base.Int.{ℤ, pos, negsuc}
use aer.ValueBox.Integers.{Boxed, as_int-aer_int}
use aer.ValueBox.Public.{IsExact, aer_val_to_public-aer_val_from_public}
use aer.ValueBox.Reals.{aer_real_lem, box_ptr-payload_ptr, canonical_nan}
use aer.ValueBox.{
  ValueType, Value, Longs, aer_int, aer_type, aer_real, as_real, is_nan, box_ptr, payload_ptr,
  aer_val_to_public, aer_val_from_public, to_word,
}

abbrev no_longs : Longs
no_longs _ = pos 0

-- The word of -1, and the greatest integer beyond 47 bits in a cell.
minus_one : (aer_int 4096 no_longs (negsuc 0)).0 ≡ 0x7ffa7fffffffffff
unfolding aer_int to_word
minus_one = refl

abbrev long_max : ℤ
long_max = pos (2 ^ 63 - 1)

large_cell : (aer_int 4096 no_longs long_max).0 ≡ 0x7ffa800000001000
unfolding aer_int to_word
large_cell = refl

-- The double 1.5.
abbrev three_halves : ℕ
three_halves = 0x3ff8000000000000

aer_real_lem_example :
    (aer_type (aer_real three_halves) ≡ ValueType.real)
    × (is_nan three_halves ≡ false
        → (aer_real three_halves ≡ three_halves) × (as_real (aer_real three_halves) ≡ three_halves))
    × (is_nan three_halves ≡ true
        → (aer_real three_halves ≡ canonical_nan)
          × (is_nan (as_real (aer_real three_halves)) ≡ true))
aer_real_lem_example = aer_real_lem three_halves (omega arith)

box_ptr-payload_ptr_example :
    (aer_type (box_ptr ValueType.dict 65536) ≡ ValueType.dict)
    × (payload_ptr (box_ptr ValueType.dict 65536) ≡ 65536)
box_ptr-payload_ptr_example = box_ptr-payload_ptr ValueType.dict 65536 (omega arith)

as_int-aer_int_example : Boxed 4096 no_longs long_max (aer_int 4096 no_longs long_max)
as_int-aer_int_example = as_int-aer_int 4096 no_longs long_max (omega arith)

string_value : IsExact (Value.string_value 65536)
unfolding IsExact
string_value = omega arith

aer_val_to_public-aer_val_from_public_example :
    aer_val_to_public
      (aer_val_from_public 4096 no_longs (Value.string_value 65536)).1
      (aer_val_from_public 4096 no_longs (Value.string_value 65536)).0
    ≡ Value.string_value 65536
aer_val_to_public-aer_val_from_public_example =
    aer_val_to_public-aer_val_from_public 4096 no_longs (Value.string_value 65536) (omega arith)
      string_value
