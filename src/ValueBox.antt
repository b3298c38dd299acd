-- ===== src/ValueBox.antt =====
-- source/core/value_box.h and source/value.h: the NaN-boxed word of every value, and `aer_int` of
-- source/core/vm.c.
--
-- A word (`AerVal`) is its 64 bits as a number. A double is the number of its IEEE-754 bits, so
-- reading `dbl` for `bits` is the identity. Pointers are addresses. The cells of `long_pool` are a
-- memory from addresses to integers, and the address that `pool_alloc` returns is an argument.
pub mod Fields
mod Reals
mod Integers
mod Public
mod Tests
use aer.Base.{
  ℕ, ◌+◌, ◌-◌, ◌*◌, ◌/◌, ◌%◌, ◌^◌, Bool, true, false, not, ◌&&◌, leb, ltb, ◌==◌, if◌then◌else◌,
  bit_and, bit_or,
}
use aer.Base.Int.{ℤ, pos, negsuc, ltb_ℤ}

pub data ValueType : Type 0 where
  null boolean integer real string function array dict : ValueType

-- The value of the enum constant.
abbrev pub type_code : ValueType → ℕ
type_code null = 0
type_code boolean = 1
type_code integer = 2
type_code real = 3
type_code string = 4
type_code function = 5
type_code array = 6
type_code dict = 7

-- The cast of three bits to the enum.
unfoldable pub type_of_code : ℕ → ValueType
type_of_code c =
    if c == 0
    then null
    else if c == 1
    then boolean
    else if c == 2
    then integer
    else if c == 3
    then real
    else if c == 4
    then string
    else if c == 5
    then function
    else if c == 6
    then array
    else dict

abbrev pub boxed_mask : ℕ
boxed_mask = 0xfff8000000000000

abbrev pub boxed_test : ℕ
boxed_test = 0x7ff8000000000000

abbrev pub payload_mask : ℕ
payload_mask = 0x0000ffffffffffff

-- `1 << 47`: the payload of an integer is an address
abbrev pub bigflag_bit : ℕ
bigflag_bit = 2 ^ 47

abbrev pub int47_mask : ℕ
int47_mask = 0x00007fffffffffff

abbrev pub int47_signbit : ℕ
int47_signbit = 2 ^ 46

-- `(uint64_t)n`
unfoldable pub to_word : ℤ → ℕ
to_word (pos n) = n % 2 ^ 64
to_word (negsuc n) = 2 ^ 64 - 1 - n % 2 ^ 64

-- `(long long)w`
unfoldable pub of_word : ℕ → ℤ
of_word w = if ltb w (2 ^ 63) then pos w else negsuc (2 ^ 64 - 1 - w)

unfoldable pub is_boxed : ℕ → Bool
is_boxed v = bit_and v boxed_mask == boxed_test

unfoldable pub aer_type : ℕ → ValueType
aer_type v = if not (is_boxed v) then real else type_of_code (bit_and (v / 2 ^ 48) 7)

-- The test pattern with a tag and a payload.
abbrev pub tagged : ValueType → ℕ → ℕ
tagged tag payload = bit_or (bit_or boxed_test (type_code tag * 2 ^ 48)) payload

unfoldable pub aer_null : ℕ
aer_null = bit_or boxed_test (type_code null * 2 ^ 48)

unfoldable pub aer_bool : Bool → ℕ
aer_bool b = tagged boolean (if b then 1 else 0)

-- `d != d`: all exponent bits are set, and a bit of the fraction
unfoldable pub is_nan : ℕ → Bool
is_nan d = d / 2 ^ 52 % 2 ^ 11 == 2047 && not (d % 2 ^ 52 == 0)

unfoldable pub aer_real : ℕ → ℕ
aer_real d = if is_nan d then bit_or boxed_test (type_code real * 2 ^ 48) else d

unfoldable pub box_ptr : ValueType → ℕ → ℕ
box_ptr tag p = tagged tag (bit_and p payload_mask)

unfoldable pub as_bool : ℕ → Bool
as_bool v = not (bit_and v 1 == 0)

unfoldable pub as_real : ℕ → ℕ
as_real v = if not (is_boxed v) then v else boxed_test

unfoldable pub payload_ptr : ℕ → ℕ
payload_ptr v = bit_and v payload_mask

is_integer : ValueType → Bool
is_integer integer = true
is_integer _ = false

unfoldable pub int_is_boxed : ℕ → Bool
unfolding is_integer
int_is_boxed v = is_integer (aer_type v) && not (bit_and v bigflag_bit == 0)

unfoldable pub int_box_ptr : ℕ → ℕ
int_box_ptr v = bit_and v int47_mask

-- `AER_INT47_MIN` and `AER_INT47_MAX`
abbrev pub fits_int47 : ℤ → Bool
fits_int47 n = not (ltb_ℤ n (negsuc (2 ^ 46 - 1))) && not (ltb_ℤ (pos (2 ^ 46 - 1)) n)

abbrev pub Longs : Type 0
Longs = ℕ → ℤ

-- `aer_int`, where `box` is what `pool_alloc(&long_pool)` returns if it is called.
unfoldable pub aer_int : ℕ → Longs → ℤ → ℕ × Longs
aer_int box longs n =
    if fits_int47 n then (tagged integer (bit_and (to_word n) int47_mask), longs) else (
      bit_or (bit_or (bit_or boxed_test (type_code integer * 2 ^ 48)) bigflag_bit)
          (bit_and box int47_mask),
      λ p. if box == p then n else longs p,
    )

-- `p47 |= ~AER_INT47_MASK`, on a word whose bits above are clear
unfoldable pub sign_extend : ℕ → ℕ
sign_extend p47 =
    if not (bit_and p47 int47_signbit == 0) then bit_or (2 ^ 64 - 1 - int47_mask) p47 else p47

unfoldable pub as_int : Longs → ℕ → ℤ
as_int longs v =
    if int_is_boxed v then longs (int_box_ptr v) else of_word (sign_extend (bit_and v int47_mask))

-- The public tagged union of a type and its data; the data of a boolean is a `char`.
pub data Value : Type 0 where
  null_value : Value
  boolean_value : ℕ → Value
  integer_value : ℤ → Value
  real_value string_value function_value array_value dict_value : ℕ → Value

-- The conversions between `bool` and `char`
abbrev pub char_of_bool : Bool → ℕ
char_of_bool b = if b then 1 else 0

abbrev pub bool_of_char : ℕ → Bool
bool_of_char c = not (c == 0)

abbrev pub public_of : ValueType → Longs → ℕ → Value
public_of null longs v = null_value
public_of boolean longs v = boolean_value (char_of_bool (as_bool v))
public_of integer longs v = integer_value (as_int longs v)
public_of real longs v = real_value (as_real v)
public_of string longs v = string_value (payload_ptr v)
public_of function longs v = function_value (payload_ptr v)
public_of array longs v = array_value (payload_ptr v)
public_of dict longs v = dict_value (payload_ptr v)

unfoldable pub aer_val_to_public : Longs → ℕ → Value
aer_val_to_public longs v = public_of (aer_type v) longs v

-- `box` is the address for an integer that needs a cell.
unfoldable pub aer_val_from_public : ℕ → Longs → Value → ℕ × Longs
aer_val_from_public box longs null_value = (aer_null, longs)
aer_val_from_public box longs (boolean_value c) = (aer_bool (bool_of_char c), longs)
aer_val_from_public box longs (integer_value n) = aer_int box longs n
aer_val_from_public box longs (real_value d) = (aer_real d, longs)
aer_val_from_public box longs (string_value p) = (box_ptr string p, longs)
aer_val_from_public box longs (function_value p) = (box_ptr function p, longs)
aer_val_from_public box longs (array_value p) = (box_ptr array p, longs)
aer_val_from_public box longs (dict_value p) = (box_ptr dict p, longs)
