-- ===== src/Json/Decode.antt =====
-- source/core/aer_json.c: the decoder, a recursive-descent parser.
--
-- The parser is the bytes from `pos` on, and each function returns a value with the bytes that are
-- left, or the message of the first error: every caller of the source gives up when `err` is set. An
-- array owns its items, and an object is the sequence of its calls of `dictmap_put`. Inputs are
-- shorter than 2 ^ 32 - 4 bytes, so that `pos + 4` does not wrap.
use aer.Base.{
  ℕ, zero, suc, ◌+◌, ◌-◌, ◌*◌, ◌/◌, ◌%◌, ◌^◌, Bool, true, false, not, ◌&&◌, ◌||◌, [], ◌∷◌, Option,
  none, some, ltb, leb, ◌==◌, if◌then◌else◌, length, take, drop, bit_or, bit_and,
}
use Prim.Native.Nat.{min}
use aer.Base.Bytes.{Bytes, codes, byte_at, next, c_string}
use aer.Base.Int.{ℤ, pos, sub_ℕ}
use aer.Json.{
  Json, Items, Fields, JsonBuf, null, bool, int, real, string, array, dict, no_items, item,
  no_fields, field, jb_init, jb_append_n, jb_append_char,
}

pub data Parse {ℓ} (A : Type ℓ) : Type ℓ where
  ok : A → Bytes → Parse A
  failed : Bytes → Parse A
  out_of_fuel : Parse A

infixl 1 ◌>>=◌
abbrev pub ◌>>=◌ {ℓ κ} : {A : Type ℓ} {B : Type κ} → Parse A → (A → Bytes → Parse B) → Parse B
ok a p >>= f = f a p
failed msg >>= f = failed msg
out_of_fuel >>= f = out_of_fuel

-- `p->pos >= p->len`
abbrev pub at_end : Bytes → Bool
at_end [] = true
at_end (_ ∷ _) = false

abbrev pub is_space : ℕ → Bool
is_space ch = ch == 32 || ch == 9 || ch == 10 || ch == 13

unfoldable pub json_skip_ws : Bytes → Bytes
json_skip_ws [] = []
json_skip_ws (ch ∷ p) = if is_space ch then json_skip_ws p else ch ∷ p

unfoldable pub json_match_literal : Bytes → Bytes → Option Bytes
json_match_literal p [] = some p
json_match_literal [] (_ ∷ _) = none
json_match_literal (ch ∷ p) (l ∷ lit) = if ch == l then json_match_literal p lit else none

-- The value of a hexadecimal digit, and 16 for any other byte.
abbrev pub hex_value : ℕ → ℕ
hex_value ch =
    if leb 48 ch && leb ch 57
    then ch - 48
    else if leb 65 ch && leb ch 70
    then ch - 55
    else if leb 97 ch && leb ch 102
    then ch - 87
    else 16

unfoldable pub hex_digits : Bytes → ℕ → ℕ
hex_digits [] v = v
hex_digits (ch ∷ s) v = if ltb (hex_value ch) 16 then hex_digits s (v * 16 + hex_value ch) else v

-- `isspace`
abbrev pub c_space : ℕ → Bool
c_space ch = ch == 32 || (leb 9 ch && leb ch 13)

unfoldable pub skip_c_space : Bytes → Bytes
skip_c_space [] = []
skip_c_space (ch ∷ s) = if c_space ch then skip_c_space s else ch ∷ s

-- The prefix 0x, which counts where a digit follows.
abbrev pub skip_0x : Bytes → Bytes
skip_0x (z ∷ x ∷ d ∷ s) =
    if z == 48 && ((x == 120 || x == 88) && ltb (hex_value d) 16) then d ∷ s else z ∷ x ∷ d ∷ s
skip_0x s = s

-- `(unsigned int)strtoul(hex, NULL, 16)` on four bytes, which cannot overflow
unfoldable pub strtoul16 : Bytes → ℕ
unfolding skip_c_space hex_digits
strtoul16 hex =
    let s = skip_c_space hex in
    if byte_at s == 45
    then (2 ^ 32 - hex_digits (skip_0x (next s)) 0) % 2 ^ 32
    else if byte_at s == 43
    then hex_digits (skip_0x (next s)) 0
    else hex_digits (skip_0x s) 0

-- A conversion to `char`.
abbrev pub char_of : ℕ → ℕ
char_of n = n % 2 ^ 8

-- The bytes that are appended for a code.
unfoldable pub utf8 : ℕ → Bytes
utf8 code =
    if ltb code 128
    then char_of code ∷ []
    else if ltb code 2048
    then char_of (bit_or 192 (code / 2 ^ 6)) ∷ char_of (bit_or 128 (bit_and code 63)) ∷ []
    else char_of (bit_or 224 (code / 2 ^ 12))
      ∷ char_of (bit_or 128 (bit_and (code / 2 ^ 6) 63))
      ∷ char_of (bit_or 128 (bit_and code 63))
      ∷ []

-- The escapes of one byte.
unfoldable pub simple_escape : ℕ → Option ℕ
simple_escape esc =
    if esc == 34
    then some 34
    else if esc == 92
    then some 92
    else if esc == 47
    then some 47
    else if esc == 110
    then some 10
    else if esc == 116
    then some 9
    else if esc == 114
    then some 13
    else if esc == 98
    then some 8
    else if esc == 102
    then some 12
    else none

-- The switch on an escape, where `p` is what follows `esc`: the bytes to append, and what is left.
abbrev pub escape_at : Option ℕ → ℕ → Bytes → Parse Bytes
escape_at (some ch) esc p = ok (ch ∷ []) p
escape_at none esc p =
    if esc == 117
    then (if leb (length p) 3
        then failed (codes "Invalid \\u escape in JSON string")
        else ok (utf8 (strtoul16 (take 4 p))) (drop 4 p))
    else failed (codes "Invalid escape sequence in JSON string")

unfoldable pub parse_escape : Bytes → Parse Bytes
parse_escape [] = failed (codes "Unterminated escape in JSON string")
parse_escape (esc ∷ p) = escape_at (simple_escape esc) esc p

-- The loop of `json_parse_string_raw` and the closing quote, with the rounds that are left.
unfoldable pub string_body : ℕ → Bytes → JsonBuf → Parse JsonBuf
unfolding jb_append_n strtoul16 utf8 parse_escape
string_body zero p b = out_of_fuel
string_body (suc f) [] b = failed (codes "Unterminated string in JSON")
string_body (suc f) (ch ∷ p) b =
    let plain = string_body f p (jb_append_char b ch) in
    let escape = parse_escape p >>= λ s p'. string_body f p' (jb_append_n b s) in
    if ch == 34 then ok b p else if not (ch == 92) then plain else escape

-- `p` starts with the opening quote.
unfoldable pub json_parse_string_raw : Bytes → Parse Bytes
unfolding string_body simple_escape
json_parse_string_raw p = string_body (suc (length p)) (next p) jb_init >>= λ b p'. ok b.buf p'

abbrev pub is_digit : ℕ → Bool
is_digit ch = leb 48 ch && leb ch 57

unfoldable pub skip_digits : Bytes → Bytes
skip_digits [] = []
skip_digits (ch ∷ p) = if is_digit ch then skip_digits p else ch ∷ p

-- The digits of a number up to the first byte that is none.
unfoldable pub digits_value : Bytes → ℕ → ℕ
digits_value [] v = v
digits_value (ch ∷ s) v = if is_digit ch then digits_value s (v * 10 + (ch - 48)) else v

-- `strtoll` in base 10, which saturates
unfoldable pub strtoll : Bytes → ℤ
unfolding digits_value
strtoll s =
    if byte_at s == 45
    then sub_ℕ 0 (min (digits_value (next s) 0) (2 ^ 63))
    else pos (min (digits_value s 0) (2 ^ 63 - 1))

-- The part of a number behind its digits: `none` for an error, and whether the part is there.
unfoldable pub fraction : Bytes → Option (Bool × Bytes)
unfolding skip_digits
fraction p =
    if byte_at p == 46
    then (if is_digit (byte_at (next p)) then some (true, skip_digits (next p)) else none)
    else some (false, p)

abbrev pub skip_sign : Bytes → Bytes
skip_sign p = if byte_at p == 43 || byte_at p == 45 then next p else p

unfoldable pub exponent : Bytes → Option (Bool × Bytes)
unfolding skip_digits
exponent p =
    let q = skip_sign (next p) in
    if byte_at p == 101 || byte_at p == 69
    then (if is_digit (byte_at q) then some (true, skip_digits q) else none)
    else some (false, p)

-- The text of a number from `p` to `q`, in a buffer of 64 bytes.
abbrev pub literal : Bytes → Bytes → Bytes
literal p q = take (min (length p - length q) 63) p

abbrev pub bad_number : Bytes
bad_number = codes "Invalid number in JSON"

abbrev pub bad_literal : Bytes
bad_literal = codes "Invalid literal in JSON"

-- `strtod` on the text of a number, as the 64 bits of a double, is an argument.
module _ (strtod : Bytes → ℕ) where
  abbrev pub number_of : Bool → Bytes → Json
  number_of is_real text = if is_real then real (strtod text) else int (strtoll text)

  -- What is left of a number behind its digits and its fraction.
  abbrev pub exponential : Bytes → Bool → Option (Bool × Bytes) → Parse Json
  exponential p is_real none = failed bad_number
  exponential p is_real (some (has_exponent, q)) =
      ok (number_of (is_real || has_exponent) (literal p q)) q

  abbrev pub fractional : Bytes → Option (Bool × Bytes) → Parse Json
  fractional p none = failed bad_number
  fractional p (some (is_real, q)) = exponential p is_real (exponent q)

  unfoldable pub json_parse_number : Bytes → Parse Json
  unfolding skip_digits fraction exponent strtoll
  json_parse_number p =
      let q = if byte_at p == 45 then next p else p in
      let digits = if byte_at q == 48 then next q else skip_digits q in
      let whole = fractional p (fraction digits) in
      if is_digit (byte_at q) then whole else failed bad_number

  -- A literal at `p` that stands for `v`.
  abbrev pub literal_at : Json → Option Bytes → Parse Json
  literal_at v none = failed bad_literal
  literal_at v (some p) = ok v p

  abbrev pub parse_literal : Bytes → Bytes → Json → Parse Json
  parse_literal p lit v = literal_at v (json_match_literal p lit)

  -- A call inside another has a unit of fuel less.
  unfoldable mutual
    unfolding json_skip_ws json_match_literal

    pub json_parse_value : ℕ → Bytes → Parse Json
    json_parse_value zero p = out_of_fuel
    json_parse_value (suc f) p =
        let q = json_skip_ws p in
        let ch = byte_at q in
        let text = json_parse_string_raw q >>= λ s r. ok (string s) r in
        let object = json_parse_object f q in
        let list = json_parse_array f q in
        if at_end q
        then failed (codes "Unexpected end of JSON input")
        else if ch == 34
        then text
        else if ch == 123
        then object
        else if ch == 91
        then list
        else if ch == 116
        then parse_literal q (codes "true") (bool true)
        else if ch == 102
        then parse_literal q (codes "false") (bool false)
        else if ch == 110
        then parse_literal q (codes "null") null
        else if ch == 45 || is_digit ch
        then json_parse_number q
        else failed (codes "Unexpected character in JSON")

    pub json_parse_array : ℕ → Bytes → Parse Json
    json_parse_array zero p = out_of_fuel
    json_parse_array (suc f) p =
        let q = json_skip_ws (next p) in
        let more = array_items f q >>= λ xs r. ok (array xs) r in
        if byte_at q == 93 then ok (array no_items) (next q) else more

    -- The loop of `json_parse_array`.
    pub array_items : ℕ → Bytes → Parse Items
    array_items zero p = out_of_fuel
    array_items (suc f) p = json_parse_value f p >>= λ v r.
        let q = json_skip_ws r in
        let more = array_items f (json_skip_ws (next q)) >>= λ xs s. ok (item v xs) s in
        if at_end q
        then failed (codes "Unterminated array in JSON")
        else if byte_at q == 44
        then more
        else if byte_at q == 93
        then ok (item v no_items) (next q)
        else failed (codes "Expected ',' or ']' in JSON array")

    pub json_parse_object : ℕ → Bytes → Parse Json
    json_parse_object zero p = out_of_fuel
    json_parse_object (suc f) p =
        let q = json_skip_ws (next p) in
        let more = object_fields f q >>= λ fs r. ok (dict fs) r in
        if byte_at q == 125 then ok (dict no_fields) (next q) else more

    -- The loop of `json_parse_object`.
    pub object_fields : ℕ → Bytes → Parse Fields
    object_fields zero p = out_of_fuel
    object_fields (suc f) p =
        let q = json_skip_ws p in
        let entry = json_parse_string_raw q >>= λ name r.
        let s = json_skip_ws r in
        let rest = field_value f name (json_skip_ws (next s)) in
        if byte_at s == 58 then rest else failed (codes "Expected ':' in JSON object") in
        if byte_at q == 34 then entry else failed (codes "Expected string key in JSON object")

    -- The value behind a key, and what follows it.
    pub field_value : ℕ → Bytes → Bytes → Parse Fields
    field_value zero name p = out_of_fuel
    field_value (suc f) name p = json_parse_value f p >>= λ v r.
        let q = json_skip_ws r in
        let more = object_fields f (next q) >>= λ fs s. ok (field (c_string name) v fs) s in
        if at_end q
        then failed (codes "Unterminated object in JSON")
        else if byte_at q == 44
        then more
        else if byte_at q == 125
        then ok (field (c_string name) v no_fields) (next q)
        else failed (codes "Expected ',' or '}' in JSON object")

  -- Each call takes a byte before it calls another for the third time.
  unfoldable pub json_decode : Bytes → Parse Json
  unfolding json_parse_value
  json_decode input = json_parse_value (suc (3 * length input)) input >>= λ v r.
      let q = json_skip_ws r in
      if at_end q then ok v [] else failed (codes "Trailing data after JSON value")
