-- ===== src/Json.antt =====
-- source/core/aer_json.c: the text buffer and the encoder; below it the decoder and the laws of both.
--
-- A value is the tree that the encoder walks: an array with a shape is a `struct` of field names and
-- items, and `dict` has the occupied buckets in the order of the table. A real is the number of its
-- 64 bits, and the "%g" of `snprintf` on it is an argument.
pub mod Decode
pub mod Digits
pub mod Strings
pub mod Text
pub mod Plain
pub mod RoundTrip
pub mod Ends
pub mod Dict
pub mod Call
mod Tests
use aer.Base.{
  ℕ, zero, suc, ◌+◌, ◌-◌, ◌*◌, ◌/◌, ◌%◌, Bool, true, false, List, [], ◌∷◌, ◌++◌, Option, none, some,
  ltb, ◌==◌, if◌then◌else◌, length,
}
use aer.Base.Bytes.{Bytes, codes}
use aer.Base.Int.{ℤ, pos, negsuc}

mutual
  pub data Json : Type 0 where
    null : Json
    bool : Bool → Json
    int : ℤ → Json
    real : ℕ → Json
    string : Bytes → Json
    function : Json
    array : Items → Json
    struct : Fields → Json
    dict : Fields → Json

  pub data Items : Type 0 where
    no_items : Items
    item : Json → Items → Items

  pub data Fields : Type 0 where
    no_fields : Fields
    field : Bytes → Json → Fields → Fields

-- `buf` has the first `len` bytes; the NUL that follows them is not kept.
pub record JsonBuf : Type 0 where
  pub buf : Bytes
  pub cap : ℕ

abbrev pub jb_init : JsonBuf
jb_init = record { buf = []; cap = 64 }

-- `while (need > cap) cap *= 2`, with the rounds that are left
unfoldable pub grow_cap : ℕ → ℕ → ℕ → ℕ
grow_cap zero need cap = cap
grow_cap (suc f) need cap =
    let wider = grow_cap f need (cap * 2) in if ltb cap need then wider else cap

-- A capacity of at least 1 reaches `need` in `need` rounds.
unfoldable pub jb_append_n : JsonBuf → Bytes → JsonBuf
unfolding grow_cap
jb_append_n b s =
    let need = length b.buf + length s + 1 in
    record { buf = b.buf ++ s; cap = if ltb b.cap need then grow_cap need need b.cap else b.cap }

abbrev pub jb_append : JsonBuf → Bytes → JsonBuf
jb_append b s = jb_append_n b s

abbrev pub jb_append_char : JsonBuf → ℕ → JsonBuf
jb_append_char b ch = jb_append_n b (ch ∷ [])

-- A digit of "%x".
abbrev pub hex_digit : ℕ → ℕ
hex_digit d = if ltb d 10 then 48 + d else 87 + d

-- "\\u%04x" for a byte
abbrev pub unicode_escape : ℕ → Bytes
unicode_escape ch = 92 ∷ 117 ∷ 48 ∷ 48 ∷ hex_digit (ch / 16) ∷ hex_digit (ch % 16) ∷ []

-- The switch of `json_encode_string`: what is appended for a byte.
unfoldable pub escaped : ℕ → Bytes
escaped ch =
    if ch == 34
    then 92 ∷ 34 ∷ []
    else if ch == 92
    then 92 ∷ 92 ∷ []
    else if ch == 10
    then 92 ∷ 110 ∷ []
    else if ch == 13
    then 92 ∷ 114 ∷ []
    else if ch == 9
    then 92 ∷ 116 ∷ []
    else if ch == 8
    then 92 ∷ 98 ∷ []
    else if ch == 12
    then 92 ∷ 102 ∷ []
    else if ltb ch 32
    then unicode_escape ch
    else ch ∷ []

unfoldable pub encode_bytes : JsonBuf → Bytes → JsonBuf
unfolding escaped jb_append_n
encode_bytes b [] = b
encode_bytes b (ch ∷ s) = encode_bytes (jb_append b (escaped ch)) s

unfoldable pub json_encode_string : JsonBuf → Bytes → JsonBuf
unfolding encode_bytes
json_encode_string b s = jb_append_char (encode_bytes (jb_append_char b 34) s) 34

-- The decimal digits of a number below 10 ^ f.
unfoldable pub decimal : ℕ → ℕ → Bytes
decimal zero n = []
decimal (suc f) n = if ltb n 10 then (48 + n) ∷ [] else decimal f (n / 10) ++ ((48 + n % 10) ∷ [])

-- "%lld"; 19 digits are enough for a 64-bit integer.
unfoldable pub print_int : ℤ → Bytes
unfolding decimal
print_int (pos n) = decimal 20 n
print_int (negsuc n) = 45 ∷ decimal 20 (suc n)

-- `if (i > 0) jb_append_char(b, ',')`
abbrev pub separate : Bool → JsonBuf → JsonBuf
separate first b = if first then b else jb_append_char b 44

infixl 1 ◌>>=◌
abbrev pub ◌>>=◌ : Option JsonBuf → (JsonBuf → Option JsonBuf) → Option JsonBuf
none >>= f = none
some b >>= f = f b

-- `print_real` is `snprintf` with "%g". `none` where the source reports a function and gives up.
module _ (print_real : ℕ → Bytes) where
  unfoldable mutual
    unfolding json_encode_string print_int jb_append_n

    pub json_encode_value : Json → JsonBuf → Option JsonBuf
    json_encode_value null b = some (jb_append b (codes "null"))
    json_encode_value (bool t) b = some (jb_append b (if t then codes "true" else codes "false"))
    json_encode_value (int n) b = some (jb_append b (print_int n))
    json_encode_value (real r) b = some (jb_append b (print_real r))
    json_encode_value (string s) b = some (json_encode_string b s)
    json_encode_value function b = none
    json_encode_value (array xs) b = do
      b' ← encode_items true xs (jb_append_char b 91)
      some (jb_append_char b' 93)
    json_encode_value (struct fs) b = do
      b' ← encode_fields true fs (jb_append_char b 123)
      some (jb_append_char b' 125)
    json_encode_value (dict fs) b = do
      b' ← encode_fields true fs (jb_append_char b 123)
      some (jb_append_char b' 125)

    pub encode_items : Bool → Items → JsonBuf → Option JsonBuf
    encode_items first no_items b = some b
    encode_items first (item v xs) b = do
      b' ← json_encode_value v (separate first b)
      encode_items false xs b'

    pub encode_fields : Bool → Fields → JsonBuf → Option JsonBuf
    encode_fields first no_fields b = some b
    encode_fields first (field name v fs) b = do
      b' ← json_encode_value v (jb_append_char (json_encode_string (separate first b) name) 58)
      encode_fields false fs b'
