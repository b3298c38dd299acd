-- ===== src/Json/Plain.antt =====
-- source/core/aer_json.c: the values whose text decodes, what they decode to, and how their text begins.
use aer.Base.{
  ℕ, suc, ◌<◌, ◌≡◌, refl, sym, ◌∙◌, ap, inl, inr, true, false, ◌||◌, [], ◌∷◌, ◌++◌, arith, ◌==◌,
  length, Bool-cases, ==_iff,
}
use mathlib.Core.Bool.{false≢true}
use aer.Base.Bytes.{Bytes, byte_at, c_string}
use aer.Json.Decode.{is_digit, json_skip_ws, json_parse_number, json_parse_value}
use aer.Json.Digits.{IsLong, starts-print_int, length-print_int}
use aer.Json.Text.{text}
use aer.Json.{
  Json, Items, Fields, null, bool, int, real, string, function, array, struct, dict, no_items, item,
  no_fields, field,
}

-- Values without reals and functions, with integers of 64 bits.
unfoldable mutual
  pub IsPlain : Json → Type 0
  IsPlain (int n) = IsLong n
  IsPlain (real r) = ⊥
  IsPlain function = ⊥
  IsPlain (array xs) = ArePlain xs
  IsPlain (struct fs) = HavePlain fs
  IsPlain (dict fs) = HavePlain fs
  IsPlain _ = Unit

  pub ArePlain : Items → Type 0
  ArePlain no_items = Unit
  ArePlain (item v xs) = IsPlain v × ArePlain xs

  pub HavePlain : Fields → Type 0
  HavePlain no_fields = Unit
  HavePlain (field name v fs) = IsPlain v × HavePlain fs

-- What the text of a value stands for: a struct has become a dictionary, and its names and the keys
-- are C strings.
unfoldable mutual
  pub decoded : Json → Json
  decoded null = null
  decoded (bool t) = bool t
  decoded (int n) = int n
  decoded (real r) = real r
  decoded (string s) = string s
  decoded function = function
  decoded (array xs) = array (decoded_items xs)
  decoded (struct fs) = dict (decoded_fields fs)
  decoded (dict fs) = dict (decoded_fields fs)

  pub decoded_items : Items → Items
  decoded_items no_items = no_items
  decoded_items (item v xs) = item (decoded v) (decoded_items xs)

  pub decoded_fields : Fields → Fields
  decoded_fields no_fields = no_fields
  decoded_fields (field name v fs) = field (c_string name) (decoded v) (decoded_fields fs)

-- A text that a skip of blanks leaves alone, and that closes no array.
pub record Begins (p : Bytes) : Type 0 where
  pub there : json_skip_ws p ≡ p
  pub opens : (byte_at p == 93) ≡ false

number-Begins : (p : Bytes) → (byte_at p == 45 || is_digit (byte_at p)) ≡ true → Begins p
unfolding json_skip_ws
number-Begins [] h = record { there = refl; opens = refl }
number-Begins (ch ∷ p) h = record { there = ground arith; opens = ground arith }

-- No number starts like something else.
apart :
    (ch k : ℕ)
    → (ch == 45 || is_digit ch) ≡ true
    → (k == 45 || is_digit k) ≡ false
    → (ch == k) ≡ false
apart ch k h g = elim (Bool-cases (ch == k)) [
  | inl e ↦
      absurd
        (false≢true (sym g ∙ ap (λ (n : ℕ). n == 45 || is_digit n) (sym ((==_iff ch k).0 e)) ∙ h))
  | inr e ↦ e
]

module _ (print_real : ℕ → Bytes) where
  pub text-Begins : (v : Json) (p : Bytes) → IsPlain v → Begins (text print_real v ++ p)
  unfolding text IsPlain json_skip_ws
  text-Begins null p h = record { there = refl; opens = refl }
  text-Begins (bool true) p h = record { there = refl; opens = refl }
  text-Begins (bool false) p h = record { there = refl; opens = refl }
  text-Begins (int n) p h = number-Begins _ (starts-print_int n p h)
  text-Begins (real r) p h = absurd h
  text-Begins (string s) p h = record { there = refl; opens = refl }
  text-Begins function p h = absurd h
  text-Begins (array xs) p h = record { there = refl; opens = refl }
  text-Begins (struct fs) p h = record { there = refl; opens = refl }
  text-Begins (dict fs) p h = record { there = refl; opens = refl }

  pub length-text : (v : Json) → IsPlain v → 0 < length (text print_real v)
  unfolding text IsPlain
  length-text (bool true) h = omega arith
  length-text (bool false) h = omega arith
  length-text (int n) h = length-print_int n h
  length-text (real r) h = absurd h
  length-text function h = absurd h
  length-text _ h = omega arith

pub json_parse_value-number :
    (strtod : Bytes → ℕ) (f : ℕ) (p : Bytes)
    → (byte_at p == 45 || is_digit (byte_at p)) ≡ true
    → json_parse_value strtod (suc f) p ≡ json_parse_number strtod p
unfolding json_parse_value
json_parse_value-number strtod f [] h = ground arith
json_parse_value-number strtod f (ch ∷ p) h = rw (
  (number-Begins (ch ∷ p) h).there,
  apart ch 34 h refl,
  apart ch 123 h refl,
  apart ch 91 h refl,
  apart ch 116 h refl,
  apart ch 102 h refl,
  apart ch 110 h refl,
  h,
)
