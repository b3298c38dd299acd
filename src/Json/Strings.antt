-- ===== src/Json/Strings.antt =====
-- source/core/aer_json.c: an encoded string is read back.
use aer.Base.{
  ℕ, zero, suc, ◌/◌, ◌%◌, ◌<◌, ◌≤◌, ◌^◌, ◌≡◌, refl, sym, ◌∙◌, ap, inl, inr, true, false, [], ◌∷◌,
  ◌++◌, arith, ltb, leb, ◌==◌, if◌then◌else◌, length, Bool-cases, ==_iff, ltb→lt, length-append,
  some,
}
use mathlib.Core.List.{append_assoc, append-nil}
use native.Mathlib.Nat.{mod-eq_of_lt}
use aer.Base.Bytes.{Bytes}
use aer.Json.Decode.{
  ok, hex_value, hex_digits, skip_c_space, strtoul16, utf8, simple_escape, parse_escape,
  string_body, json_parse_string_raw,
}
use aer.Json.{JsonBuf, jb_init, jb_append_n, jb_append_char, hex_digit, unicode_escape, escaped}

-- The text of a string between its quotes.
abbrev pub escaped_all : Bytes → Bytes
escaped_all [] = []
escaped_all (ch ∷ s) = escaped ch ++ escaped_all s

abbrev append_chars : JsonBuf → Bytes → JsonBuf
append_chars b [] = b
append_chars b (ch ∷ s) = append_chars (jb_append_char b ch) s

buf-append_chars : (b : JsonBuf) (s : Bytes) → (append_chars b s).buf ≡ b.buf ++ s
unfolding jb_append_n
buf-append_chars b [] = sym (append-nil b.buf)
buf-append_chars b (ch ∷ s) =
    buf-append_chars (jb_append_char b ch) s ∙ append_assoc b.buf (ch ∷ []) s

hex_value-hex_digit : (d : ℕ) → d < 16 → hex_value (hex_digit d) ≡ d
hex_value-hex_digit d h = ground arith

strtoul16-unicode_escape :
    (ch : ℕ) → ch < 32 → strtoul16 (48 ∷ 48 ∷ hex_digit (ch / 16) ∷ hex_digit (ch % 16) ∷ []) ≡ ch
unfolding strtoul16 hex_digits skip_c_space
strtoul16-unicode_escape ch h =
    ground (arith, hex_value-hex_digit (ch / 16), hex_value-hex_digit (ch % 16))

utf8_ascii : (ch : ℕ) → ch < 32 → utf8 ch ≡ ch ∷ []
unfolding utf8
utf8_ascii ch h =
    let small : ltb ch 128 ≡ true = ground arith in
    let flat : ch % 2 ^ 8 ≡ ch = mod-eq_of_lt (omega arith) in rw (small, flat)

escaped_pos : (ch : ℕ) → 0 < length (escaped ch)
unfolding escaped
escaped_pos ch = ground arith

parse_escape-unicode_escape :
    (ch : ℕ) (p : Bytes)
    → ch < 32
    → parse_escape (117 ∷ 48 ∷ 48 ∷ hex_digit (ch / 16) ∷ hex_digit (ch % 16) ∷ p) ≡ ok (ch ∷ []) p
unfolding parse_escape simple_escape
parse_escape-unicode_escape ch p h =
    let room : leb (suc (suc (suc (suc (length p))))) 3 ≡ false = ground arith in
    rw (room, strtoul16-unicode_escape ch h, utf8_ascii ch h)

parse_escape-simple_escape :
    (esc ch : ℕ) (p : Bytes) → simple_escape esc ≡ some ch → parse_escape (esc ∷ p) ≡ ok (ch ∷ []) p
unfolding parse_escape
parse_escape-simple_escape esc ch p e = rw e

-- How a byte is escaped.
data Escaping (ch : ℕ) : Bytes → Type 0 where
  short : {esc : ℕ} → simple_escape esc ≡ some ch → Escaping ch (92 ∷ esc ∷ [])
  long : ch < 32 → Escaping ch (unicode_escape ch)
  plain : (ch == 34) ≡ false → (ch == 92) ≡ false → Escaping ch (ch ∷ [])

Escaping-if :
    (ch k esc : ℕ) (other : Bytes)
    → simple_escape esc ≡ some k
    → ((ch == k) ≡ false → Escaping ch other)
    → Escaping ch (if ch == k then 92 ∷ esc ∷ [] else other)
Escaping-if ch k esc other h g = elim (Bool-cases (ch == k)) [
  | inl e ↦ rw e (short (h ∙ ap some (sym ((==_iff ch k).0 e))))
  | inr e ↦ rw e (g e)
]

Escaping-last :
    (ch : ℕ)
    → (ch == 34) ≡ false
    → (ch == 92) ≡ false
    → Escaping ch (if ltb ch 32 then unicode_escape ch else ch ∷ [])
Escaping-last ch quote slash = elim (Bool-cases (ltb ch 32)) [
  | inl e ↦ rw e (long (ltb→lt ch 32 e))
  | inr e ↦ rw e (plain quote slash)
]

escaped-Escaping : (ch : ℕ) → Escaping ch (escaped ch)
unfolding escaped simple_escape
escaped-Escaping ch = Escaping-if ch 34 34 _ refl λ quote. Escaping-if ch 92 92 _ refl λ slash.
    Escaping-if ch 10 110 _ refl λ _. Escaping-if ch 13 114 _ refl λ _.
      Escaping-if ch 9 116 _ refl λ _.
        Escaping-if ch 8 98 _ refl
          λ _. Escaping-if ch 12 102 _ refl λ _. Escaping-last ch quote slash

-- The loop takes one round for each byte of the string.
string_body-Escaping :
    (f ch : ℕ) (p : Bytes) (b : JsonBuf) {s : Bytes}
    → Escaping ch s
    → string_body (suc f) (s ++ p) b ≡ string_body f p (jb_append_char b ch)
unfolding string_body
string_body-Escaping f ch p b (short {esc = esc} e) = rw (parse_escape-simple_escape esc ch p e)
string_body-Escaping f ch p b (long h) = rw (parse_escape-unicode_escape ch p h)
string_body-Escaping f ch p b (plain quote slash) = rw (quote, slash)

string_body-escaped_all :
    (s rest : Bytes) (b : JsonBuf) (f : ℕ)
    → length s < f
    → string_body f (escaped_all s ++ 34 ∷ rest) b ≡ ok (append_chars b s) rest
unfolding string_body
string_body-escaped_all s rest b zero h = absurd (omega arith)
string_body-escaped_all [] rest b (suc f) h = refl
string_body-escaped_all (ch ∷ s) rest b (suc f) h =
    rw (append_assoc (escaped ch) (escaped_all s) (34 ∷ rest)) (
      string_body-Escaping f ch _ b (escaped-Escaping ch)
      ∙ string_body-escaped_all s rest (jb_append_char b ch) f (omega arith))

length-escaped_all : (s : Bytes) → length s ≤ length (escaped_all s)
length-escaped_all [] = omega arith
length-escaped_all (ch ∷ s) =
    omega (arith, length-append (escaped ch) (escaped_all s), escaped_pos ch, length-escaped_all s)

-- A string that was encoded is read back, and the input behind it is left.
pub json_parse_string_raw-escaped_all :
    (s rest : Bytes) → json_parse_string_raw (34 ∷ (escaped_all s ++ 34 ∷ rest)) ≡ ok s rest
unfolding json_parse_string_raw
json_parse_string_raw-escaped_all s rest = rw (
  string_body-escaped_all s rest jb_init (suc (suc (length (escaped_all s ++ 34 ∷ rest))))
      (omega (arith, length-append (escaped_all s) (34 ∷ rest), length-escaped_all s)),
  buf-append_chars jb_init s,
)
