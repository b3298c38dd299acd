-- ===== src/Json/Text.antt =====
-- source/core/aer_json.c: the text of a value as a grammar, and that the encoder appends it to its
-- buffer.
use aer.Base.{
  ℕ, zero, suc, ◌+◌, ◌*◌, ◌<◌, ◌≤◌, ◌≡◌, refl, sym, ◌∙◌, ap, inl, inr, Bool, true, false, ◌||◌, [],
  ◌∷◌, ◌++◌, Option, none, some, arith, ltb, if◌then◌else◌, length, length-append, Bool-cases,
}
use mathlib.Core.List.{append_assoc, append-nil}
use aer.Base.Bytes.{Bytes, codes}
use aer.Json.Strings.{escaped_all}
use aer.Json.{
  Json, Items, Fields, JsonBuf, null, bool, int, real, string, function, array, struct, dict,
  no_items, item, no_fields, field, jb_append_n, jb_append_char, grow_cap, escaped, encode_bytes,
  json_encode_string, print_int, separate, ◌>>=◌, json_encode_value, encode_items, encode_fields,
}

-- Whether a value has a function in it.
unfoldable mutual
  pub has_function : Json → Bool
  has_function function = true
  has_function (array xs) = any_item xs
  has_function (struct fs) = any_field fs
  has_function (dict fs) = any_field fs
  has_function _ = false

  pub any_item : Items → Bool
  any_item no_items = false
  any_item (item v xs) = has_function v || any_item xs

  pub any_field : Fields → Bool
  any_field no_fields = false
  any_field (field name v fs) = has_function v || any_field fs

abbrev pub comma : Bool → Bytes
comma first = if first then [] else 44 ∷ []

abbrev pub quoted : Bytes → Bytes
quoted s = 34 ∷ (escaped_all s ++ (34 ∷ []))

module _ (print_real : ℕ → Bytes) where
  -- The text of a value; a function has none.
  unfoldable mutual
    pub text : Json → Bytes
    text null = codes "null"
    text (bool t) = if t then codes "true" else codes "false"
    text (int n) = print_int n
    text (real r) = print_real r
    text (string s) = quoted s
    text function = []
    text (array xs) = 91 ∷ (text_items true xs ++ (93 ∷ []))
    text (struct fs) = 123 ∷ (text_fields true fs ++ (125 ∷ []))
    text (dict fs) = 123 ∷ (text_fields true fs ++ (125 ∷ []))

    pub text_items : Bool → Items → Bytes
    text_items first no_items = []
    text_items first (item v xs) = comma first ++ (text v ++ text_items false xs)

    pub text_fields : Bool → Fields → Bytes
    text_fields first no_fields = []
    text_fields first (field name v fs) =
        comma first ++ (quoted name ++ 58 ∷ (text v ++ text_fields false fs))

-- The loop that widens a buffer ends with room.
grow_cap-le : (f need cap : ℕ) → 0 < cap → need ≤ f + cap → need ≤ grow_cap f need cap
unfolding grow_cap
grow_cap-le zero need cap h k = omega arith
grow_cap-le (suc f) need cap h k = elim (Bool-cases (ltb cap need)) [
  | inl e ↦ rw e (grow_cap-le f need (cap * 2) (omega arith) (omega arith))
  | inr e ↦ rw e (ground arith)
]

-- `r` is `b` with `s` behind it, and has room for the NUL.
pub record Extends (b : JsonBuf) (s : Bytes) (r : JsonBuf) : Type 0 where
  pub written : r.buf ≡ b.buf ++ s
  pub room : length r.buf < r.cap

Extends-none : (b : JsonBuf) → length b.buf < b.cap → Extends b [] b
Extends-none b h = record { written = sym (append-nil b.buf); room = h }

room-jb_append_n :
    (b : JsonBuf) (s : Bytes)
    → length b.buf < b.cap
    → length (jb_append_n b s).buf < (jb_append_n b s).cap
unfolding jb_append_n
room-jb_append_n b s h =
    let need = length b.buf + length s + 1 in
    elim (Bool-cases (ltb b.cap need)) [
      | inl e ↦ rw e (
          omega
            (arith, length-append b.buf s, grow_cap-le need need b.cap (omega arith) (omega arith)))
      | inr e ↦
          rw e (let full : need ≤ b.cap = ground arith in omega (arith, length-append b.buf s))
    ]

Extends-append :
    (b : JsonBuf) (s : Bytes) (r : JsonBuf) (t : Bytes)
    → Extends b s r
    → Extends b (s ++ t) (jb_append_n r t)
unfolding jb_append_n
Extends-append b s r t e = record {
  written = ap (λ u. u ++ t) e.written ∙ append_assoc b.buf s t;
  room = room-jb_append_n r t e.room;
}

Extends-encode_bytes :
    (b : JsonBuf) (s : Bytes) (r : JsonBuf) (t : Bytes)
    → Extends b s r
    → Extends b (s ++ escaped_all t) (encode_bytes r t)
unfolding encode_bytes
Extends-encode_bytes b s r [] e = rw append-nil e
Extends-encode_bytes b s r (ch ∷ t) e = rw append_assoc at (
    Extends-encode_bytes b (s ++ escaped ch) (jb_append_n r (escaped ch)) t
      (Extends-append b s r (escaped ch) e))

Extends-string :
    (b : JsonBuf) (s : Bytes) (r : JsonBuf) (t : Bytes)
    → Extends b s r
    → Extends b (s ++ quoted t) (json_encode_string r t)
unfolding json_encode_string
Extends-string b s r t e =
    let opened = Extends-append b s r (34 ∷ []) e in
    let body = Extends-encode_bytes b (s ++ (34 ∷ [])) (jb_append_char r 34) t opened in
    rw append_assoc at (rw append_assoc at (Extends-append b _ _ (34 ∷ []) body))

Extends-separate :
    (b : JsonBuf) (s : Bytes) (r : JsonBuf) (first : Bool)
    → Extends b s r
    → Extends b (s ++ comma first) (separate first r)
Extends-separate b s r true e = rw append-nil e
Extends-separate b s r false e = Extends-append b s r (44 ∷ []) e

-- The encoder refuses a value with a function, and writes the text of any other.
pub data Encoded (refuse : Bool) (b : JsonBuf) (s : Bytes) : Option JsonBuf → Type 0 where
  refused : refuse ≡ true → Encoded refuse b s none
  wrote : {r : JsonBuf} → refuse ≡ false → Extends b s r → Encoded refuse b s (some r)

Encoded-bind :
    {h h' : Bool} {b : JsonBuf} {s s' : Bytes} {o : Option JsonBuf} {f : JsonBuf → Option JsonBuf}
    → Encoded h b s o
    → ((r : JsonBuf) → Extends b s r → Encoded h' b s' (f r))
    → Encoded (h || h') b s' (o >>= f)
Encoded-bind (refused e) k = refused (rw e)
Encoded-bind (wrote e x) k = rw e (k _ x)

Encoded-close :
    {h : Bool} {b : JsonBuf} {s : Bytes} {o : Option JsonBuf} (t : Bytes)
    → Encoded h b s o
    → Encoded h b (s ++ t) (o >>= λ r. some (jb_append_n r t))
Encoded-close t (refused e) = refused e
Encoded-close t (wrote e x) = wrote e (Extends-append _ _ _ t x)

module _ (print_real : ℕ → Bytes) where
  abbrev Encodes : Json → Type 0
  Encodes v =
      (b : JsonBuf) (s : Bytes) (r : JsonBuf)
      → Extends b s r
      → Encoded (has_function v) b (s ++ text print_real v) (json_encode_value print_real v r)

  abbrev EncodesItems : Items → Type 0
  EncodesItems xs =
      (first : Bool) (b : JsonBuf) (s : Bytes) (r : JsonBuf)
      → Extends b s r
      → Encoded (any_item xs) b (s ++ text_items print_real first xs)
          (encode_items print_real first xs r)

  abbrev EncodesFields : Fields → Type 0
  EncodesFields fs =
      (first : Bool) (b : JsonBuf) (s : Bytes) (r : JsonBuf)
      → Extends b s r
      → Encoded (any_field fs) b (s ++ text_fields print_real first fs)
          (encode_fields print_real first fs r)

  encodes : (v : Json) → Encodes v
  unfolding has_function text json_encode_value
  encodes v = elim v as Encodes EncodesItems EncodesFields [
    | null ↦ λ b s r e. wrote refl (Extends-append b s r _ e)
    | bool t ↦ λ b s r e. wrote refl (Extends-append b s r _ e)
    | int n ↦ λ b s r e. wrote refl (Extends-append b s r _ e)
    | real x ↦ λ b s r e. wrote refl (Extends-append b s r _ e)
    | string t ↦ λ b s r e. wrote refl (Extends-string b s r t e)
    | function ↦ λ b s r e. refused refl
    | array (xs → ih) ↦ λ b s r e.
        simp append_assoc at
          (Encoded-close (93 ∷ []) (ih true b _ _ (Extends-append b s r (91 ∷ []) e)))
    | struct (fs → ih) ↦ λ b s r e.
        simp append_assoc at
          (Encoded-close (125 ∷ []) (ih true b _ _ (Extends-append b s r (123 ∷ []) e)))
    | dict (fs → ih) ↦ λ b s r e.
        simp append_assoc at
          (Encoded-close (125 ∷ []) (ih true b _ _ (Extends-append b s r (123 ∷ []) e)))
    | no_items ↦ λ first b s r e. wrote refl (rw append-nil e)
    | item (v → ih) (xs → ihs) ↦ λ first b s r e.
        simp append_assoc at
          (Encoded-bind (ih b _ _ (Extends-separate b s r first e)) λ r' e'. ihs false b _ r' e')
    | no_fields ↦ λ first b s r e. wrote refl (rw append-nil e)
    | field name (v → ih) (fs → ihs) ↦ λ first b s r e.
        let named = Extends-string b _ _ name (Extends-separate b s r first e) in
        let colon = Extends-append b _ _ (58 ∷ []) named in
        simp append_assoc
          (simp append_assoc at (Encoded-bind (ih b _ _ colon) λ r' e'. ihs false b _ r' e'))
  ]

  -- Where the buffer has room for its NUL, the encoder appends the text of a value without a function
  -- and leaves room for the NUL; it gives up on a value with a function.
  pub json_encode_value-Encoded :
      (v : Json) (b : JsonBuf)
      → length b.buf < b.cap
      → Encoded (has_function v) b (text print_real v) (json_encode_value print_real v b)
  json_encode_value-Encoded v b h = encodes v b [] b (Extends-none b h)
