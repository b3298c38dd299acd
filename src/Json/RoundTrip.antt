-- ===== src/Json/RoundTrip.antt =====
-- source/core/aer_json.c: the text of a value is read back.
use aer.Base.{
  ℕ, zero, suc, ◌+◌, ◌*◌, ◌<◌, ◌≡◌, refl, sym, ◌∙◌, true, false, [], ◌∷◌, ◌++◌, arith, Option, some,
  length, length-append,
}
use mathlib.Core.List.{append_assoc, append-nil}
use mathlib.Core.Bool.{false≢true}
use aer.Base.Bytes.{Bytes, byte_at}
use aer.Json.Decode.{
  ok, json_skip_ws, json_parse_value, json_parse_array, array_items, json_parse_object,
  object_fields, field_value, json_decode,
}
use aer.Json.Digits.{goes_on, json_parse_number-print_int, starts-print_int}
use aer.Json.Strings.{escaped_all, json_parse_string_raw-escaped_all}
use aer.Json.Text.{
  text, text_items, text_fields, quoted, has_function, any_item, any_field, Encoded, refused, wrote,
  json_encode_value-Encoded,
}
use aer.Json.{
  Json, Items, Fields, null, bool, int, real, string, function, array, struct, dict, no_items, item,
  no_fields, field, print_int, JsonBuf, jb_init, json_encode_value,
}
use aer.Json.Plain.{
  IsPlain, ArePlain, HavePlain, decoded, decoded_items, decoded_fields, text-Begins,
  json_parse_value-number,
}

module _ (print_real : ℕ → Bytes) (strtod : Bytes → ℕ) where
  abbrev Reads : Json → Type 0
  Reads v =
      (rest : Bytes) (f : ℕ)
      → IsPlain v
      → goes_on (byte_at rest) ≡ false
      → 3 * length (text print_real v) < f
      → json_parse_value strtod f (text print_real v ++ rest) ≡ ok (decoded v) rest

  abbrev ReadsItems : Items → Type 0
  ReadsItems no_items = Unit
  ReadsItems (item v xs) =
      (rest : Bytes) (f : ℕ)
      → ArePlain (item v xs)
      → 3 * length (text_items print_real true (item v xs)) + 1 < f
      → array_items strtod f (text_items print_real true (item v xs) ++ 93 ∷ rest)
        ≡ ok (decoded_items (item v xs)) rest

  abbrev ReadsFields : Fields → Type 0
  ReadsFields no_fields = Unit
  ReadsFields (field name v fs) =
      (rest : Bytes) (f : ℕ)
      → HavePlain (field name v fs)
      → 3 * length (text_fields print_real true (field name v fs)) + 1 < f
      → object_fields strtod f (text_fields print_real true (field name v fs) ++ 125 ∷ rest)
        ≡ ok (decoded_fields (field name v fs)) rest

  -- What follows an item: the end of the array, or a comma and more items.
  items_after :
      (v : Json) (xs : Items) (rest : Bytes) (f : ℕ)
      → Reads v
      → ReadsItems xs
      → ArePlain (item v xs)
      → 3 * length (text_items print_real true (item v xs)) + 1 < f
      → array_items strtod f (text_items print_real true (item v xs) ++ 93 ∷ rest)
        ≡ ok (decoded_items (item v xs)) rest
  unfolding json_parse_value text decoded IsPlain
  items_after v xs rest zero ih ihs h k = absurd (omega arith)
  items_after v no_items rest (suc f) ih ihs h k = rw (
    append_assoc (text print_real v) [] (93 ∷ rest),
    ih (93 ∷ rest) f h.0 refl (omega (arith, length-append (text print_real v) [])),
  )
  items_after v (item w ws) rest (suc f) ih ihs h k =
      let more = text_items print_real true (item w ws) ++ 93 ∷ rest in
      let small = length-append (text print_real v) (44 ∷ text_items print_real true (item w ws)) in
      let blank : json_skip_ws more ≡ more =
        rw (append_assoc (text print_real w) (text_items print_real false ws) (93 ∷ rest))
          (text-Begins print_real w _ h.1.0).there in
      rw (
        append_assoc (text print_real v) (44 ∷ text_items print_real true (item w ws)) (93 ∷ rest),
        ih (44 ∷ more) f h.0 refl (omega (arith, small)),
        blank,
        ihs rest f h.1 (omega (arith, small)),
      )

  -- The same for the value of a key.
  abbrev ReadsField : Bytes → Json → Fields → Type 0
  ReadsField name v fs =
      (rest : Bytes) (f : ℕ)
      → HavePlain (field name v fs)
      → 3 * (length (text print_real v) + length (text_fields print_real false fs)) + 1 < f
      → field_value strtod f name
          (text print_real v ++ (text_fields print_real false fs ++ 125 ∷ rest))
        ≡ ok (decoded_fields (field name v fs)) rest

  field_after :
      (name : Bytes) (v : Json) (fs : Fields) → Reads v → ReadsFields fs → ReadsField name v fs
  unfolding json_parse_value text decoded IsPlain
  field_after name v fs ih ihs rest zero h k = absurd (omega arith)
  field_after name v no_fields ih ihs rest (suc f) h k =
      rw (ih (125 ∷ rest) f h.0 refl (omega arith))
  field_after name v (field n w ws) ih ihs rest (suc f) h k =
      let more = text_fields print_real true (field n w ws) ++ 125 ∷ rest in
      rw (ih (44 ∷ more) f h.0 refl (omega arith), ihs rest f h.1 (omega arith))

  fields_after :
      (name : Bytes) (v : Json) (fs : Fields) → ReadsField name v fs → ReadsFields (field name v fs)
  unfolding json_parse_value text decoded IsPlain
  fields_after name v fs ih rest zero h k = absurd (omega arith)
  fields_after name v fs ih rest (suc f) h k =
      let behind = text print_real v ++ (text_fields print_real false fs ++ 125 ∷ rest) in
      let small = length-append (text print_real v) (text_fields print_real false fs) in
      let whole =
        length-append (quoted name) (58 ∷ (text print_real v ++ text_fields print_real false fs)) in
      let named = json_parse_string_raw-escaped_all name (58 ∷ behind) in
      let blank =
        (text-Begins print_real v (text_fields print_real false fs ++ 125 ∷ rest) h.0).there in
      let shape : text_fields print_real true (field name v fs) ++ 125 ∷ rest
          ≡ 34 ∷ (escaped_all name ++ 34 ∷ 58 ∷ behind) =
        simp append_assoc in
      rw (shape, named, blank, ih rest f h (omega (arith, small, whole)))

  array_reads :
      (xs : Items) (rest : Bytes) (f : ℕ)
      → ReadsItems xs
      → ArePlain xs
      → 3 * length (text_items print_real true xs) + 1 < f
      → json_parse_array strtod (suc f) (91 ∷ (text_items print_real true xs ++ 93 ∷ rest))
        ≡ ok (array (decoded_items xs)) rest
  unfolding json_parse_value text decoded IsPlain
  array_reads no_items rest f ih h k = refl
  array_reads (item v xs) rest f ih h k =
      let begins = text-Begins print_real v (text_items print_real false xs ++ 93 ∷ rest) h.0 in
      let shape = append_assoc (text print_real v) (text_items print_real false xs) (93 ∷ rest) in
      rw (shape, begins.there, begins.opens, rw shape at (ih rest f h k))

  object_reads :
      (fs : Fields) (rest : Bytes) (f : ℕ)
      → ReadsFields fs
      → HavePlain fs
      → 3 * length (text_fields print_real true fs) + 1 < f
      → json_parse_object strtod (suc f) (123 ∷ (text_fields print_real true fs ++ 125 ∷ rest))
        ≡ ok (dict (decoded_fields fs)) rest
  unfolding json_parse_value text decoded IsPlain
  object_reads no_fields rest f ih h k = refl
  object_reads (field name v fs) rest f ih h k = rw (ih rest f h k)

  brackets_read :
      (xs : Items) (rest : Bytes) (f : ℕ)
      → ReadsItems xs
      → ArePlain xs
      → 3 * length (text print_real (array xs)) < f
      → json_parse_value strtod f (text print_real (array xs) ++ rest)
        ≡ ok (array (decoded_items xs)) rest
  unfolding json_parse_value text decoded IsPlain
  brackets_read xs rest zero ih h k = absurd (omega arith)
  brackets_read xs rest (suc zero) ih h k = absurd (omega arith)
  brackets_read xs rest (suc (suc f)) ih h k =
      let small = length-append (text_items print_real true xs) (93 ∷ []) in
      rw (append_assoc (text_items print_real true xs) (93 ∷ []) rest)
        (array_reads xs rest f ih h (omega (arith, small)))

  braces_read :
      (fs : Fields) (rest : Bytes) (f : ℕ)
      → ReadsFields fs
      → HavePlain fs
      → 3 * length (text print_real (dict fs)) < f
      → json_parse_value strtod f (text print_real (dict fs) ++ rest)
        ≡ ok (dict (decoded_fields fs)) rest
  unfolding json_parse_value text decoded IsPlain
  braces_read fs rest zero ih h k = absurd (omega arith)
  braces_read fs rest (suc zero) ih h k = absurd (omega arith)
  braces_read fs rest (suc (suc f)) ih h k =
      let small = length-append (text_fields print_real true fs) (125 ∷ []) in
      rw (append_assoc (text_fields print_real true fs) (125 ∷ []) rest)
        (object_reads fs rest f ih h (omega (arith, small)))

  mutual
    unfolding json_parse_value text decoded IsPlain

    reads : (v : Json) → Reads v
    reads v rest zero h stop k = absurd (omega arith)
    reads null rest (suc f) h stop k = refl
    reads (bool true) rest (suc f) h stop k = refl
    reads (bool false) rest (suc f) h stop k = refl
    reads (int n) rest (suc f) h stop k =
        json_parse_value-number strtod f (print_int n ++ rest) (starts-print_int n rest h)
        ∙ json_parse_number-print_int strtod n rest h stop
    reads (real x) rest (suc f) h stop k = absurd h
    reads (string s) rest (suc f) h stop k =
        rw (append_assoc (escaped_all s) (34 ∷ []) rest, json_parse_string_raw-escaped_all s rest)
    reads function rest (suc f) h stop k = absurd h
    reads (array xs) rest f h stop k = brackets_read xs rest f (items_read xs) h k
    reads (struct fs) rest f h stop k = braces_read fs rest f (fields_read fs) h k
    reads (dict fs) rest f h stop k = braces_read fs rest f (fields_read fs) h k

    items_read : (xs : Items) → ReadsItems xs
    items_read no_items = tt
    items_read (item v xs) = λ rest f h k. items_after v xs rest f (reads v) (items_read xs) h k

    fields_read : (fs : Fields) → ReadsFields fs
    fields_read no_fields = tt
    fields_read (field name v fs) =
        fields_after name v fs (field_after name v fs (reads v) (fields_read fs))

mutual
  unfolding has_function IsPlain

  plain_lem : (v : Json) → IsPlain v → has_function v ≡ false
  plain_lem (array xs) h = items_plain xs h
  plain_lem (struct fs) h = fields_plain fs h
  plain_lem (dict fs) h = fields_plain fs h
  plain_lem function h = absurd h
  plain_lem _ h = refl

  items_plain : (xs : Items) → ArePlain xs → any_item xs ≡ false
  items_plain no_items h = refl
  items_plain (item v xs) h = rw (plain_lem v h.0, items_plain xs h.1)

  fields_plain : (fs : Fields) → HavePlain fs → any_field fs ≡ false
  fields_plain no_fields h = refl
  fields_plain (field name v fs) h = rw (plain_lem v h.0, fields_plain fs h.1)

module _ (print_real : ℕ → Bytes) (strtod : Bytes → ℕ) where
  json_decode-text :
      (v : Json) → IsPlain v → json_decode strtod (text print_real v) ≡ ok (decoded v) []
  unfolding json_decode
  json_decode-text v h =
      let whole =
        reads print_real strtod v [] (suc (3 * length (text print_real v))) h refl (omega arith) in
      rw (rw append-nil at whole)

  written_back :
      (v : Json) {o : Option JsonBuf}
      → IsPlain v
      → Encoded (has_function v) jb_init (text print_real v) o
      → (r : JsonBuf) × ((o ≡ some r) × (json_decode strtod r.buf ≡ ok (decoded v) []))
  written_back v h (refused e) = absurd (false≢true (sym (plain_lem v h) ∙ e))
  written_back v h (wrote {r = r} e x) = (r, (refl, rw x.written (json_decode-text v h)))

  -- Of a value without reals and functions, whose integers have 64 bits, the encoder writes a text
  -- that decodes, with nothing behind it, to the value with its structs as dictionaries.
  pub json_decode-json_encode_value :
      (v : Json)
      → IsPlain v
      → (r : JsonBuf) × ((json_encode_value print_real v jb_init ≡ some r)
          × (json_decode strtod r.buf ≡ ok (decoded v) []))
  json_decode-json_encode_value v h =
      written_back v h (json_encode_value-Encoded print_real v jb_init (omega arith))
