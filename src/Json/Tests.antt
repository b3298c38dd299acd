-- ===== src/Json/Tests.antt =====
-- Texts that are encoded and decoded, and instances of the theorems.
use aer.Base.{ℕ, ◌≡◌, refl, true, [], ◌∷◌, arith, Option, some, none, length, suc}
use aer.Base.Bytes.{Bytes, codes, str_equal}
use aer.Base.Int.{pos, negsuc}
use aer.HashTable.{HashTable, lookup}
use aer.Json.Call.{Answered, aer_json_call, aer_json_call-Answered}
use aer.Json.Dict.{new_map, put_fields, member, put_fields-new_map}
use aer.Json.Ends.{Within, json_decode-Within}
use aer.Json.Plain.{IsPlain, decoded}
use aer.Json.RoundTrip.{json_decode-json_encode_value}
use aer.Json.Text.{text, has_function, Encoded, json_encode_value-Encoded}
use aer.Json.Decode.{ok, failed, json_decode, json_parse_string_raw, json_parse_number}
use aer.Json.{
  Json, Fields, null, bool, int, string, array, dict, no_items, item, no_fields, field, JsonBuf,
  jb_init, json_encode_value,
}

abbrev no_reals : Bytes → ℕ
no_reals s = 0

abbrev nested : Json
nested = array (
    item (int (negsuc 41)) (
      item (dict (field (codes "a") (bool true) (field (10 ∷ []) (string (codes "x")) no_fields)))
        (item (array no_items) no_items)))

abbrev printed : Bytes
printed = codes "[-42,{\"a\":true,\"\\n\":\"x\"},[]]"

encode_nested :
    ◌≡◌ {A = Option JsonBuf}
      (json_encode_value (λ r. []) nested jb_init)
      (some (record { buf = printed; cap = 64 }))
unfolding json_encode_value
encode_nested = refl

decode_nested : json_decode no_reals printed ≡ ok nested []
unfolding json_decode json_parse_string_raw json_parse_number
decode_nested = refl

-- An escape of four bytes that are no hexadecimal digits stands for a NUL.
not_hexadecimal :
    json_decode no_reals (codes " [1 , \"\\u00e9\\uZZZZ\" ] ")
    ≡ ok (array (item (int (pos 1)) (item (string (195 ∷ 169 ∷ 0 ∷ [])) no_items))) []
unfolding json_decode json_parse_string_raw json_parse_number
not_hexadecimal = refl

trailing_comma :
    json_decode no_reals (codes "{\"a\":1,}") ≡ failed (codes "Expected string key in JSON object")
unfolding json_decode json_parse_string_raw json_parse_number
trailing_comma = refl

abbrev no_text : ℕ → Bytes
no_text r = []

nested-IsPlain : IsPlain nested
unfolding IsPlain
nested-IsPlain = (omega arith, ((tt, (tt, tt)), (tt, tt)))

json_decode-json_encode_value_example :
    (r : JsonBuf) × ((json_encode_value no_text nested jb_init ≡ some r)
      × (json_decode no_reals r.buf ≡ ok (decoded nested) []))
json_decode-json_encode_value_example =
    json_decode-json_encode_value no_text no_reals nested nested-IsPlain

json_encode_value-Encoded_example :
    Encoded
      (has_function nested)
      jb_init
      (text no_text nested)
      (json_encode_value no_text nested jb_init)
json_encode_value-Encoded_example = json_encode_value-Encoded no_text nested jb_init (omega arith)

json_decode-Within_example : Within (suc (length printed)) (json_decode no_reals printed)
json_decode-Within_example = json_decode-Within no_reals printed

-- {"a":1,"a":null}
abbrev twice : Fields
twice = field (codes "a") (int (pos 1)) (field (codes "a") null no_fields)

put_fields-new_map_example :
    (r : HashTable Json) × ((put_fields twice new_map ≡ some r)
      × ((q : Bytes) → lookup r q ≡ member none twice q))
put_fields-new_map_example = put_fields-new_map twice (omega arith)

aer_json_call-Answered_example : Answered (null ∷ []) (
    aer_json_call no_text no_reals
      (record { stack = string printed ∷ null ∷ []; errors = [] })
      (codes "decode")
      1)
unfolding str_equal
aer_json_call-Answered_example =
    aer_json_call-Answered no_text no_reals (null ∷ []) (omega arith) (string printed) []
      (codes "decode") refl
