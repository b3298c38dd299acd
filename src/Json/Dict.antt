-- ===== src/Json/Dict.antt =====
-- source/core/aer_json.c: the table of a decoded object, filled by its calls of `dictmap_put`.
use aer.Base.{
  ℕ, ◌+◌, ◌*◌, ◌^◌, ◌<◌, ◌≡◌, refl, ◌∙◌, ap, inl, inr, true, [], Option, none, some, suc, arith,
  if◌then◌else◌,
}
use aer.Base.Bytes.{Bytes, str_equal}
use aer.HashTable.Put.{added-le}
use aer.HashTable.Store.{IsUnused, lookup-IsUnused, IsValid, hashtable_put-Stored}
use aer.HashTable.{HashTable, ◌>>=◌, hashtable_put, lookup}
use aer.Json.{Json, Fields, no_fields, field}

-- `memset` and `is_inline = true`
abbrev pub new_map : HashTable Json
new_map = record { buckets = []; count = 0; capacity = 0; is_inline = true }

-- The calls of `dictmap_put`, in the order of the text.
unfoldable pub put_fields : Fields → HashTable Json → Option (HashTable Json)
put_fields no_fields t = some t
put_fields (field name v fs) t = hashtable_put t name v >>= λ r. put_fields fs r.0

abbrev pub count_fields : Fields → ℕ
count_fields no_fields = 0
count_fields (field name v fs) = suc (count_fields fs)

-- The member of an object under a key: the last one in the text, or what was there before.
abbrev pub member : Option Json → Fields → Bytes → Option Json
member before no_fields q = before
member before (field name v fs) q = member (if str_equal name q then some v else before) fs q

put_fields-member :
    (fs : Fields) (t : HashTable Json)
    → IsValid t
    → (t.count + count_fields fs) * 100 < 2 ^ 32
    → (r : HashTable Json) × ((put_fields fs t ≡ some r)
        × ((q : Bytes) → lookup r q ≡ member (lookup t q) fs q))
unfolding put_fields
put_fields-member no_fields t valid small = (t, (refl, λ q. refl))
put_fields-member (field name v fs) t valid small =
    let (s, done, stored) = hashtable_put-Stored t name v valid (omega arith) in
    let (r, (rest, reads)) =
      put_fields-member fs s.0 (inr stored.live)
        (omega (arith, stored.counts, added-le (lookup t name))) in
    (r, (rw done rest, λ q. reads q ∙ ap (λ o. member o fs q) (stored.reads q)))

-- Filling the table of an object of up to 42,949,672 members returns a table that reads as the object:
-- under each key the last member that the text has for it, and nothing under any other key.
pub put_fields-new_map :
    (fs : Fields)
    → count_fields fs * 100 < 2 ^ 32
    → (r : HashTable Json) × ((put_fields fs new_map ≡ some r)
        × ((q : Bytes) → lookup r q ≡ member none fs q))
put_fields-new_map fs small =
    let unused : IsUnused new_map = record { null = refl; no_count = refl; no_capacity = refl } in
    let (r, (done, reads)) = put_fields-member fs new_map (inl unused) (omega arith) in
    (r, (done, λ q. reads q ∙ ap (λ o. member o fs q) (lookup-IsUnused new_map unused q)))
