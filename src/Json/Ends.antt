-- ===== src/Json/Ends.antt =====
-- source/core/aer_json.c: the decoder returns on every input, and each part of it takes bytes.
use aer.Base.{
  ℕ, zero, suc, ◌+◌, ◌*◌, ◌<◌, ◌≤◌, ◌≡◌, refl, inl, inr, Bool, true, false, not, ◌||◌, [], ◌∷◌,
  arith, Option, some, none, leb, ◌==◌, if◌then◌else◌, length, length-drop, Bool-cases,
  Option-cases,
}
use aer.Base.Bytes.{codes, Bytes, byte_at, next}
use aer.Json.Decode.{
  Parse, ok, failed, ◌>>=◌, at_end, is_space, is_digit, json_skip_ws, json_parse_string_raw,
  json_parse_number, json_match_literal, parse_escape, string_body, simple_escape, skip_digits,
  fraction, exponent, exponential, fractional, skip_sign, parse_literal, json_parse_value,
  json_parse_array, array_items, json_parse_object, object_fields, field_value, json_decode,
}
use aer.Json.{Json, JsonBuf, bool, null}

-- A value with fewer than `n` bytes left, or an error.
pub data Within {ℓ} {A : Type ℓ} (n : ℕ) : Parse A → Type ℓ where
  returned : {a : A} {p : Bytes} → length p < n → Within n (ok a p)
  stopped : {msg : Bytes} → Within n (failed msg)

module _ {ℓ} {A : Type ℓ} where
  Within-le : {n m : ℕ} {r : Parse A} → n ≤ m → Within n r → Within m r
  Within-le h (returned k) = returned (omega arith)
  Within-le h stopped = stopped

  Within-if :
      {n : ℕ} {r s : Parse A} (t : Bool)
      → (t ≡ true → Within n r)
      → (t ≡ false → Within n s)
      → Within n (if t then r else s)
  Within-if true f g = f refl
  Within-if false f g = g refl

  Within-bind {κ} :
      {B : Type κ} {n m : ℕ} {r : Parse A} {f : A → Bytes → Parse B}
      → Within n r
      → ((a : A) (p : Bytes) → length p < n → Within m (f a p))
      → Within m (r >>= f)
  Within-bind (returned h) k = k _ _ h
  Within-bind stopped k = stopped

length-next : (p : Bytes) → length (next p) ≤ length p
length-next [] = omega arith
length-next (ch ∷ p) = omega arith

-- A byte that is not 0 stands before the end.
length-byte_at :
    (p : Bytes) (k : ℕ) → (byte_at p == k) ≡ true → 0 < k → suc (length (next p)) ≤ length p
length-byte_at [] k e h = ground arith
length-byte_at (ch ∷ p) k e h = omega arith

length-json_skip_ws : (p : Bytes) → length (json_skip_ws p) ≤ length p
unfolding json_skip_ws
length-json_skip_ws [] = omega arith
length-json_skip_ws (ch ∷ p) = elim (Bool-cases (is_space ch)) [
  | inl e ↦ rw e (omega (arith, length-json_skip_ws p))
  | inr e ↦ rw e (omega arith)
]

length-skip_digits : (p : Bytes) → length (skip_digits p) ≤ length p
unfolding skip_digits
length-skip_digits [] = omega arith
length-skip_digits (ch ∷ p) = elim (Bool-cases (is_digit ch)) [
  | inl e ↦ rw e (omega (arith, length-skip_digits p))
  | inr e ↦ rw e (omega arith)
]

length-skip_digits_next :
    (p : Bytes) → is_digit (byte_at p) ≡ true → length (skip_digits p) < length p
unfolding skip_digits
length-skip_digits_next [] e = ground arith
length-skip_digits_next (ch ∷ p) e = rw e (omega (arith, length-skip_digits p))

parse_escape-Within : (p : Bytes) → Within (length p) (parse_escape p)
unfolding parse_escape
parse_escape-Within [] = stopped
parse_escape-Within (esc ∷ p) = elim (Option-cases (simple_escape esc)) [
  | inl e ↦ rw e (
      Within-if (esc == 117)
        (λ _.
          Within-if (leb (length p) 3) (λ _. stopped)
            λ _. returned (omega (arith, length-drop 4 p)))
        λ _. stopped)
  | inr (ch, e) ↦ rw e (returned (omega arith))
]

string_body-Within :
    (f : ℕ) (p : Bytes) (b : JsonBuf) → length p < f → Within (suc (length p)) (string_body f p b)
unfolding string_body
string_body-Within zero p b h = absurd (omega arith)
string_body-Within (suc f) [] b h = stopped
string_body-Within (suc f) (ch ∷ p) b h =
    Within-if (ch == 34) (λ e. returned (omega arith))
      λ e.
        Within-if (not (ch == 92))
          (λ e. Within-le (omega arith) (string_body-Within f p _ (omega arith)))
          λ e.
            Within-bind (parse_escape-Within p)
              λ s q k. Within-le (omega arith) (string_body-Within f q _ (omega arith))

json_parse_string_raw-Within :
    (p : Bytes) → (byte_at p == 34) ≡ true → Within (length p) (json_parse_string_raw p)
unfolding json_parse_string_raw
json_parse_string_raw-Within p e =
    let shorter = length-byte_at p 34 e (omega arith) in
    Within-bind (string_body-Within (suc (length p)) (next p) _ (omega arith))
      λ b q k. returned (omega arith)

-- A scan that fails, or leaves at most `n` bytes.
data Scanned (n : ℕ) : Option (Bool × Bytes) → Type 0 where
  no_scan : Scanned n none
  scan : {t : Bool} {q : Bytes} → length q ≤ n → Scanned n (some (t, q))

Scanned-if :
    {n : ℕ} {r s : Option (Bool × Bytes)} (t : Bool)
    → Scanned n r
    → Scanned n s
    → Scanned n (if t then r else s)
Scanned-if true f g = f
Scanned-if false f g = g

length-if :
    {n : ℕ} (p q : Bytes) (t : Bool) → length p ≤ n → length q ≤ n → length (if t then p else q) ≤ n
length-if p q true h k = h
length-if p q false h k = k

exponent-Scanned : (p : Bytes) → Scanned (length p) (exponent p)
unfolding exponent
exponent-Scanned p =
    let q = next p in
    let sign : length (skip_sign q) ≤ length q =
      length-if _ _ (byte_at q == 43 || byte_at q == 45) (length-next q) (omega arith) in
    Scanned-if (byte_at p == 101 || byte_at p == 69)
      (Scanned-if (is_digit (byte_at (skip_sign q)))
        (scan (omega (arith, sign, length-next p, length-skip_digits (skip_sign q)))) no_scan)
      (scan (omega arith))

fraction-Scanned : (p : Bytes) → Scanned (length p) (fraction p)
unfolding fraction
fraction-Scanned p =
    Scanned-if (byte_at p == 46)
      (Scanned-if (is_digit (byte_at (next p)))
        (scan (omega (arith, length-next p, length-skip_digits (next p)))) no_scan)
      (scan (omega arith))

length-json_match_literal :
    (p lit q : Bytes) → json_match_literal p lit ≡ some q → length q + length lit ≤ length p
unfolding json_match_literal
length-json_match_literal p [] q e = ground arith
length-json_match_literal [] (l ∷ lit) q e = ground arith
length-json_match_literal (ch ∷ p) (l ∷ lit) q e = elim (Bool-cases (ch == l)) [
  | inl t ↦ omega (arith, length-json_match_literal p lit q (rw t at e))
  | inr t ↦ let none_left = rw t at e in ground arith
]

module _ (strtod : Bytes → ℕ) where
  exponential-Within :
      {n k : ℕ} {o : Option (Bool × Bytes)} (p : Bytes) (t : Bool)
      → Scanned k o
      → k < n
      → Within n (exponential strtod p t o)
  exponential-Within p t no_scan h = stopped
  exponential-Within p t (scan k) h = returned (omega arith)

  fractional-Within :
      {n k : ℕ} {o : Option (Bool × Bytes)} (p : Bytes)
      → Scanned k o
      → k < n
      → Within n (fractional strtod p o)
  fractional-Within p no_scan h = stopped
  fractional-Within p (scan {t = t} {q = q} k) h =
      exponential-Within p t (exponent-Scanned q) (omega arith)

  json_parse_number-Within : (p : Bytes) → Within (length p) (json_parse_number strtod p)
  unfolding json_parse_number
  json_parse_number-Within p =
      let q = if byte_at p == 45 then next p else p in
      let sign : length q ≤ length p =
        length-if _ _ (byte_at p == 45) (length-next p) (omega arith) in
      Within-if (is_digit (byte_at q))
        (λ e. fractional-Within p (fraction-Scanned _) (digits_shorter q (length p) e sign))
        λ _. stopped
    where
      digits_shorter :
          (q : Bytes) (n : ℕ)
          → is_digit (byte_at q) ≡ true
          → length q ≤ n
          → length (if byte_at q == 48 then next q else skip_digits q) < n
      digits_shorter q n e h = elim (Bool-cases (byte_at q == 48)) [
        | inl z ↦ rw z (omega (arith, length-byte_at q 48 z (omega arith)))
        | inr z ↦ rw z (omega (arith, length-skip_digits_next q e))
      ]

  parse_literal-Within :
      (p lit : Bytes) (v : Json) → 0 < length lit → Within (length p) (parse_literal strtod p lit v)
  parse_literal-Within p lit v h = elim (Option-cases (json_match_literal p lit)) [
    | inl e ↦ rw e stopped
    | inr (q, e) ↦ rw e (returned (omega (arith, length-json_match_literal p lit q e)))
  ]

  -- `json_parse_value` may call the others with the fuel that the length of the input bounds.
  mutual
    unfolding json_parse_value

    value-Within :
        (f : ℕ) (p : Bytes) → 3 * length p < f → Within (length p) (json_parse_value strtod f p)
    value-Within zero p h = absurd (omega arith)
    value-Within (suc f) p h =
        let q = json_skip_ws p in
        let shorter = length-json_skip_ws p in
        Within-le shorter (
          Within-if (at_end q) (λ _. stopped)
            λ _.
              Within-if (byte_at q == 34)
                (λ e. Within-bind (json_parse_string_raw-Within q e) λ s r k. returned k)
                λ _.
                  Within-if (byte_at q == 123) (λ e. object-Within f q (omega (arith, shorter)) e)
                    λ _.
                      Within-if (byte_at q == 91) (λ e. array-Within f q (omega (arith, shorter)) e)
                        λ _.
                          Within-if (byte_at q == 116)
                            (λ _. parse_literal-Within q (codes "true") (bool true) (omega arith))
                            λ _.
                              Within-if (byte_at q == 102)
                                (λ _.
                                  parse_literal-Within q (codes "false") (bool false) (omega arith))
                                λ _.
                                  Within-if (byte_at q == 110)
                                    (λ _. parse_literal-Within q (codes "null") null (omega arith))
                                    λ _.
                                      Within-if (byte_at q == 45 || is_digit (byte_at q))
                                        (λ _. json_parse_number-Within q) λ _. stopped)

    array-Within :
        (f : ℕ) (p : Bytes)
        → 3 * length p < suc f
        → (byte_at p == 91) ≡ true
        → Within (length p) (json_parse_array strtod f p)
    array-Within zero p h e = let k = length-byte_at p 91 e (omega arith) in absurd (omega arith)
    array-Within (suc f) p h e =
        let k = length-byte_at p 91 e (omega arith) in
        let q = json_skip_ws (next p) in
        let shorter = length-json_skip_ws (next p) in
        Within-if (byte_at q == 93) (λ _. returned (omega (arith, shorter, length-next q)))
          λ _.
            Within-bind (items-Within f q (omega (arith, shorter, k)))
              λ xs r l. returned (omega (arith, shorter, k))

    items-Within :
        (f : ℕ) (p : Bytes) → 3 * length p + 1 < f → Within (length p) (array_items strtod f p)
    items-Within zero p h = absurd (omega arith)
    items-Within (suc f) p h = Within-bind (value-Within f p (omega arith)) λ v r l.
        let q = json_skip_ws r in
        let shorter = length-json_skip_ws r in
        let s = json_skip_ws (next q) in
        let again = length-json_skip_ws (next q) in
        Within-if (at_end q) (λ _. stopped)
          λ _.
            Within-if (byte_at q == 44)
              (λ e.
                Within-bind
                  (items-Within f s
                    (omega (arith, shorter, again, length-byte_at q 44 e (omega arith))))
                  λ xs t k. returned (omega (arith, shorter, again, length-next q)))
              λ _.
                Within-if (byte_at q == 93) (λ _. returned (omega (arith, shorter, length-next q)))
                  λ _. stopped

    object-Within :
        (f : ℕ) (p : Bytes)
        → 3 * length p < suc f
        → (byte_at p == 123) ≡ true
        → Within (length p) (json_parse_object strtod f p)
    object-Within zero p h e = let k = length-byte_at p 123 e (omega arith) in absurd (omega arith)
    object-Within (suc f) p h e =
        let k = length-byte_at p 123 e (omega arith) in
        let q = json_skip_ws (next p) in
        let shorter = length-json_skip_ws (next p) in
        Within-if (byte_at q == 125) (λ _. returned (omega (arith, shorter, length-next q)))
          λ _.
            Within-bind (fields-Within f q (omega (arith, shorter, k)))
              λ fs r l. returned (omega (arith, shorter, k))

    fields-Within :
        (f : ℕ) (p : Bytes) → 3 * length p + 1 < f → Within (length p) (object_fields strtod f p)
    fields-Within zero p h = absurd (omega arith)
    fields-Within (suc f) p h =
        let q = json_skip_ws p in
        let shorter = length-json_skip_ws p in
        Within-if (byte_at q == 34)
          (λ e. Within-bind (json_parse_string_raw-Within q e) λ name r l.
            let s = json_skip_ws r in
            let t = json_skip_ws (next s) in
            let bound : length t ≤ length r =
              omega (arith, length-json_skip_ws r, length-next s, length-json_skip_ws (next s)) in
            Within-if (byte_at s == 58)
              (λ _.
                Within-le (omega (arith, shorter)) (field-Within f name t (omega (arith, shorter))))
              λ _. stopped)
          λ _. stopped

    field-Within :
        (f : ℕ) (name p : Bytes)
        → 3 * length p + 1 < f
        → Within (length p) (field_value strtod f name p)
    field-Within zero name p h = absurd (omega arith)
    field-Within (suc f) name p h = Within-bind (value-Within f p (omega arith)) λ v r l.
        let q = json_skip_ws r in
        let shorter = length-json_skip_ws r in
        Within-if (at_end q) (λ _. stopped)
          λ _.
            Within-if (byte_at q == 44)
              (λ e.
                Within-bind
                  (fields-Within f (next q)
                    (omega (arith, shorter, length-byte_at q 44 e (omega arith))))
                  λ fs t k. returned (omega (arith, shorter, length-next q)))
              λ _.
                Within-if (byte_at q == 125) (λ _. returned (omega (arith, shorter, length-next q)))
                  λ _. stopped

  -- The decoder returns a value or an error on every input.
  pub json_decode-Within : (input : Bytes) → Within (suc (length input)) (json_decode strtod input)
  unfolding json_decode
  json_decode-Within input =
      Within-bind (value-Within (suc (3 * length input)) input (omega arith))
        λ v r l. Within-if (at_end (json_skip_ws r)) (λ _. returned (omega arith)) λ _. stopped
