-- ===== src/Json/Digits.antt =====
-- source/core/aer_json.c: an integer printed with "%lld" is read back by the scan of a number and
-- `strtoll`.
use aer.Base.{
  ℕ, zero, suc, ◌+◌, ◌-◌, ◌*◌, ◌/◌, ◌%◌, ◌^◌, ◌<◌, ◌≤◌, ◌≡◌, refl, sym, ◌∙◌, ap, inl, inr, Bool,
  true, false, [], ◌∷◌, ◌++◌, arith, ltb, ◌==◌, ◌||◌, if◌then◌else◌, length, take-append,
  Bool-cases, ltb→lt, unequal, ◌⊎◌, length-append,
}
use Prim.Native.Nat.{min}
use mathlib.Core.Bool.{false≢true}
use mathlib.Core.List.{append_assoc, append-nil}
use native.Mathlib.Nat.{pow-suc}
use aer.Base.Bytes.{Bytes, byte_at, next}
use aer.Base.Int.{ℤ, pos, negsuc}
use aer.Json.Decode.{
  ok, is_digit, skip_digits, digits_value, strtoll, fraction, exponent, literal, fractional,
  json_parse_number,
}
use aer.Json.{int, decimal, print_int}

-- A byte that would carry on a number.
abbrev pub goes_on : ℕ → Bool
goes_on ch = is_digit ch || (ch == 46 || (ch == 101 || ch == 69))

abbrev pub AreDigits : Bytes → Type 0
AreDigits [] = Unit
AreDigits (ch ∷ s) = (is_digit ch ≡ true) × AreDigits s

AreDigits-append : (s r : Bytes) → AreDigits s → AreDigits r → AreDigits (s ++ r)
AreDigits-append [] r h k = k
AreDigits-append (ch ∷ s) r h k = (h.0, AreDigits-append s r h.1 k)

pub skip_digits-append :
    (s rest : Bytes)
    → AreDigits s
    → is_digit (byte_at rest) ≡ false
    → skip_digits (s ++ rest) ≡ rest
unfolding skip_digits
skip_digits-append [] [] h k = refl
skip_digits-append [] (ch ∷ rest) h k = rw k
skip_digits-append (ch ∷ s) rest h k = rw h.0 (skip_digits-append s rest h.1 k)

digits_value-last :
    (s : Bytes) (ch v : ℕ)
    → AreDigits s
    → is_digit ch ≡ true
    → digits_value (s ++ (ch ∷ [])) v ≡ digits_value s v * 10 + (ch - 48)
unfolding digits_value
digits_value-last [] ch v h k = rw k
digits_value-last (d ∷ s) ch v h k = rw h.0 (digits_value-last s ch (v * 10 + (d - 48)) h.1 k)

-- A digit is printed as a digit.
is_digit-digit : (d : ℕ) → d < 10 → is_digit (48 + d) ≡ true
is_digit-digit d h = ground arith

fewer_digits : (f n : ℕ) → n < 10 ^ suc f → n / 10 < 10 ^ f
fewer_digits f n h = omega (arith, pow-suc 10 f)

-- What the digits of a number are, however they are scanned.
pub record Printed (n : ℕ) (s : Bytes) : Type 0 where
  pub digits : AreDigits s
  pub value : digits_value s 0 ≡ n
  pub leading :
      (rest : Bytes)
      → (s ≡ 48 ∷ [])
        ⊎ (((byte_at (s ++ rest) == 48) ≡ false) × (is_digit (byte_at (s ++ rest)) ≡ true))

one_digit-Printed : (d : ℕ) → d < 10 → Printed d ((48 + d) ∷ [])
unfolding digits_value
one_digit-Printed zero h = record { digits = (refl, tt); value = refl; leading = λ rest. inl refl }
one_digit-Printed (suc d) h = record {
  digits = (is_digit-digit (suc d) h, tt);
  value = ground arith;
  leading = λ rest. inr (unequal (48 + suc d) 48 (λ e. omega arith), is_digit-digit (suc d) h);
}

more_digits-Printed :
    (n d : ℕ) (s : Bytes)
    → 0 < n
    → d < 10
    → Printed n s
    → Printed (n * 10 + d) (s ++ ((48 + d) ∷ []))
unfolding digits_value
more_digits-Printed n d s big h p = record {
  digits = AreDigits-append s _ p.digits (is_digit-digit d h, tt);
  value =
      digits_value-last s (48 + d) 0 p.digits (is_digit-digit d h)
      ∙ ap (λ (v : ℕ). v * 10 + (48 + d - 48)) p.value
      ∙ ap (λ (c : ℕ). n * 10 + c) (omega arith);
  leading = λ rest. elim (p.leading ((48 + d) ∷ rest)) [
    | inl e ↦
        let none_left : ◌≡◌ {A = ℕ} n 0 = sym p.value ∙ ap (λ (s : Bytes). digits_value s 0) e in
        absurd (omega arith)
    | inr e ↦ rw (append_assoc s ((48 + d) ∷ []) rest) (inr e)
  ];
}

pub decimal-Printed : (f n : ℕ) → n < 10 ^ f → 0 < f → Printed n (decimal f n)
unfolding decimal
decimal-Printed zero n h k = absurd (omega arith)
decimal-Printed (suc zero) n h k =
    let e : ltb n 10 ≡ true = ground arith in rw e (one_digit-Printed n h)
decimal-Printed (suc (suc f)) n h k = elim (Bool-cases (ltb n 10)) [
  | inl e ↦ rw e (one_digit-Printed n (ltb→lt n 10 e))
  | inr e ↦
      let split : n / 10 * 10 + n % 10 ≡ n = omega arith in
      let printed =
        more_digits-Printed (n / 10) (n % 10) _ (ground arith) (omega arith)
          (decimal-Printed (suc f) (n / 10) (fewer_digits (suc f) n h) (omega arith)) in
      rw e (rw split at printed)
]

pub length-decimal : (f n : ℕ) → length (decimal f n) ≤ f
unfolding decimal
length-decimal zero n = omega arith
length-decimal (suc f) n = elim (Bool-cases (ltb n 10)) [
  | inl e ↦ rw e (omega arith)
  | inr e ↦ rw e (
      omega
        (arith, length-append (decimal f (n / 10)) ((48 + n % 10) ∷ []), length-decimal f (n / 10)))
]

-- The integers of 64 bits.
abbrev pub IsLong : ℤ → Type 0
IsLong (pos n) = n < 2 ^ 63
IsLong (negsuc n) = n < 2 ^ 63

-- The scan over the digits, which stops behind a zero.
scan-Printed :
    (n : ℕ) (s rest : Bytes)
    → Printed n s
    → is_digit (byte_at rest) ≡ false
    → (if byte_at (s ++ rest) == 48 then next (s ++ rest) else skip_digits (s ++ rest)) ≡ rest
scan-Printed n s rest p stop = elim (p.leading rest) [
  | inl e ↦ rw e
  | inr e ↦ rw e.0 (skip_digits-append s rest p.digits stop)
]

starts-Printed : (n : ℕ) (s rest : Bytes) → Printed n s → is_digit (byte_at (s ++ rest)) ≡ true
starts-Printed n s rest p = elim (p.leading rest) [ inl e ↦ rw e | inr e ↦ e.1 ]

literal-append : (s rest : Bytes) → length s ≤ 63 → literal (s ++ rest) rest ≡ s
literal-append s rest h =
    let whole : min (length (s ++ rest) - length rest) 63 ≡ length s =
      omega (arith, length-append s rest) in
    rw (whole, take-append s rest)

-- Where nothing carries the number on, it has no fraction and no exponent.
fractional-int :
    (strtod : Bytes → ℕ) (p rest : Bytes)
    → goes_on (byte_at rest) ≡ false
    → fractional strtod p (fraction rest) ≡ ok (int (strtoll (literal p rest))) rest
unfolding fraction exponent
fractional-int strtod p rest stop = ground arith

not_minus : (ch : ℕ) → is_digit ch ≡ true → (ch == 45) ≡ false
not_minus ch h = ground arith

stops : (ch : ℕ) → goes_on ch ≡ false → is_digit ch ≡ false
stops ch h = ground arith

-- `strtoll` on the digits of a number, and behind a sign.
strtoll-Printed : (n : ℕ) (s : Bytes) → Printed n s → n < 2 ^ 63 → strtoll s ≡ pos n
unfolding strtoll
strtoll-Printed n s p h =
    let sign : (byte_at s == 45) ≡ false =
      rw append-nil at (not_minus (byte_at (s ++ [])) (starts-Printed n s [] p)) in
    rw (sign, p.value) (ap pos (omega arith))

strtoll-minus : (n : ℕ) (s : Bytes) → Printed (suc n) s → n < 2 ^ 63 → strtoll (45 ∷ s) ≡ negsuc n
unfolding strtoll
strtoll-minus n s p h =
    let least : min (suc n) (2 ^ 63) ≡ suc n = omega arith in rw (p.value, least) (ground arith)

module _ (strtod : Bytes → ℕ) (n : ℕ) (s rest : Bytes) (p : Printed n s)
    (stop : goes_on (byte_at rest) ≡ false) where
  number-Printed : length s ≤ 63 → json_parse_number strtod (s ++ rest) ≡ ok (int (strtoll s)) rest
  unfolding json_parse_number
  number-Printed h =
      let starts = starts-Printed n s rest p in
      let scan = scan-Printed n s rest p (stops (byte_at rest) stop) in
      rw (
        not_minus (byte_at (s ++ rest)) starts,
        starts,
        scan,
        fractional-int strtod (s ++ rest) rest stop,
        literal-append s rest h,
      )

  number-minus :
      length s ≤ 62 → json_parse_number strtod (45 ∷ s ++ rest) ≡ ok (int (strtoll (45 ∷ s))) rest
  unfolding json_parse_number
  number-minus h =
      let starts = starts-Printed n s rest p in
      let scan = scan-Printed n s rest p (stops (byte_at rest) stop) in
      rw (
        starts,
        scan,
        fractional-int strtod (45 ∷ s ++ rest) rest stop,
        literal-append (45 ∷ s) rest (omega arith),
      )

-- An integer that was printed is read back, where the input behind it does not carry it on.
pub json_parse_number-print_int :
    (strtod : Bytes → ℕ) (n : ℤ) (rest : Bytes)
    → IsLong n
    → goes_on (byte_at rest) ≡ false
    → json_parse_number strtod (print_int n ++ rest) ≡ ok (int n) rest
unfolding print_int
json_parse_number-print_int strtod (pos n) rest h stop =
    let p = decimal-Printed 20 n (omega arith) (omega arith) in
    number-Printed strtod n (decimal 20 n) rest p stop (omega (arith, length-decimal 20 n))
    ∙ ap (λ k. ok (int k) rest) (strtoll-Printed n (decimal 20 n) p h)
json_parse_number-print_int strtod (negsuc n) rest h stop =
    let p = decimal-Printed 20 (suc n) (omega arith) (omega arith) in
    number-minus strtod (suc n) (decimal 20 (suc n)) rest p stop
      (omega (arith, length-decimal 20 (suc n)))
    ∙ ap (λ k. ok (int k) rest) (strtoll-minus n (decimal 20 (suc n)) p h)

-- A printed integer starts like a number.
pub starts-print_int :
    (n : ℤ) (rest : Bytes)
    → IsLong n
    → (byte_at (print_int n ++ rest) == 45 || is_digit (byte_at (print_int n ++ rest))) ≡ true
unfolding print_int
starts-print_int (pos n) rest h =
    let starts = starts-Printed n _ rest (decimal-Printed 20 n (omega arith) (omega arith)) in
    rw (not_minus _ starts, starts)
starts-print_int (negsuc n) rest h = refl

pub length-print_int : (n : ℤ) → IsLong n → 0 < length (print_int n)
length-print_int n h = long (print_int n) (rw append-nil at (starts-print_int n [] h))
  where
    long : (s : Bytes) → (byte_at s == 45 || is_digit (byte_at s)) ≡ true → 0 < length s
    long [] e = absurd (false≢true e)
    long (ch ∷ s) e = omega arith
