-- ===== src/ValueBox/Fields.antt =====
-- The bit operations of the boxed word as arithmetic on its fields.
use aer.Base.{
  ℕ, ◌+◌, ◌*◌, ◌/◌, ◌%◌, ◌^◌, ◌<◌, ◌≡◌, refl, ap, ◌∙◌, ◌↔◌, true, arith, ==_iff, bit_and, bit_or,
}
use aer.Base.Bits.{bit_or-add, bit_and-shift, bit_and-ones}
use aer.ValueBox.{
  ValueType, type_code, type_of_code, boxed_mask, boxed_test, payload_mask, bigflag_bit, is_boxed,
  aer_type, tagged, int47_mask, int47_signbit,
}

type_code-lt : (tag : ValueType) → type_code tag < 8
type_code-lt ValueType.null = omega arith
type_code-lt _ = omega arith

pub type_of_code-type_code : (tag : ValueType) → type_of_code (type_code tag) ≡ tag
unfolding type_of_code
type_of_code-type_code ValueType.null = refl
type_of_code-type_code _ = refl

-- Tag and payload lie side by side under the test pattern.
pub tagged-sum :
    (tag : ValueType) (payload : ℕ)
    → payload < 2 ^ 48
    → tagged tag payload ≡ boxed_test + type_code tag * 2 ^ 48 + payload
tagged-sum tag payload h =
    let small = type_code-lt tag in
    let first : bit_or boxed_test (type_code tag * 2 ^ 48) ≡ (0x7ff8 + type_code tag) * 2 ^ 48 =
      bit_or-add 51 0xfff (type_code tag * 2 ^ 48) (omega arith) ∙ omega arith in
    ap (λ (w : ℕ). bit_or w payload) first
    ∙ bit_or-add 48 (0x7ff8 + type_code tag) payload h
    ∙ omega arith

-- A word is boxed when its upper 13 bits are those of the test pattern.
pub is_boxed_iff : (v : ℕ) → v < 2 ^ 64 → (is_boxed v ≡ true) ↔ (v / 2 ^ 51 ≡ 0xfff)
unfolding is_boxed
is_boxed_iff v h =
    let top : bit_and v boxed_mask ≡ v / 2 ^ 51 * 2 ^ 51 =
      bit_and-shift 51 v 0x1fff
      ∙ ap (λ (w : ℕ). w * 2 ^ 51) (bit_and-ones 13 (v / 2 ^ 51) ∙ omega arith) in
    (λ e. omega (arith, (==_iff _ _).0 e), λ e. (==_iff _ _).1 (omega arith))

pub tagged-is_boxed :
    (tag : ValueType) (payload : ℕ) → payload < 2 ^ 48 → is_boxed (tagged tag payload) ≡ true
tagged-is_boxed tag payload h =
    let sum = tagged-sum tag payload h in
    let small = type_code-lt tag in
    (is_boxed_iff (tagged tag payload) (omega arith)).1 (omega arith)

-- The tag is read back.
pub aer_type-tagged :
    (tag : ValueType) (payload : ℕ) → payload < 2 ^ 48 → aer_type (tagged tag payload) ≡ tag
unfolding aer_type
aer_type-tagged tag payload h =
    let sum = tagged-sum tag payload h in
    let small = type_code-lt tag in
    let code : bit_and (tagged tag payload / 2 ^ 48) 7 ≡ type_code tag =
      bit_and-ones 3 (tagged tag payload / 2 ^ 48) ∙ omega arith in
    rw (tagged-is_boxed tag payload h, code) (type_of_code-type_code tag)

pub low_48 : (v : ℕ) → bit_and v payload_mask ≡ v % 2 ^ 48
low_48 v = bit_and-ones 48 v

pub low_47 : (v : ℕ) → bit_and v int47_mask ≡ v % 2 ^ 47
low_47 v = bit_and-ones 47 v

pub bit_47 : (v : ℕ) → bit_and v bigflag_bit ≡ v / 2 ^ 47 % 2 * 2 ^ 47
bit_47 v = bit_and-shift 47 v 1 ∙ ap (λ (w : ℕ). w * 2 ^ 47) (bit_and-ones 1 (v / 2 ^ 47))

pub bit_46 : (v : ℕ) → bit_and v int47_signbit ≡ v / 2 ^ 46 % 2 * 2 ^ 46
bit_46 v = bit_and-shift 46 v 1 ∙ ap (λ (w : ℕ). w * 2 ^ 46) (bit_and-ones 1 (v / 2 ^ 46))
