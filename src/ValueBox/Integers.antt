-- ===== src/ValueBox/Integers.antt =====
-- Integers in a word: 47 bits inline, or the address of a cell with the whole number.
use aer.Base.{
  unequal, ℕ, ◌+◌, ◌-◌, ◌*◌, ◌%◌, ◌^◌, ◌<◌, ◌≡◌, ◌≢◌, refl, sym, ap, ◌∙◌, inl, inr, true, false,
  not, arith, ◌==◌, ==_iff, if◌then◌else◌, Bool-cases, bit_and, bit_or, ltb,
}
use aer.Base.Bits.{bit_or-add}
use aer.Base.Int.{ℤ, pos, negsuc}
use aer.ValueBox.Fields.{tagged-sum, aer_type-tagged, low_47, bit_47, bit_46}
use aer.ValueBox.{
  ValueType, type_code, boxed_test, aer_type, tagged, is_integer, int_is_boxed, int_box_ptr, Longs,
  aer_int, as_int, sign_extend, to_word, of_word, fits_int47, int47_mask, int47_signbit,
  bigflag_bit,
}

inline_word : (p : ℕ) → p < 2 ^ 47 → int_is_boxed (tagged ValueType.integer p) ≡ false
unfolding int_is_boxed is_integer
inline_word p h =
    let sum = tagged-sum ValueType.integer p (omega arith) in
    let flag : bit_and (tagged ValueType.integer p) bigflag_bit ≡ 0 =
      bit_47 (tagged ValueType.integer p) ∙ omega arith in
    rw (aer_type-tagged ValueType.integer p (omega arith), flag) refl

inline_payload : (p : ℕ) → p < 2 ^ 47 → bit_and (tagged ValueType.integer p) int47_mask ≡ p
inline_payload p h =
    let sum = tagged-sum ValueType.integer p (omega arith) in
    low_47 (tagged ValueType.integer p) ∙ omega arith

-- The word that `aer_int` builds around an address.
abbrev cell_word : ℕ → ℕ
cell_word box =
    bit_or (bit_or (bit_or boxed_test (type_code ValueType.integer * 2 ^ 48)) bigflag_bit)
      (bit_and box int47_mask)

cell_word-tagged :
    (box : ℕ) → box < 2 ^ 47 → cell_word box ≡ tagged ValueType.integer (2 ^ 47 + box)
cell_word-tagged box h =
    let low : bit_and box int47_mask ≡ box = low_47 box ∙ omega arith in
    let flagged = tagged-sum ValueType.integer (2 ^ 47) (omega arith) in
    ap (λ (w : ℕ). bit_or (tagged ValueType.integer (2 ^ 47)) w) low
    ∙ ap (λ (w : ℕ). bit_or w box) (flagged ∙ omega arith)
    ∙ bit_or-add 47 (2 * 0x7ffa + 1) box h
    ∙ (omega arith ∙ sym (tagged-sum ValueType.integer (2 ^ 47 + box) (omega arith)))

cell_word-is_boxed : (box : ℕ) → box < 2 ^ 47 → int_is_boxed (cell_word box) ≡ true
unfolding int_is_boxed is_integer
cell_word-is_boxed box h =
    let word = cell_word-tagged box h in
    let sum = tagged-sum ValueType.integer (2 ^ 47 + box) (omega arith) in
    let flag : bit_and (cell_word box) bigflag_bit ≡ 2 ^ 47 =
      bit_47 (cell_word box) ∙ omega arith in
    let type : aer_type (cell_word box) ≡ ValueType.integer =
      ap aer_type word ∙ aer_type-tagged ValueType.integer (2 ^ 47 + box) (omega arith) in
    rw (type, flag) refl

cell_word-int_box_ptr : (box : ℕ) → box < 2 ^ 47 → int_box_ptr (cell_word box) ≡ box
unfolding int_box_ptr
cell_word-int_box_ptr box h =
    let word = cell_word-tagged box h in
    let sum = tagged-sum ValueType.integer (2 ^ 47 + box) (omega arith) in
    low_47 (cell_word box) ∙ omega arith

sign_extend-low : (p : ℕ) → p < 2 ^ 46 → of_word (sign_extend p) ≡ pos p
unfolding of_word sign_extend
sign_extend-low p h =
    let sign : bit_and p int47_signbit ≡ 0 = bit_46 p ∙ omega arith in
    let least : ltb p (2 ^ 63) ≡ true = ground arith in rw (sign, least) refl

sign_extend-high : (m : ℕ) → m < 2 ^ 46 → of_word (sign_extend (2 ^ 47 - 1 - m)) ≡ negsuc m
unfolding of_word sign_extend
sign_extend-high m h =
    let sign : bit_and (2 ^ 47 - 1 - m) int47_signbit ≡ 2 ^ 46 =
      bit_46 (2 ^ 47 - 1 - m) ∙ omega arith in
    let whole : bit_or (2 ^ 64 - 1 - int47_mask) (2 ^ 47 - 1 - m) ≡ 2 ^ 64 - 1 - m =
      bit_or-add 47 0x1ffff (2 ^ 47 - 1 - m) (omega arith) ∙ omega arith in
    let above : ltb (2 ^ 64 - 1 - m) (2 ^ 63) ≡ false = ground arith in
    let back : 2 ^ 64 - 1 - (2 ^ 64 - 1 - m) ≡ m = omega arith in rw (sign, whole, above, back) refl

-- Sign extension of 47 bits gives back the integer that they were cut from.
sign_extend_lem :
    (n : ℤ) → fits_int47 n ≡ true → of_word (sign_extend (bit_and (to_word n) int47_mask)) ≡ n
unfolding to_word
sign_extend_lem (pos n) h =
    let small : n < 2 ^ 46 = ground arith in
    let cut : bit_and (n % 2 ^ 64) int47_mask ≡ n = low_47 (n % 2 ^ 64) ∙ omega arith in
    ap (λ (w : ℕ). of_word (sign_extend w)) cut ∙ sign_extend-low n small
sign_extend_lem (negsuc n) h =
    let small : n < 2 ^ 46 = ground arith in
    let cut : bit_and (2 ^ 64 - 1 - n % 2 ^ 64) int47_mask ≡ 2 ^ 47 - 1 - n =
      low_47 (2 ^ 64 - 1 - n % 2 ^ 64) ∙ omega arith in
    ap (λ (w : ℕ). of_word (sign_extend w)) cut ∙ sign_extend-high n small

-- What a word and its cells owe to the integer `n` that they store, when the cells were `longs`.
pub record Boxed (box : ℕ) (longs : Longs) (n : ℤ) (r : ℕ × Longs) : Type 0 where
  pub type : aer_type r.0 ≡ ValueType.integer
  pub reads : as_int r.1 r.0 ≡ n
  -- only a number beyond 47 bits takes the cell
  pub cell : int_is_boxed r.0 ≡ not (fits_int47 n)
  pub rest : (v : ℕ) → (int_is_boxed v ≡ true → int_box_ptr v ≢ box) → as_int r.1 v ≡ as_int longs v

inline_Boxed :
    (box : ℕ) (longs : Longs) (n : ℤ)
    → fits_int47 n ≡ true
    → Boxed box longs n (tagged ValueType.integer (bit_and (to_word n) int47_mask), longs)
unfolding as_int
inline_Boxed box longs n fits =
    let p : ℕ = bit_and (to_word n) int47_mask in
    let cut = low_47 (to_word n) in
    let small : p < 2 ^ 47 = omega arith in
    record {
      type = aer_type-tagged ValueType.integer p (omega arith);
      reads = rw (inline_word p small, inline_payload p small) (sign_extend_lem n fits);
      cell = inline_word p small ∙ rw (fits) refl;
      rest = λ v away. refl;
    }

write_cell : ℕ → ℤ → Longs → Longs
write_cell box n longs p = if box == p then n else longs p

cell_Boxed :
    (box : ℕ) (longs : Longs) (n : ℤ)
    → fits_int47 n ≡ false
    → box < 2 ^ 47
    → Boxed box longs n (cell_word box, write_cell box n longs)
unfolding as_int write_cell
cell_Boxed box longs n large h =
    let here : (box == box) ≡ true = (==_iff box box).1 refl in
    record {
      type =
          ap aer_type (cell_word-tagged box h)
          ∙ aer_type-tagged ValueType.integer (2 ^ 47 + box) (omega arith);
      reads = rw (cell_word-is_boxed box h, cell_word-int_box_ptr box h, here) refl;
      cell = cell_word-is_boxed box h ∙ rw (large) refl;
      rest = λ v away. elim (Bool-cases (int_is_boxed v)) [
        | inl boxed ↦
            let other : (box == int_box_ptr v) ≡ false = unequal _ _ (λ e. away boxed (sym e)) in
            rw (boxed, other) refl
        | inr inline ↦ rw (inline) refl
      ];
    }

-- `aer_int` of any integer gives a word of type integer that reads back as that integer, and
-- takes a cell, at an address below 2^47, only for an integer beyond 47 bits. Every word that
-- does not point at this cell reads what it read before.
pub as_int-aer_int :
    (box : ℕ) (longs : Longs) (n : ℤ) → box < 2 ^ 47 → Boxed box longs n (aer_int box longs n)
unfolding aer_int write_cell
as_int-aer_int box longs n h = elim (Bool-cases (fits_int47 n)) [
  | inl fits ↦ rw (fits) (inline_Boxed box longs n fits)
  | inr large ↦ rw (large) (cell_Boxed box longs n large h)
]
