-- ===== src/Chunk/Shapes.antt =====
-- source/core/vm.c: the search for a struct, newest first, and the imported modules.
use Prim.Native.Nat.{max}
use aer.Base.{
  ℕ, zero, suc, ◌<◌, ◌≤◌, ◌≡◌, refl, sym, ◌∙◌, inl, inr, Bool, true, false, ◌||◌, List, [], ◌∷◌,
  ◌++◌, Option, none, some, arith, length, get_or, Bool-cases, ltb, ltb→lt, ◌&&◌, if◌then◌else◌,
}
use aer.Base.Bytes.{Bytes, str_equal, str_equal_iff}
use aer.Chunk.{
  Chunk, name_at, find_shape_from, chunk_find_shape, is_imported_in, chunk_is_imported,
  chunk_add_import,
}

-- Whether the shape at an index has a name.
abbrev pub has_name : Chunk → Bytes → ℕ → Bool
has_name c name i =
    let shape = get_or c.shapes i (record { name = 0; field_names = []; field_defaults = [] }) in
    str_equal (name_at c shape.name) name

-- The last of the first `n` shapes that has the name.
pub data Newest (c : Chunk) (name : Bytes) : ℕ → Option ℕ → Type 0 where
  nowhere : {n : ℕ} → ((i : ℕ) → i < n → has_name c name i ≡ false) → Newest c name n none
  found :
      {n i : ℕ}
      → i < n
      → has_name c name i ≡ true
      → ((j : ℕ) → i < j → j < n → has_name c name j ≡ false)
      → Newest c name n (some i)

one_more :
    (t : ℕ → Bool) (k n : ℕ)
    → t n ≡ false
    → ((j : ℕ) → k ≤ j → j < n → t j ≡ false)
    → (j : ℕ) → k ≤ j
    → j < suc n
    → t j ≡ false
one_more t k n h f j low high = elim (Bool-cases (ltb j n)) [
  | inl e ↦ f j low (ltb→lt j n e)
  | inr e ↦ let same : j ≡ n = ground arith in rw same h
]

Newest-more :
    (c : Chunk) (name : Bytes) (n : ℕ) (o : Option ℕ)
    → has_name c name n ≡ false
    → Newest c name n o
    → Newest c name (suc n) o
Newest-more c name n none h (nowhere f) =
    nowhere λ i k. one_more (has_name c name) 0 n h (λ j _ m. f j m) i (omega arith) k
Newest-more c name n (some i) h (found k t f) =
    found (omega arith) t λ j l m. one_more (has_name c name) (suc i) n h f j l m

find_shape_from-Newest :
    (c : Chunk) (name : Bytes) (n : ℕ) → Newest c name n (find_shape_from c n name)
unfolding find_shape_from
find_shape_from-Newest c name zero = nowhere λ i k. absurd (omega arith)
find_shape_from-Newest c name (suc n) = elim (Bool-cases (has_name c name n)) [
  | inl e ↦ rw e (found (omega arith) e λ j k l. absurd (omega arith))
  | inr e ↦
      rw e (Newest-more c name n (find_shape_from c n name) e (find_shape_from-Newest c name n))
]

-- The search gives the last shape that was declared under the name, and none where no shape has it.
pub chunk_find_shape-Newest :
    (c : Chunk) (name : Bytes) → Newest c name (length c.shapes) (chunk_find_shape c name)
unfolding chunk_find_shape
chunk_find_shape-Newest c name = find_shape_from-Newest c name (length c.shapes)

-- A module that was imported is known, and so are those that were known before.
is_imported_in-append :
    (ms : List Bytes) (name m : Bytes)
    → is_imported_in (ms ++ (name ∷ [])) m ≡ (is_imported_in ms m || str_equal name m)
unfolding is_imported_in
is_imported_in-append [] name m = elim (Bool-cases (str_equal name m)) [
  | inl e ↦ rw e
  | inr e ↦ rw e
]
is_imported_in-append (k ∷ ms) name m = elim (Bool-cases (str_equal k m)) [
  | inl e ↦ rw e
  | inr e ↦ rw (e, is_imported_in-append ms name m)
]

again_known :
    (ms : List Bytes) (name m : Bytes)
    → is_imported_in ms name ≡ true
    → is_imported_in ms m ≡ (is_imported_in ms m || str_equal name m)
again_known ms name m h = elim (Bool-cases (str_equal name m)) [
  | inl e ↦ let same = (str_equal_iff name m).0 e in rw same at h ∙ sym (rw (rw same at h))
  | inr e ↦ rw e (ground arith)
]

-- How often a name stands in a list.
abbrev pub times : List Bytes → Bytes → ℕ
times [] m = 0
times (k ∷ ms) m = if str_equal k m then suc (times ms m) else times ms m

times-append :
    (ms : List Bytes) (name m : Bytes)
    → times (ms ++ (name ∷ [])) m ≡ (if str_equal name m then suc (times ms m) else times ms m)
times-append [] name m = refl
times-append (k ∷ ms) name m = elim (Bool-cases (str_equal k m)) [
  | inl e ↦
      rw (e, times-append ms name m)
        (elim (Bool-cases (str_equal name m)) [ inl t ↦ rw t | inr t ↦ rw t ])
  | inr e ↦ rw (e, times-append ms name m)
]

times-known : (ms : List Bytes) (m : Bytes) → is_imported_in ms m ≡ ltb 0 (times ms m)
unfolding is_imported_in
times-known [] m = refl
times-known (k ∷ ms) m = elim (Bool-cases (str_equal k m)) [
  | inl e ↦ rw e (ground arith)
  | inr e ↦ rw (e, times-known ms m)
]

-- What an import owes: it succeeds where the module is available, and adds its name to the known
-- modules and no other. The name then stands in the list, and as often as before if it did already.
pub record Imported (available : Bool) (c : Chunk) (name : Bytes) (r : Chunk × Bool) : Type 0 where
  pub result : r.1 ≡ available
  pub known :
      (m : Bytes)
      → chunk_is_imported r.0 m ≡ (chunk_is_imported c m || (available && str_equal name m))
  pub once :
      (m : Bytes)
      → times r.0.imported_modules m ≡ (
          if available && str_equal name m
          then max 1 (times c.imported_modules m)
          else times c.imported_modules m)

once_known :
    (ms : List Bytes) (name m : Bytes)
    → is_imported_in ms name ≡ true
    → times ms m ≡ (if str_equal name m then max 1 (times ms m) else times ms m)
once_known ms name m h = elim (Bool-cases (str_equal name m)) [
  | inl e ↦
      let same = (str_equal_iff name m).0 e in
      let here : ltb 0 (times ms m) ≡ true = sym (times-known ms m) ∙ (rw same at h) in
      let some_times : 0 < times ms m = ltb→lt 0 (times ms m) here in rw e (omega arith)
  | inr e ↦ rw e refl
]

once_added :
    (ms : List Bytes) (name m : Bytes)
    → is_imported_in ms name ≡ false
    → times (ms ++ (name ∷ [])) m ≡ (if str_equal name m then max 1 (times ms m) else times ms m)
once_added ms name m h = elim (Bool-cases (str_equal name m)) [
  | inl e ↦
      let same = (str_equal_iff name m).0 e in
      let here : ltb 0 (times ms m) ≡ false = sym (times-known ms m) ∙ (rw same at h) in
      let never : times ms m ≡ 0 = ground arith in
      rw (times-append ms name m, e, never) (omega arith)
  | inr e ↦ rw (times-append ms name m, e) refl
]

-- An import succeeds exactly where the module is available, and then its name is known, with all the
-- names that were known before and no other. It is put into the list where it does not stand in it,
-- and nothing else changes in the list: no import makes a name stand in it twice.
pub chunk_add_import-Imported :
    (available : Bool) (c : Chunk) (name : Bytes)
    → Imported available c name (chunk_add_import available c name)
unfolding chunk_add_import
chunk_add_import-Imported false c name = record {
  result = refl;
  known = λ m. ground arith;
  once = λ m. refl;
}
chunk_add_import-Imported true c name = elim (Bool-cases (chunk_is_imported c name)) [
  | inl e ↦ rw e (record {
    result = refl;
    known = λ m. again_known c.imported_modules name m e;
    once = λ m. once_known c.imported_modules name m e;
  })
  | inr e ↦ rw e (record {
    result = refl;
    known = λ m. is_imported_in-append c.imported_modules name m;
    once = λ m. once_added c.imported_modules name m e;
  })
]
