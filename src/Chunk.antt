-- ===== src/Chunk.antt =====
-- source/core/vm.c and vm.h: the bytecode chunk, which the compiler fills and the machine reads.
--
-- An array with its count is a list, beside its capacity. A constant is a value of the pool with what
-- its word points to; the boxes that `name_index` owns are the indices in them.
mod Lines
mod Pool
mod Shapes
mod Tests
use aer.Base.{
  ℕ, zero, suc, ◌+◌, ◌-◌, ◌*◌, ◌/◌, ◌%◌, ◌^◌, Bool, true, false, not, ◌&&◌, ◌||◌, List, [], ◌∷◌,
  ◌++◌, Option, none, some, ltb, leb, ◌==◌, if◌then◌else◌, length, get_or,
}
use aer.Base.Bytes.{Bytes, str_equal, c_string}
use aer.Base.Int.{ℤ, pos_part, neg_part}
use aer.HashTable.{HashTable, ◌>>=◌, hashtable_put, lookup}
use aer.ValueBox.{is_nan}

pub data Constant : Type 0 where
  null : Constant
  boolean : Bool → Constant
  integer : ℤ → Constant
  real : ℕ → Constant
  string : Bytes → Constant
  function : ℕ → ℕ → Constant
  array dict : ℕ → Constant

-- `name` and `field_names` are indices into the pool.
pub record Shape : Type 0 where
  pub name : ℕ
  pub field_names : List ℕ
  pub field_defaults : List Constant

pub record Chunk : Type 0 where
  pub code : List ℤ
  pub capacity : ℕ
  pub pool : List Constant
  pub pool_cap : ℕ
  pub name_index : HashTable ℕ
  pub shapes : List Shape
  pub imported_modules : List Bytes
  pub import_cap : ℕ
  pub line_mark_offsets : List ℕ
  pub line_mark_lines : List ℕ
  pub line_mark_cap : ℕ
  pub addr_cache : List (Option ℕ)
  pub addr_cache_cap : ℕ

abbrev pub chunk_init : Chunk
chunk_init = record {
  code = [];
  capacity = 0;
  pool = [];
  pool_cap = 0;
  name_index = record { buckets = []; count = 0; capacity = 0; is_inline = false };
  shapes = [];
  imported_modules = [];
  import_cap = 0;
  line_mark_offsets = [];
  line_mark_lines = [];
  line_mark_cap = 0;
  addr_cache = [];
  addr_cache_cap = 0;
}

-- `if (count >= cap) cap = cap ? cap * 2 : first`, where the product wraps at 32 bits
unfoldable pub grown : ℕ → ℕ → ℕ → ℕ
grown count cap first =
    if leb cap count then (if cap == 0 then first else cap * 2 % 2 ^ 32) else cap

unfoldable pub chunk_emit : Chunk → ℤ → Chunk
unfolding grown
chunk_emit c word = record c {
  capacity = grown (length c.code) c.capacity 64;
  code = c.code ++ (word ∷ []);
}

-- The index of the new slot, which is not cached yet.
unfoldable pub chunk_add_addr_cache : Chunk → Chunk × ℕ
unfolding grown
chunk_add_addr_cache c = (
  record c {
    addr_cache_cap = grown (length c.addr_cache) c.addr_cache_cap 32;
    addr_cache = c.addr_cache ++ (none ∷ []);
  },
  length c.addr_cache,
)

abbrev pub last_or : List ℕ → ℕ → ℕ
last_or xs d = get_or xs (length xs - 1) d

unfoldable pub chunk_mark_line : Chunk → ℕ → ℕ → Chunk
unfolding grown
chunk_mark_line c offset line =
    if ltb 0 (length c.line_mark_offsets) && leb offset (last_or c.line_mark_offsets 0)
    then c
    else record c {
      line_mark_cap = grown (length c.line_mark_offsets) c.line_mark_cap 64;
      line_mark_offsets = c.line_mark_offsets ++ (offset ∷ []);
      line_mark_lines = c.line_mark_lines ++ (line ∷ []);
    }

-- The binary search for the first mark past the target; `none` when the fuel runs out.
unfoldable pub first_past : ℕ → List ℕ → ℕ → ℕ → ℕ → Option ℕ
first_past zero offsets target lo hi = none
first_past (suc f) offsets target lo hi =
    let mid = lo + (hi - lo) / 2 in
    let right = first_past f offsets target (mid + 1) hi in
    let left = first_past f offsets target lo mid in
    if ltb lo hi then (if leb (get_or offsets mid 0) target then right else left) else some lo

-- The interval gets shorter each round.
unfoldable pub chunk_line_for_offset : Chunk → ℕ → Option ℕ
unfolding first_past
chunk_line_for_offset c offset =
    let count = length c.line_mark_offsets in
    if count == 0
    then some 0
    else first_past (suc count) c.line_mark_offsets offset 0 count >>= λ lo.
        some (if lo == 0 then 0 else get_or c.line_mark_lines (lo - 1) 0)

abbrev pub chunk_pool_append : Chunk → Constant → Chunk × ℕ
chunk_pool_append c v = (
  record c { pool_cap = grown (length c.pool) c.pool_cap 16; pool = c.pool ++ (v ∷ []) },
  length c.pool,
)

-- `==` on doubles
abbrev pub real_equal : ℕ → ℕ → Bool
real_equal a b =
    not (is_nan a) && (not (is_nan b) && (a == b || (a % 2 ^ 63 == 0 && b % 2 ^ 63 == 0)))

abbrev pub int_equal : ℤ → ℤ → Bool
int_equal a b = pos_part a == pos_part b && neg_part a == neg_part b

abbrev pub bool_equal : Bool → Bool → Bool
bool_equal true b = b
bool_equal false b = not b

-- The tests of the linear scan: a word of the pool that stands for the constant already.
unfoldable pub same_constant : Constant → Constant → Bool
same_constant null null = true
same_constant (boolean a) (boolean b) = bool_equal a b
same_constant (integer a) (integer b) = int_equal a b
same_constant (real a) (real b) = real_equal a b
same_constant (function o a) (function p b) = o == p && a == b
same_constant _ _ = false

unfoldable pub find_constant : List Constant → Constant → ℕ → Option ℕ
unfolding same_constant
find_constant [] v i = none
find_constant (e ∷ pool) v i =
    let rest = find_constant pool v (i + 1) in if same_constant e v then some i else rest

-- A string that the index does not have; its key is what C reads of its bytes.
abbrev pub add_string : Chunk → Bytes → Option ℕ → Option (Chunk × ℕ)
add_string c s (some i) = some (c, i)
add_string c s none =
    let (c', idx) = chunk_pool_append c (string s) in
    hashtable_put c.name_index (c_string s) idx >>= λ r. some (record c' { name_index = r.0 }, idx)

abbrev pub add_other : Chunk → Constant → Option ℕ → Chunk × ℕ
add_other c v (some i) = (c, i)
add_other c v none = chunk_pool_append c v

-- `none` where the put into the index does not return, which it does on a valid table.
unfoldable pub chunk_add_pool : Chunk → Constant → Option (Chunk × ℕ)
unfolding find_constant grown
chunk_add_pool c (string s) = add_string c s (lookup c.name_index (c_string s))
chunk_add_pool c v = some (add_other c v (find_constant c.pool v 0))

-- The text of a name in the pool.
abbrev pub text_of : Constant → Bytes
text_of (string s) = c_string s
text_of _ = []

abbrev pub name_at : Chunk → ℕ → Bytes
name_at c i = text_of (get_or c.pool i null)

-- `for (i = shape_count; i > 0; i--)`, with the shapes that are left
unfoldable pub find_shape_from : Chunk → ℕ → Bytes → Option ℕ
find_shape_from c zero name = none
find_shape_from c (suc i) name =
    let rest = find_shape_from c i name in
    let shape = get_or c.shapes i (record { name = 0; field_names = []; field_defaults = [] }) in
    if str_equal (name_at c shape.name) name then some i else rest

unfoldable pub chunk_find_shape : Chunk → Bytes → Option ℕ
unfolding find_shape_from
chunk_find_shape c name = find_shape_from c (length c.shapes) name

unfoldable pub is_imported_in : List Bytes → Bytes → Bool
is_imported_in [] name = false
is_imported_in (m ∷ ms) name = str_equal m name || is_imported_in ms name

unfoldable pub chunk_is_imported : Chunk → Bytes → Bool
unfolding is_imported_in
chunk_is_imported c name = is_imported_in c.imported_modules name

-- `available` is whether the name is a native or host module, or its file loads.
unfoldable pub chunk_add_import : Bool → Chunk → Bytes → Chunk × Bool
unfolding chunk_is_imported grown
chunk_add_import available c name =
    if not available then (c, false) else if chunk_is_imported c name then (c, true) else (
      record c {
        import_cap = grown (length c.imported_modules) c.import_cap 8;
        imported_modules = c.imported_modules ++ (name ∷ []);
      },
      true,
    )
