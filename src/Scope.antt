-- ===== src/Scope.antt =====
-- source/core/vm.c: the scopes of the machine, with their inline slots, overflow tables and boxes.
--
-- A name is its index into the pool, and `name_of` is the text there, an argument. Values are words.
-- `scopes` has the scopes up to `scope_depth`, the global one first; `floors` has the
-- `return_scope_depth` of the calls, the current one first. An address (`AerVal*`) is a slot of a scope
-- or a cell: the cells are the boxes of captured variables and the values that an overflow table
-- points to, and a new one is the next cell.
mod Places
mod Nearest
mod Extend
mod Set
mod Define
mod Box
mod Stale
mod Tests
use aer.Base.{
  ℕ, zero, suc, ◌+◌, ◌-◌, Bool, true, false, not, ◌&&◌, ◌||◌, List, [], ◌∷◌, ◌++◌, Option, none,
  some, ltb, leb, ◌==◌, if◌then◌else◌, length, get_or, set, take,
}
use aer.Base.Bytes.{Bytes}
use aer.HashTable.{HashTable, Freed, ◌>>=◌, hashtable_put, hashtable_free, lookup}

pub record ScopeSlot : Type 0 where
  pub name : ℕ
  pub val : ℕ
  pub box : Option ℕ

pub record AerScope : Type 0 where
  pub slots : List ScopeSlot
  pub overflow : Bool
  pub map : HashTable ℕ
  pub overflow_has_captures : Bool

pub record Machine : Type 0 where
  pub scopes : List AerScope
  pub floors : List ℕ
  pub cells : List ℕ

pub data Place : Type 0 where
  slot_at : ℕ → ℕ → Place
  cell : ℕ → Place

abbrev pub slot_max : ℕ
slot_max = 24

abbrev pub scope_max : ℕ
scope_max = 64

-- A scope as it is pushed.
abbrev pub new_scope : AerScope
new_scope = record {
  slots = [];
  overflow = false;
  map = record { buckets = []; count = 0; capacity = 0; is_inline = false };
  overflow_has_captures = false;
}

abbrev pub no_slot : ScopeSlot
no_slot = record { name = 0; val = 0; box = none }

abbrev pub scope_at : Machine → ℕ → AerScope
scope_at vm i = get_or vm.scopes i new_scope

abbrev pub slot_of : AerScope → ℕ → ScopeSlot
slot_of s j = get_or s.slots j no_slot

-- `*p`
abbrev pub read : Machine → Place → ℕ
read vm (slot_at i j) = (slot_of (scope_at vm i) j).val
read vm (cell a) = get_or vm.cells a 0

abbrev pub put_slot : Machine → ℕ → ℕ → ScopeSlot → Machine
put_slot vm i j x =
    let s = scope_at vm i in
    record vm { scopes = set vm.scopes i (record s { slots = set s.slots j x }) }

-- `*p = val`
abbrev pub write : Machine → Place → ℕ → Machine
write vm (slot_at i j) v = put_slot vm i j (record (slot_of (scope_at vm i) j) { val = v })
write vm (cell a) v = record vm { cells = set vm.cells a v }

abbrev pub top_or : List ℕ → ℕ
top_or [] = 0
top_or (floor ∷ _) = floor

abbrev pub vm_scope_floor : Machine → ℕ
vm_scope_floor vm = top_or vm.floors

-- `for (int j = 0; j < s->count; j++) if (s->slots[j].name == name)`
unfoldable pub find_slot : List ScopeSlot → ℕ → Option ℕ
find_slot [] name = none
find_slot (x ∷ xs) name =
    let rest = find_slot xs name >>= λ j. some (suc j) in if x.name == name then some zero else rest

-- `box ? box : &s->slots[j].val`
abbrev pub place_of : ℕ → ℕ → Option ℕ → Place
place_of i j none = slot_at i j
place_of i j (some a) = cell a

abbrev pub or_else : Option Place → Option Place → Option Place
or_else none q = q
or_else (some p) q = some p

module _ (name_of : ℕ → Bytes) where
  abbrev pub overflow_place : AerScope → ℕ → Option Place
  overflow_place s name =
      if s.overflow then (lookup s.map (name_of name) >>= λ a. some (cell a)) else none

  abbrev pub slot_place : ℕ → AerScope → Option ℕ → Option Place
  slot_place i s none = none
  slot_place i s (some j) = some (place_of i j (slot_of s j).box)

  -- The address of a name in one scope.
  unfoldable pub place_in : ℕ → AerScope → ℕ → Option Place
  unfolding find_slot
  place_in i s name = or_else (slot_place i s (find_slot s.slots name)) (overflow_place s name)

  abbrev pub find_in : Machine → ℕ → ℕ → Option Place
  find_in vm i name = place_in i (scope_at vm i) name

  -- The scopes from `floor + n - 1` down to `floor`.
  unfoldable pub search : Machine → ℕ → ℕ → ℕ → Option Place
  unfolding place_in
  search vm name floor zero = none
  search vm name floor (suc n) = or_else (find_in vm (floor + n) name) (search vm name floor n)

  unfoldable pub vm_scope_get : Machine → ℕ → Option Place
  unfolding search
  vm_scope_get vm name =
      let floor = vm_scope_floor vm in
      or_else (search vm name floor (length vm.scopes - floor))
        (if floor == 0 then none else find_in vm 0 name)

  -- A new entry of an overflow table, whose value is a new cell.
  abbrev pub spill : Machine → ℕ → AerScope → ℕ → ℕ → Option ℕ → Option Machine
  spill vm i s name v (some a) =
      some
        (write (record vm { scopes = set vm.scopes i (record s { overflow = true }) }) (cell a) v)
  spill vm i s name v none = hashtable_put s.map (name_of name) (length vm.cells) >>= λ r.
      some (record vm {
        scopes = set vm.scopes i (record s { overflow = true; map = r.0 });
        cells = vm.cells ++ (v ∷ []);
      })

  abbrev pub define_at : Machine → ℕ → AerScope → ℕ → ℕ → Option ℕ → Option Machine
  define_at vm i s name v (some j) = some (write vm (place_of i j (slot_of s j).box) v)
  define_at vm i s name v none =
      let spilled = spill vm i s name v (lookup s.map (name_of name)) in
      let slot : ScopeSlot = record { name = name; val = v; box = none } in
      if ltb (length s.slots) slot_max
      then some
          (record vm { scopes = set vm.scopes i (record s { slots = s.slots ++ (slot ∷ []) }) })
      else spilled

  -- `none` where the put into an overflow table does not return.
  unfoldable pub vm_scope_define : Machine → ℕ → ℕ → Option Machine
  unfolding find_slot
  vm_scope_define vm name v =
      let i = length vm.scopes - 1 in
      let s = scope_at vm i in define_at vm i s name v (find_slot s.slots name)

  abbrev pub set_or_define : Machine → ℕ → ℕ → Option Place → Option Machine
  set_or_define vm name v (some p) = some (write vm p v)
  set_or_define vm name v none = vm_scope_define vm name v

  -- The walk is that of `vm_scope_get`.
  unfoldable pub vm_scope_set : Machine → ℕ → ℕ → Option Machine
  unfolding vm_scope_get vm_scope_define
  vm_scope_set vm name v = set_or_define vm name v (vm_scope_get vm name)

  -- A slot that has a box keeps it; another one gets a new cell with its value.
  abbrev pub box_of : Machine → ℕ → ℕ → Option ℕ → Machine × ℕ
  box_of vm i j (some a) = (vm, a)
  box_of vm i j none =
      let x = slot_of (scope_at vm i) j in
      (
        record (put_slot vm i j (record x { box = some (length vm.cells) })) {
          cells = vm.cells ++ (x.val ∷ []);
        },
        length vm.cells,
      )

  -- The variable at an index, boxed in the scope where it is found.
  abbrev pub box_in : Machine → ℕ → ℕ → Option ℕ → Option (Machine × ℕ)
  box_in vm i name (some j) = some (box_of vm i j (slot_of (scope_at vm i) j).box)
  box_in vm i name none =
      let s = scope_at vm i in
      let marked = record vm {
        scopes = set vm.scopes i (record s { overflow_has_captures = true });
      } in
      if s.overflow then (lookup s.map (name_of name) >>= λ a. some (marked, a)) else none

  abbrev pub or_box : Option (Machine × ℕ) → Option (Machine × ℕ) → Option (Machine × ℕ)
  or_box none q = q
  or_box (some p) q = some p

  abbrev pub box_at : Machine → ℕ → ℕ → Option (Machine × ℕ)
  box_at vm i name = box_in vm i name (find_slot (scope_at vm i).slots name)

  unfoldable pub box_search : Machine → ℕ → ℕ → ℕ → Option (Machine × ℕ)
  unfolding find_slot
  box_search vm name floor zero = none
  box_search vm name floor (suc n) =
      or_box (box_at vm (floor + n) name) (box_search vm name floor n)

  -- `none` where the source reports that the name is not defined.
  unfoldable pub vm_box_slot : Machine → ℕ → Option (Machine × ℕ)
  unfolding box_search
  vm_box_slot vm name =
      let floor = vm_scope_floor vm in
      or_box (box_search vm name floor (length vm.scopes - floor))
        (if floor == 0 then none else box_at vm 0 name)

  -- The first slot of the global scope with the name and no box.
  unfoldable pub global_slot : List ScopeSlot → ℕ → ℕ → Option Place
  global_slot [] name j = none
  global_slot (x ∷ xs) name j =
      let rest = global_slot xs name (j + 1) in
      elim x.box [ none ↦ if x.name == name then some (slot_at 0 j) else rest | some a ↦ rest ]

  unfoldable pub vm_global_slot_address : Machine → ℕ → Option Place
  unfolding global_slot
  vm_global_slot_address vm name = global_slot (scope_at vm 0).slots name 0

  abbrev pub same_place : Place → Place → Bool
  same_place (slot_at i j) (slot_at k l) = i == k && j == l
  same_place (cell a) (cell b) = a == b
  same_place _ _ = false

  -- What a cache slot holds after `found` was looked up.
  abbrev pub cache_after : Option Place → Option Place → Option Place
  cache_after (some p) (some q) = if same_place q p then some q else none
  cache_after _ _ = none

  abbrev pub resolve_from : Machine → ℕ → Option Place → Option Place × Option Place
  resolve_from vm name (some p) = (some p, some p)
  resolve_from vm name none =
      let found = vm_scope_get vm name in
      (found, cache_after found (vm_global_slot_address vm name))

  -- The address of a name and what the cache slot of the site holds then; the address is `none` where
  -- the source reports that the name is not defined.
  unfoldable pub vm_resolve_name_cached : Machine → ℕ → Option Place → Option Place × Option Place
  unfolding vm_scope_get vm_global_slot_address
  vm_resolve_name_cached vm name cached = resolve_from vm name cached

  abbrev pub vm_read_local_slot : Machine → ℕ → ℕ
  vm_read_local_slot vm j =
      let i = vm_scope_floor vm in read vm (place_of i j (slot_of (scope_at vm i) j).box)

  abbrev pub vm_write_local_slot : Machine → ℕ → ℕ → Machine
  vm_write_local_slot vm j v =
      let i = vm_scope_floor vm in write vm (place_of i j (slot_of (scope_at vm i) j).box) v

  -- `lbl_load`: the value that is pushed, and the cache slot; an undefined name is reported, and null
  -- is pushed for it.
  abbrev pub load_value : Machine → Option Place → Option ℕ
  load_value vm none = none
  load_value vm (some p) = some (read vm p)

  unfoldable pub load : Machine → ℕ → Option Place → Option ℕ × Option Place
  unfolding vm_resolve_name_cached
  load vm name cached =
      let (found, cached') = vm_resolve_name_cached vm name cached in (load_value vm found, cached')

  abbrev pub store_found : Machine → ℕ → ℕ → Option Place → Option (Machine × Option Place)
  store_found vm name v none = vm_scope_define vm name v >>= λ vm'. some (vm', none)
  store_found vm name v (some p) =
      let vm' = write vm p v in some (vm', cache_after (some p) (vm_global_slot_address vm' name))

  abbrev pub store_from : Machine → ℕ → ℕ → Option Place → Option (Machine × Option Place)
  store_from vm name v (some p) = some (write vm p v, some p)
  store_from vm name v none = store_found vm name v (vm_scope_get vm name)

  -- `lbl_store`: the machine and the cache slot
  unfoldable pub store : Machine → ℕ → ℕ → Option Place → Option (Machine × Option Place)
  unfolding vm_scope_get vm_scope_define vm_global_slot_address
  store vm name v cached = store_from vm name v cached

-- `none` where the source reports an overflow of the scope stack
abbrev pub push_scope : Machine → Option Machine
push_scope vm =
    if leb scope_max (length vm.scopes)
    then none
    else some (record vm { scopes = vm.scopes ++ (new_scope ∷ []) })

-- The table of a scope that is left is freed with its keys, unless a box may be reached through it.
abbrev pub released : AerScope → List (Freed ℕ)
released s = if s.overflow && not s.overflow_has_captures then (hashtable_free s.map).1 else []

-- `none` where the source reports an underflow; else the machine and what was released
abbrev pub pop_scope : Machine → Option (Machine × List (Freed ℕ))
pop_scope vm =
    let depth = length vm.scopes - 1 in
    if leb (length vm.scopes) 1
    then none
    else some (record vm { scopes = take depth vm.scopes }, released (scope_at vm depth))
