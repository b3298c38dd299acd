-- ===== src/Scope/Tests.antt =====
-- A machine with a global `x` and a call of a function, and instances of the theorems.
use aer.Base.{ℕ, zero, suc, ◌≡◌, refl, sym, ◌∙◌, ap, inl, [], ◌∷◌, none, some, replicate, arith}
use aer.Base.Bytes.{Bytes}
use aer.HashTable.Store.{IsUnused, lookup-IsUnused}
use aer.HashTable.{◌>>=◌}
use aer.Scope.Box.{Boxed, vm_box_slot-Boxed}
use aer.Scope.Define.{vm_scope_set-SetTo}
use aer.Scope.Extend.{SetTo}
use aer.Scope.Nearest.{Assigned}
use aer.Scope.Places.{IsSound, value}
use aer.Scope.Stale.{Stale, vm_resolve_name_cached-Stale}
use aer.Scope.{
  Machine, Place, slot_at, new_scope, scope_at, find_in, place_in, vm_scope_get, vm_scope_set,
  vm_box_slot, vm_resolve_name_cached,
}

-- The text of a name is as long as its index.
abbrev text : ℕ → Bytes
text n = replicate n 120

text-injective : (k l : ℕ) → text k ≡ text l → k ≡ l
text-injective zero zero e = refl
text-injective zero (suc l) e = absurd (ground arith)
text-injective (suc k) zero e = absurd (ground arith)
text-injective (suc k) (suc l) e = ap suc (text-injective k l (cc))

-- `x` is the name 1 and has the value 5.
abbrev in_call : Machine
in_call = record {
  scopes =
      record new_scope { slots = record { name = 1; val = 5; box = none } ∷ [] } ∷ new_scope ∷ [];
  floors = 1 ∷ [];
  cells = [];
}

set_and_get : (vm_scope_set text in_call 1 7 >>= λ vm. value text vm 1) ≡ some 7
unfolding vm_scope_set
set_and_get = refl

defined_inside :
    (vm_scope_set text in_call 2 7 >>= λ vm. vm_scope_get text vm 2) ≡ some (slot_at 1 0)
unfolding vm_scope_set
defined_inside = refl

only_x :
    (i n : ℕ) (p : Place)
    → find_in text in_call i n ≡ some p
    → (i ≡ 0) × ((n ≡ 1) × (p ≡ slot_at 0 0))
unfolding place_in
only_x zero n p e = ground arith
only_x (suc zero) n p e = absurd (ground arith)
only_x (suc (suc i)) n p e = absurd (ground arith)

same_map : (i : ℕ) → (scope_at in_call i).map ≡ new_scope.map
same_map zero = refl
same_map (suc zero) = refl
same_map (suc (suc i)) = refl

new_map-IsUnused : IsUnused new_scope.map
new_map-IsUnused = record { null = refl; no_count = refl; no_capacity = refl }

in_call-IsSound : IsSound text in_call
in_call-IsSound = record {
  apart = λ i j n m p e f.
      let (a, (b, _)) = only_x i n p e in
      let (c, (d, _)) = only_x j m p f in (a ∙ sym c, b ∙ sym d);
  inside = λ i n p e. let (_, (_, at)) = only_x i n p e in rw at (omega arith, omega arith);
  valid = λ i. rw (same_map i) (inl new_map-IsUnused);
  room = λ i. rw (same_map i) (omega arith);
  hidden = λ i k e. rw (same_map i) (lookup-IsUnused new_scope.map new_map-IsUnused k);
  call = omega arith;
}

vm_scope_set-SetTo_example :
    (vm' : Machine) × (vm_scope_set text in_call 1 7 ≡ some vm')
    × SetTo text in_call 1 7 vm'
    × Assigned text in_call 1 7 vm'
vm_scope_set-SetTo_example =
    vm_scope_set-SetTo text in_call in_call-IsSound 1 7 text-injective (omega arith)

get_x : vm_scope_get text in_call 1 ≡ some (slot_at 0 0)
unfolding vm_scope_get
get_x = refl

vm_box_slot-Boxed_example :
    (r : Machine × ℕ) × ((vm_box_slot text in_call 1 ≡ some r) × Boxed text in_call 1 r)
vm_box_slot-Boxed_example = vm_box_slot-Boxed text in_call in_call-IsSound 1 (slot_at 0 0) get_x

cached_x : vm_resolve_name_cached text in_call 1 none ≡ (some (slot_at 0 0), some (slot_at 0 0))
unfolding vm_resolve_name_cached
cached_x = refl

vm_resolve_name_cached-Stale_example : (r : Machine × ℕ) × Stale text in_call 1 0 7 r
vm_resolve_name_cached-Stale_example =
    vm_resolve_name_cached-Stale text in_call in_call-IsSound 1 0 7 cached_x
