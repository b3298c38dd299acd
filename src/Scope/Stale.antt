-- ===== src/Scope/Stale.antt =====
-- source/core/vm.c: the address cache of a site, and a capture behind its back.
use aer.Base.{ℕ, ◌≡◌, refl, ap, Option, none, some}
use aer.Base.Bytes.{Bytes}
use aer.Scope.Box.{vm_box_slot-Boxed}
use aer.Scope.Places.{
  IsSound, value, vm_scope_get-found, vm_scope_get-same, find_in-write, read-write,
}
use aer.Scope.{
  Machine, Place, slot_at, cell, read, write, vm_scope_get, vm_box_slot, vm_resolve_name_cached,
}

-- A site that has cached the slot of a global reads the old value from it once a closure has captured
-- the global and assigned to it.
pub record Stale (name_of : ℕ → Bytes) (vm : Machine) (n j v : ℕ) (r : Machine × ℕ) : Type 0 where
  pub captured : vm_box_slot name_of vm n ≡ some r
  pub assigned : value name_of (write r.0 (cell r.1) v) n ≡ some v
  pub site :
      vm_resolve_name_cached name_of (write r.0 (cell r.1) v) n (some (slot_at 0 j))
      ≡ (some (slot_at 0 j), some (slot_at 0 j))
  pub reads_old : read (write r.0 (cell r.1) v) (slot_at 0 j) ≡ read vm (slot_at 0 j)

module _ (name_of : ℕ → Bytes) (vm : Machine) (ok : IsSound name_of vm) where
  -- If a site has resolved a name to a slot of the global scope and cached it, then a capture of the
  -- name returns a box, an assignment through the box gives the name its value, and the site still
  -- resolves to the slot, which has the value from before.
  pub vm_resolve_name_cached-Stale :
      (n j v : ℕ)
      → vm_resolve_name_cached name_of vm n none ≡ (some (slot_at 0 j), some (slot_at 0 j))
      → (r : Machine × ℕ) × Stale name_of vm n j v r
  unfolding vm_resolve_name_cached
  vm_resolve_name_cached-Stale n j v e =
      let get : vm_scope_get name_of vm n ≡ some (slot_at 0 j) =
        ap (λ (x : Option Place × Option Place). x.0) e in
      let (i, found) = vm_scope_get-found name_of vm n (slot_at 0 j) get in
      let (r, (done, b)) = vm_box_slot-Boxed name_of vm ok n (slot_at 0 j) get in
      let (k, there) = vm_scope_get-found name_of r.0 n (cell r.1) b.place in
      let inside = b.sound.inside k n (cell r.1) there in
      let same =
        vm_scope_get-same name_of r.0 (write r.0 (cell r.1) v) n refl refl
          (λ k. find_in-write name_of r.0 (cell r.1) v k n inside) in
      (
        r,
        record {
          captured = done;
          assigned = rw (same, b.place, read-write r.0 (cell r.1) v inside);
          site = refl;
          reads_old = b.kept (slot_at 0 j) (ok.inside i n (slot_at 0 j) found);
        },
      )
