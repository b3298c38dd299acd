-- ===== src/Scope/Set.antt =====
-- source/core/vm.c: `vm_scope_set` and `vm_scope_define`.
use aer.Base.{
  ℕ, ◌<◌, ◌≤◌, ◌≡◌, ◌≢◌, refl, sym, ◌∙◌, ap, inl, inr, false, some, arith, ◌==◌, ==_iff, length,
  length-set, get_or, set, Bool-cases, Option-cases,
}
use aer.Base.Bytes.{Bytes}
use aer.Scope.Extend.{SetTo, HasTables, IsSound-same}
use aer.Scope.Places.{
  IsInside, IsSound, scope_at-set, find_in-write, read-write, read-write_other, vm_scope_get-same,
  vm_scope_get-found,
}
use aer.Scope.{
  ScopeSlot, AerScope, Machine, Place, slot_at, cell, new_scope, scope_at, slot_of, write,
  vm_scope_get,
}

-- Tables that stay as they are stay in order.
pub HasTables-same :
    (vm vm' : Machine)
    → HasTables vm
    → length vm.cells ≤ length vm'.cells
    → ((k : ℕ) → (scope_at vm' k).map ≡ (scope_at vm k).map)
    → ((k : ℕ) → (scope_at vm' k).overflow ≡ (scope_at vm k).overflow)
    → HasTables vm'
HasTables-same vm vm' t grew map over = record {
  valid = λ i. rw (map i) (t.valid i);
  room = λ i. rw (map i) (omega (arith, t.room i));
  hidden = λ i k h. rw (map i) (t.hidden i k (sym (over i) ∙ h));
}

-- A change of one scope that leaves a part of it alone.
pub part-same {ℓ} :
    {A : Type ℓ} (f : AerScope → A) (vm : Machine) (i : ℕ) (s : AerScope)
    → i < length vm.scopes
    → f s ≡ f (scope_at vm i)
    → (k : ℕ) → f (get_or (set vm.scopes i s) k new_scope) ≡ f (scope_at vm k)
part-same f vm i s h e k = rw (scope_at-set vm i k s h) (elim (Bool-cases (i == k)) [
  | inl t ↦ let same = sym ((==_iff i k).0 t) in rw (t, same) e
  | inr t ↦ rw t
])

-- An address stays one where the machine gets no smaller.
pub IsInside-more :
    (vm vm' : Machine)
    → length vm'.scopes ≡ length vm.scopes
    → length vm.cells ≤ length vm'.cells
    → ((k : ℕ) → length (scope_at vm k).slots ≤ length (scope_at vm' k).slots)
    → (q : Place) → IsInside vm q
    → IsInside vm' q
IsInside-more vm vm' depth cells slots (slot_at i j) h = (rw depth h.0, omega (arith, h.1, slots i))
IsInside-more vm vm' depth cells slots (cell a) h = omega arith

module _ (name_of : ℕ → Bytes) (vm : Machine) (ok : IsSound name_of vm) where
  pub tables : HasTables vm
  tables = record { valid = ok.valid; room = ok.room; hidden = ok.hidden }

  -- What a write leaves alone.
  record Framed (vm' : Machine) : Type 0 where
    floors : vm'.floors ≡ vm.floors
    depth : length vm'.scopes ≡ length vm.scopes
    kept : (q : Place) → IsInside vm q → IsInside vm' q
    ordered : HasTables vm'

  write-Framed : (p : Place) (v : ℕ) → IsInside vm p → Framed (write vm p v)
  write-Framed (cell a) v h = record {
    floors = refl;
    depth = refl;
    kept =
        IsInside-more vm (write vm (cell a) v) refl (omega (arith, length-set vm.cells a v))
          (λ k. omega arith);
    ordered =
        HasTables-same vm (write vm (cell a) v) tables (omega (arith, length-set vm.cells a v))
          (λ k. refl) (λ k. refl);
  }
  write-Framed (slot_at i j) v h =
      let s = scope_at vm i in
      let x : ScopeSlot = record (slot_of s j) { val = v } in
      let s' : AerScope = record s { slots = set s.slots j x } in
      record {
        floors = refl;
        depth = length-set vm.scopes i s';
        kept =
            IsInside-more vm (write vm (slot_at i j) v) (length-set vm.scopes i s') (omega arith)
              (λ k.
                omega
                  (arith, part-same (λ s. length s.slots) vm i s' h.0 (length-set s.slots j x) k));
        ordered =
            HasTables-same vm (write vm (slot_at i j) v) tables (omega arith)
              (part-same (λ s. s.map) vm i s' h.0 refl)
              (part-same (λ s. s.overflow) vm i s' h.0 refl);
      }

  -- A write through the address of a variable.
  pub write-SetTo :
      (n v : ℕ) (p : Place)
      → vm_scope_get name_of vm n ≡ some p
      → SetTo name_of vm n v (write vm p v)
  write-SetTo n v p e =
      let (i, found) = vm_scope_get-found name_of vm n p e in
      let inside = ok.inside i n p found in
      let finds = λ (k m : ℕ). find_in-write name_of vm p v k m inside in
      let framed = write-Framed p v inside in
      record {
        sound =
            IsSound-same name_of vm (write vm p v) ok framed.floors framed.depth (λ k m. finds k m)
              framed.kept framed.ordered;
        values = λ m.
            let get =
              vm_scope_get-same name_of vm (write vm p v) m framed.floors framed.depth
                (λ k. finds k m) in
            rw get (elim (Bool-cases (n == m)) [
              | inl t ↦
                  let same = sym ((==_iff n m).0 t) in rw (t, same, e, read-write vm p v inside)
              | inr t ↦ rw t (elim (Option-cases (vm_scope_get name_of vm m)) [
                | inl g ↦ rw g
                | inr (q, g) ↦
                    let (k, there) = vm_scope_get-found name_of vm m q g in
                    let other : p ≢ q = λ same.
                      unequal_names n m t (ok.apart i k n m q (found ∙ ap some same) there).1 in
                    rw (g, read-write_other vm p q v inside other)
              ])
            ]);
      }
    where
      unequal_names : (n m : ℕ) → (n == m) ≡ false → n ≢ m
      unequal_names n m t e = ground arith
