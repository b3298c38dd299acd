-- ===== src/Scope/Extend.antt =====
-- source/core/vm.c: a variable gets an address that no other has.
use aer.Base.{
  ℕ, ◌≤◌, ◌≡◌, ◌≢◌, refl, sym, ◌∙◌, inl, inr, ◌⊎◌, Bool, true, false, ◌&&◌, none, some, arith, ◌==◌,
  ==_iff, if◌then◌else◌, length, Bool-cases, Option-cases,
}
use aer.Base.Bytes.{Bytes}
use aer.HashTable.Store.{IsValid}
use aer.HashTable.{lookup}
use aer.Scope.Places.{IsInside, IsSound, value, vm_scope_get-same, vm_scope_get-found}
use aer.Scope.{Machine, Place, scope_at, read, find_in, vm_scope_get}

-- The machine in which the variable `n` has the value `v`, and every other variable its own.
pub record SetTo (name_of : ℕ → Bytes) (vm : Machine) (n v : ℕ) (vm' : Machine) : Type 0 where
  pub sound : IsSound name_of vm'
  pub values : (m : ℕ) → value name_of vm' m ≡ (if n == m then some v else value name_of vm m)

-- The tables are in order.
pub record HasTables (vm : Machine) : Type 0 where
  pub valid : (i : ℕ) → IsValid (scope_at vm i).map
  pub room : (i : ℕ) → (scope_at vm i).map.count ≤ length vm.cells
  pub hidden :
      (i : ℕ) (k : Bytes) → (scope_at vm i).overflow ≡ false → lookup (scope_at vm i).map k ≡ none

-- In the scope `i`, the variable `n` has moved to the address `p`, which is new.
pub record Extended (name_of : ℕ → Bytes) (vm : Machine) (i n v : ℕ) (p : Place) (vm' : Machine)
    : Type 0 where
  pub floors : vm'.floors ≡ vm.floors
  pub depth : length vm'.scopes ≡ length vm.scopes
  pub finds :
      (k m : ℕ)
      → find_in name_of vm' k m ≡ (if i == k && n == m then some p else find_in name_of vm k m)
  pub fresh : (q : Place) → IsInside vm q → q ≢ p
  pub there : IsInside vm' p
  pub kept : (q : Place) → IsInside vm q → IsInside vm' q × (read vm' q ≡ read vm q)
  pub reads : read vm' p ≡ v
  pub tables : HasTables vm'

and-split : (i k n m : ℕ) → (i == k && n == m) ≡ true → (i ≡ k) × (n ≡ m)
and-split i k n m h = ground arith

pub not_moved {ℓ} :
    {A : Type ℓ} {y : A} (x : A) (b c : Bool) → c ≡ false → (if b && c then x else y) ≡ y
not_moved x true c h = rw h
not_moved x false c h = refl

module _ (name_of : ℕ → Bytes) (vm : Machine) (ok : IsSound name_of vm) where
  -- What an address of the machine behind is.
  pub found_after :
      {i n v : ℕ} {p : Place} {vm' : Machine} (e : Extended name_of vm i n v p vm') (k m : ℕ)
      (q : Place)
      → find_in name_of vm' k m ≡ some q
      → ((i ≡ k) × ((n ≡ m) × (q ≡ p))) ⊎ ((find_in name_of vm k m ≡ some q) × IsInside vm q)
  found_after {i = i} {n = n} {p = p} e k m q h = elim (Bool-cases (i == k && n == m)) [
    | inl t ↦
        let new : some p ≡ some q = rw t at (rw (e.finds k m) at h) in
        let (a, b) = and-split i k n m t in inl (a, (b, cc))
    | inr t ↦ let old = rw t at (rw (e.finds k m) at h) in inr (old, ok.inside k m q old)
  ]

  pub Extended-IsSound :
      {i n v : ℕ} {p : Place} {vm' : Machine}
      → Extended name_of vm i n v p vm'
      → IsSound name_of vm'
  Extended-IsSound {vm' = vm'} e = record {
    apart = λ k l m o q h g. elim (found_after e k m q h) [
      | inl (a, (b, c)) ↦ elim (found_after e l o q g) [
        | inl (d, (f, _)) ↦ (sym a ∙ d, sym b ∙ f)
        | inr (_, inside) ↦ absurd (e.fresh q inside c)
      ]
      | inr (old, inside) ↦ elim (found_after e l o q g) [
        | inl (_, (_, c)) ↦ absurd (e.fresh q inside c)
        | inr (old', _) ↦ ok.apart k l m o q old old'
      ]
    ];
    inside = λ k m q h. elim (found_after e k m q h) [
      | inl (_, (_, c)) ↦ rw c e.there
      | inr (_, inside) ↦ (e.kept q inside).0
    ];
    valid = e.tables.valid;
    room = e.tables.room;
    hidden = e.tables.hidden;
    call = rw (e.floors, e.depth) ok.call;
  }

  -- Where the name is found at the new address, it has the value that was put there.
  pub Extended-SetTo :
      {i n v : ℕ} {p : Place} {vm' : Machine}
      → Extended name_of vm i n v p vm'
      → vm_scope_get name_of vm' n ≡ some p
      → SetTo name_of vm n v vm'
  Extended-SetTo {i = i} {n = n} {v = v} {p = p} {vm' = vm'} e wins = record {
    sound = Extended-IsSound e;
    values = λ m. elim (Bool-cases (n == m)) [
      | inl t ↦ let same = sym ((==_iff n m).0 t) in rw (t, same, wins, e.reads)
      | inr t ↦
          let get =
            vm_scope_get-same name_of vm vm' m e.floors e.depth
              (λ k. e.finds k m ∙ not_moved (some p) (i == k) (n == m) t) in
          rw (t, get)
            (elim (Option-cases (vm_scope_get name_of vm m)) [
              | inl g ↦ rw g
              | inr (q, g) ↦
                  let (k, found) = vm_scope_get-found name_of vm m q g in
                  rw (g, (e.kept q (ok.inside k m q found)).1)
            ])
    ];
  }

-- A machine in which everything is found where it was is as sound as the first.
pub IsSound-same :
    (name_of : ℕ → Bytes) (vm vm' : Machine)
    → IsSound name_of vm
    → vm'.floors ≡ vm.floors
    → length vm'.scopes ≡ length vm.scopes
    → ((k m : ℕ) → find_in name_of vm' k m ≡ find_in name_of vm k m)
    → ((q : Place) → IsInside vm q → IsInside vm' q)
    → HasTables vm'
    → IsSound name_of vm'
IsSound-same name_of vm vm' ok floors depth finds kept t = record {
  apart = λ k l m o q h g. ok.apart k l m o q (sym (finds k m) ∙ h) (sym (finds l o) ∙ g);
  inside = λ k m q h. kept q (ok.inside k m q (sym (finds k m) ∙ h));
  valid = t.valid;
  room = t.room;
  hidden = t.hidden;
  call = rw (floors, depth) ok.call;
}
