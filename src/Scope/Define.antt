-- ===== src/Scope/Define.antt =====
-- source/core/vm.c: a new variable, in a slot or in the overflow table of the innermost scope.
use aer.Base.{
  ℕ, ◌+◌, ◌-◌, ◌*◌, ◌^◌, ◌<◌, ◌≤◌, ◌≡◌, refl, sym, ◌∙◌, ap, inl, inr, true, false, ◌&&◌, List, [],
  ◌∷◌, ◌++◌, none, some, arith, ltb, ◌==◌, ==_iff, if◌then◌else◌, length, length-set, length-append,
  get_or, set, Bool-cases, Option-cases,
}
use mathlib.Core.Bool.{false≢true}
use aer.Base.Bytes.{Bytes, str_equal, str_equal_iff, str_equal_refl}
use aer.Base.Writes.{get_or-append, get_or-append_last}
use aer.HashTable.Put.{added-le}
use aer.HashTable.Store.{IsValid, hashtable_put-Stored}
use aer.HashTable.{HashTable, ◌>>=◌, lookup}
use aer.Scope.Extend.{SetTo, Extended, Extended-SetTo}
use aer.Scope.Set.{HasTables-same, part-same, tables, write-SetTo}
use aer.Scope.Nearest.{Nearest, Assigned, vm_scope_get-Nearest}
use aer.Scope.Places.{
  find_slot-append, IsInside, find_in-write, read-write, read-write_other, vm_scope_get-found,
  IsSound, scope_at-set, find_slot-inside, vm_scope_get-innermost, vm_scope_get-none,
}
use aer.Scope.{
  ScopeSlot, AerScope, Machine, Place, slot_at, cell, no_slot, slot_max, scope_at, slot_of, read,
  write, vm_scope_floor, find_slot, overflow_place, place_of, place_in, find_in, vm_scope_get,
  vm_scope_define, vm_scope_set,
}

-- A machine with one scope and the cells changed.
abbrev pub replaced : Machine → ℕ → AerScope → List ℕ → Machine
replaced vm i s cells = record vm { scopes = set vm.scopes i s; cells = cells }

pub scope_at-replaced :
    (vm : Machine) (i : ℕ) (s : AerScope) (cells : List ℕ)
    → i < length vm.scopes
    → scope_at (replaced vm i s cells) i ≡ s
scope_at-replaced vm i s cells h =
    let same : (i == i) ≡ true = ground arith in rw (scope_at-set vm i i s h, same)

-- The addresses of a machine keep their values where its cells and the slots of the scope only grow.
pub kept-replaced :
    (vm : Machine) (i : ℕ) (s : AerScope) (cells : List ℕ)
    → i < length vm.scopes
    → length (scope_at vm i).slots ≤ length s.slots
    → ((l : ℕ)
        → l < length (scope_at vm i).slots
        → (slot_of s l).val ≡ (slot_of (scope_at vm i) l).val)
    → length vm.cells ≤ length cells
    → ((a : ℕ) → a < length vm.cells → get_or cells a 0 ≡ get_or vm.cells a 0)
    → (q : Place) → IsInside vm q
    → IsInside (replaced vm i s cells) q × (read (replaced vm i s cells) q ≡ read vm q)
kept-replaced vm i s cells h slots vals more same (cell a) k = (omega arith, same a k)
kept-replaced vm i s cells h slots vals more same (slot_at j l) k = elim (Bool-cases (i == j)) [
  | inl t ↦
      let e = sym ((==_iff i j).0 t) in
      let there = scope_at-replaced vm i s cells h in
      let bound : l < length (scope_at vm i).slots = rw e at k.1 in
      let inside : l < length (scope_at (replaced vm i s cells) i).slots = rw there (omega arith) in
      rw e (
        (omega (arith, length-set vm.scopes i s), inside),
        ap (λ (s : AerScope). (slot_of s l).val) there ∙ vals l bound,
      )
  | inr t ↦
      let there : scope_at (replaced vm i s cells) j ≡ scope_at vm j =
        rw (scope_at-set vm i j s h, t) in
      (
        (omega (arith, length-set vm.scopes i s, k.0), rw there k.1),
        ap (λ (s : AerScope). (slot_of s l).val) there,
      )
]

-- What holds of the changed scope and of the others holds of all.
in_scope :
    (vm : Machine) (i : ℕ) (P : AerScope → Type 0) (k : ℕ) (s : AerScope) (cells : List ℕ)
    → i < length vm.scopes
    → P s
    → P (scope_at vm k)
    → P (scope_at (replaced vm i s cells) k)
in_scope vm i P k s cells h new old =
    rw (scope_at-set vm i k s h)
      (elim (Bool-cases (i == k)) [ inl t ↦ rw t new | inr t ↦ rw t old ])

-- What is found after the change of one scope.
pub finds-replaced :
    (name_of : ℕ → Bytes) (vm : Machine) (i n : ℕ) (p : Place) (s : AerScope) (cells : List ℕ)
    → i < length vm.scopes
    → ((m : ℕ)
        → place_in name_of i s m
          ≡ (if n == m then some p else place_in name_of i (scope_at vm i) m))
    → (k m : ℕ)
    → find_in name_of (replaced vm i s cells) k m
      ≡ (if i == k && n == m then some p else find_in name_of vm k m)
finds-replaced name_of vm i n p s cells h f k m =
    rw (scope_at-set vm i k s h) (elim (Bool-cases (i == k)) [
      | inl t ↦ let same = sym ((==_iff i k).0 t) in rw (t, same) (f m)
      | inr t ↦ rw t
    ])

module _ (name_of : ℕ → Bytes) where
  place_in-append :
      (i n v m : ℕ) (s : AerScope)
      → place_in name_of i s n ≡ none
      → place_in name_of i
          (record s { slots = s.slots ++ (record { name = n; val = v; box = none } ∷ []) })
          m
        ≡ (if n == m then some (slot_at i (length s.slots)) else place_in name_of i s m)
  unfolding place_in
  place_in-append i n v m s g =
      let x : ScopeSlot = record { name = n; val = v; box = none } in
      rw (find_slot-append s.slots x m) (elim (Option-cases (find_slot s.slots m)) [
        | inl e ↦ elim (Bool-cases (n == m)) [
          | inl t ↦ rw (e, t, get_or-append_last s.slots x no_slot)
          | inr t ↦ rw (e, t)
        ]
        | inr (j, e) ↦ elim (Bool-cases (n == m)) [
          | inl t ↦ absurd (present m j e (rw ((==_iff n m).0 t) at g))
          | inr t ↦
              rw (e, t, get_or-append s.slots (x ∷ []) j no_slot (find_slot-inside s.slots m j e))
        ]
      ])
    where
      present : (m j : ℕ) → find_slot s.slots m ≡ some j → place_in name_of i s m ≡ none → ⊥
      present m j e g =
          let k : some (place_of i j (slot_of s j).box) ≡ none = sym (rw e) ∙ g in ground arith

  -- The entry of a name in the overflow table, which is seen once the table is in use.
  pub overflow_entry :
      (s : AerScope) (m : ℕ)
      → ((k : Bytes) → s.overflow ≡ false → lookup s.map k ≡ none)
      → overflow_place name_of s m ≡ (lookup s.map (name_of m) >>= λ a. some (cell a))
  overflow_entry s m hidden = elim (Bool-cases s.overflow) [
    | inl e ↦ rw e
    | inr e ↦ rw (e, hidden (name_of m) e)
  ]

  place_in-spill :
      (i n m a : ℕ) (s : AerScope) (t : HashTable ℕ)
      → ((k l : ℕ) → name_of k ≡ name_of l → k ≡ l)
      → find_slot s.slots n ≡ none
      → ((k : Bytes) → s.overflow ≡ false → lookup s.map k ≡ none)
      → ((q : Bytes) → lookup t q ≡ (if str_equal (name_of n) q then some a else lookup s.map q))
      → place_in name_of i (record s { overflow = true; map = t }) m
        ≡ (if n == m then some (cell a) else place_in name_of i s m)
  unfolding place_in
  place_in-spill i n m a s t injective new hidden reads = elim (Bool-cases (n == m)) [
    | inl e ↦
        let same = sym ((==_iff n m).0 e) in
        rw (e, same, new, reads (name_of n), str_equal_refl (name_of n))
    | inr e ↦
        let other : str_equal (name_of n) (name_of m) ≡ false = differ n m e in
        rw (e, reads (name_of m), other, overflow_entry s m hidden)
          (elim (Option-cases (find_slot s.slots m)) [ inl f ↦ rw f | inr (j, f) ↦ rw f ])
  ]
    where
      differ : (n m : ℕ) → (n == m) ≡ false → str_equal (name_of n) (name_of m) ≡ false
      differ n m e = elim (Bool-cases (str_equal (name_of n) (name_of m))) [
        | inr f ↦ f
        | inl f ↦
            let same = injective n m ((str_equal_iff (name_of n) (name_of m)).0 f) in
            absurd (false≢true (sym e ∙ (==_iff n m).1 same))
      ]

module _ (name_of : ℕ → Bytes) (vm : Machine) (ok : IsSound name_of vm) where
  append-Extended :
      (i n v : ℕ)
      → i < length vm.scopes
      → find_in name_of vm i n ≡ none
      → let s = scope_at vm i in
        Extended name_of vm i n v (slot_at i (length s.slots)) (
          replaced vm i
            (record s { slots = s.slots ++ (record { name = n; val = v; box = none } ∷ []) })
            vm.cells)
  append-Extended i n v h e =
      let s = scope_at vm i in
      let x : ScopeSlot = record { name = n; val = v; box = none } in
      let s' : AerScope = record s { slots = s.slots ++ (x ∷ []) } in
      let there = scope_at-replaced vm i s' vm.cells h in
      let longer = length-append s.slots (x ∷ []) in
      record {
        floors = refl;
        depth = length-set vm.scopes i s';
        finds =
            finds-replaced name_of vm i n (slot_at i (length s.slots)) s' vm.cells h
              (λ m. place_in-append name_of i n v m s e);
        fresh = λ q inside same.
            let k : IsInside vm (slot_at i (length s.slots)) = rw same at inside in
            omega (arith, k.1);
        there = (omega (arith, length-set vm.scopes i s'), rw there (omega (arith, longer)));
        kept =
            kept-replaced vm i s' vm.cells h (omega (arith, longer))
              (λ l k. ap (λ (x : ScopeSlot). x.val) (get_or-append s.slots (x ∷ []) l no_slot k))
              (omega arith) (λ a k. refl);
        reads =
            ap (λ (s : AerScope). (slot_of s (length (scope_at vm i).slots)).val) there
            ∙ ap (λ (x : ScopeSlot). x.val) (get_or-append_last s.slots x no_slot);
        tables =
            HasTables-same vm (replaced vm i s' vm.cells) (tables name_of vm ok) (omega arith)
              (part-same (λ s. s.map) vm i s' h refl) (part-same (λ s. s.overflow) vm i s' h refl);
      }

  spill-Extended :
      (i n v : ℕ) (r : HashTable ℕ)
      → ((k l : ℕ) → name_of k ≡ name_of l → k ≡ l)
      → i < length vm.scopes
      → find_slot (scope_at vm i).slots n ≡ none
      → IsValid r
      → r.count ≤ (scope_at vm i).map.count + 1
      → ((q : Bytes)
          → lookup r q ≡ (
              if str_equal (name_of n) q
              then some (length vm.cells)
              else lookup (scope_at vm i).map q))
      → Extended name_of vm i n v (cell (length vm.cells)) (
          replaced vm i
            (record (scope_at vm i) { overflow = true; map = r })
            (vm.cells ++ (v ∷ [])))
  spill-Extended i n v r injective h new valid count reads =
      let s = scope_at vm i in
      let s' : AerScope = record s { overflow = true; map = r } in
      let cells = vm.cells ++ (v ∷ []) in
      let vm' : Machine = replaced vm i s' cells in
      let there = scope_at-replaced vm i s' cells h in
      let longer = length-append vm.cells (v ∷ []) in
      record {
        floors = refl;
        depth = length-set vm.scopes i s';
        finds = finds-replaced name_of vm i n (cell (length vm.cells)) s' cells h (λ m.
            place_in-spill name_of i n m (length vm.cells) s r injective new (ok.hidden i) reads);
        fresh = λ q inside same.
            let k : IsInside vm (cell (length vm.cells)) = rw same at inside in omega (arith, k);
        there = omega (arith, longer);
        kept =
            kept-replaced vm i s' cells h (omega arith) (λ l k. refl) (omega (arith, longer))
              (λ a k. get_or-append vm.cells (v ∷ []) a 0 k);
        reads = get_or-append_last vm.cells v 0;
        tables = record {
          valid = λ k. in_scope vm i (λ s. IsValid s.map) k s' cells h valid (ok.valid k);
          room = λ k.
              in_scope vm i (λ s. s.map.count ≤ length cells) k s' cells h
                (omega (arith, count, ok.room i, longer)) (omega (arith, ok.room k, longer));
          hidden = λ k.
              in_scope vm i (λ s. (q : Bytes) → s.overflow ≡ false → lookup s.map q ≡ none) k s'
                cells h (λ q h. absurd (false≢true (sym h))) (ok.hidden k);
        };
      }

  no_slot_there :
      (i n : ℕ) → find_in name_of vm i n ≡ none → find_slot (scope_at vm i).slots n ≡ none
  unfolding place_in
  no_slot_there i n e = elim (Option-cases (find_slot (scope_at vm i).slots n)) [
    | inl f ↦ f
    | inr (j, f) ↦ absurd (
        let k : some (place_of i j (slot_of (scope_at vm i) j).box) ≡ none = rw f at e in
        ground arith)
  ]

  no_entry_there :
      (i n : ℕ) → find_in name_of vm i n ≡ none → lookup (scope_at vm i).map (name_of n) ≡ none
  unfolding place_in
  no_entry_there i n e = elim (Option-cases (lookup (scope_at vm i).map (name_of n))) [
    | inl f ↦ f
    | inr (a, f) ↦
        let entry = overflow_entry name_of (scope_at vm i) n (ok.hidden i) in
        absurd (
          let k : some (cell a) ≡ none = rw f at (rw (no_slot_there i n e, entry) at e) in
          ground arith)
  ]

  Extended-get :
      (n v : ℕ) {p : Place} {vm' : Machine}
      → Extended name_of vm (length vm.scopes - 1) n v p vm'
      → SetTo name_of vm n v vm'
  Extended-get n v {p = p} {vm' = vm'} e =
      let i = length vm.scopes - 1 in
      let here : (i == i && n == n) ≡ true = ground arith in
      let there : find_in name_of vm' i n ≡ some p = e.finds i n ∙ rw here refl in
      let call : vm_scope_floor vm' < length vm'.scopes = rw (e.floors, e.depth) ok.call in
      Extended-SetTo name_of vm ok e
        (vm_scope_get-innermost name_of vm' n p call (rw e.depth there))

  -- A name that the innermost scope does not bind gets a binding there.
  pub vm_scope_define-Extended :
      (n v : ℕ)
      → ((k l : ℕ) → name_of k ≡ name_of l → k ≡ l)
      → length vm.cells * 100 < 2 ^ 32
      → find_in name_of vm (length vm.scopes - 1) n ≡ none
      → (vm' : Machine) × (p : Place) × (vm_scope_define name_of vm n v ≡ some vm')
        × Extended name_of vm (length vm.scopes - 1) n v p vm'
  unfolding vm_scope_define
  vm_scope_define-Extended n v injective small e =
      let i = length vm.scopes - 1 in
      let h : i < length vm.scopes = omega (arith, ok.call) in
      let new = no_slot_there i n e in
      elim (Bool-cases (ltb (length (scope_at vm i).slots) slot_max)) [
        | inl t ↦ (_, _, rw (new, t) refl, append-Extended i n v h e)
        | inr t ↦
            let (r, done, stored) =
              hashtable_put-Stored (scope_at vm i).map (name_of n) (length vm.cells) (ok.valid i)
                (omega (arith, ok.room i)) in
            let count : r.0.count ≤ (scope_at vm i).map.count + 1 =
              omega (arith, stored.counts, added-le (lookup (scope_at vm i).map (name_of n))) in
            (
              _,
              _,
              rw (new, t, no_entry_there i n e, done) refl,
              spill-Extended i n v r.0 injective h new (inr stored.live) count stored.reads,
            )
      ]

  Extended-Assigned :
      (n v : ℕ) {p : Place} {vm' : Machine}
      → Nearest name_of vm n none
      → Extended name_of vm (length vm.scopes - 1) n v p vm'
      → Assigned name_of vm n v vm'
  Extended-Assigned n v nearest e =
      Assigned.defined nearest e.finds e.reads (λ q inside. (e.fresh q inside, (e.kept q inside).1))

  write-Assigned :
      (n v : ℕ) (p : Place)
      → Nearest name_of vm n (some p)
      → IsInside vm p
      → Assigned name_of vm n v (write vm p v)
  write-Assigned n v p nearest inside =
      Assigned.stored nearest (λ k m. find_in-write name_of vm p v k m inside)
        (read-write vm p v inside)
        (λ q _ other. read-write_other vm p q v inside (λ e. other (sym e)))

  -- Assigning to a name returns, if fewer than 42,949,673 cells are in use and no two names have one
  -- text. Where a scope of the current call binds the name, the innermost such binding gets the value, or
  -- else that of the global scope; all bindings stay, and no other address changes its value. Where
  -- none of them binds it, the innermost scope gets a binding with the value at a new address, and all
  -- other bindings and addresses are as they were. The name then has the value, every other name has the
  -- value it had, and the machine stays sound.
  pub vm_scope_set-SetTo :
      (n v : ℕ)
      → ((k l : ℕ) → name_of k ≡ name_of l → k ≡ l)
      → length vm.cells * 100 < 2 ^ 32
      → (vm' : Machine) × (vm_scope_set name_of vm n v ≡ some vm')
        × SetTo name_of vm n v vm'
        × Assigned name_of vm n v vm'
  unfolding vm_scope_set
  vm_scope_set-SetTo n v injective small =
      let nearest = vm_scope_get-Nearest name_of vm n ok.call in
      elim (Option-cases (vm_scope_get name_of vm n)) [
        | inr (p, e) ↦
            let (i, found) = vm_scope_get-found name_of vm n p e in
            (
              write vm p v,
              rw e refl,
              write-SetTo name_of vm ok n v p e,
              write-Assigned n v p (rw e at nearest) (ok.inside i n p found),
            )
        | inl e ↦
            let innermost = vm_scope_get-none name_of vm n ok.call e in
            let (vm', p, done, more) = vm_scope_define-Extended n v injective small innermost in
            (vm', rw e done, Extended-get n v more, Extended-Assigned n v (rw e at nearest) more)
      ]
