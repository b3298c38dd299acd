-- ===== src/Scope/Places.antt =====
-- source/core/vm.c: where a name is found, and what a write through an address leaves alone.
use aer.Base.{
  ℕ, zero, suc, ◌+◌, ◌-◌, ◌<◌, ◌≤◌, ◌≡◌, ◌≢◌, refl, sym, ◌∙◌, ap, inl, inr, true, false, ◌&&◌, List,
  [], ◌∷◌, ◌++◌, Option, none, some, arith, ◌==◌, ==_iff, unequal, if◌then◌else◌, length, get_or,
  set, Bool-cases, Option-cases,
}
use aer.Base.Bytes.{Bytes}
use aer.Base.Writes.{get_or-set}
use aer.HashTable.{◌>>=◌, lookup}
use aer.HashTable.Store.{IsValid}
use aer.Scope.{
  ScopeSlot, AerScope, Machine, Place, slot_at, cell, new_scope, no_slot, scope_at, slot_of, read,
  write, put_slot, vm_scope_floor, find_slot, place_in, find_in, search, vm_scope_get,
}

pub find_slot-inside : (xs : List ScopeSlot) (n j : ℕ) → find_slot xs n ≡ some j → j < length xs
unfolding find_slot
find_slot-inside [] n j h = absurd (ground arith)
find_slot-inside (x ∷ xs) n j h = elim (Bool-cases (x.name == n)) [
  | inl e ↦ let k : some zero ≡ some j = rw e at h in ground arith
  | inr e ↦ elim (Option-cases (find_slot xs n)) [
    | inl g ↦
        let k : ◌≡◌ {A = Option ℕ} none (some j) = rw g at (rw e at h) in absurd (ground arith)
    | inr (i, g) ↦
        let k : some (suc i) ≡ some j = rw g at (rw e at h) in
        let inside = find_slot-inside xs n i g in ground arith
  ]
]

-- A write that keeps the name of a slot keeps what is found.
pub find_slot-set :
    (xs : List ScopeSlot) (j n : ℕ) (x : ScopeSlot)
    → x.name ≡ (get_or xs j no_slot).name
    → find_slot (set xs j x) n ≡ find_slot xs n
unfolding find_slot
find_slot-set [] j n x h = refl
find_slot-set (y ∷ xs) zero n x h = rw h
find_slot-set (y ∷ xs) (suc j) n x h = rw (find_slot-set xs j n x h)

-- The addresses that the machine has.
abbrev pub IsInside : Machine → Place → Type 0
IsInside vm (slot_at i j) = (i < length vm.scopes) × (j < length (scope_at vm i).slots)
IsInside vm (cell a) = a < length vm.cells

-- A scope after a write to one of them.
pub scope_at-set :
    (vm : Machine) (i k : ℕ) (s : AerScope)
    → i < length vm.scopes
    → get_or (set vm.scopes i s) k new_scope ≡ (if i == k then s else scope_at vm k)
scope_at-set vm i k s h = get_or-set vm.scopes i k s new_scope h

module _ (name_of : ℕ → Bytes) where
  place_in-val :
      (i : ℕ) (s : AerScope) (j v n : ℕ)
      → j < length s.slots
      → place_in name_of i (record s { slots = set s.slots j (record (slot_of s j) { val = v }) }) n
        ≡ place_in name_of i s n
  unfolding place_in
  place_in-val i s j v n h =
      let x : ScopeSlot = record (slot_of s j) { val = v } in
      rw (find_slot-set s.slots j n x refl) (elim (Option-cases (find_slot s.slots n)) [
        | inl e ↦ rw e
        | inr (k, e) ↦
            rw (e, get_or-set s.slots j k x no_slot h)
              (elim (Bool-cases (j == k)) [
                | inl t ↦ let same = (==_iff j k).0 t in rw (t, same)
                | inr t ↦ rw t
              ])
      ])

  pub find_in-write :
      (vm : Machine) (p : Place) (v k n : ℕ)
      → IsInside vm p
      → find_in name_of (write vm p v) k n ≡ find_in name_of vm k n
  find_in-write vm (cell a) v k n h = refl
  find_in-write vm (slot_at i j) v k n h =
      let s = scope_at vm i in
      let x : ScopeSlot = record (slot_of s j) { val = v } in
      rw (scope_at-set vm i k (record s { slots = set s.slots j x }) h.0)
        (elim (Bool-cases (i == k)) [
          | inl e ↦ let same = sym ((==_iff i k).0 e) in rw (e, same) (place_in-val i s j v n h.1)
          | inr e ↦ rw e
        ])

-- One slot after a write to one.
pub slot_of-put_slot :
    (vm : Machine) (i j k l : ℕ) (x : ScopeSlot)
    → IsInside vm (slot_at i j)
    → slot_of (scope_at (put_slot vm i j x) k) l
      ≡ (if i == k && j == l then x else slot_of (scope_at vm k) l)
slot_of-put_slot vm i j k l x h =
    rw (scope_at-set vm i k (record (scope_at vm i) { slots = set (scope_at vm i).slots j x }) h.0)
      (elim (Bool-cases (i == k)) [
        | inl e ↦
            let same = sym ((==_iff i k).0 e) in
            rw (e, same) (get_or-set (scope_at vm i).slots j l x no_slot h.1)
        | inr e ↦ rw e
      ])

pub read-write : (vm : Machine) (p : Place) (v : ℕ) → IsInside vm p → read (write vm p v) p ≡ v
read-write vm (cell a) v h = rw (get_or-set vm.cells a a v 0 h) (ground arith)
read-write vm (slot_at i j) v h =
    let here : i == i && j == j ≡ true = ground arith in
    ap (λ (x : ScopeSlot). x.val)
      (slot_of-put_slot vm i j i j (record (slot_of (scope_at vm i) j) { val = v }) h)
    ∙ rw here refl

pub read-write_other :
    (vm : Machine) (p q : Place) (v : ℕ) → IsInside vm p → p ≢ q → read (write vm p v) q ≡ read vm q
read-write_other vm (cell a) (cell b) v h ne =
    rw (get_or-set vm.cells a b v 0 h, unequal a b (λ e. ne (ap cell e)))
read-write_other vm (cell a) (slot_at k l) v h ne = refl
read-write_other vm (slot_at i j) (cell b) v h ne = refl
read-write_other vm (slot_at i j) (slot_at k l) v h ne =
    ap (λ (x : ScopeSlot). x.val)
      (slot_of-put_slot vm i j k l (record (slot_of (scope_at vm i) j) { val = v }) h)
    ∙ (elim (Bool-cases (i == k && j == l)) [
      | inl e ↦ absurd (ne (let (s, t) : (i ≡ k) × (j ≡ l) = ground arith in cc))
      | inr e ↦ rw e
    ])

module _ (name_of : ℕ → Bytes) where
  search-same :
      (vm vm' : Machine) (n floor r : ℕ)
      → ((k : ℕ) → find_in name_of vm' k n ≡ find_in name_of vm k n)
      → search name_of vm' n floor r ≡ search name_of vm n floor r
  unfolding search
  search-same vm vm' n floor zero h = refl
  search-same vm vm' n floor (suc r) h = rw (h (floor + r), search-same vm vm' n floor r h)

  -- A name is found where it was, if each scope has it where it had it.
  pub vm_scope_get-same :
      (vm vm' : Machine) (n : ℕ)
      → vm'.floors ≡ vm.floors
      → length vm'.scopes ≡ length vm.scopes
      → ((k : ℕ) → find_in name_of vm' k n ≡ find_in name_of vm k n)
      → vm_scope_get name_of vm' n ≡ vm_scope_get name_of vm n
  unfolding vm_scope_get
  vm_scope_get-same vm vm' n floors depth h = rw (
    floors,
    depth,
    search-same vm vm' n (vm_scope_floor vm) (length vm.scopes - vm_scope_floor vm) h,
    h 0,
  )

  search-found :
      (vm : Machine) (n floor r : ℕ) (p : Place)
      → search name_of vm n floor r ≡ some p
      → (k : ℕ) × (find_in name_of vm k n ≡ some p)
  unfolding search
  search-found vm n floor zero p h = absurd (ground arith)
  search-found vm n floor (suc r) p h = elim (Option-cases (find_in name_of vm (floor + r) n)) [
    | inl e ↦ search-found vm n floor r p (rw e at h)
    | inr (q, e) ↦ (floor + r, e ∙ (rw e at h))
  ]

  pub vm_scope_get-found :
      (vm : Machine) (n : ℕ) (p : Place)
      → vm_scope_get name_of vm n ≡ some p
      → (k : ℕ) × (find_in name_of vm k n ≡ some p)
  unfolding vm_scope_get
  vm_scope_get-found vm n p h =
      let floor = vm_scope_floor vm in
      elim (Option-cases (search name_of vm n floor (length vm.scopes - floor))) [
        | inr (q, e) ↦
            let (k, t) = search-found vm n floor (length vm.scopes - floor) q e in
            (k, t ∙ (rw e at h))
        | inl e ↦ elim (Bool-cases (floor == 0)) [
          | inl z ↦
              absurd
                (let k : ◌≡◌ {A = Option Place} none (some p) = rw z at (rw e at h) in ground arith)
          | inr z ↦ (0, rw z at (rw e at h))
        ]
      ]

  -- The innermost scope comes first.
  pub vm_scope_get-innermost :
      (vm : Machine) (n : ℕ) (p : Place)
      → vm_scope_floor vm < length vm.scopes
      → find_in name_of vm (length vm.scopes - 1) n ≡ some p
      → vm_scope_get name_of vm n ≡ some p
  unfolding vm_scope_get
  vm_scope_get-innermost vm n p h e =
      let floor = vm_scope_floor vm in
      let r = length vm.scopes - floor - 1 in
      let rounds : length vm.scopes - floor ≡ suc r = omega arith in
      let last : floor + r ≡ length vm.scopes - 1 = omega arith in rw (rounds, last, e)

  pub vm_scope_get-none :
      (vm : Machine) (n : ℕ)
      → vm_scope_floor vm < length vm.scopes
      → vm_scope_get name_of vm n ≡ none
      → find_in name_of vm (length vm.scopes - 1) n ≡ none
  vm_scope_get-none vm n h e = elim (Option-cases (find_in name_of vm (length vm.scopes - 1) n)) [
    | inl g ↦ g
    | inr (p, g) ↦ let k = vm_scope_get-innermost vm n p h g in cc
  ]

-- What holds of every machine. No address stands for two variables, and each is one that the machine
-- has; an overflow table is valid and has room, and one that is not in use is empty.
pub record IsSound (name_of : ℕ → Bytes) (vm : Machine) : Type 0 where
  pub apart :
      (i j n m : ℕ) (p : Place)
      → find_in name_of vm i n ≡ some p
      → find_in name_of vm j m ≡ some p
      → (i ≡ j) × (n ≡ m)
  pub inside : (i n : ℕ) (p : Place) → find_in name_of vm i n ≡ some p → IsInside vm p
  pub valid : (i : ℕ) → IsValid (scope_at vm i).map
  pub room : (i : ℕ) → (scope_at vm i).map.count ≤ length vm.cells
  pub hidden :
      (i : ℕ) (k : Bytes) → (scope_at vm i).overflow ≡ false → lookup (scope_at vm i).map k ≡ none
  pub call : vm_scope_floor vm < length vm.scopes

-- The value of a variable, as a load of its name gives it.
abbrev pub value : (ℕ → Bytes) → Machine → ℕ → Option ℕ
value name_of vm n = vm_scope_get name_of vm n >>= λ p. some (read vm p)

-- The first slot that is found has the name.
pub find_slot-name :
    (xs : List ScopeSlot) (n j : ℕ) → find_slot xs n ≡ some j → (get_or xs j no_slot).name ≡ n
unfolding find_slot
find_slot-name [] n j h = absurd (ground arith)
find_slot-name (x ∷ xs) n j h = elim (Bool-cases (x.name == n)) [
  | inl e ↦
      let k : some zero ≡ some j = rw e at h in
      let first : j ≡ zero = ground arith in rw first ((==_iff x.name n).0 e)
  | inr e ↦ elim (Option-cases (find_slot xs n)) [
    | inl g ↦
        let k : ◌≡◌ {A = Option ℕ} none (some j) = rw g at (rw e at h) in absurd (ground arith)
    | inr (i, g) ↦
        let k : some (suc i) ≡ some j = rw g at (rw e at h) in
        let next : j ≡ suc i = ground arith in rw next (find_slot-name xs n i g)
  ]
]

-- A slot behind the others.
pub find_slot-append :
    (xs : List ScopeSlot) (x : ScopeSlot) (n : ℕ)
    → find_slot (xs ++ (x ∷ [])) n ≡ (elim (find_slot xs n) [
      | some j ↦ some j
      | none ↦ if x.name == n then some (length xs) else none
    ])
unfolding find_slot
find_slot-append [] x n = elim (Bool-cases (x.name == n)) [ inl e ↦ rw e | inr e ↦ rw e ]
find_slot-append (y ∷ xs) x n = elim (Bool-cases (y.name == n)) [
  | inl e ↦ rw e
  | inr e ↦
      rw (e, find_slot-append xs x n)
        (elim (Option-cases (find_slot xs n)) [
          | inr (i, g) ↦ rw g
          | inl g ↦ rw g (elim (Bool-cases (x.name == n)) [ inl t ↦ rw t | inr t ↦ rw t ])
        ])
]
