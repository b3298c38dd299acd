-- ===== src/Scope/Nearest.antt =====
-- source/core/vm.c: the walk over the scopes finds the nearest binding of a name.
use aer.Base.{
  ℕ, zero, suc, ◌+◌, ◌-◌, ◌<◌, ◌≤◌, ◌≡◌, ◌≢◌, refl, ◌∙◌, inl, inr, ◌&&◌, Option, none, some, arith,
  ◌==◌, ==_iff, if◌then◌else◌, length, Bool-cases, Option-cases,
}
use aer.Base.Bytes.{Bytes}
use aer.Scope.Places.{IsInside}
use aer.Scope.{Machine, Place, read, vm_scope_floor, find_in, search, vm_scope_get}

module _ (name_of : ℕ → Bytes) where
  -- The scopes of the current call have no binding of the name.
  abbrev pub IsNotLocal : Machine → ℕ → Type 0
  IsNotLocal vm n =
      (l : ℕ) → vm_scope_floor vm ≤ l → l < length vm.scopes → find_in name_of vm l n ≡ none

  -- The binding of a name that is seen: that of the innermost scope of the current call that has one, or
  -- else that of the global scope.
  pub data Nearest (vm : Machine) (n : ℕ) : Option Place → Type 0 where
    in_call :
        {k : ℕ} {p : Place}
        → vm_scope_floor vm ≤ k
        → k < length vm.scopes
        → find_in name_of vm k n ≡ some p
        → ((l : ℕ) → k < l → l < length vm.scopes → find_in name_of vm l n ≡ none)
        → Nearest vm n (some p)
    in_global :
        {p : Place} → IsNotLocal vm n → find_in name_of vm 0 n ≡ some p → Nearest vm n (some p)
    unbound : IsNotLocal vm n → find_in name_of vm 0 n ≡ none → Nearest vm n none

  search-none :
      (vm : Machine) (n floor r : ℕ)
      → search name_of vm n floor r ≡ none
      → (l : ℕ) → floor ≤ l
      → l < floor + r
      → find_in name_of vm l n ≡ none
  unfolding search
  search-none vm n floor zero h l low high = absurd (omega arith)
  search-none vm n floor (suc r) h l low high =
      elim (Option-cases (find_in name_of vm (floor + r) n)) [
        | inr (p, e) ↦
            absurd (let k : ◌≡◌ {A = Option Place} (some p) none = rw e at h in ground arith)
        | inl e ↦ elim (Bool-cases (l == floor + r)) [
          | inl t ↦ let same = (==_iff l (floor + r)).0 t in rw same e
          | inr t ↦ search-none vm n floor r (rw e at h) l low (ground arith)
        ]
      ]

  search-some :
      (vm : Machine) (n floor r : ℕ) (p : Place)
      → search name_of vm n floor r ≡ some p
      → (k : ℕ) × (floor ≤ k)
        × (k < floor + r)
        × (find_in name_of vm k n ≡ some p)
        × ((l : ℕ) → k < l → l < floor + r → find_in name_of vm l n ≡ none)
  unfolding search
  search-some vm n floor zero p h = absurd (ground arith)
  search-some vm n floor (suc r) p h = elim (Option-cases (find_in name_of vm (floor + r) n)) [
    | inr (q, e) ↦
        (floor + r, omega arith, omega arith, e ∙ (rw e at h), λ l low high. absurd (omega arith))
    | inl e ↦
        let (k, low, high, found, none_above) = search-some vm n floor r p (rw e at h) in
        (
          k,
          low,
          omega arith,
          found,
          λ l above below. elim (Bool-cases (l == floor + r)) [
            | inl t ↦ let same = (==_iff l (floor + r)).0 t in rw same e
            | inr t ↦ none_above l above (ground arith)
          ],
        )
  ]

  pub vm_scope_get-Nearest :
      (vm : Machine) (n : ℕ)
      → vm_scope_floor vm < length vm.scopes
      → Nearest vm n (vm_scope_get name_of vm n)
  unfolding vm_scope_get
  vm_scope_get-Nearest vm n call =
      let floor = vm_scope_floor vm in
      let r = length vm.scopes - floor in
      let all : floor + r ≡ length vm.scopes = omega arith in
      elim (Option-cases (search name_of vm n floor r)) [
        | inr (p, e) ↦
            let (k, low, high, found, none_above) = search-some vm n floor r p e in
            rw e
              (in_call low (omega arith) found (λ l above below. none_above l above (omega arith)))
        | inl e ↦
            let not_local = λ (l : ℕ) (low : floor ≤ l) (high : l < length vm.scopes).
              search-none vm n floor r e l low (omega arith) in
            elim (Bool-cases (floor == 0)) [
              | inl z ↦ rw (e, z) (unbound not_local (not_local 0 (ground arith) (omega arith)))
              | inr z ↦ rw (e, z) (global_binding vm n not_local (find_in name_of vm 0 n) refl)
            ]
      ]
    where
      global_binding :
          (vm : Machine) (n : ℕ)
          → IsNotLocal vm n
          → (o : Option Place) → find_in name_of vm 0 n ≡ o
          → Nearest vm n o
      global_binding vm n h none e = unbound h e
      global_binding vm n h (some p) e = in_global h e

  -- What an assignment of `v` to a name does to the bindings. One that is seen gets the value, and no binding
  -- changes its place, no other address its value. Without one the innermost scope gets a binding with
  -- the value at a new address, and every other binding and every address is as it was.
  pub data Assigned (vm : Machine) (n v : ℕ) (vm' : Machine) : Type 0 where
    stored :
        {p : Place}
        → Nearest vm n (some p)
        → ((k m : ℕ) → find_in name_of vm' k m ≡ find_in name_of vm k m)
        → read vm' p ≡ v
        → ((q : Place) → IsInside vm q → q ≢ p → read vm' q ≡ read vm q)
        → Assigned vm n v vm'
    defined :
        {p : Place}
        → Nearest vm n none
        → ((k m : ℕ)
            → find_in name_of vm' k m
              ≡ (if length vm.scopes - 1 == k && n == m then some p else find_in name_of vm k m))
        → read vm' p ≡ v
        → ((q : Place) → IsInside vm q → (q ≢ p) × (read vm' q ≡ read vm q))
        → Assigned vm n v vm'
