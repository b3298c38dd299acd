-- ===== src/Scope/Box.antt =====
-- source/core/vm.c: `vm_box_slot`, which captures a variable.
use aer.Base.{
  ℕ, zero, suc, ◌+◌, ◌-◌, ◌<◌, ◌≤◌, ◌≡◌, ◌≢◌, refl, sym, ◌∙◌, ap, inl, inr, true, false, ◌&&◌, [],
  ◌∷◌, ◌++◌, Option, none, some, arith, ltb, ◌==◌, ==_iff, unequal, if◌then◌else◌, length,
  length-set, length-append, set, Bool-cases, Option-cases, some-injective, ltb→lt,
}
use aer.Base.Bytes.{Bytes}
use aer.Base.Writes.{get_or-set, get_or-append, get_or-append_last, get_or-outside}
use aer.HashTable.{lookup}
use aer.Scope.Define.{replaced, kept-replaced, finds-replaced}
use aer.Scope.Extend.{Extended, Extended-IsSound, IsSound-same, not_moved}
use aer.Scope.Set.{HasTables-same, part-same, tables}
use aer.Scope.Places.{
  IsInside, IsSound, value, find_slot-inside, find_slot-set, find_slot-name, vm_scope_get-same,
  vm_scope_get-found,
}
use aer.Scope.{
  ScopeSlot, AerScope, Machine, Place, slot_at, cell, no_slot, new_scope, scope_at, slot_of, read,
  vm_scope_floor, find_slot, place_of, place_in, find_in, search, vm_scope_get, box_of, box_at,
  box_search, vm_box_slot,
}

-- Capturing the variable that a scope has at an address: it is then in the cell of the box, with the
-- value it had, and nothing else has changed.
record Boxing (name_of : ℕ → Bytes) (vm : Machine) (i n : ℕ) (p : Place) (r : Machine × ℕ)
    : Type 0 where
  floors : r.0.floors ≡ vm.floors
  depth : length r.0.scopes ≡ length vm.scopes
  finds :
      (k m : ℕ)
      → find_in name_of r.0 k m
        ≡ (if i == k && n == m then some (cell r.1) else find_in name_of vm k m)
  sound : IsSound name_of r.0
  moved : read r.0 (cell r.1) ≡ read vm p
  kept : (q : Place) → IsInside vm q → read r.0 q ≡ read vm q

module _ (name_of : ℕ → Bytes) (vm : Machine) (ok : IsSound name_of vm) where
  -- A variable that is in a cell already, where nothing is found elsewhere.
  in_cell :
      (i n a : ℕ) (vm' : Machine)
      → vm'.floors ≡ vm.floors
      → length vm'.scopes ≡ length vm.scopes
      → ((k m : ℕ) → find_in name_of vm' k m ≡ find_in name_of vm k m)
      → IsSound name_of vm'
      → ((q : Place) → IsInside vm q → read vm' q ≡ read vm q)
      → find_in name_of vm i n ≡ some (cell a)
      → Boxing name_of vm i n (cell a) (vm', a)
  in_cell i n a vm' floors depth same sound kept e = record {
    floors = floors;
    depth = depth;
    finds = λ k m. elim (Bool-cases (i == k && n == m)) [
      | inl t ↦ let (x, y) = both i k n m t in rw t (same k m ∙ rw (sym x, sym y) e)
      | inr t ↦ rw t (same k m)
    ];
    sound = sound;
    moved = kept (cell a) (ok.inside i n (cell a) e);
    kept = kept;
  }
    where
      both : (i k n m : ℕ) → (i == k && n == m) ≡ true → (i ≡ k) × (n ≡ m)
      both i k n m h = ground arith

  place_in-box :
      (i j n a m : ℕ) (s : AerScope)
      → find_slot s.slots n ≡ some j
      → place_in name_of i
          (record s { slots = set s.slots j (record (slot_of s j) { box = some a }) })
          m
        ≡ (if n == m then some (cell a) else place_in name_of i s m)
  unfolding place_in
  place_in-box i j n a m s e =
      let x : ScopeSlot = record (slot_of s j) { box = some a } in
      rw (find_slot-set s.slots j m x refl) (elim (Option-cases (find_slot s.slots m)) [
        | inl f ↦ elim (Bool-cases (n == m)) [
          | inl t ↦ absurd (
              let k : some j ≡ none = sym e ∙ ap (find_slot s.slots) ((==_iff n m).0 t) ∙ f in
              ground arith)
          | inr t ↦ rw (f, t)
        ]
        | inr (k, f) ↦
            rw (f, get_or-set s.slots j k x no_slot (find_slot-inside s.slots n j e))
              (elim (Bool-cases (j == k)) [
                | inl t ↦
                    let same = (==_iff j k).0 t in
                    let names : n ≡ m =
                      sym (find_slot-name s.slots n j e)
                      ∙ ap (λ (l : ℕ). (slot_of s l).name) same
                      ∙ find_slot-name s.slots m k f in
                    rw (t, (==_iff n m).1 names)
                | inr t ↦ elim (Bool-cases (n == m)) [
                  | inl u ↦
                      absurd
                        (apart_slots j k t (sym e ∙ ap (find_slot s.slots) ((==_iff n m).0 u) ∙ f))
                  | inr u ↦ rw (t, u)
                ]
              ])
      ])
    where
      apart_slots : (j k : ℕ) → (j == k) ≡ false → some j ≡ some k → ⊥
      apart_slots j k t e = ground arith

  box-Extended :
      (i n j : ℕ)
      → i < length vm.scopes
      → find_slot (scope_at vm i).slots n ≡ some j
      → Extended name_of vm i n
          (read vm (slot_at i j))
          (cell (length vm.cells))
          (box_of name_of vm i j none).0
  box-Extended i n j h e =
      let s = scope_at vm i in
      let x : ScopeSlot = record (slot_of s j) { box = some (length vm.cells) } in
      let s' : AerScope = record s { slots = set s.slots j x } in
      let cells = vm.cells ++ ((slot_of s j).val ∷ []) in
      let longer = length-append vm.cells ((slot_of s j).val ∷ []) in
      let bound = find_slot-inside s.slots n j e in
      record {
        floors = refl;
        depth = length-set vm.scopes i s';
        finds =
            finds-replaced name_of vm i n (cell (length vm.cells)) s' cells h
              (λ m. place_in-box i j n (length vm.cells) m s e);
        fresh = λ q inside same.
            let k : IsInside vm (cell (length vm.cells)) = rw same at inside in omega (arith, k);
        there = omega (arith, longer);
        kept =
            kept-replaced vm i s' cells h (omega (arith, length-set s.slots j x))
              (λ l k.
                ap (λ (x : ScopeSlot). x.val) (get_or-set s.slots j l x no_slot bound) ∙ vals s j l)
              (omega (arith, longer))
              (λ a k. get_or-append vm.cells ((slot_of s j).val ∷ []) a 0 k);
        reads = get_or-append_last vm.cells (slot_of s j).val 0;
        tables =
            HasTables-same vm (replaced vm i s' cells) (tables name_of vm ok)
              (omega (arith, longer)) (part-same (λ s. s.map) vm i s' h refl)
              (part-same (λ s. s.overflow) vm i s' h refl);
      }
    where
      vals :
          (s : AerScope) (j l : ℕ)
          → (if j == l
              then record (slot_of s j) { box = some (length vm.cells) }
              else slot_of s l).val
            ≡ (slot_of s l).val
      vals s j l = elim (Bool-cases (j == l)) [
        | inl t ↦ rw t (ap (λ (k : ℕ). (slot_of s k).val) ((==_iff j l).0 t))
        | inr t ↦ rw t
      ]

  new_box :
      (i n j : ℕ)
      → i < length vm.scopes
      → find_slot (scope_at vm i).slots n ≡ some j
      → Boxing name_of vm i n (slot_at i j) (box_of name_of vm i j none)
  new_box i n j h e =
      let x = box-Extended i n j h e in
      record {
        floors = x.floors;
        depth = x.depth;
        finds = x.finds;
        sound = Extended-IsSound name_of vm ok x;
        moved = x.reads;
        kept = λ q k. (x.kept q k).1;
      }

  -- The mark on a scope whose table has a captured variable.
  marked_box :
      (i n a : ℕ)
      → i < length vm.scopes
      → find_in name_of vm i n ≡ some (cell a)
      → Boxing name_of vm i n
          (cell a)
          (replaced vm i (record (scope_at vm i) { overflow_has_captures = true }) vm.cells, a)
  unfolding place_in
  marked_box i n a h e =
      let s' : AerScope = record (scope_at vm i) { overflow_has_captures = true } in
      let vm' : Machine = replaced vm i s' vm.cells in
      let finds = λ (k m : ℕ). part-same (λ s. place_in name_of k s m) vm i s' h refl k in
      let kept =
        kept-replaced vm i s' vm.cells h (omega arith) (λ l k. refl) (omega arith) (λ a k. refl) in
      let ordered =
        HasTables-same vm vm' (tables name_of vm ok) (omega arith)
          (part-same (λ s. s.map) vm i s' h refl) (part-same (λ s. s.overflow) vm i s' h refl) in
      let depth = length-set vm.scopes i s' in
      in_cell i n a vm' refl depth finds
        (IsSound-same name_of vm vm' ok refl depth finds (λ q k. (kept q k).0) ordered)
        (λ q k. (kept q k).1) e

  slot_boxed :
      (i n j : ℕ) (p : Place) (o : Option ℕ)
      → i < length vm.scopes
      → find_slot (scope_at vm i).slots n ≡ some j
      → find_in name_of vm i n ≡ some p
      → place_of i j o ≡ p
      → Boxing name_of vm i n p (box_of name_of vm i j o)
  slot_boxed i n j p none h f e at = rw (sym at) (new_box i n j h f)
  slot_boxed i n j p (some a) h f e at =
      rw (sym at) (in_cell i n a vm refl refl (λ k m. refl) ok (λ q k. refl) (e ∙ ap some (sym at)))

  in_range : (i n : ℕ) (p : Place) → find_in name_of vm i n ≡ some p → i < length vm.scopes
  unfolding place_in
  in_range i n p e = elim (Bool-cases (ltb i (length vm.scopes))) [
    | inl t ↦ ltb→lt i (length vm.scopes) t
    | inr t ↦ absurd (
        let k : ◌≡◌ {A = Option Place} none (some p) =
          rw (get_or-outside vm.scopes i new_scope (ground arith)) at e in
        ground arith)
  ]

  boxed_in :
      (i n : ℕ) (p : Place)
      → find_in name_of vm i n ≡ some p
      → (r : Machine × ℕ) × ((box_at name_of vm i n ≡ some r) × Boxing name_of vm i n p r)
  unfolding place_in
  boxed_in i n p e = elim (Option-cases (find_slot (scope_at vm i).slots n)) [
    | inr (j, f) ↦
        let at : place_of i j (slot_of (scope_at vm i) j).box ≡ p = some-injective (rw f at e) in
        (
          _,
          (rw f refl, slot_boxed i n j p (slot_of (scope_at vm i) j).box (in_range i n p e) f e at),
        )
    | inl f ↦ elim (Bool-cases (scope_at vm i).overflow) [
      | inr o ↦
          absurd (let k : ◌≡◌ {A = Option Place} none (some p) = rw (f, o) at e in ground arith)
      | inl o ↦ elim (Option-cases (lookup (scope_at vm i).map (name_of n))) [
        | inl g ↦
            absurd
              (let k : ◌≡◌ {A = Option Place} none (some p) = rw (f, o, g) at e in ground arith)
        | inr (a, g) ↦
            let at : cell a ≡ p = some-injective (rw (f, o, g) at e) in
            (
              (replaced vm i (record (scope_at vm i) { overflow_has_captures = true }) vm.cells, a),
              (
                rw (f, o, g) refl,
                rw (sym at) (marked_box i n a (in_range i n p e) (e ∙ ap some (sym at))),
              ),
            )
      ]
    ]
  ]

  boxed_nowhere : (i n : ℕ) → find_in name_of vm i n ≡ none → box_at name_of vm i n ≡ none
  unfolding place_in
  boxed_nowhere i n e = elim (Option-cases (find_slot (scope_at vm i).slots n)) [
    | inr (j, f) ↦ absurd (
        let k : some (place_of i j (slot_of (scope_at vm i) j).box) ≡ none = rw f at e in
        ground arith)
    | inl f ↦ elim (Bool-cases (scope_at vm i).overflow) [
      | inr o ↦ rw (f, o)
      | inl o ↦ elim (Option-cases (lookup (scope_at vm i).map (name_of n))) [
        | inl g ↦ rw (f, o, g)
        | inr (a, g) ↦ absurd (let k : some (cell a) ≡ none = rw (f, o, g) at e in ground arith)
      ]
    ]
  ]

  -- Where a name is found, it is boxed, and found again in its new place.
  record Caught (n floor r : ℕ) (p : Place) : Type 0 where
    scope : ℕ
    here : find_in name_of vm scope n ≡ some p
    low : floor ≤ scope
    result : Machine × ℕ
    runs : box_search name_of vm n floor r ≡ some result
    boxing : Boxing name_of vm scope n p result
    again : search name_of result.0 n floor r ≡ some (cell result.1)

  moved_here :
      (i n k : ℕ) (p : Place) {r : Machine × ℕ} (b : Boxing name_of vm i n p r)
      → i ≡ k
      → find_in name_of r.0 k n ≡ some (cell r.1)
  moved_here i n k p b e =
      let t : (i == k && n == n) ≡ true = ground arith in b.finds k n ∙ rw t refl

  not_here :
      (i n k : ℕ) (p : Place) {r : Machine × ℕ} (b : Boxing name_of vm i n p r)
      → i ≢ k
      → find_in name_of r.0 k n ≡ find_in name_of vm k n
  not_here i n k p b e =
      let t : (i == k && n == n) ≡ false = ground (arith, unequal i k e) in b.finds k n ∙ rw t refl

  box_search-Caught :
      (n floor r : ℕ) (p : Place) → search name_of vm n floor r ≡ some p → Caught n floor r p
  unfolding search box_search
  box_search-Caught n floor zero p e = absurd (ground arith)
  box_search-Caught n floor (suc r) p e = elim (Option-cases (find_in name_of vm (floor + r) n)) [
    | inr (q, f) ↦
        let here : find_in name_of vm (floor + r) n ≡ some p =
          f ∙ ap some (some-injective (rw f at e)) in
        let (res, (done, b)) = boxed_in (floor + r) n p here in
        record {
          scope = floor + r;
          here = here;
          low = omega arith;
          result = res;
          runs = rw done refl;
          boxing = b;
          again = rw (moved_here (floor + r) n (floor + r) p b refl) refl;
        }
    | inl f ↦
        let c = box_search-Caught n floor r p (rw f at e) in
        let other : c.scope ≢ floor + r =
          λ same. present p (sym c.here ∙ ap (λ (k : ℕ). find_in name_of vm k n) same ∙ f) in
        record {
          scope = c.scope;
          here = c.here;
          low = c.low;
          result = c.result;
          runs = rw (boxed_nowhere (floor + r) n f) c.runs;
          boxing = c.boxing;
          again = rw (not_here c.scope n (floor + r) p c.boxing other, f) c.again;
        }
  ]
    where
      present : (p : Place) → some p ≡ none → ⊥
      present p e = ground arith

  box_search-none :
      (n floor r : ℕ) → search name_of vm n floor r ≡ none → box_search name_of vm n floor r ≡ none
  unfolding search box_search
  box_search-none n floor zero e = refl
  box_search-none n floor (suc r) e = elim (Option-cases (find_in name_of vm (floor + r) n)) [
    | inr (q, f) ↦ absurd (let k : some q ≡ none = rw f at e in ground arith)
    | inl f ↦ rw (boxed_nowhere (floor + r) n f) (box_search-none n floor r (rw f at e))
  ]

  search-above :
      (n floor r : ℕ) (p : Place) {x : Machine × ℕ}
      → Boxing name_of vm 0 n p x
      → 0 < floor
      → search name_of x.0 n floor r ≡ search name_of vm n floor r
  unfolding search
  search-above n floor zero p b h = refl
  search-above n floor (suc r) p b h =
      rw (not_here 0 n (floor + r) p b (λ e. omega arith), search-above n floor r p b h)

-- What a capture owes: the name is in the cell of the box, and every variable has the value it had.
pub record Boxed (name_of : ℕ → Bytes) (vm : Machine) (n : ℕ) (r : Machine × ℕ) : Type 0 where
  pub sound : IsSound name_of r.0
  pub place : vm_scope_get name_of r.0 n ≡ some (cell r.1)
  pub values : (m : ℕ) → value name_of r.0 m ≡ value name_of vm m
  pub kept : (q : Place) → IsInside vm q → read r.0 q ≡ read vm q

module _ (name_of : ℕ → Bytes) (vm : Machine) (ok : IsSound name_of vm) where
  Boxing-Boxed :
      (i n : ℕ) (p : Place) (r : Machine × ℕ)
      → Boxing name_of vm i n p r
      → vm_scope_get name_of vm n ≡ some p
      → vm_scope_get name_of r.0 n ≡ some (cell r.1)
      → Boxed name_of vm n r
  Boxing-Boxed i n p r b before after = record {
    sound = b.sound;
    place = after;
    values = λ m. elim (Bool-cases (n == m)) [
      | inl t ↦ let same = sym ((==_iff n m).0 t) in rw (same, after, before, b.moved)
      | inr t ↦
          let get =
            vm_scope_get-same name_of vm r.0 m b.floors b.depth
              (λ k. b.finds k m ∙ not_moved (some (cell r.1)) (i == k) (n == m) t) in
          rw get (elim (Option-cases (vm_scope_get name_of vm m)) [
            | inl g ↦ rw g
            | inr (q, g) ↦
                let (k, found) = vm_scope_get-found name_of vm m q g in
                rw (g, b.kept q (ok.inside k m q found))
          ])
    ];
    kept = b.kept;
  }

  -- Capturing a variable that is bound returns its box. The name is then found in the box, with the
  -- value that it had, every other name has the value it had, and the machine stays sound.
  pub vm_box_slot-Boxed :
      (n : ℕ) (p : Place)
      → vm_scope_get name_of vm n ≡ some p
      → (r : Machine × ℕ) × ((vm_box_slot name_of vm n ≡ some r) × Boxed name_of vm n r)
  unfolding vm_box_slot vm_scope_get
  vm_box_slot-Boxed n p e =
      let floor = vm_scope_floor vm in
      let rounds = length vm.scopes - floor in
      elim (Option-cases (search name_of vm n floor rounds)) [
        | inr (q, f) ↦
            let c =
              box_search-Caught name_of vm ok n floor rounds p
                (f ∙ ap some (some-injective (rw f at e))) in
            let after : vm_scope_get name_of c.result.0 n ≡ some (cell c.result.1) =
              rw (c.boxing.floors, c.boxing.depth, c.again) refl in
            (c.result, (rw c.runs refl, Boxing-Boxed c.scope n p c.result c.boxing e after))
        | inl f ↦ elim (Bool-cases (floor == 0)) [
          | inl z ↦
              absurd (let k : ◌≡◌ {A = Option Place} none (some p) = rw (f, z) at e in ground arith)
          | inr z ↦
              let found : find_in name_of vm 0 n ≡ some p = rw (f, z) at e in
              let (r, (done, b)) = boxed_in name_of vm ok 0 n p found in
              let above : search name_of r.0 n floor rounds ≡ none =
                search-above name_of vm ok n floor rounds p b (ground arith) ∙ f in
              let after : vm_scope_get name_of r.0 n ≡ some (cell r.1) =
                rw (b.floors, b.depth, above, z, moved_here name_of vm ok 0 n 0 p b refl) refl in
              (
                r,
                (
                  rw (box_search-none name_of vm ok n floor rounds f, z, done) refl,
                  Boxing-Boxed 0 n p r b e after,
                ),
              )
        ]
      ]
