-- ===== src/Chunk/Pool.antt =====
-- source/core/vm.c: the pool of constants, in which a string stands once.
use aer.Base.{
  ℕ, zero, suc, ◌+◌, ◌*◌, ◌^◌, ◌<◌, ◌≤◌, ◌%◌, not, ◌≡◌, refl, sym, ◌∙◌, ap, inl, inr, ◌⊎◌, ◌↔◌,
  Bool, true, false, List, [], ◌∷◌, ◌++◌, Option, none, some, arith, ◌==◌, if◌then◌else◌, length,
  length-append, get_elem?, Bool-cases, some-injective, ==_iff,
}
use mathlib.Core.Bool.{false≢true}
use aer.Base.Bytes.{Bytes, c_string, str_equal, str_equal_refl, str_equal_iff}
use aer.Base.Int.{eq_of_parts}
use aer.ValueBox.{is_nan}
use aer.HashTable.Put.{added-le}
use aer.HashTable.Store.{IsValid, hashtable_put-Stored}
use aer.HashTable.{HashTable, lookup}
use aer.Chunk.{
  Chunk, Constant, null, string, boolean, integer, real, function, array, dict, same_constant,
  find_constant, chunk_pool_append, add_string, add_other, chunk_add_pool, grown,
}

abbrev key_of : Constant → Option Bytes
key_of (string s) = some (c_string s)
key_of _ = none

-- The key of the string at an index of a pool.
abbrev pub key_at : List Constant → ℕ → Option Bytes
key_at [] i = none
key_at (v ∷ pool) zero = key_of v
key_at (v ∷ pool) (suc i) = key_at pool i

key_at-append :
    (pool : List Constant) (v : Constant) (i : ℕ)
    → key_at (pool ++ (v ∷ [])) i ≡ (if i == length pool then key_of v else key_at pool i)
key_at-append [] v zero = refl
key_at-append [] v (suc i) = ground arith
key_at-append (e ∷ pool) v zero = ground arith
key_at-append (e ∷ pool) v (suc i) = ground (arith, key_at-append pool v i)

get_elem?-append :
    (pool : List Constant) (v : Constant) (i : ℕ)
    → i < length pool
    → get_elem? (pool ++ (v ∷ [])) i ≡ get_elem? pool i
get_elem?-append [] v i h = absurd (omega arith)
get_elem?-append (e ∷ pool) v zero h = refl
get_elem?-append (e ∷ pool) v (suc i) h = get_elem?-append pool v i (omega arith)

get_elem?-last :
    (pool : List Constant) (v : Constant) → get_elem? (pool ++ (v ∷ [])) (length pool) ≡ some v
get_elem?-last [] v = refl
get_elem?-last (e ∷ pool) v = get_elem?-last pool v

-- The index finds a key where the pool has a string of that key, and nowhere else.
pub record IsIndexed (c : Chunk) : Type 0 where
  pub valid : IsValid c.name_index
  pub small : c.name_index.count ≤ length c.pool
  pub agrees : (k : Bytes) (i : ℕ) → (lookup c.name_index k ≡ some i) ↔ (key_at c.pool i ≡ some k)

-- What an entry of the pool has to do with a constant: it is the constant, up to the sign of a zero, or a
-- string that C reads in the same way.
pub data Stands : Constant → Option Constant → Type 0 where
  itself : {v : Constant} → Stands v (some v)
  zeros : {a b : ℕ} → a % 2 ^ 63 ≡ 0 → b % 2 ^ 63 ≡ 0 → Stands (real a) (some (real b))
  same_text : {s u : Bytes} → c_string u ≡ c_string s → Stands (string s) (some (string u))

-- A constant that can be shared: no NaN, and no array or dictionary, which are cells of their own.
abbrev pub is_shared : Constant → Bool
is_shared (real r) = not (is_nan r)
is_shared (array n) = false
is_shared (dict n) = false
is_shared _ = true

same_constant-Stands : (e v : Constant) → same_constant e v ≡ true → Stands v (some e)
unfolding same_constant
same_constant-Stands null null h = itself
same_constant-Stands (boolean a) (boolean b) h = let same : a ≡ b = ground arith in rw same itself
same_constant-Stands (integer a) (integer b) h =
    let same : a ≡ b = eq_of_parts a b (ground arith) in rw same itself
same_constant-Stands (real a) (real b) h = elim (Bool-cases (a == b)) [
  | inl t ↦ let same = (==_iff a b).0 t in rw same itself
  | inr t ↦ zeros (ground arith) (ground arith)
]
same_constant-Stands (function o a) (function p b) h =
    let (same, same') : (o ≡ p) × (a ≡ b) = ground arith in rw (same, same') itself
same_constant-Stands _ _ h = absurd (ground arith)

same_constant_refl :
    (v : Constant) → key_of v ≡ none → is_shared v ≡ true → same_constant v v ≡ true
unfolding same_constant
same_constant_refl null k h = refl
same_constant_refl (boolean b) k h = ground arith
same_constant_refl (integer n) k h = ground arith
same_constant_refl (real r) k h = ground arith
same_constant_refl (function o a) k h = ground arith
same_constant_refl (string s) k h = absurd (ground arith)
same_constant_refl (array n) k h = absurd (ground arith)
same_constant_refl (dict n) k h = absurd (ground arith)

pub record Added (c : Chunk) (v : Constant) (r : Chunk × ℕ) : Type 0 where
  pub ok : IsIndexed r.0
  pub keeps : (j : ℕ) → j < length c.pool → get_elem? r.0.pool j ≡ get_elem? c.pool j
  pub holds : Stands v (get_elem? r.0.pool r.1)
  pub again : (is_shared v ≡ false) ⊎ (chunk_add_pool r.0 v ≡ some r)

unless {ℓ} : {P : Type ℓ} (b : Bool) → (b ≡ true → P) → (b ≡ false) ⊎ P
unless true f = inr (f refl)
unless false f = inl refl

find_constant-at :
    (pool : List Constant) (v : Constant) (i k : ℕ)
    → find_constant pool v i ≡ some k
    → (j : ℕ) × ((k ≡ i + j) × Stands v (get_elem? pool j))
unfolding find_constant
find_constant-at [] v i k h = absurd (ground arith)
find_constant-at (e ∷ pool) v i k h = elim (Bool-cases (same_constant e v)) [
  | inl t ↦
      (0, (let found : some i ≡ some k = rw t at h in ground arith, same_constant-Stands e v t))
  | inr t ↦
      let (j, (at, stands)) = find_constant-at pool v (i + 1) k (rw t at h) in
      (suc j, (omega arith, stands))
]

find_constant-append :
    (pool : List Constant) (v : Constant) (i : ℕ)
    → find_constant pool v i ≡ none
    → same_constant v v ≡ true
    → find_constant (pool ++ (v ∷ [])) v i ≡ some (i + length pool)
unfolding find_constant
find_constant-append [] v i h t = ground arith
find_constant-append (e ∷ pool) v i h t = elim (Bool-cases (same_constant e v)) [
  | inl s ↦ absurd (let k : some i ≡ none = rw s at h in ground arith)
  | inr s ↦ rw (s, find_constant-append pool v (i + 1) (rw s at h) t) (ap some (omega arith))
]

key_at-inside :
    (pool : List Constant) (i : ℕ) (k : Bytes) → key_at pool i ≡ some k → i < length pool
key_at-inside [] i k h = absurd (ground arith)
key_at-inside (v ∷ pool) zero k h = omega arith
key_at-inside (v ∷ pool) (suc i) k h = omega (arith, key_at-inside pool i k h)

key_at-before :
    (pool : List Constant) (v : Constant) (i : ℕ)
    → i < length pool
    → key_at (pool ++ (v ∷ [])) i ≡ key_at pool i
key_at-before pool v i h = rw (key_at-append pool v i) (ground arith)

key_at-last :
    (pool : List Constant) (v : Constant) → key_at (pool ++ (v ∷ [])) (length pool) ≡ key_of v
key_at-last pool v = rw (key_at-append pool v (length pool)) (ground arith)

-- An entry behind the append is the new one or stood before it.
key_at-cases :
    (pool : List Constant) (v : Constant) (i : ℕ) (k : Bytes)
    → key_at (pool ++ (v ∷ [])) i ≡ some k
    → ((i ≡ length pool) × (key_of v ≡ some k)) ⊎ (key_at pool i ≡ some k)
key_at-cases pool v i k h = elim (Bool-cases (i == length pool)) [
  | inl e ↦ inl ((==_iff i (length pool)).0 e, rw e at (rw (key_at-append pool v i) at h))
  | inr e ↦ inr (rw e at (rw (key_at-append pool v i) at h))
]

Stands-text :
    (pool : List Constant) (i : ℕ) (s : Bytes)
    → key_at pool i ≡ some (c_string s)
    → Stands (string s) (get_elem? pool i)
Stands-text [] i s h = absurd (ground arith)
Stands-text (string u ∷ pool) zero s h = same_text (some-injective h)
Stands-text (v ∷ pool) (suc i) s h = Stands-text pool i s h
Stands-text (null ∷ pool) zero s h = absurd (ground arith)
Stands-text (boolean b ∷ pool) zero s h = absurd (ground arith)
Stands-text (integer n ∷ pool) zero s h = absurd (ground arith)
Stands-text (real r ∷ pool) zero s h = absurd (ground arith)
Stands-text (function o a ∷ pool) zero s h = absurd (ground arith)
Stands-text (array n ∷ pool) zero s h = absurd (ground arith)
Stands-text (dict n ∷ pool) zero s h = absurd (ground arith)

module _ (c : Chunk) (ok : IsIndexed c) where
  -- A constant that is no string goes to the end of the pool.
  appended-IsIndexed : (v : Constant) → key_of v ≡ none → IsIndexed (chunk_pool_append c v).0
  appended-IsIndexed v no_key = record {
    valid = ok.valid;
    small = omega (arith, ok.small, length-append c.pool (v ∷ []));
    agrees = λ k i. (
      λ e.
          let there = (ok.agrees k i).0 e in
          key_at-before c.pool v i (key_at-inside c.pool i k there) ∙ there,
      λ e.
          (ok.agrees k i).1
            (elim (key_at-cases c.pool v i k e) [ inl (_, h) ↦ absurd (ground arith) | inr h ↦ h ]),
    );
  }

  other-Added :
      (v : Constant) (o : Option ℕ)
      → key_of v ≡ none
      → find_constant c.pool v 0 ≡ o
      → ((d : Chunk) → chunk_add_pool d v ≡ some (add_other d v (find_constant d.pool v 0)))
      → Added c v (add_other c v o)
  other-Added v (some i) no_key e step =
      let (j, (at, stands)) = find_constant-at c.pool v 0 i e in
      let same : i ≡ j = omega arith in
      record { ok = ok; keeps = λ j h. refl; holds = rw same stands; again = inr (step c ∙ rw e) }
  other-Added v none no_key e step = record {
    ok = appended-IsIndexed v no_key;
    keeps = λ j h. get_elem?-append c.pool v j h;
    holds = rw (get_elem?-last c.pool v) itself;
    again = unless (is_shared v) λ t.
        let d = (chunk_pool_append c v).0 in
        step d
        ∙ rw (find_constant-append c.pool v 0 e (same_constant_refl v no_key t))
            (ap (λ (n : ℕ). some (d, n)) (omega arith));
  }

  -- A new string has its index in the table.
  string-IsIndexed :
      (s : Bytes) (t : HashTable ℕ)
      → lookup c.name_index (c_string s) ≡ none
      → IsValid t
      → t.count ≤ c.name_index.count + 1
      → ((q : Bytes)
          → lookup t q
            ≡ (if str_equal (c_string s) q then some (length c.pool) else lookup c.name_index q))
      → IsIndexed (record c {
        pool = c.pool ++ (string s ∷ []);
        pool_cap = grown (length c.pool) c.pool_cap 16;
        name_index = t;
      })
  string-IsIndexed s t new valid grew reads = record {
    valid = valid;
    small = omega (arith, ok.small, length-append c.pool (string s ∷ []));
    agrees = λ k i. elim (Bool-cases (str_equal (c_string s) k)) [
      | inl e ↦
          let same = (str_equal_iff (c_string s) k).0 e in
          let here : lookup t k ≡ some (length c.pool) = reads k ∙ rw e refl in
          (
            λ h.
                let both : some i ≡ some (length c.pool) = sym h ∙ here in
                let at : i ≡ length c.pool = ground arith in
                rw (at, key_at-last c.pool (string s), same),
            λ h. elim (key_at-cases c.pool (string s) i k h) [
              | inl (at, _) ↦ rw at here
              | inr before ↦
                  let old : lookup c.name_index k ≡ some i = (ok.agrees k i).1 before in
                  let gone : lookup c.name_index k ≡ none = rw same at new in cc
            ],
          )
      | inr e ↦
          let there : lookup t k ≡ lookup c.name_index k = reads k ∙ rw e refl in
          (
            λ h.
                let before = (ok.agrees k i).0 (sym there ∙ h) in
                key_at-before c.pool (string s) i (key_at-inside c.pool i k before) ∙ before,
            λ h. elim (key_at-cases c.pool (string s) i k h) [
              | inl (_, key) ↦
                  let equal : str_equal (c_string s) k ≡ true =
                    (str_equal_iff (c_string s) k).1 (some-injective key) in
                  absurd (false≢true (sym e ∙ equal))
              | inr before ↦ there ∙ (ok.agrees k i).1 before
            ],
          )
    ];
  }

  string-Added :
      (s : Bytes) (o : Option ℕ)
      → length c.pool * 100 < 2 ^ 32
      → lookup c.name_index (c_string s) ≡ o
      → (r : Chunk × ℕ) × ((add_string c s o ≡ some r) × Added c (string s) r)
  unfolding chunk_add_pool
  string-Added s (some i) small e = (
    (c, i),
    (
      refl,
      record {
        ok = ok;
        keeps = λ j h. refl;
        holds = Stands-text c.pool i s ((ok.agrees (c_string s) i).0 e);
        again = inr (rw e);
      },
    ),
  )
  string-Added s none small e =
      let (r, done, stored) =
        hashtable_put-Stored c.name_index (c_string s) (length c.pool) ok.valid
          (omega (arith, ok.small)) in
      (
        (
          record c {
            pool = c.pool ++ (string s ∷ []);
            pool_cap = grown (length c.pool) c.pool_cap 16;
            name_index = r.0;
          },
          length c.pool,
        ),
        (
          rw done,
          record {
            ok =
                string-IsIndexed s r.0 e (inr stored.live)
                  (omega (arith, stored.counts, added-le (lookup c.name_index (c_string s))))
                  stored.reads;
            keeps = λ j h. get_elem?-append c.pool (string s) j h;
            holds = rw (get_elem?-last c.pool (string s)) itself;
            again = inr (rw (stored.reads (c_string s), str_equal_refl (c_string s)));
          },
        ),
      )

  no_string :
      (v : Constant)
      → key_of v ≡ none
      → ((d : Chunk) → chunk_add_pool d v ≡ some (add_other d v (find_constant d.pool v 0)))
      → (r : Chunk × ℕ) × ((chunk_add_pool c v ≡ some r) × Added c v r)
  no_string v no_key step = (
    add_other c v (find_constant c.pool v 0),
    (step c, other-Added v (find_constant c.pool v 0) no_key refl step),
  )

  -- Adding a constant to a pool that its index agrees with, of less than 42,949,673 entries, returns an
  -- index at which the constant stands, or a zero of the other sign for a zero, or a string that C reads in
  -- the same way. It keeps every entry that was there and the agreement of the index; adding the same constant again, if it is no NaN, array or dictionary, gives the same index and
  -- changes nothing.
  pub chunk_add_pool-Added :
      (v : Constant)
      → length c.pool * 100 < 2 ^ 32
      → (r : Chunk × ℕ) × ((chunk_add_pool c v ≡ some r) × Added c v r)
  unfolding chunk_add_pool
  chunk_add_pool-Added (string s) small =
      string-Added s (lookup c.name_index (c_string s)) small refl
  chunk_add_pool-Added null small = no_string null refl (λ d. refl)
  chunk_add_pool-Added (boolean b) small = no_string (boolean b) refl (λ d. refl)
  chunk_add_pool-Added (integer n) small = no_string (integer n) refl (λ d. refl)
  chunk_add_pool-Added (real r) small = no_string (real r) refl (λ d. refl)
  chunk_add_pool-Added (function o a) small = no_string (function o a) refl (λ d. refl)
  chunk_add_pool-Added (array n) small = no_string (array n) refl (λ d. refl)
  chunk_add_pool-Added (dict n) small = no_string (dict n) refl (λ d. refl)
