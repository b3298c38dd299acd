-- ===== src/HashTable/Contents.antt =====
-- What the buckets hold as a partial map, and how a write to one slot changes it.
use aer.Base.{
  ℕ, ◌<◌, ◌≡◌, ◌≢◌, ◌↔◌, sym, ◌∙◌, ◌⊎◌, inl, inr, Option, none, some, false, arith, ◌==◌, ==_iff,
  if◌then◌else◌, Bool-cases, Option-cases,
}
use aer.Base.Bytes.{Bytes, str_equal, str_equal_iff}
use aer.HashTable.Placement.{update, IsUnique, Holds}
use aer.HashTable.{HashTableEntry, Bucket}

pub update_here {ℓ} : {A : Type ℓ} (b : ℕ → A) (p : ℕ) (x : A) → update b p x p ≡ x
update_here b p x = ground arith

-- The slot that was written, or another.
pub update-cases {ℓ} :
    {A : Type ℓ} (b : ℕ → A) (p q : ℕ) (x : A)
    → ((p ≡ q) × (update b p x q ≡ x)) ⊎ ((p ≢ q) × (update b p x q ≡ b q))
update-cases b p q x = elim (Bool-cases (p == q)) [
  | inl e ↦ inl ((==_iff p q).0 e, rw e)
  | inr e ↦ inr ((λ h. ground arith), rw e)
]

pub not_equal : (a b : Bytes) → str_equal a b ≡ false → a ≢ b
not_equal a b e h = let t = (str_equal_iff a b).1 h in cc

module _ {ℓ} {V : Type ℓ} (c : ℕ) where
  -- The buckets hold exactly the entries of the map.
  abbrev pub Represents : (ℕ → Bucket V) → (Bytes → Option V) → Type ℓ
  Represents b f = (k : Bytes) (v : V) → (f k ≡ some v) ↔ Holds c b k v

  -- No slot but `p` holds the key.
  abbrev pub IsOnly : (ℕ → Bucket V) → Bytes → ℕ → Type ℓ
  IsOnly b k p = (q : ℕ) (e : HashTableEntry V) → q < c → b q ≡ some e → e.key ≡ k → p ≡ q

  -- An entry is still held where its slot is as it was.
  pub moved :
      (b b' : ℕ → Bucket V) (k : Bytes) (v : V) (h : Holds c b k v)
      → b' h.slot ≡ b h.slot
      → Holds c b' k v
  moved b b' k v h e = record {
    slot = h.slot;
    entry = h.entry;
    inside = h.inside;
    there = e ∙ h.there;
    its_key = h.its_key;
    its_value = h.its_value;
  }

  pub Represents-same :
      (b : ℕ → Bucket V) (f g : Bytes → Option V)
      → Represents b f
      → Represents b g
      → (k : Bytes) → f k ≡ g k
  Represents-same b f g rf rg k = elim (Option-cases (f k)) [
    | inr (v, e) ↦ e ∙ sym ((rg k v).1 ((rf k v).0 e))
    | inl e ↦ elim (Option-cases (g k)) [
      | inl e' ↦ e ∙ sym e'
      | inr (v, e') ↦ let found = (rf k v).1 ((rg k v).0 e') in cc
    ]
  ]

  pub write-IsUnique :
      (b : ℕ → Bucket V) (p : ℕ) (e : HashTableEntry V)
      → IsUnique c b
      → IsOnly b e.key p
      → IsUnique c (update b p (some e))
  write-IsUnique b p e unique only q r f g hq hr at at' same = elim (update-cases b p q (some e)) [
    | inl (here, ew) ↦ elim (update-cases b p r (some e)) [
      | inl (here', _) ↦ sym here ∙ here'
      | inr (_, ew') ↦ let mine : g.key ≡ e.key = cc in sym here ∙ only r g hr (sym ew' ∙ at') mine
    ]
    | inr (_, ew) ↦ elim (update-cases b p r (some e)) [
      | inl (here', ew') ↦
          let mine : f.key ≡ e.key = cc in sym (only q f hq (sym ew ∙ at) mine) ∙ here'
      | inr (_, ew') ↦ unique q r f g hq hr (sym ew ∙ at) (sym ew' ∙ at') same
    ]
  ]

  pub erase-IsUnique : (b : ℕ → Bucket V) (p : ℕ) → IsUnique c b → IsUnique c (update b p none)
  erase-IsUnique b p unique q r f g hq hr at at' same =
      unique q r f g hq hr (ground arith) (ground arith) same

  -- Writing an entry where its key stands, or in a free slot if it stands nowhere.
  pub write-Represents :
      (b : ℕ → Bucket V) (f : Bytes → Option V) (p : ℕ) (e : HashTableEntry V)
      → Represents b f
      → p < c
      → IsOnly b e.key p
      → ((old : HashTableEntry V) → b p ≡ some old → old.key ≡ e.key)
      → Represents (update b p (some e)) (λ q. if str_equal e.key q then some e.payload else f q)
  write-Represents b f p e rep hp only old k v = elim (Bool-cases (str_equal e.key k)) [
    | inl same ↦
        let named : e.key ≡ k = (str_equal_iff e.key k).0 same in
        rw same (
          (λ h. record {
            slot = p;
            entry = e;
            inside = hp;
            there = update_here b p (some e);
            its_key = named;
            its_value = cc;
          }),
          (λ h. elim (update-cases b p h.slot (some e)) [
            | inl (_, ew) ↦ let w = h.there in let t = h.its_value in cc
            | inr (away, ew) ↦
                absurd
                  (away (only h.slot h.entry h.inside (sym ew ∙ h.there) (h.its_key ∙ sym named)))
          ]),
        )
    | inr other ↦
        let differ = not_equal e.key k other in
        rw other (
          (λ h.
              let held = (rep k v).0 h in
              elim (update-cases b p held.slot (some e)) [
                | inl (here, _) ↦
                    absurd (differ (sym (old held.entry (rw here held.there)) ∙ held.its_key))
                | inr (_, ew) ↦ moved b _ k v held ew
              ]),
          (λ h. elim (update-cases b p h.slot (some e)) [
            | inl (_, ew) ↦
                let w = h.there in
                let mine : h.entry.key ≡ e.key = cc in absurd (differ (sym mine ∙ h.its_key))
            | inr (_, ew) ↦ (rep k v).1 (moved _ b k v h (sym ew))
          ]),
        )
  ]

  pub erase-Represents :
      (b : ℕ → Bucket V) (f : Bytes → Option V) (p : ℕ) (e : HashTableEntry V)
      → Represents b f
      → IsUnique c b
      → p < c
      → b p ≡ some e
      → Represents (update b p none) (λ q. if str_equal e.key q then none else f q)
  erase-Represents b f p e rep unique hp at k v = elim (Bool-cases (str_equal e.key k)) [
    | inl same ↦
        let named : e.key ≡ k = (str_equal_iff e.key k).0 same in
        rw same (
          (λ h. cc),
          (λ h. elim (update-cases b p h.slot none) [
            | inl (_, ew) ↦ let w = h.there in cc
            | inr (away, ew) ↦ absurd (
                away (
                  unique p h.slot e h.entry hp h.inside at (sym ew ∙ h.there)
                    (named ∙ sym h.its_key)))
          ]),
        )
    | inr other ↦
        let differ = not_equal e.key k other in
        rw other (
          (λ h.
              let held = (rep k v).0 h in
              elim (update-cases b p held.slot none) [
                | inl (here, _) ↦
                    let w : b p ≡ some held.entry = rw here held.there in
                    let mine : e.key ≡ held.entry.key = cc in absurd (differ (mine ∙ held.its_key))
                | inr (_, ew) ↦ moved b _ k v held ew
              ]),
          (λ h. elim (update-cases b p h.slot none) [
            | inl (_, ew) ↦ let w = h.there in cc
            | inr (_, ew) ↦ (rep k v).1 (moved _ b k v h (sym ew))
          ]),
        )
  ]
