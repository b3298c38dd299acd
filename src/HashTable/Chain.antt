-- ===== src/HashTable/Chain.antt =====
-- The invariant of the loop behind a removal: which probe sequences may be broken, and where.
pub mod Step
use aer.Base.{ℕ, ◌+◌, ◌-◌, ◌≤◌, ◌<◌, ◌≡◌, ◌≢◌, sym, ◌∙◌, ◌⊎◌, inl, inr, none, some, arith}
use aer.Base.Bytes.{Bytes}
use aer.HashTable.Contents.{update-cases}
use aer.HashTable.Placement.{update, IsPlaced}
use aer.HashTable.Ring.{
  walk, dist, dist-lt, walk-dist, dist-walk, walk-zero, dist_self, dist-ne-zero, walk_beyond,
  dist_beyond,
}
use aer.HashTable.{HashTableEntry, Bucket}

module _ {ℓ} {V : Type ℓ} (c : ℕ) (home : Bytes → ℕ) (start : ℕ) where
  -- The loop stands at rank `s`. An empty slot on the way to an entry has been passed by the loop,
  -- and no slot between the loop and that entry is empty.
  abbrev pub IsMended : (ℕ → Bucket V) → ℕ → Type ℓ
  IsMended b s =
      (p d : ℕ) (e : HashTableEntry V)
      → p < c
      → b p ≡ some e
      → d < dist c (home e.key) p
      → b (walk c (home e.key) d) ≡ none
      → (dist c start (walk c (home e.key) d) < s)
        × (s ≤ dist c start p)
        × ((r : ℕ) → s ≤ r → r ≤ dist c start p → b (walk c start r) ≢ none)

  -- An empty slot that the loop has not passed ends it.
  pub record Ends (b : ℕ → Bucket V) (s : ℕ) : Type ℓ where
    pub last : ℕ
    pub ahead : s ≤ last
    pub inside : last < c
    pub empty : b (walk c start last) ≡ none

pub le_cases : (a b : ℕ) → a ≤ b → (a < b) ⊎ (a ≡ b)
le_cases a b h = omega arith

-- Different ranks are different slots.
pub rank_ne :
    (c start s r : ℕ) → start < c → s < c → r < c → s ≢ r → walk c start s ≢ walk c start r
rank_ne c start s r h hs hr differ e =
    differ (sym (dist-walk c start s h hs) ∙ rw e (dist-walk c start r h hr))

module _ {ℓ} {V : Type ℓ} (c : ℕ) (home : Bytes → ℕ) (home-lt : (k : Bytes) → home k < c)
    (start : ℕ) (hs : start < c) where
  -- With the freed slot emptied in a sound table the loop may start behind it.
  pub IsMended-start :
      (b : ℕ → Bucket V) → IsPlaced c home b → IsMended c home start (update b start none) 1
  IsMended-start b placed p d e hp at hd empty = elim (update-cases b start p none) [
    | inl (_, ew) ↦ cc
    | inr (away, ew) ↦ elim (update-cases b start (walk c (home e.key) d) none) [
      | inr (_, ew') ↦ absurd (placed p d e hp (sym ew ∙ at) hd (sym ew' ∙ empty))
      | inl (here, _) ↦
          let e0 : walk c (home e.key) d ≡ walk c start 0 = sym here ∙ sym (walk-zero c start hs) in
          (
            rw (← here, dist_self c start) (omega arith),
            dist-ne-zero c start p hs hp away,
            λ r low high.
                let far =
                  dist_beyond c (home e.key) start d 0 p (home-lt e.key) hs hp (omega arith)
                    (omega arith) (omega (arith, dist-lt c (home e.key) p (home-lt e.key) hp)) e0 in
                let spot =
                  walk_beyond c (home e.key) start d 0 r (home-lt e.key) hs (omega arith)
                    (omega (arith, dist-lt c start p hs hp))
                    (omega (arith, dist-lt c (home e.key) p (home-lt e.key) hp)) e0 in
                elim (le_cases r (dist c start p) high) [
                  | inl less ↦
                      let full = placed p (d + (r - 0)) e hp (sym ew ∙ at) (omega arith) in
                      elim (update-cases b start (walk c start r) none) [
                        | inl (same, _) ↦ absurd (
                            rank_ne c start 0 r hs (omega arith)
                              (omega (arith, dist-lt c start p hs hp)) (omega arith)
                              (walk-zero c start hs ∙ same))
                        | inr (_, eu) ↦ λ none_there. rw spot at full (sym eu ∙ none_there)
                      ]
                  | inr same ↦ rw (same, walk-dist c start p hs hp, at) (λ h. cc)
                ],
          )
    ]
  ]

  -- Where the loop meets an empty slot the table is sound.
  pub IsMended-finish :
      (b : ℕ → Bucket V) (s : ℕ)
      → IsMended c home start b s
      → b (walk c start s) ≡ none
      → IsPlaced c home b
  IsMended-finish b s mended stop p d e hp at hd empty =
      let (_, reach, run) = mended p d e hp at hd empty in run s (omega arith) reach stop
