-- ===== src/HashTable/Chain/Step.antt =====
-- One round of the loop behind a removal: an entry is taken out and put again.
use aer.Base.{ℕ, ◌+◌, ◌-◌, ◌≤◌, ◌<◌, ◌≡◌, ◌≢◌, sym, ap, ◌∙◌, ◌⊎◌, inl, inr, none, some, arith}
use aer.Base.Bytes.{Bytes}
use aer.HashTable.Chain.{IsMended, Ends, rank_ne, le_cases}
use aer.HashTable.Contents.{update_here, update-cases}
use aer.HashTable.Placement.{update, Reaches}
use aer.HashTable.Ring.{
  walk, dist, dist-lt, walk-lt, walk-dist, dist-walk, walk_beyond, dist_beyond,
}
use aer.HashTable.{HashTableEntry, Bucket}

lt_cases : (a b : ℕ) → (a < b) ⊎ ((a ≡ b) ⊎ (b < a))
lt_cases a b = omega arith

lt_or_le : (a b : ℕ) → (a < b) ⊎ (b ≤ a)
lt_or_le a b = omega arith

-- A slot moved: what is empty afterwards was freed, or was empty before.
emptied {ℓ} :
    {V : Type ℓ} (b : ℕ → Bucket V) (pos q x : ℕ) (e : HashTableEntry V)
    → update (update b pos none) q (some e) x ≡ none
    → (pos ≡ x) ⊎ (b x ≡ none)
emptied b pos q x e h = elim (update-cases (update b pos none) q x (some e)) [
  | inl (_, ew) ↦ cc
  | inr (_, ew) ↦ elim (update-cases b pos x none) [
    | inl (here, _) ↦ inl here
    | inr (_, ew') ↦ inr (sym ew' ∙ sym ew ∙ h)
  ]
]

module _ {ℓ} {V : Type ℓ} (c : ℕ) (home : Bytes → ℕ) (home-lt : (k : Bytes) → home k < c)
    (start : ℕ) (hs : start < c) (b : ℕ → Bucket V) (s : ℕ) (e0 : HashTableEntry V) (q : ℕ)
    (s_lt : s < c) (at0 : b (walk c start s) ≡ some e0) (mended : IsMended c home start b s)
    (ends : Ends c home start b s)
    (reach : Reaches c home (update b (walk c start s) none) e0.key q)
    (free : update b (walk c start s) none q ≡ none) where
  rank_apart : (m : ℕ) → s ≤ m → m < c → b (walk c start m) ≡ none → walk c start s ≢ walk c start m
  rank_apart m low high empty e = let same : b (walk c start m) ≡ some e0 = rw (← e) at0 in cc

  ahead_of : (m : ℕ) → s ≤ m → m < c → b (walk c start m) ≡ none → s + 1 ≤ m
  ahead_of m low high empty = elim (le_cases s m low) [
    | inl less ↦ omega arith
    | inr same ↦ absurd (rank_apart m low high empty (ap (walk c start) same))
  ]

  -- The entry is not put into an empty slot ahead of the loop.
  lands : (m : ℕ) → s ≤ m → m < c → b (walk c start m) ≡ none → q ≢ walk c start m
  lands m low high empty same =
      let pos = walk c start s in
      let h0 = home e0.key in
      let inside = walk-lt c start s hs s_lt in
      elim (lt_cases (dist c h0 q) (dist c h0 pos)) [
        | inl before ↦
            let back = walk-dist c h0 q (home-lt e0.key) reach.inside in
            let (less, _, _) =
              mended pos (dist c h0 q) e0 inside at0 before (rw (back, same) empty) in
            absurd (omega (arith, rw (back, same, dist-walk c start m hs high) at less))
        | inr (inl there) ↦
            let met : q ≡ pos =
              sym (walk-dist c h0 q (home-lt e0.key) reach.inside)
              ∙ ap (walk c h0) there
              ∙ walk-dist c h0 pos (home-lt e0.key) inside in
            let away = rank_apart m low high empty in absurd (away (sym met ∙ same))
        | inr (inr after) ↦
            let (f, full, _) = reach.passes (dist c h0 pos) after in
            let seen : update b pos none pos ≡ some f =
              rw (walk-dist c h0 pos (home-lt e0.key) inside) at full in
            cc (update_here b pos none)
      ]

  pub step-Ends : Ends c home start (update (update b (walk c start s) none) q (some e0)) (s + 1)
  step-Ends = record {
    last = ends.last;
    ahead = ahead_of ends.last ends.ahead ends.inside ends.empty;
    inside = ends.inside;
    empty =
        let m = ends.last in
        let away = lands m ends.ahead ends.inside ends.empty in
        elim (update-cases (update b (walk c start s) none) q (walk c start m) (some e0)) [
          | inl (same, _) ↦ absurd (away same)
          | inr (_, ew) ↦ elim (update-cases b (walk c start s) (walk c start m) none) [
            | inl (_, eu) ↦ ew ∙ eu
            | inr (_, eu) ↦ ew ∙ eu ∙ ends.empty
          ]
        ];
  }

  -- A probe sequence that the freed slot breaks.
  module _ (p d : ℕ) (e : HashTableEntry V) (hp : p < c) (at : b p ≡ some e)
      (hd : d < dist c (home e.key) p) (here : walk c start s ≡ walk c (home e.key) d) where
    beyond :
        (r : ℕ) → s ≤ r → r < c → d + (r - s) < dist c (home e.key) p → b (walk c start r) ≢ none
    beyond r low high short empty =
        let bound = dist-lt c (home e.key) p (home-lt e.key) hp in
        let spot =
          walk_beyond c (home e.key) start d s r (home-lt e.key) hs low high (omega arith)
            (sym here) in
        let (less, _, _) = mended p (d + (r - s)) e hp at short (rw spot empty) in
        absurd (omega (arith, rw (spot, dist-walk c start r hs high) at less))

    far : dist c start p ≡ s + (dist c (home e.key) p - d)
    far = elim (lt_or_le (s + (dist c (home e.key) p - d)) c) [
      | inl short ↦
          dist_beyond c (home e.key) start d s p (home-lt e.key) hs hp s_lt (omega arith) short
            (sym here)
      | inr long ↦
          let m = ends.inside in
          let n = ends.ahead in
          absurd (beyond ends.last ends.ahead ends.inside (omega arith) ends.empty)
    ]

  pub step-IsMended :
      IsMended c home start (update (update b (walk c start s) none) q (some e0)) (s + 1)
  step-IsMended p d e hp at hd empty =
      elim (update-cases (update b (walk c start s) none) q p (some e0)) [
        | inl (here, ew) ↦
            let mine : e.key ≡ e0.key = cc in
            let (f, full, _) = reach.passes d (rw (mine, ← here) at hd) in
            let free_now = rw mine at empty in
            elim (update-cases (update b (walk c start s) none) q (walk c (home e0.key) d)
              (some e0)) [ inl (_, eu) ↦ cc | inr (_, eu) ↦ cc ]
        | inr (_, ew) ↦ elim (update-cases b (walk c start s) p none) [
          | inl (_, eu) ↦ cc
          | inr (away, eu) ↦
              let was : b p ≡ some e = sym eu ∙ sym ew ∙ at in
              elim (emptied b (walk c start s) q (walk c (home e.key) d) e0 empty) [
                | inl broken ↦
                    let reached = far p d e hp was hd broken in
                    let bound = dist-lt c start p hs hp in
                    (
                      rw (← broken, dist-walk c start s hs s_lt) (omega arith),
                      omega arith,
                      λ r low high gone. elim (le_cases r (dist c start p) high) [
                        | inr same ↦ let there = rw (same, walk-dist c start p hs hp) at gone in cc
                        | inl less ↦ elim (emptied b (walk c start s) q (walk c start r) e0 gone) [
                          | inl same ↦ rank_ne c start s r hs s_lt (omega arith) (omega arith) same
                          | inr empty' ↦
                              beyond p d e hp was hd broken r (omega arith) (omega arith)
                                (omega arith) empty'
                        ]
                      ],
                    )
                | inr before ↦
                    let (less, low, run) = mended p d e hp was hd before in
                    let bound = dist-lt c start p hs hp in
                    (
                      omega arith,
                      elim (le_cases s (dist c start p) low) [
                        | inl more ↦ omega arith
                        | inr same ↦ absurd (away (rw same (walk-dist c start p hs hp)))
                      ],
                      λ r low' high gone.
                          elim (emptied b (walk c start s) q (walk c start r) e0 gone) [
                            | inl same ↦
                                rank_ne c start s r hs s_lt (omega arith) (omega arith) same
                            | inr empty' ↦ run r (omega arith) high empty'
                          ],
                    )
              ]
        ]
      ]
