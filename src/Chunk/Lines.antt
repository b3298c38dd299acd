-- ===== src/Chunk/Lines.antt =====
-- source/core/vm.c: the line marks, and the binary search that reads them.
use aer.Base.{
  ℕ, zero, suc, ◌+◌, ◌-◌, ◌/◌, ◌<◌, ◌≤◌, ◌≡◌, refl, ◌∙◌, ap, inl, inr, Bool, true, false, not, List,
  [], ◌∷◌, ◌++◌, some, arith, ltb, leb, ◌==◌, if◌then◌else◌, length, length-append, get_or,
  Bool-cases, leb→le, ltb→lt, ◌&&◌, ==_iff,
}
use aer.Base.Writes.{get_or-append, get_or-append_last}
use aer.Chunk.{Chunk, chunk_mark_line, first_past, chunk_line_for_offset, grown, last_or}

-- How many marks stand at or before an offset, counted from the first one.
abbrev pub marks_before : List ℕ → ℕ → ℕ
marks_before [] t = 0
marks_before (o ∷ os) t = if leb o t then suc (marks_before os t) else 0

marks_before-le : (os : List ℕ) (t : ℕ) → marks_before os t ≤ length os
marks_before-le [] t = omega arith
marks_before-le (o ∷ os) t = ground (arith, marks_before-le os t)

-- The marks that are counted stand at or before the offset, and the next one does not.
marks_before-at : (os : List ℕ) (t i : ℕ) → i < marks_before os t → get_or os i 0 ≤ t
marks_before-at [] t i h = absurd (omega arith)
marks_before-at (o ∷ os) t zero h = ground arith
marks_before-at (o ∷ os) t (suc i) h = elim (Bool-cases (leb o t)) [
  | inl e ↦
      marks_before-at os t i (let k : suc i < suc (marks_before os t) = rw e at h in omega arith)
  | inr e ↦ let k : suc i < 0 = rw e at h in absurd (omega arith)
]

marks_before-past :
    (os : List ℕ) (t : ℕ) → marks_before os t < length os → t < get_or os (marks_before os t) 0
marks_before-past [] t h = absurd (omega arith)
marks_before-past (o ∷ os) t h = elim (Bool-cases (leb o t)) [
  | inl e ↦ rw e (
      marks_before-past os t
        (let k : suc (marks_before os t) < suc (length os) = rw e at h in omega arith))
  | inr e ↦ rw e (ground arith)
]

-- The invariant of the marks.
pub record IsMarked (c : Chunk) : Type 0 where
  pub increasing :
      (i j : ℕ)
      → i < j
      → j < length c.line_mark_offsets
      → get_or c.line_mark_offsets i 0 < get_or c.line_mark_offsets j 0
  pub paired : length c.line_mark_lines ≡ length c.line_mark_offsets

-- The line of the last mark at or before an offset, and 0 before the first.
abbrev pub line_before : Chunk → ℕ → ℕ
line_before c t =
    let n = marks_before c.line_mark_offsets t in
    if n == 0 then 0 else get_or c.line_mark_lines (n - 1) 0

module _ (c : Chunk) (ok : IsMarked c) (t : ℕ) where
  first_past_lem :
      (f lo hi : ℕ)
      → hi - lo < f
      → lo ≤ marks_before c.line_mark_offsets t
      → marks_before c.line_mark_offsets t ≤ hi
      → hi ≤ length c.line_mark_offsets
      → first_past f c.line_mark_offsets t lo hi ≡ some (marks_before c.line_mark_offsets t)
  unfolding first_past
  first_past_lem zero lo hi h low high top = absurd (omega arith)
  first_past_lem (suc f) lo hi h low high top = elim (Bool-cases (ltb lo hi)) [
    | inr e ↦ rw e (ap some (let done : hi ≤ lo = ground arith in omega arith))
    | inl e ↦
        let os = c.line_mark_offsets in
        let mid = lo + (hi - lo) / 2 in
        let room = ltb→lt lo hi e in
        elim (Bool-cases (leb (get_or os mid 0) t)) [
          | inl k ↦
              rw (e, k)
                (first_past_lem f (mid + 1) hi (omega arith)
                  (before mid (leb→le _ t k) (omega arith)) high top)
          | inr k ↦
              rw (e, k)
                (first_past_lem f lo mid (omega arith) low (after mid (ground arith)) (omega arith))
        ]
  ]
    where
      before :
          (mid : ℕ)
          → get_or c.line_mark_offsets mid 0 ≤ t
          → mid < length c.line_mark_offsets
          → mid + 1 ≤ marks_before c.line_mark_offsets t
      before mid k small =
          let os = c.line_mark_offsets in
          let n = marks_before os t in
          elim (Bool-cases (ltb mid n)) [
            | inl e ↦ omega (arith, ltb→lt mid n e)
            | inr e ↦
                let low : n ≤ mid = ground arith in
                let past = marks_before-past os t (omega arith) in
                elim (Bool-cases (ltb n mid)) [
                  | inl g ↦ absurd (omega (arith, past, ok.increasing n mid (ltb→lt n mid g) small))
                  | inr g ↦
                      let same : n ≡ mid = ground arith in absurd (omega (arith, rw same at past))
                ]
          ]

      after :
          (mid : ℕ)
          → t < get_or c.line_mark_offsets mid 0
          → marks_before c.line_mark_offsets t ≤ mid
      after mid k =
          let n = marks_before c.line_mark_offsets t in
          elim (Bool-cases (ltb mid n)) [
            | inl e ↦
                absurd (omega (arith, marks_before-at c.line_mark_offsets t mid (ltb→lt mid n e)))
            | inr e ↦ ground arith
          ]

  chunk_line_for_offset-line_before : chunk_line_for_offset c t ≡ some (line_before c t)
  unfolding chunk_line_for_offset
  chunk_line_for_offset-line_before =
      let n = length c.line_mark_offsets in
      let bound = marks_before-le c.line_mark_offsets t in
      elim (Bool-cases (n == 0)) [
        | inl e ↦
            let none_before : marks_before c.line_mark_offsets t ≡ 0 =
              omega (arith, (==_iff n 0).0 e) in
            rw (e, none_before)
        | inr e ↦ rw (e, first_past_lem (suc n) 0 n (omega arith) (omega arith) bound (omega arith))
      ]

-- A mark behind the others.
marks_before-earlier :
    (os : List ℕ) (o t : ℕ) → t < o → marks_before (os ++ (o ∷ [])) t ≡ marks_before os t
marks_before-earlier [] o t h = let e : leb o t ≡ false = ground arith in rw e
marks_before-earlier (p ∷ os) o t h = rw (marks_before-earlier os o t h)

marks_before-all :
    (os : List ℕ) (t : ℕ)
    → ((i : ℕ) → i < length os → get_or os i 0 ≤ t)
    → marks_before os t ≡ length os
marks_before-all [] t h = refl
marks_before-all (o ∷ os) t h =
    let first : leb o t ≡ true = let k = h 0 (omega arith) in ground arith in
    rw (first, marks_before-all os t (λ i k. h (suc i) (omega arith)))

-- Whether an offset is past the last mark, so that it is marked.
abbrev pub past_last : Chunk → ℕ → Bool
past_last c o = not (ltb 0 (length c.line_mark_offsets) && leb o (last_or c.line_mark_offsets 0))

-- What a mark owes: the marks stay in order, and an offset that is past the last mark gives its line
-- to what follows and nothing else.
pub record Marked (c : Chunk) (o l : ℕ) (r : Chunk) : Type 0 where
  pub ok : IsMarked r
  pub lines :
      (t : ℕ)
      → chunk_line_for_offset r t ≡ some (if past_last c o && leb o t then l else line_before c t)

module _ (c : Chunk) (ok : IsMarked c) (o l : ℕ) where
  below :
      past_last c o ≡ true
      → (i : ℕ) → i < length c.line_mark_offsets
      → get_or c.line_mark_offsets i 0 < o
  below new i h =
      let n = length c.line_mark_offsets in
      let last : last_or c.line_mark_offsets 0 < o = ground arith in
      elim (Bool-cases (ltb i (n - 1))) [
        | inl e ↦ omega (arith, last, ok.increasing i (n - 1) (ltb→lt i (n - 1) e) (omega arith))
        | inr e ↦ let same : i ≡ n - 1 = ground arith in rw same last
      ]

  abbrev marked : Chunk
  marked = record c {
    line_mark_cap = grown (length c.line_mark_offsets) c.line_mark_cap 64;
    line_mark_offsets = c.line_mark_offsets ++ (o ∷ []);
    line_mark_lines = c.line_mark_lines ++ (l ∷ []);
  }

  marked-IsMarked : past_last c o ≡ true → IsMarked marked
  marked-IsMarked new = record {
    increasing =
        λ i j h k. in_order i j h (omega (arith, length-append c.line_mark_offsets (o ∷ [])));
    paired = omega (
      arith,
      length-append c.line_mark_lines (l ∷ []),
      length-append c.line_mark_offsets (o ∷ []),
      ok.paired,
    );
  }
    where
      in_order :
          (i j : ℕ)
          → i < j
          → j ≤ length c.line_mark_offsets
          → get_or marked.line_mark_offsets i 0 < get_or marked.line_mark_offsets j 0
      in_order i j h k =
          let os = c.line_mark_offsets in
          let first : get_or (os ++ (o ∷ [])) i 0 ≡ get_or os i 0 =
            get_or-append os (o ∷ []) i 0 (omega arith) in
          elim (Bool-cases (ltb j (length os))) [
            | inl e ↦
                let second = get_or-append os (o ∷ []) j 0 (ltb→lt j (length os) e) in
                rw (first, second) (ok.increasing i j h (ltb→lt j (length os) e))
            | inr e ↦
                let same : j ≡ length os = ground arith in
                rw (first, same, get_or-append_last os o 0) (below new i (omega arith))
          ]

  marked-line_before :
      past_last c o ≡ true
      → (t : ℕ) → line_before marked t ≡ (if leb o t then l else line_before c t)
  marked-line_before new t = elim (Bool-cases (leb o t)) [
    | inl e ↦
        let os = c.line_mark_offsets in
        let all : marks_before (os ++ (o ∷ [])) t ≡ length (os ++ (o ∷ [])) =
          marks_before-all (os ++ (o ∷ [])) t
            (λ i k. reached (leb→le o t e) i (omega (arith, length-append os (o ∷ [])))) in
        let count : length (os ++ (o ∷ [])) ≡ suc (length c.line_mark_lines) =
          omega (arith, length-append os (o ∷ []), ok.paired) in
        let k = length c.line_mark_lines in
        let some_mark : (suc k == 0) ≡ false = ground arith in
        let last : suc k - 1 ≡ k = omega arith in
        rw (e, all, count, some_mark, last, get_or-append_last c.line_mark_lines l 0)
    | inr e ↦
        let n = marks_before c.line_mark_offsets t in
        elim (Bool-cases (n == 0)) [
          | inl z ↦ rw (e, marks_before-earlier c.line_mark_offsets o t (ground arith), z)
          | inr z ↦
              rw (e, marks_before-earlier c.line_mark_offsets o t (ground arith), z)
                (get_or-append c.line_mark_lines (l ∷ []) (n - 1) 0 (
                  omega (arith, marks_before-le c.line_mark_offsets t, ok.paired, unequal_pos n z)))
        ]
  ]
    where
      unequal_pos : (n : ℕ) → (n == 0) ≡ false → 0 < n
      unequal_pos n z = ground arith

      reached :
          o ≤ t
          → (i : ℕ) → i ≤ length c.line_mark_offsets
          → get_or (c.line_mark_offsets ++ (o ∷ [])) i 0 ≤ t
      reached upto i k =
          let os = c.line_mark_offsets in
          elim (Bool-cases (ltb i (length os))) [
            | inl e ↦
                rw (get_or-append os (o ∷ []) i 0 (ltb→lt i (length os) e))
                  (omega (arith, below new i (ltb→lt i (length os) e), upto))
            | inr e ↦
                let same : i ≡ length os = ground arith in rw (same, get_or-append_last os o 0) upto
          ]

  -- Marking a line keeps the marks in order, and the binary search then gives the new line to every
  -- offset from the new mark on, the line it gave before to all others, and only the old lines where
  -- the offset is not past the last mark.
  pub chunk_mark_line-Marked : Marked c o l (chunk_mark_line c o l)
  unfolding chunk_mark_line
  chunk_mark_line-Marked =
      elim (Bool-cases
        (ltb 0 (length c.line_mark_offsets) && leb o (last_or c.line_mark_offsets 0))) [
          | inl e ↦
              let old : past_last c o ≡ false = rw e in
              rw e
                (record { ok = ok; lines = λ t. rw old (chunk_line_for_offset-line_before c ok t) })
          | inr e ↦
              let new : past_last c o ≡ true = rw e in
              let fine = marked-IsMarked new in
              rw e (record {
                ok = fine;
                lines = λ t. rw new (
                    chunk_line_for_offset-line_before marked fine t
                    ∙ ap some (marked-line_before new t));
              })
        ]
