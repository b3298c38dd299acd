-- ===== src/Lexer/Words/Work.antt =====
-- What is left to do before the end of a source, and the head of `lex`, which does some of it.
use aer.Base.{
  ℕ, suc, ◌+◌, ◌-◌, ◌*◌, ◌≤◌, ◌<◌, ◌≡◌, refl, inl, inr, true, false, not, ◌&&◌, ◌||◌, List, [], ◌∷◌,
  some, arith, leb, ltb, ◌==◌, Bool-cases, length, if◌then◌else◌,
}
use aer.Base.Bytes.{Bytes}
use aer.Base.Int.{sub_ℕ, pos_part}
use aer.Lexer.{
  Lexer, LineToken, Outcome, byte_at, skip_spaces, pop_levels, top_of, bottom, close_levels,
  compare_indent, start_line, lex_indentation, count_spaces,
}
use aer.Lexer.Indentation.{skip_blank-some}
use aer.Lexer.Words.Layout.{skip_blank-le, leading}

-- What is left to do: the bytes, the open levels, the queued DEDENT tokens and the start of a line.
unfoldable pub work : Lexer → ℕ
work l =
    2 * length l.buffer
    + length l.indent_stack
    + pos_part l.pending_dedents
    + (if l.at_line_start then 1 else 0)

pop_levels-count :
    (stack : List ℕ) (spaces pops : ℕ)
    → length (pop_levels stack spaces pops).0 + (pop_levels stack spaces pops).1
      ≡ length stack + pops
unfolding pop_levels
pop_levels-count [] spaces pops = refl
pop_levels-count (level ∷ []) spaces pops = refl
pop_levels-count (level ∷ below ∷ stack) spaces pops = elim (Bool-cases (ltb spaces level)) [
  | inl deep ↦ let p = pop_levels-count (below ∷ stack) spaces (pops + 1) in rw (deep) (omega arith)
  | inr stay ↦ rw (stay) refl
]

bottom-le : (stack : List ℕ) → length (bottom stack) ≤ length stack
unfolding bottom
bottom-le [] = omega arith
bottom-le (level ∷ []) = omega arith
bottom-le (level ∷ below ∷ stack) = let rest = bottom-le (below ∷ stack) in omega arith

pub bottom-one : (stack : List ℕ) → length (bottom stack) ≤ 1
unfolding bottom
bottom-one [] = omega arith
bottom-one (level ∷ []) = omega arith
bottom-one (level ∷ below ∷ stack) = bottom-one (below ∷ stack)

abbrev pub lexer_of : Outcome → Lexer
lexer_of (Outcome.token lt m) = m
lexer_of (Outcome.tabs m) = m
lexer_of (Outcome.too_deep m) = m
lexer_of (Outcome.no_outer_level m) = m
lexer_of (Outcome.text m) = m

-- The outcome has at most the work `w` left, in at most `n` bytes.
pub record Left (w n : ℕ) (m : Lexer) : Type 0 where
  pub less : work m ≤ w
  pub short : length m.buffer ≤ n

pub due_parts : (pops : ℕ) → pos_part (sub_ℕ pops 1) ≡ pops - 1
due_parts pops = ground arith

module _ (l : Lexer) (p : Bytes) (spaces : ℕ) (taken : spaces + length p ≤ length l.buffer) where
  close_levels-Left : Left (work l) (length l.buffer) (lexer_of (close_levels l p spaces))
  unfolding close_levels work
  close_levels-Left =
      let stack : List ℕ = (pop_levels l.indent_stack spaces 0).0 in
      let pops : ℕ = (pop_levels l.indent_stack spaces 0).1 in
      let count = pop_levels-count l.indent_stack spaces 0 in
      let parts = due_parts pops in
      let low = bottom-le stack in
      elim (Bool-cases (byte_at p == 0)) [
        | inl end ↦ rw (end) (record { less = omega arith; short = omega arith })
        | inr more ↦ elim (Bool-cases (ltb 1 (length stack) && not (top_of stack == spaces))) [
          | inl none_matches ↦
              rw (more, none_matches) (record { less = omega arith; short = omega arith })
          | inr matches ↦ rw (more, matches) (record { less = omega arith; short = omega arith })
        ]
      ]

  compare_indent-Left : Left (work l) (length l.buffer) (lexer_of (compare_indent l p spaces))
  unfolding compare_indent work
  compare_indent-Left =
      let closed = close_levels-Left in
      let deeper = not (byte_at p == 0) && ltb (top_of l.indent_stack) spaces in
      let less =
        ltb spaces (top_of l.indent_stack) || (byte_at p == 0 && ltb 1 (length l.indent_stack)) in
      elim (Bool-cases (byte_at p == 9)) [
        | inl tab ↦ rw (tab) (record { less = omega arith; short = omega arith })
        | inr no_tab ↦ elim (Bool-cases deeper) [
          | inl opens ↦ elim (Bool-cases (leb 64 (length l.indent_stack))) [
            | inl full ↦
                rw (no_tab, opens, full) (record { less = omega arith; short = omega arith })
            | inr room ↦
                let some_spaces : 0 < spaces = ground arith in
                rw (no_tab, opens, room) (record { less = omega arith; short = omega arith })
          ]
          | inr stays ↦ elim (Bool-cases less) [
            | inl closes ↦ rw (no_tab, stays, closes) closed
            | inr same ↦
                rw (no_tab, stays, same) (record { less = omega arith; short = omega arith })
          ]
        ]
      ]

-- The head of `lex` returns; it does some work unless a token of the text is to be read.
unfoldable pub Started : Lexer → Outcome → Type 0
Started l (Outcome.text m) = Left (work l) (length l.buffer) m
Started l o = (work (lexer_of o) < work l) × (length (lexer_of o).buffer ≤ length l.buffer)

Started-less :
    (l : Lexer) (o : Outcome) (w n : ℕ)
    → Left w n (lexer_of o)
    → w < work l
    → n ≤ length l.buffer
    → Started l o
unfolding Started
Started-less l (Outcome.token lt m) w n h less short =
    let a = h.less in let b = h.short in (omega arith, omega arith)
Started-less l (Outcome.tabs m) w n h less short =
    let a = h.less in let b = h.short in (omega arith, omega arith)
Started-less l (Outcome.too_deep m) w n h less short =
    let a = h.less in let b = h.short in (omega arith, omega arith)
Started-less l (Outcome.no_outer_level m) w n h less short =
    let a = h.less in let b = h.short in (omega arith, omega arith)
Started-less l (Outcome.text m) w n h less short =
    let a = h.less in let b = h.short in record { less = omega arith; short = omega arith }

queued_less :
    (l : Lexer)
    → ltb 0 (pos_part l.pending_dedents) ≡ true
    → Started l (
        Outcome.token LineToken.dedent
          (record l { pending_dedents = sub_ℕ (pos_part l.pending_dedents) 1 }))
unfolding Started work
queued_less l h =
    let parts = due_parts (pos_part l.pending_dedents) in
    let some_due : 0 < pos_part l.pending_dedents = ground arith in (omega arith, omega arith)

start_less :
    (l : Lexer) (b : Bytes)
    → l.at_line_start ≡ true
    → length b ≤ length l.buffer
    → work (record l { at_line_start = false; buffer = b }) < work l
unfolding work
start_less l b start le = rw (start) (omega arith)

stays : (l : Lexer) → Started l (Outcome.text l)
unfolding Started
stays l = record { less = omega arith; short = omega arith }

pub lex_indentation-Started :
    (l : Lexer) → (o : Outcome) × (lex_indentation l ≡ some o) × Started l o
unfolding lex_indentation start_line
lex_indentation-Started l = elim (Bool-cases (ltb 0 (pos_part l.pending_dedents))) [
  | inl queued ↦
      let m : Lexer = record l { pending_dedents = sub_ℕ (pos_part l.pending_dedents) 1 } in
      let parts = due_parts (pos_part l.pending_dedents) in
      (Outcome.token LineToken.dedent m, rw (queued) refl, queued_less l queued)
  | inr none_queued ↦ elim (Bool-cases l.at_line_start) [
    | inl start ↦
        let (b, run) = skip_blank-some (suc (length l.buffer)) l.buffer (omega arith) in
        let m : Lexer = record l { at_line_start = false; buffer = b } in
        let le = skip_blank-le (suc (length l.buffer)) l.buffer b run in
        let o = compare_indent m (skip_spaces b) (count_spaces b 0) in
        let left = compare_indent-Left m (skip_spaces b) (count_spaces b 0) (leading b) in
        (
          o,
          rw (none_queued, start, run) refl,
          Started-less l o (work m) (length b) left (start_less l b start le) le,
        )
    | inr inside ↦ (Outcome.text l, rw (none_queued, inside) refl, stays l)
  ]
]
