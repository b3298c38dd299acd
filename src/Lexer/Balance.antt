-- ===== src/Lexer/Balance.antt =====
-- INDENT and DEDENT tokens against the stack of indentations.
use aer.Base.{
  ℕ, suc, ◌+◌, ◌-◌, ◌≤◌, ◌<◌, ◌≡◌, refl, inl, inr, true, false, some, arith, ltb, ◌==◌, ==_iff,
  unequal, Bool-cases, length,
}
use aer.Base.Bytes.{Bytes}
use aer.Base.Int.{negsuc, sub_ℕ, pos_part}
use aer.Lexer.Indentation.{IsStack, pop_levels-none, bottom_lem}
use aer.Lexer.{
  Lexer, LineToken, Outcome, byte_at, skip_spaces, count_spaces, skip_blank, top_of, bottom,
  close_levels, compare_indent, start_line, lex_indentation, lex_end,
}

-- The stack is in order and inside its array.
pub record IsIndented (l : Lexer) : Type 0 where
  pub order : IsStack l.indent_stack
  pub inside : length l.indent_stack ≤ 64

-- The DEDENT tokens that are still due for the INDENT tokens that were given.
unfoldable pub owed : Lexer → ℕ
owed l = length l.indent_stack - 1 + pos_part l.pending_dedents

-- What the lexer `l` owes to its outcome: an INDENT is one more DEDENT due, a DEDENT one less.
unfoldable pub Balanced : Lexer → Outcome → Type 0
Balanced l (Outcome.token LineToken.indent m) = IsIndented m × (owed m ≡ owed l + 1)
Balanced l (Outcome.token LineToken.dedent m) = IsIndented m × (owed m + 1 ≡ owed l)
Balanced l (Outcome.token LineToken.end_of_file m) = IsIndented m × (owed m ≡ 0) × (owed l ≡ 0)
Balanced l (Outcome.tabs m) = IsIndented m
Balanced l (Outcome.too_deep m) = IsIndented m
Balanced l (Outcome.no_outer_level m) = IsIndented m
Balanced l (Outcome.text m) = IsIndented m × (owed m ≡ owed l)

due_parts : (pops : ℕ) → pos_part (sub_ℕ pops 1) ≡ pops - 1
due_parts pops = ground arith

-- When the source ends on a line of spaces at least as deep as the top level, `lex` gives one DEDENT and drops
-- the stack, so that no further DEDENT is due, whatever the number of open levels.
pub lex_indentation-end :
    (l : Lexer) (b : Bytes)
    → IsIndented l
    → 1 < length l.indent_stack
    → pos_part l.pending_dedents ≡ 0
    → l.at_line_start ≡ true
    → skip_blank (suc (length l.buffer)) l.buffer ≡ some b
    → byte_at (skip_spaces b) ≡ 0
    → top_of l.indent_stack ≤ count_spaces b 0
    → (m : Lexer) × (lex_indentation l ≡ some (Outcome.token LineToken.dedent m)) × (owed m ≡ 0)
unfolding lex_indentation start_line compare_indent close_levels owed
lex_indentation-end l b ok open_levels due start run ends deep =
    let no_queue : ltb 0 (pos_part l.pending_dedents) ≡ false = ground arith in
    let no_tab : (byte_at (skip_spaces b) == 9) ≡ false = unequal _ _ (λ e. omega arith) in
    let at_end : (byte_at (skip_spaces b) == 0) ≡ true = (==_iff _ _).1 ends in
    let levels : ltb 1 (length l.indent_stack) ≡ true = ground arith in
    let same : ltb (count_spaces b 0) (top_of l.indent_stack) ≡ false = ground arith in
    let none_popped = pop_levels-none l.indent_stack (count_spaces b 0) deep in
    let m : Lexer = record l {
      at_line_start = false;
      buffer = skip_spaces b;
      indent_stack = bottom l.indent_stack;
      pending_dedents = negsuc 0;
    } in
    (
      m,
      rw (no_queue, start, run, no_tab, at_end, levels, same, none_popped) refl,
      rw (bottom_lem l.indent_stack ok.order) refl,
    )

-- With no DEDENT queued, at the end of the source every open level is closed by one DEDENT, and the end is given when none is due.
pub lex_end-Balanced :
    (l : Lexer) → IsIndented l → pos_part l.pending_dedents ≡ 0 → Balanced l (lex_end l)
unfolding lex_end Balanced owed IsStack
lex_end-Balanced l ok due = elim (Bool-cases (ltb 1 (length l.indent_stack))) [
  | inl levels ↦
      let parts = due_parts (length l.indent_stack - 1) in
      let base = bottom_lem l.indent_stack ok.order in
      rw (levels, base) (record { order = refl; inside = omega arith }, ground arith)
  | inr flat ↦
      rw (flat) (record { order = ok.order; inside = ok.inside }, ground arith, ground arith)
]
