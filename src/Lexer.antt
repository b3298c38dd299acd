-- ===== src/Lexer.antt =====
-- source/compiler/lexer.c: the lines of a source and their indentation, which `lex` turns into INDENT
-- and DEDENT tokens.
--
-- The buffer is the list of the bytes that are left, and its end reads as the byte 0. Of `indent_stack` the
-- used part is kept, its top first, so that `indent_depth` is its length.
pub mod Indentation
pub mod Balance
pub mod Symbols
pub mod Words
mod Tests
use aer.Base.{
  ℕ, zero, suc, ◌+◌, ◌-◌, ◌%◌, ◌^◌, Bool, true, false, not, ◌&&◌, ◌||◌, List, [], ◌∷◌, Option, none,
  some, leb, ltb, ◌==◌, if◌then◌else◌, length,
}
use aer.Base.Bytes.{Bytes}
pub use aer.Base.Bytes.{byte_at, next}
use aer.Base.Int.{ℤ, pos, negsuc, sub_ℕ, pos_part}

pub record Lexer : Type 0 where
  pub buffer : Bytes
  pub indent_stack : List ℕ
  pub pending_dedents : ℤ
  pub at_line_start : Bool
  pub bracket_depth : ℕ

-- The tokens that stand for indentation and for the end.
pub data LineToken : Type 0 where
  indent dedent end_of_file : LineToken

-- A token, a reported error, or a line whose text is to be read.
pub data Outcome : Type 0 where
  token : LineToken → Lexer → Outcome
  tabs too_deep no_outer_level : Lexer → Outcome
  text : Lexer → Outcome

abbrev pub indent_reset : Lexer → Lexer
indent_reset l = record l {
  indent_stack = 0 ∷ [];
  pending_dedents = pos 0;
  bracket_depth = 0;
  at_line_start = true;
}

-- `while (*p == ' ') p++`
unfoldable pub skip_spaces : Bytes → Bytes
skip_spaces [] = []
skip_spaces (c ∷ p) = if c == 32 then skip_spaces p else c ∷ p

-- `while (*p == ' ') { spaces++; p++; }`, where the count wraps at 32 bits
unfoldable pub count_spaces : Bytes → ℕ → ℕ
count_spaces [] spaces = spaces
count_spaces (c ∷ p) spaces = if c == 32 then count_spaces p ((spaces + 1) % 2 ^ 32) else spaces

-- `while (*p != '\n' && *p != '\0') p++`
unfoldable pub skip_comment : Bytes → Bytes
skip_comment [] = []
skip_comment (c ∷ p) = if c == 10 || c == 0 then c ∷ p else skip_comment p

-- The first byte of the line that is neither a space nor in a comment.
unfoldable pub line_text : Bytes → Bytes
line_text b = let p = skip_spaces b in if byte_at p == 35 then skip_comment p else p

-- The loop over blank lines and lines with a comment alone; `none` when the fuel runs out.
unfoldable pub skip_blank : ℕ → Bytes → Option Bytes
skip_blank zero b = none
skip_blank (suc n) b =
    let rest = skip_blank n (next (line_text b)) in
    if not (byte_at (line_text b) == 10) then some b else rest

-- `while (indent_depth > 1 && indent_stack[indent_depth - 1] > spaces)`, with the number of pops
unfoldable pub pop_levels : List ℕ → ℕ → ℕ → List ℕ × ℕ
pop_levels [] spaces pops = ([], pops)
pop_levels (top ∷ []) spaces pops = (top ∷ [], pops)
pop_levels (top ∷ below ∷ stack) spaces pops =
    if ltb spaces top
    then pop_levels (below ∷ stack) spaces (pops + 1)
    else (top ∷ below ∷ stack, pops)

abbrev pub top_of : List ℕ → ℕ
top_of [] = 0
top_of (top ∷ _) = top

-- `indent_depth = 1`
unfoldable pub bottom : List ℕ → List ℕ
bottom [] = []
bottom (top ∷ []) = top ∷ []
bottom (_ ∷ below ∷ stack) = bottom (below ∷ stack)

-- The line is indented less than the top, or the source ends at `p`.
unfoldable pub close_levels : Lexer → Bytes → ℕ → Outcome
close_levels l p spaces =
    let (stack, pops) = pop_levels l.indent_stack spaces 0 in
    if not (byte_at p == 0) && (ltb 1 (length stack) && not (top_of stack == spaces))
    then no_outer_level (record l { buffer = p; indent_stack = stack })
    else token dedent (record l {
      buffer = p;
      indent_stack = if byte_at p == 0 then bottom stack else stack;
      pending_dedents = sub_ℕ pops 1;
    })

-- The comparison of the indentation of a line, whose text is at `p`, with the top of the stack.
unfoldable pub compare_indent : Lexer → Bytes → ℕ → Outcome
compare_indent l p spaces =
    if byte_at p == 9
    then tabs l
    else if not (byte_at p == 0) && ltb (top_of l.indent_stack) spaces
    then (if leb 64 (length l.indent_stack)
        then too_deep l
        else token indent (record l { buffer = p; indent_stack = spaces ∷ l.indent_stack }))
    else if ltb spaces (top_of l.indent_stack) || (byte_at p == 0 && ltb 1 (length l.indent_stack))
    then close_levels l p spaces
    else text (record l { buffer = p })

-- The start of a line, where `b` is the first line that is not blank.
unfoldable pub start_line : Lexer → Option Bytes → Option Outcome
start_line l none = none
start_line l (some b) = some (
    compare_indent (record l { at_line_start = false; buffer = b }) (skip_spaces b)
      (count_spaces b 0))

-- The head of `lex`: queued dedents, and the indentation at the start of a line.
unfoldable pub lex_indentation : Lexer → Option Outcome
lex_indentation l =
    if ltb 0 (pos_part l.pending_dedents)
    then some (token dedent (record l { pending_dedents = sub_ℕ (pos_part l.pending_dedents) 1 }))
    else if l.at_line_start
    then start_line l (skip_blank (suc (length l.buffer)) l.buffer)
    else some (text l)

-- The end of the source, in the switch of `lex`.
unfoldable pub lex_end : Lexer → Outcome
lex_end l =
    if ltb 1 (length l.indent_stack)
    then token dedent (record l {
      indent_stack = bottom l.indent_stack;
      pending_dedents = sub_ℕ (length l.indent_stack - 1) 1;
    })
    else token end_of_file l
