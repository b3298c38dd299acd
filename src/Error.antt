-- ===== src/Error.antt =====
-- source/utilities/error.c: the error messages, the flags and where the messages go.
--
-- The bytes that the C library makes of a format and its arguments are an argument: `none` where `vsnprintf`
-- returns a negative number. A buffer is the list of the bytes written so far, so that `pos` is its length.
pub mod Clip
pub mod Lines
pub mod Message
mod Tests
use Prim.Native.Nat.{min}
use aer.Base.{
  ℕ, zero, suc, ◌+◌, ◌-◌, ◌%◌, ◌^◌, Bool, true, false, ◌||◌, List, [], ◌∷◌, ◌++◌, Option, none,
  some, leb, ltb, ◌==◌, if◌then◌else◌, length, take, drop, replicate,
}
use aer.Base.Bytes.{Bytes, codes, c_string}
use aer.Json.{decimal}

-- A callback is its function and its user data; without one a message goes to `stderr`. `sent` lists what was
-- sent, and where.
pub record Errors : Type 0 where
  pub parse_had_error : Bool
  pub runtime_had_error : Bool
  pub assert_failure_count : ℕ
  pub last_error_msg : Bytes
  pub error_callback : Option (ℕ × ℕ)
  pub sent : List (Option (ℕ × ℕ) × Bytes)

abbrev pub error_msg_max : ℕ
error_msg_max = 2048

-- A write of at most `size - 1` bytes, behind what `buf` holds.
unfoldable pub append_fmt : ℕ → Bytes → Option Bytes → Bytes
append_fmt size buf none = buf
append_fmt size buf (some text) =
    if leb size (length buf) then buf else buf ++ take (size - length buf - 1) text

-- `strncpy`, which stops at a NUL, and the NUL at the end
unfoldable pub emit_error : Errors → Bytes → Errors
emit_error e msg =
    let m = take (error_msg_max - 1) (c_string msg) in
    record e { last_error_msg = m; sent = e.sent ++ ((e.error_callback, m) ∷ []) }

abbrev pub aer_set_error_callback : Errors → Option (ℕ × ℕ) → Errors
aer_set_error_callback e callback = record e { error_callback = callback }

abbrev pub aer_last_error : Errors → Bytes
aer_last_error e = e.last_error_msg

abbrev pub aer_had_error : Errors → Bool
aer_had_error e = e.parse_had_error || e.runtime_had_error

abbrev pub aer_assert_failure_count : Errors → ℕ
aer_assert_failure_count e = e.assert_failure_count

abbrev pub aer_clear_error : Errors → Errors
aer_clear_error e = record e {
  parse_had_error = false;
  runtime_had_error = false;
  assert_failure_count = 0;
  last_error_msg = [];
}

-- The flags that both kinds of error set.
abbrev pub flagged : Errors → Errors
flagged e = record e { parse_had_error = true; runtime_had_error = true }

-- `line` is what `runtime_line_lookup` gives, and 0 without one.
unfoldable pub error : Errors → ℕ → Option Bytes → Errors
error e line msg =
    let numbered =
      append_fmt error_msg_max [] (some (codes "Line " ++ (decimal 10 line ++ codes ": "))) in
    let start = if ltb 0 line then numbered else [] in
    let head = append_fmt error_msg_max start (some (codes "Error: ")) in
    let body = append_fmt error_msg_max head msg in
    flagged (emit_error e (append_fmt error_msg_max body (some (10 ∷ []))))

-- The loop from the start of the source to the cursor, `k` bytes on: the number of its line, and where it starts.
unfoldable pub scan_lines : ℕ → Bytes → ℕ → Bytes → ℕ × Bytes
scan_lines zero p line start = (line, start)
scan_lines (suc k) [] line start = (line, start)
scan_lines (suc k) (c ∷ p) line start =
    scan_lines k p (if c == 10 then (line + 1) % 2 ^ 32 else line) (if c == 10 then p else start)

-- `while (*line_end != '\n' && *line_end != '\0') line_end++`
unfoldable pub line_end : Bytes → Bytes
line_end [] = []
line_end (c ∷ p) = if c == 10 || c == 0 then c ∷ p else line_end p

-- `%.*s`, where a negative precision counts as none
abbrev pub with_precision : ℕ → Bytes → Bytes
with_precision n s = if ltb n (2 ^ 31) then take n (c_string s) else c_string s

-- `for (i = 0; i < col && pos < sizeof(buf) - 1; i++) buf[pos++] = ' '`
abbrev pub pad : ℕ → Bytes → ℕ → Bytes
pad size buf col = buf ++ replicate (min col (size - 1 - length buf)) 32

-- What `vsnprintf` makes of a text: nothing where its length is no `int`.
abbrev pub formatted : Bytes → Option Bytes
formatted text = if ltb (length text) (2 ^ 31) then some text else none

unfoldable pub error_at : Errors → Bytes → ℕ → Option Bytes → Errors
error_at e source k msg =
    let cursor = drop k source in
    let (line_number, line_start) = scan_lines k source 1 source in
    let line_len = (length line_start - length (line_end cursor)) % 2 ^ 32 in
    let col = (length line_start - length cursor) % 2 ^ 32 in
    let first = append_fmt error_msg_max [] (
      formatted (
        decimal 10 line_number
        ++ (codes " | " ++ (with_precision line_len line_start ++ (10 ∷ codes "    "))))) in
    let padded = pad error_msg_max first col in
    let head = append_fmt error_msg_max padded (some (94 ∷ 10 ∷ codes "Error: ")) in
    let body = append_fmt error_msg_max head msg in
    flagged (emit_error e (append_fmt error_msg_max body (some (10 ∷ []))))
