-- ===== src/Error/Tests.antt =====
-- A message, and an instance of the theorem.
use aer.Base.{
  ◌+◌, ◌≡◌, refl, inl, true, false, [], ◌∷◌, ◌++◌, Option, none, some, arith, length, take,
}
use aer.Base.Bytes.{Bytes, codes}
use aer.Json.{decimal}
use aer.Error.{Errors, append_fmt, emit_error, error, error_at, aer_had_error, aer_clear_error}
use aer.Error.Message.{message, error_at-Message}

abbrev no_errors : Errors
no_errors = record {
  parse_had_error = false;
  runtime_had_error = false;
  assert_failure_count = 0;
  last_error_msg = [];
  error_callback = none;
  sent = [];
}

-- Two lines; the cursor is at the `+` of the second.
abbrev above_text : Option Bytes
above_text = some (codes "x = 1")

abbrev report : Errors
report =
    error_at no_errors
      (codes "x = 1" ++ (10 ∷ []) ++ (codes "y " ++ (codes "+ 2" ++ (10 ∷ codes "z"))))
      (length (codes "x = 1" ++ (10 ∷ [])) + length (codes "y ")) (some (codes "Bad"))

error_at-Message_example :
    (report.last_error_msg ≡ take 2047 (message 2 (codes "y ") (codes "+ 2") (codes "Bad")))
    × (report.sent ≡ (none, take 2047 (message 2 (codes "y ") (codes "+ 2") (codes "Bad"))) ∷ [])
    × (aer_had_error report ≡ true)
error_at-Message_example =
    error_at-Message no_errors above_text (codes "y ") (codes "+ 2") (10 ∷ codes "z") (codes "Bad")
      ((λ e. omega arith), (λ e. omega arith), ((λ e. omega arith), (λ e. omega arith), tt))
      (
        (λ e. omega arith),
        (λ e. omega arith),
        ((λ e. omega arith), (λ e. omega arith), ((λ e. omega arith), (λ e. omega arith), tt)),
      )
      (inl refl) (omega arith) (omega arith)
      ((λ e. omega arith), ((λ e. omega arith), ((λ e. omega arith), tt)))

runtime_line :
    (error no_errors 3 (some (codes "Bad"))).last_error_msg
    ≡ codes "Line 3: Error: Bad" ++ (10 ∷ [])
unfolding error append_fmt emit_error decimal
runtime_line = refl

cleared : aer_had_error (aer_clear_error (error no_errors 0 none)) ≡ false
cleared = refl
