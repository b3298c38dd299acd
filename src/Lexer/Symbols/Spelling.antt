-- ===== src/Lexer/Symbols/Spelling.antt =====
-- The spelling of the tokens of the switch.
use mathlib.Core.Path.{subst}
use aer.Base.{
  ℕ, ◌≤◌, ◌<◌, ◌≡◌, ◌≢◌, refl, sym, ap, ◌∙◌, inl, inr, [], ◌∷◌, Option, some, arith, ◌==◌, ==_iff,
  if◌then◌else◌, Bool-cases, Option-cases, length, take, length-take, length-drop,
}
use aer.Base.Bytes.{Bytes}
use aer.Lexer.Symbols.{TokenType, Emit, second, third, lex_symbol, lex_switch}
use aer.Lexer.{Lexer, byte_at, next}

-- The bytes that the comments of the enumeration give for each token; none for other tokens.
pub spelling : TokenType → Bytes
spelling TokenType.token_or = 124 ∷ 124 ∷ []
spelling TokenType.token_pipe = 124 ∷ 62 ∷ []
spelling TokenType.token_and = 38 ∷ 38 ∷ []
spelling TokenType.token_bitwise_or = 124 ∷ []
spelling TokenType.token_bitwise_xor = 94 ∷ []
spelling TokenType.token_bitwise_and = 38 ∷ []
spelling TokenType.token_equal = 61 ∷ 61 ∷ []
spelling TokenType.token_not_equal = 33 ∷ 61 ∷ []
spelling TokenType.token_less = 60 ∷ []
spelling TokenType.token_greater = 62 ∷ []
spelling TokenType.token_less_equal = 60 ∷ 61 ∷ []
spelling TokenType.token_greater_equal = 62 ∷ 61 ∷ []
spelling TokenType.token_left_shift = 60 ∷ 60 ∷ []
spelling TokenType.token_right_shift = 62 ∷ 62 ∷ []
spelling TokenType.token_add = 43 ∷ []
spelling TokenType.token_subtract = 45 ∷ []
spelling TokenType.token_multiply = 42 ∷ []
spelling TokenType.token_divide = 47 ∷ []
spelling TokenType.token_modulo = 37 ∷ []
spelling TokenType.token_floor_divide = 47 ∷ 47 ∷ []
spelling TokenType.token_assign = 61 ∷ []
spelling TokenType.token_add_assign = 43 ∷ 61 ∷ []
spelling TokenType.token_subtract_assign = 45 ∷ 61 ∷ []
spelling TokenType.token_multiply_assign = 42 ∷ 61 ∷ []
spelling TokenType.token_divide_assign = 47 ∷ 61 ∷ []
spelling TokenType.token_modulo_assign = 37 ∷ 61 ∷ []
spelling TokenType.token_floor_divide_assign = 47 ∷ 47 ∷ 61 ∷ []
spelling TokenType.token_left_shift_assign = 60 ∷ 60 ∷ 61 ∷ []
spelling TokenType.token_right_shift_assign = 62 ∷ 62 ∷ 61 ∷ []
spelling TokenType.token_and_assign = 38 ∷ 61 ∷ []
spelling TokenType.token_or_assign = 124 ∷ 61 ∷ []
spelling TokenType.token_xor_assign = 94 ∷ 61 ∷ []
spelling TokenType.token_not = 33 ∷ []
spelling TokenType.token_bitwise_not = 126 ∷ []
spelling TokenType.token_open_parenthese = 40 ∷ []
spelling TokenType.token_close_parenthese = 41 ∷ []
spelling TokenType.token_open_bracket = 91 ∷ []
spelling TokenType.token_close_bracket = 93 ∷ []
spelling TokenType.token_open_brace = 123 ∷ []
spelling TokenType.token_close_brace = 125 ∷ []
spelling TokenType.token_colon = 58 ∷ []
spelling TokenType.token_dot = 46 ∷ []
spelling TokenType.token_dot_dot = 46 ∷ 46 ∷ []
spelling TokenType.token_comma = 44 ∷ []
spelling TokenType.token_new_line = 10 ∷ []
spelling _ = []

-- The first bytes of the source are the spelling of the token.
pub record Spelled (b : Bytes) (e : Emit) : Type 0 where
  pub same : take e.1 b ≡ spelling e.0
  pub count : e.1 ≡ length (spelling e.0)
  pub some_bytes : 0 < e.1

starts : (x : Bytes) (c : ℕ) → byte_at x ≡ c → c ≢ 0 → x ≡ c ∷ next x
starts [] c at real = absurd (real (sym at))
starts (d ∷ x) c at real = ap (λ (y : ℕ). y ∷ x) at

one :
    (b : Bytes) (c : ℕ) (t : TokenType)
    → byte_at b ≡ c
    → c ≢ 0
    → spelling t ≡ c ∷ []
    → Spelled b (t, 1)
one b c t at real spelled = record {
  same = ap (take 1) (starts b c at real) ∙ sym spelled;
  count = sym (ap length spelled);
  some_bytes = omega arith;
}

two_bytes :
    (b : Bytes) (c d : ℕ)
    → byte_at b ≡ c
    → c ≢ 0
    → byte_at (next b) ≡ d
    → d ≢ 0
    → b ≡ c ∷ d ∷ next (next b)
two_bytes b c d at real after real' =
    starts b c at real ∙ ap (λ (x : Bytes). c ∷ x) (starts (next b) d after real')

two :
    (b : Bytes) (c d : ℕ) (t : TokenType) (rest : Emit)
    → byte_at b ≡ c
    → c ≢ 0
    → d ≢ 0
    → spelling t ≡ c ∷ d ∷ []
    → Spelled b rest
    → Spelled b (second b d t rest)
two b c d t rest at real real' spelled others = elim (Bool-cases (byte_at (next b) == d)) [
  | inl after ↦ rw (after) (record {
    same = ap (take 2) (two_bytes b c d at real ((==_iff _ _).0 after) real') ∙ sym spelled;
    count = sym (ap length spelled);
    some_bytes = omega arith;
  })
  | inr other ↦ rw (other) others
]

three :
    (b : Bytes) (c d : ℕ) (long short : TokenType) (rest : Emit)
    → byte_at b ≡ c
    → c ≢ 0
    → d ≢ 0
    → spelling long ≡ c ∷ d ∷ 61 ∷ []
    → spelling short ≡ c ∷ d ∷ []
    → Spelled b rest
    → Spelled b (third b d long short rest)
three b c d long short rest at real real' spelled spelled' others =
    elim (Bool-cases (byte_at (next b) == d)) [
      | inl after ↦
          let whole = two_bytes b c d at real ((==_iff _ _).0 after) real' in
          elim (Bool-cases (byte_at (next (next b)) == 61)) [
            | inl assign ↦
                let last = starts (next (next b)) 61 ((==_iff _ _).0 assign) (λ e. omega arith) in
                rw (after, assign)
                  (record {
                    same = ap (take 3) (whole ∙ ap (λ (x : Bytes). c ∷ d ∷ x) last) ∙ sym spelled;
                    count = sym (ap length spelled);
                    some_bytes = omega arith;
                  })
            | inr other ↦
                rw (after, other)
                  (record {
                    same = ap (take 2) whole ∙ sym spelled';
                    count = sym (ap length spelled');
                    some_bytes = omega arith;
                  })
          ]
      | inr other ↦ rw (other) others
    ]

abbrev Sound : Bytes → Option Emit → Type 0
Sound b o = (e : Emit) → o ≡ some e → Spelled b e

case :
    (b : Bytes) (c : ℕ) (x : Emit) (rest : Option Emit)
    → (byte_at b ≡ c → Spelled b x)
    → Sound b rest
    → Sound b (if byte_at b == c then some x else rest)
case b c x rest here there e found = elim (Bool-cases (byte_at b == c)) [
  | inl at ↦
      let run : ◌≡◌ {A = Option Emit} (some x) (some e) = rw (at) at found in
      let same : x ≡ e = cc in subst (Spelled b) same (here ((==_iff _ _).0 at))
  | inr other ↦ there e (rw (other) at found)
]

-- When the switch makes a token, the source starts with the spelling of this token, of one to three
-- bytes, and just these bytes are taken.
pub lex_symbol-Spelled : (b : Bytes) (e : Emit) → lex_symbol b ≡ some e → Spelled b e
unfolding lex_symbol spelling
lex_symbol-Spelled b =
    (case b 44 _ _ (λ at. one b 44 TokenType.token_comma at (omega arith) refl)
      (case b 10 _ _ (λ at. one b 10 TokenType.token_new_line at (omega arith) refl)
        (case b 40 _ _ (λ at. one b 40 TokenType.token_open_parenthese at (omega arith) refl)
          (case b 41 _ _ (λ at. one b 41 TokenType.token_close_parenthese at (omega arith) refl)
            (case b 91 _ _ (λ at. one b 91 TokenType.token_open_bracket at (omega arith) refl)
              (case b 93 _ _ (λ at. one b 93 TokenType.token_close_bracket at (omega arith) refl)
                (case b 123 _ _ (λ at. one b 123 TokenType.token_open_brace at (omega arith) refl)
                  (case b 125 _ _
                    (λ at. one b 125 TokenType.token_close_brace at (omega arith) refl)
                    (case b 58 _ _ (λ at. one b 58 TokenType.token_colon at (omega arith) refl)
                      (case b 46 _ _
                        (λ at.
                          two b 46 46 TokenType.token_dot_dot _ at (omega arith) (omega arith) refl
                            (one b 46 TokenType.token_dot at (omega arith) refl))
                        (case b 126 _ _
                          (λ at. one b 126 TokenType.token_bitwise_not at (omega arith) refl)
                          (case b 42 _ _
                            (λ at.
                              two b 42 61 TokenType.token_multiply_assign _ at (omega arith)
                                (omega arith) refl
                                (one b 42 TokenType.token_multiply at (omega arith) refl))
                            (case b 47 _ _
                              (λ at.
                                three b 47 47 TokenType.token_floor_divide_assign
                                  TokenType.token_floor_divide _ at (omega arith) (omega arith) refl
                                  refl
                                  (two b 47 61 TokenType.token_divide_assign _ at (omega arith)
                                    (omega arith) refl
                                    (one b 47 TokenType.token_divide at (omega arith) refl)))
                              (case b 37 _ _
                                (λ at.
                                  two b 37 61 TokenType.token_modulo_assign _ at (omega arith)
                                    (omega arith) refl
                                    (one b 37 TokenType.token_modulo at (omega arith) refl))
                                (case b 43 _ _
                                  (λ at.
                                    two b 43 61 TokenType.token_add_assign _ at (omega arith)
                                      (omega arith) refl
                                      (one b 43 TokenType.token_add at (omega arith) refl))
                                  (case b 45 _ _
                                    (λ at.
                                      two b 45 61 TokenType.token_subtract_assign _ at (omega arith)
                                        (omega arith) refl
                                        (one b 45 TokenType.token_subtract at (omega arith) refl))
                                    (case b 33 _ _
                                      (λ at.
                                        two b 33 61 TokenType.token_not_equal _ at (omega arith)
                                          (omega arith) refl
                                          (one b 33 TokenType.token_not at (omega arith) refl))
                                      (case b 61 _ _
                                        (λ at.
                                          two b 61 61 TokenType.token_equal _ at (omega arith)
                                            (omega arith) refl
                                            (one b 61 TokenType.token_assign at (omega arith) refl))
                                        (case b 60 _ _
                                          (λ at.
                                            three b 60 60 TokenType.token_left_shift_assign
                                              TokenType.token_left_shift _ at (omega arith)
                                              (omega arith) refl refl
                                              (two b 60 61 TokenType.token_less_equal _ at
                                                (omega arith) (omega arith) refl
                                                (one b 60 TokenType.token_less at (omega arith)
                                                  refl)))
                                          (case b 62 _ _
                                            (λ at.
                                              three b 62 62 TokenType.token_right_shift_assign
                                                TokenType.token_right_shift _ at (omega arith)
                                                (omega arith) refl refl
                                                (two b 62 61 TokenType.token_greater_equal _ at
                                                  (omega arith) (omega arith) refl
                                                  (one b 62 TokenType.token_greater at (omega arith)
                                                    refl)))
                                            (case b 38 _ _
                                              (λ at.
                                                two b 38 38 TokenType.token_and _ at (omega arith)
                                                  (omega arith) refl
                                                  (two b 38 61 TokenType.token_and_assign _ at
                                                    (omega arith) (omega arith) refl
                                                    (one b 38 TokenType.token_bitwise_and at
                                                      (omega arith) refl)))
                                              (case b 124 _ _
                                                (λ at.
                                                  two b 124 124 TokenType.token_or _ at
                                                    (omega arith) (omega arith) refl
                                                    (two b 124 62 TokenType.token_pipe _ at
                                                      (omega arith) (omega arith) refl
                                                      (two b 124 61 TokenType.token_or_assign _ at
                                                        (omega arith) (omega arith) refl
                                                        (one b 124 TokenType.token_bitwise_or at
                                                          (omega arith) refl))))
                                                (case b 94 _ _
                                                  (λ at.
                                                    two b 94 61 TokenType.token_xor_assign _ at
                                                      (omega arith) (omega arith) refl
                                                      (one b 94 TokenType.token_bitwise_xor at
                                                        (omega arith) refl))
                                                  (λ e none_named. cc))))))))))))))))))))))))

longer_than : (b : Bytes) (n : ℕ) (t : Bytes) → take n b ≡ t → n ≡ length t → n ≤ length b
longer_than b n t same count =
    let whole = length-take n b in let equal = ap length same in omega arith

-- Before the end of the source the switch always takes a byte or more, and never reads past the end: also a
-- byte that it does not know is taken, with an error token.
pub lex_switch-advances :
    (l : Lexer) → byte_at l.buffer ≢ 0 → length (lex_switch l).1.buffer < length l.buffer
unfolding lex_switch
lex_switch-advances l here = elim (Option-cases (lex_symbol l.buffer)) [
  | inl unknown ↦
      let first = starts l.buffer (byte_at l.buffer) refl here in
      let size = ap length first in let left = length-drop 1 l.buffer in rw (unknown) (omega arith)
  | inr (e, run) ↦
      let s = lex_symbol-Spelled l.buffer e run in
      let inside = longer_than l.buffer e.1 (spelling e.0) s.same s.count in
      let left = length-drop e.1 l.buffer in let taken = s.some_bytes in rw (run) (omega arith)
]
