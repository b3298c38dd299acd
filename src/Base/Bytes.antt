-- ===== src/Base/Bytes.antt =====
-- C strings as the list of their bytes, and the calls of the C library on them.
use Prim.Native.Char.{code}
use Prim.Native.String.{String}
use Prim.Native.Nat.{ℕ, zero, suc}
use mathlib.Core.Bool.{Bool, true, false, ◌&&◌}
use mathlib.Core.List.{List, [], ◌∷◌}
use mathlib.Core.Logic.{◌↔◌}
use mathlib.Core.Path.{◌≡◌, refl}
use native.Mathlib.Omega.{arith}
use aer.Base.Tests.{◌==◌}

abbrev pub Bytes : Type 0
Bytes = List ℕ

-- The bytes of an ASCII text.
abbrev pub codes : String → Bytes
codes String.[] = []
codes (String.◌∷◌ c s) = code c ∷ codes s

-- `strcmp(a, b) == 0`
unfoldable pub str_equal : Bytes → Bytes → Bool
str_equal [] [] = true
str_equal (x ∷ xs) (y ∷ ys) = x == y && str_equal xs ys
str_equal _ _ = false

pub str_equal_refl : (a : Bytes) → str_equal a a ≡ true
unfolding str_equal
str_equal_refl [] = refl
str_equal_refl (x ∷ xs) = ground (arith, str_equal_refl xs)

pub eq_of_str_equal : (a b : Bytes) → str_equal a b ≡ true → a ≡ b
unfolding str_equal
eq_of_str_equal [] [] h = refl
eq_of_str_equal [] (y ∷ ys) h = cc
eq_of_str_equal (x ∷ xs) [] h = cc
eq_of_str_equal (x ∷ xs) (y ∷ ys) h = ground (arith, eq_of_str_equal xs ys)

pub str_equal_iff : (a b : Bytes) → (str_equal a b ≡ true) ↔ (a ≡ b)
str_equal_iff a b = (eq_of_str_equal a b, λ e. rw e (str_equal_refl b))

-- `*p`
abbrev pub byte_at : Bytes → ℕ
byte_at [] = 0
byte_at (c ∷ _) = c

-- `p + 1`
abbrev pub next : Bytes → Bytes
next [] = []
next (_ ∷ p) = p

-- The bytes that C reads as a string, up to the first NUL.
abbrev pub c_string : Bytes → Bytes
c_string [] = []
c_string (zero ∷ s) = []
c_string (suc ch ∷ s) = suc ch ∷ c_string s
