-- ===== src/Base/Bits.antt =====
-- `&` and `|` at variables: with a mask of ones they are arithmetic, at every width.
use Prim.Native.Nat.{
  ℕ, zero, suc, ◌+◌, ◌-◌, ◌*◌, ◌/◌, ◌%◌, ◌^◌, ◌≤◌, ◌<◌, min, max, digits, bit_and, bit_or,
  bit_and-bitwise, bit_or-bitwise,
}
use mathlib.Core.Path.{◌≡◌, refl, ap}
use mathlib.Core.WellFounded
use native.Mathlib.Nat.{pow-suc, one-le-pow, div-div-eq-div-mul, div-add-mod'}
use native.Mathlib.Omega.{arith}
use aer.Base.Order.{lt_wf}

-- The native definition is a recursion on fuel; any fuel that covers the first number will do.
module _ (over : ℕ → ℕ) (at_digit : ℕ → ℕ → ℕ) where
  enough :
      (x y fuel more : ℕ)
      → x ≤ more
      → x ≤ fuel
      → digits over at_digit fuel x y ≡ digits over at_digit more x y
  enough zero y zero zero _ _ = refl
  enough zero y (suc fuel) zero _ _ = refl
  enough zero y zero (suc more) _ _ = refl
  enough zero y (suc fuel) (suc more) _ _ = refl
  enough (suc x) y fuel zero short _ = absurd (omega arith)
  enough (suc x) y zero (suc more) _ short = absurd (omega arith)
  enough (suc x) y (suc fuel) (suc more) wide wider =
      let half = enough (suc x / 2) (y / 2) fuel more (omega arith) (omega arith) in omega arith

no_bits-and : (y : ℕ) → bit_and 0 y ≡ 0
no_bits-and y = bit_and-bitwise 0 y

no_bits-or : (y : ℕ) → bit_or 0 y ≡ y
no_bits-or y = bit_or-bitwise 0 y

-- The lowest binary digit, and the digits above it.
bit_and_step : (x y : ℕ) → bit_and x y ≡ bit_and (x / 2) (y / 2) * 2 + min (x % 2) (y % 2)
bit_and_step zero y = let whole = no_bits-and y in let upper = no_bits-and (y / 2) in omega arith
bit_and_step (suc x) y =
    let same = enough (λ _. 0) min (suc x / 2) (y / 2) (suc x / 2) x (omega arith) (omega arith) in
    let whole = bit_and-bitwise (suc x) y in
    let upper = bit_and-bitwise (suc x / 2) (y / 2) in omega arith

pub bit_or_step : (x y : ℕ) → bit_or x y ≡ bit_or (x / 2) (y / 2) * 2 + max (x % 2) (y % 2)
bit_or_step zero y = let whole = no_bits-or y in let upper = no_bits-or (y / 2) in omega arith
bit_or_step (suc x) y =
    let same = enough (λ z. z) max (suc x / 2) (y / 2) (suc x / 2) x (omega arith) (omega arith) in
    let whole = bit_or-bitwise (suc x) y in
    let upper = bit_or-bitwise (suc x / 2) (y / 2) in omega arith

-- Numbers are reached by halving.
halving : (P : ℕ → Type 0) → P 0 → ((x : ℕ) → P (suc x / 2) → P (suc x)) → (x : ℕ) → P x
halving P start up x = WellFounded.induction lt_wf {C = P} x descend
  where
    descend : (y : ℕ) → ((z : ℕ) → z < y → P z) → P y
    descend zero ih = start
    descend (suc y) ih = up y (ih (suc y / 2) (omega arith))

pub bit_or-zero : (x : ℕ) → bit_or x 0 ≡ x
bit_or-zero = halving (λ x. bit_or x 0 ≡ x) refl (λ x ih. omega (arith, ih, bit_or_step (suc x) 0))

bit_and-zero : (x : ℕ) → bit_and x 0 ≡ 0
bit_and-zero =
    halving (λ x. bit_and x 0 ≡ 0) refl (λ x ih. omega (arith, ih, bit_and_step (suc x) 0))

double_pow : (q k : ℕ) → q * 2 ^ suc k ≡ 2 * (q * 2 ^ k)
double_pow q k = omega (arith, ap (λ (t : ℕ). q * t) (pow-suc 2 k))

-- A field above `k` bits and one below them: `|` puts them side by side.
pub bit_or-add : (k q r : ℕ) → r < 2 ^ k → bit_or (q * 2 ^ k) r ≡ q * 2 ^ k + r
bit_or-add zero q r fits = ground (arith, bit_or-zero q)
bit_or-add (suc k) q r fits = ground (
  arith,
  bit_or_step (q * 2 ^ suc k) r,
  double_pow q k,
  pow-suc 2 k,
  bit_or-add k q (r / 2) (omega (arith, pow-suc 2 k)),
)

-- A mask that is zero on the low `k` bits acts on the bits above them.
pub bit_and-shift : (k a m : ℕ) → bit_and a (m * 2 ^ k) ≡ bit_and (a / 2 ^ k) m * 2 ^ k
bit_and-shift zero a m = ground arith
bit_and-shift (suc k) a m = ground (
  arith,
  bit_and_step a (m * 2 ^ suc k),
  double_pow m k,
  pow-suc 2 k,
  div-div-eq-div-mul a 2 (2 ^ k),
  bit_and-shift k (a / 2) m,
  double_pow (bit_and (a / 2 ^ suc k) m) k,
)

mod_pow_suc : (k a : ℕ) → a % 2 ^ suc k ≡ a / 2 % 2 ^ k * 2 + a % 2
mod_pow_suc k a = ground (
  arith,
  div-add-mod' a (2 ^ suc k),
  div-add-mod' (a / 2) (2 ^ k),
  div-div-eq-div-mul a 2 (2 ^ k),
  pow-suc 2 k,
  double_pow (a / 2 / 2 ^ k) k,
)

-- A mask of `k` ones takes the remainder.
pub bit_and-ones : (k a : ℕ) → bit_and a (2 ^ k - 1) ≡ a % 2 ^ k
bit_and-ones zero a = ground (arith, bit_and-zero a)
bit_and-ones (suc k) a = ground (
  arith,
  bit_and_step a (2 ^ suc k - 1),
  pow-suc 2 k,
  one-le-pow k 2,
  bit_and-ones k (a / 2),
  mod_pow_suc k a,
)
