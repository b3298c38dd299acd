-- ===== src/Error/Clip.antt =====
-- Writes into a buffer of fixed size give the head of what was to be written.
use Prim.Native.Nat.{min}
use aer.Base.{
  ℕ, zero, suc, ◌-◌, ◌≡◌, refl, ap, false, [], ◌∷◌, ◌++◌, arith, leb, some, length, take, replicate,
  length-take,
}
use aer.Base.Bytes.{Bytes}
use aer.Error.{append_fmt, pad}

take-append-take :
    (n : ℕ) (a b : Bytes) → take n a ++ take (n - length (take n a)) b ≡ take n (a ++ b)
take-append-take zero a b = refl
take-append-take (suc n) [] b =
    let all : suc n - 0 ≡ suc n = omega arith in ap (λ (k : ℕ). take k b) all
take-append-take (suc n) (c ∷ a) b =
    let left : suc n - suc (length (take n a)) ≡ n - length (take n a) = omega arith in
    rw (left) (ap (λ (x : Bytes). c ∷ x) (take-append-take n a b))

replicate-take : (n k c : ℕ) → replicate (min k n) c ≡ take n (replicate k c)
replicate-take zero k c = let none_left : min k 0 ≡ 0 = omega arith in rw (none_left) refl
replicate-take (suc n) zero c =
    let none_left : min 0 (suc n) ≡ 0 = omega arith in rw (none_left) refl
replicate-take (suc n) (suc k) c =
    let least : min (suc k) (suc n) ≡ suc (min k n) = omega arith in
    rw (least) (ap (λ (x : Bytes). c ∷ x) (replicate-take n k c))

-- A write behind the head of `a` gives the head of `a` and the text.
pub append_fmt-clip :
    (n : ℕ) (a text : Bytes) → append_fmt (suc n) (take n a) (some text) ≡ take n (a ++ text)
unfolding append_fmt
append_fmt-clip n a text =
    let size = length-take n a in
    let fits : leb (suc n) (length (take n a)) ≡ false = ground arith in
    let left : suc n - length (take n a) - 1 ≡ n - length (take n a) = omega arith in
    rw (fits, left) (take-append-take n a text)

pub pad-clip : (n col : ℕ) (a : Bytes) → pad (suc n) (take n a) col ≡ take n (a ++ replicate col 32)
pad-clip n col a =
    let left : suc n - 1 - length (take n a) ≡ n - length (take n a) = omega arith in
    rw (left, replicate-take (n - length (take n a)) col 32)
      (take-append-take n a (replicate col 32))
