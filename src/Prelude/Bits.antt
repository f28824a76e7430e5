-- ===== src/Prelude/Bits.antt =====
-- The binary digits of a number, and what `&`, `|` and `~` do to each of them. Laws at every
-- width, from the recursion on digits that the native operations stand for.
mod Step
pub use Step.{bit_and_step, bit_or_step}
use Prim.Native.Nat.{ℕ, zero, suc, ◌+◌, ◌-◌, ◌*◌, ◌/◌, ◌%◌, ◌^◌, ◌≤◌, ◌<◌, min, max}
use Prim.Native.Nat.{bit_and, bit_or, bit_and-bitwise, bit_or-bitwise}
use Prim.Native.Nat.add
use mathlib.Core.Path.{◌≡◌, refl, ap, ap₂, ◌∙◌}
use mathlib.Core.Logic.{inl, inr}
use native.Mathlib.Omega.{arith}
use native.Mathlib.Nat.{le_refl, pow-suc, one-le-pow}
use ratos.Prelude.Tests.{◌==◌, if◌then◌else◌, Bool-cases}
use mathlib.Core.Bool.{not}

-- Digit `j` of `x`, from the lowest.
unfoldable pub testbit : ℕ → ℕ → ℕ
testbit x zero = x % 2
testbit x (suc j) = testbit (x / 2) j

pub testbit-lt : (x j : ℕ) → testbit x j < 2
unfolding testbit
testbit-lt x zero = omega arith
testbit-lt x (suc j) = testbit-lt (x / 2) j

pub testbit-zero : (j : ℕ) → testbit 0 j ≡ 0
unfolding testbit
testbit-zero zero = refl
testbit-zero (suc j) = testbit-zero j

pub testbit-bit_and : (j x y : ℕ) → testbit (bit_and x y) j ≡ min (testbit x j) (testbit y j)
unfolding testbit
testbit-bit_and zero x y = omega (arith, bit_and_step x y)
testbit-bit_and (suc j) x y =
    ap (λ t. testbit t j) (omega (arith, bit_and_step x y)) ∙ testbit-bit_and j (x / 2) (y / 2)

pub testbit-bit_or : (j x y : ℕ) → testbit (bit_or x y) j ≡ max (testbit x j) (testbit y j)
unfolding testbit
testbit-bit_or zero x y = omega (arith, bit_or_step x y)
testbit-bit_or (suc j) x y =
    ap (λ t. testbit t j) (omega (arith, bit_or_step x y)) ∙ testbit-bit_or j (x / 2) (y / 2)

-- `1 << k` has the one digit `k`.
pub testbit-pow : (k j : ℕ) → testbit (2 ^ k) j ≡ (if k == j then 1 else 0)
unfolding testbit
testbit-pow zero zero = refl
testbit-pow zero (suc j) = ground (arith, testbit-zero j)
testbit-pow (suc k) zero = ground (arith, pow-suc 2 k)
testbit-pow (suc k) (suc j) =
    ap (λ t. testbit t j) (omega (arith, pow-suc 2 k)) ∙ testbit-pow k j ∙ ground arith

-- `~x` at a width of `w` digits.
pub testbit-not : (w x j : ℕ) → x < 2 ^ w → j < w → testbit (2 ^ w - 1 - x) j ≡ 1 - testbit x j
unfolding testbit
testbit-not zero x j small below = absurd (omega arith)
testbit-not (suc w) x zero small below = omega (arith, pow-suc 2 w)
testbit-not (suc w) x (suc j) small below =
    ap (λ t. testbit t j) (omega (arith, pow-suc 2 w))
    ∙ testbit-not w (x / 2) j (omega (arith, pow-suc 2 w)) (omega arith)

-- All ones.
pub testbit-ones : (w j : ℕ) → j < w → testbit (2 ^ w - 1) j ≡ 1
unfolding testbit
testbit-ones zero j below = absurd (omega arith)
testbit-ones (suc w) zero below = omega (arith, pow-suc 2 w, one-le-pow w 2)
testbit-ones (suc w) (suc j) below =
    ap (λ t. testbit t j) (omega (arith, pow-suc 2 w, one-le-pow w 2))
    ∙ testbit-ones w j (omega arith)

-- Numbers of `w` digits that agree at each digit are equal.
pub testbit_ext :
    (w x y : ℕ) → x < 2 ^ w → y < 2 ^ w → ((j : ℕ) → j < w → testbit x j ≡ testbit y j) → x ≡ y
unfolding testbit
testbit_ext zero x y p q h = omega arith
testbit_ext (suc w) x y p q h = omega (
  arith,
  h 0 (omega arith),
  testbit_ext w (x / 2) (y / 2) (omega (arith, pow-suc 2 w)) (omega (arith, pow-suc 2 w))
      (λ j below. h (suc j) (omega arith)),
)

-- A digit of a low part.
pub testbit-low : (k j x y : ℕ) → j < k → testbit (x + 2 ^ k * y) j ≡ testbit x j
unfolding testbit
testbit-low zero j x y below = absurd (omega arith)
testbit-low (suc k) zero x y below = omega (arith, ap (λ (t : ℕ). t * y) (pow-suc 2 k))
testbit-low (suc k) (suc j) x y below =
    ap (λ t. testbit t j) (omega (arith, ap (λ (t : ℕ). t * y) (pow-suc 2 k)))
    ∙ testbit-low k j (x / 2) y (omega arith)

-- A digit of a high part.
pub testbit-high : (k j x y : ℕ) → x < 2 ^ k → testbit (x + 2 ^ k * y) (k + j) ≡ testbit y j
unfolding testbit
testbit-high zero j x y small =
    ap₂ testbit {x = x + 2 ^ 0 * y} {y = y} {u = 0 + j} {v = j} (omega arith) (omega arith)
testbit-high (suc k) j x y small =
    ap (testbit (x + 2 ^ suc k * y)) (add.suc k j)
    ∙ ap (λ t. testbit t (k + j)) (omega (arith, ap (λ (t : ℕ). t * y) (pow-suc 2 k)))
    ∙ testbit-high k j (x / 2) y (omega (arith, pow-suc 2 k))

-- No digit is left of a mask without digits.
bit_and-zero : (fuel x : ℕ) → x ≤ fuel → bit_and x 0 ≡ 0
bit_and-zero fuel zero enough = refl
bit_and-zero zero (suc x) enough = absurd (omega arith)
bit_and-zero (suc fuel) (suc x) enough =
    let half = bit_and-zero fuel (suc x / 2) (omega arith) in
    omega (arith, half, bit_and_step (suc x) 0)

bit_and-low : (k x y : ℕ) → x < 2 ^ k → bit_and (x + 2 ^ k * y) (2 ^ k - 1) ≡ x
bit_and-low zero x y small = bit_and-zero _ (x + 2 ^ 0 * y) (le_refl _) ∙ omega arith
bit_and-low (suc k) x y small = ground (
  arith,
  bit_and_step (x + 2 ^ suc k * y) (2 ^ suc k - 1),
  pow-suc 2 k,
  one-le-pow k 2,
  ap (λ (t : ℕ). t * y) (pow-suc 2 k),
  bit_and-low k (x / 2) y (omega (arith, pow-suc 2 k)),
)

-- A mask of the low `k` digits is the remainder by `2 ^ k`.
pub bit_and_mask : (k a : ℕ) → bit_and a (2 ^ k - 1) ≡ a % 2 ^ k
bit_and_mask k a = ground (arith, one-le-pow k 2, bit_and-low k (a % 2 ^ k) (a / 2 ^ k))

-- A shift of 1 by less than the width does not wrap.
pub pow-lt : (k w : ℕ) → k < w → 2 ^ k < 2 ^ w
pow-lt k zero h = absurd (omega arith)
pow-lt zero (suc w) h = omega (arith, pow-suc 2 w, one-le-pow w 2)
pow-lt (suc k) (suc w) h = omega (arith, pow-suc 2 w, pow-suc 2 k, pow-lt k w (omega arith))

pub bit_or-lt : (w x y : ℕ) → x < 2 ^ w → y < 2 ^ w → bit_or x y < 2 ^ w
bit_or-lt zero x y p q = ground (arith, bit_or_step x y, bit_or-bitwise 0 0)
bit_or-lt (suc w) x y p q = omega (
  arith,
  bit_or_step x y,
  pow-suc 2 w,
  bit_or-lt w (x / 2) (y / 2) (omega (arith, pow-suc 2 w)) (omega (arith, pow-suc 2 w)),
)

pub bit_and-lt : (w x y : ℕ) → x < 2 ^ w → bit_and x y < 2 ^ w
bit_and-lt zero x y p = ground (arith, bit_and-bitwise 0 y)
bit_and-lt (suc w) x y p = omega (
  arith,
  bit_and_step x y,
  pow-suc 2 w,
  bit_and-lt w (x / 2) (y / 2) (omega (arith, pow-suc 2 w)),
)

-- A mask of one digit.
pub bit_and_pow : (k x : ℕ) → bit_and x (2 ^ k) ≡ testbit x k * 2 ^ k
unfolding testbit
bit_and_pow zero x = omega (arith, bit_and_mask 1 x)
bit_and_pow (suc k) x = ground (
  arith,
  bit_and_step x (2 ^ suc k),
  pow-suc 2 k,
  bit_and_pow k (x / 2),
  ap (λ (t : ℕ). testbit (x / 2) k * t) (pow-suc 2 k),
)

-- The test `x & (1 << k)`.
pub bit_and_pow-test : (k x : ℕ) → not (bit_and x (2 ^ k) == 0) ≡ (testbit x k == 1)
bit_and_pow-test k x = rw (bit_and_pow k x) (elim (Bool-cases (testbit x k == 1)) [
  | inl set ↦ let e : testbit x k ≡ 1 = ground arith in rw e (ground (arith, one-le-pow k 2))
  | inr clear ↦ let e : testbit x k ≡ 0 = ground (arith, testbit-lt x k) in rw e (ground arith)
])
