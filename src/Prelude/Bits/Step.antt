-- ===== src/Prelude/Bits/Step.antt =====
-- `bit_and` and `bit_or` by their lowest digit, from the meaning that the library gives them: a
-- recursion on digits that stops when its fuel is used up, where the first operand is fuel enough.
use Prim.Native.Nat.{ℕ, zero, suc, ◌+◌, ◌*◌, ◌/◌, ◌%◌, ◌≤◌, min, max}
use Prim.Native.Nat.{digits, bitwise, bit_and, bit_or, bit_and-bitwise, bit_or-bitwise}
use mathlib.Core.Path.{◌≡◌, refl}
use native.Mathlib.Omega.{arith}

-- `rest` is what the operation makes of the second operand once the first is used up.
module _ (rest : ℕ → ℕ) (op : ℕ → ℕ → ℕ) where
  digits-bitwise :
      (bound fuel x y : ℕ) → fuel ≤ bound → x ≤ fuel → digits rest op fuel x y ≡ bitwise rest op x y
  digits-bitwise bound zero zero y below enough = refl
  digits-bitwise bound (suc fuel) zero y below enough = refl
  digits-bitwise bound zero (suc x) y below enough = absurd (omega arith)
  digits-bitwise zero (suc fuel) (suc x) y below enough = absurd (omega arith)
  digits-bitwise (suc bound) (suc fuel) (suc x) y below enough = omega (
    arith,
    digits-bitwise bound fuel (suc x / 2) (y / 2) (omega arith) (omega arith),
    digits-bitwise bound x (suc x / 2) (y / 2) (omega arith) (omega arith),
  )

  -- An operation that treats its rest digit by digit is one equation on the lowest digit.
  lowest_digit :
      ((y : ℕ) → rest y ≡ rest (y / 2) * 2 + op 0 (y % 2))
      → (x y : ℕ) → bitwise rest op x y ≡ bitwise rest op (x / 2) (y / 2) * 2 + op (x % 2) (y % 2)
  lowest_digit by_digit zero y = by_digit y
  lowest_digit by_digit (suc x) y =
      omega (arith, digits-bitwise x x (suc x / 2) (y / 2) (omega arith) (omega arith))

pub bit_and_step : (x y : ℕ) → bit_and x y ≡ bit_and (x / 2) (y / 2) * 2 + min (x % 2) (y % 2)
bit_and_step x y = simp bit_and-bitwise (lowest_digit (λ y. 0) min (λ y. omega arith) x y)

pub bit_or_step : (x y : ℕ) → bit_or x y ≡ bit_or (x / 2) (y / 2) * 2 + max (x % 2) (y % 2)
bit_or_step x y = simp bit_or-bitwise (lowest_digit (λ y. y) max (λ y. omega arith) x y)
