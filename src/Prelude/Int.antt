-- ===== src/Prelude/Int.antt =====
-- C's `int`, as far as the code computes with it: differences of two bytes.
use Prim.Native.Nat.{ℕ, ◌-◌}
use mathlib.Core.Path.{◌≡◌}
use native.Mathlib.Omega.{arith}
use ratos.Prelude.Tests.{leb, ◌==◌, if◌then◌else◌}
use mathlib.Core.Bool.{Bool, true, false, not}

-- `negsuc n` is -(n + 1).
pub data ℤ : Type 0 where
  pos : ℕ → ℤ
  negsuc : ℕ → ℤ

-- a - b, as an integer.
abbrev pub sub_ℕ : ℕ → ℕ → ℤ
sub_ℕ a b = if leb b a then pos (a - b) else negsuc (b - a - 1)

-- `n != 0`.
abbrev pub is_nonzero : ℤ → Bool
is_nonzero (pos n) = elim n [ ℕ.zero ↦ false | _ ↦ true ]
is_nonzero (negsuc n) = true

-- A difference is nonzero exactly when the two numbers differ.
pub is_nonzero-sub_ℕ : (a b : ℕ) → is_nonzero (sub_ℕ a b) ≡ not (a == b)
is_nonzero-sub_ℕ a b = ground arith

pub sub_ℕ_self : (a : ℕ) → sub_ℕ a a ≡ pos 0
sub_ℕ_self a = ground arith
