-- ===== src/Stacktrace/Number.antt =====
-- `s_pointer_to_number` of src/debug/stacktrace.c reads what a printer of 16 digits writes.
use native.Mathlib.Nat.{pow-suc, div-div-eq-div-mul, div-le_self}
use ratos.Prelude.{
  ℕ, zero, suc, ◌+◌, ◌-◌, ◌*◌, ◌/◌, ◌%◌, ◌^◌, ◌≤◌, ◌<◌, ◌≡◌, ◌⊎◌, ap, ◌∙◌, arith, u64, sym,
}
use ratos.Memory.{Memory, load8}
use ratos.Stacktrace.{digit_of, pointer_loop, s_pointer_to_number}

-- The character of a digit, in either case.
abbrev pub IsDigit : (c d : ℕ) → Type 0
IsDigit c d = ((d < 10) × (c ≡ 48 + d)) ⊎ ((10 ≤ d) × (d < 16) × ((c ≡ 87 + d) ⊎ (c ≡ 55 + d)))

-- The 16 digits of a number, the highest first.
abbrev pub IsPrinted : Memory → (str n : ℕ) → Type 0
IsPrinted m str n = (i : ℕ) → i < 16 → IsDigit (load8 m (str + i)) (n / 16 ^ (15 - i) % 16)

digit_of_lem : (c d : ℕ) → IsDigit c d → digit_of c ≡ d
digit_of_lem c d is = ground arith

-- One digit more of the quotient.
next_quotient : (n left : ℕ) → n / 16 ^ left / 16 ≡ n / 16 ^ suc left
next_quotient n left =
    div-div-eq-div-mul n (16 ^ left) 16 ∙ ap (λ (t : ℕ). n / t) (sym (pow-suc 16 left))

module _ (m : Memory) (str n : ℕ) (fits : n < 2 ^ 64) (is : IsPrinted m str n) where
  -- With `left` digits to go, the upper ones are read.
  pointer_loop_lem : (left i : ℕ) → i + left ≡ 16 → pointer_loop left i (n / 16 ^ left) m str ≡ n
  unfolding pointer_loop
  pointer_loop_lem zero i all = omega arith
  pointer_loop_lem (suc left) i all =
      let y : ℕ = n / 16 ^ left in
      let place : 15 - i ≡ left = omega (arith, all) in
      let digit : digit_of (load8 m (str + i)) ≡ y % 16 =
        digit_of_lem (load8 m (str + i)) (n / 16 ^ (15 - i) % 16) (is i (omega (arith, all)))
        ∙ ap (λ (t : ℕ). n / 16 ^ t % 16) place in
      let small : y ≤ n = div-le_self n (16 ^ left) in
      let value : u64 (u64 (n / 16 ^ suc left * 2 ^ 4) + digit_of (load8 m (str + i))) ≡ y =
        omega (arith, digit, next_quotient n left, small, fits) in
      ap (λ (t : ℕ). pointer_loop left (i + 1) t m str) value
      ∙ pointer_loop_lem left (i + 1) (omega (arith, all))

-- If the 16 characters from `str` on are the hexadecimal digits of a 64-bit number, in either case,
-- `s_pointer_to_number` returns the number.
pub s_pointer_to_number_lem :
    (m : Memory) (str n : ℕ) → n < 2 ^ 64 → IsPrinted m str n → s_pointer_to_number m str ≡ n
unfolding s_pointer_to_number pointer_loop
s_pointer_to_number_lem m str n fits is =
    ap (λ (t : ℕ). pointer_loop 16 0 t m str) {x = 0} {y = n / 16 ^ 16} (omega arith)
    ∙ pointer_loop_lem m str n fits is 16 0 (omega arith)
