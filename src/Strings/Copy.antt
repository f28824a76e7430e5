-- ===== src/Strings/Copy.antt =====
-- `strcpy` and `strncpy` of src/string.c on terminated strings.
use native.Mathlib.Nat.{suc-min-suc}
use ratos.Prelude.{ℕ, zero, suc, ◌+◌, ◌-◌, ◌<◌, ◌≡◌, ◌⊎◌, arith, some}
use ratos.Prelude.{◌==◌, if◌then◌else◌, min}
use ratos.Memory.{Memory, load8, store8}
use ratos.Memory.Words.{load8-store8, load8-lt}
use ratos.Strings.{strcpy, strncpy_loop, strncpy}
use ratos.Strings.Blocks.{within}
use ratos.Strings.Scan.{IsString, IsString-tail, IsString-head, IsString-end}

-- `out` is `m` with `n` characters copied from `src` to `dst` and a terminator behind them.
abbrev pub IsCopied : Memory → ℕ → ℕ → ℕ → Memory → Type 0
IsCopied m dst src n out =
    (b : ℕ)
    → load8 out b ≡ (
        if within dst n b then load8 m (src + (b - dst)) else if b == dst + n then 0 else load8 m b)

-- The target starts below the string or behind its terminator.
abbrev pub Clear : ℕ → ℕ → ℕ → Type 0
Clear dst src n = (dst < src) ⊎ (src + n < dst)

-- A store beside the string leaves it a string.
IsString-store8 :
    (m : Memory) (dst v s n : ℕ)
    → (dst < s) ⊎ (s + n < dst)
    → IsString m s n
    → IsString (store8 m dst v) s n
IsString-store8 m dst v s n clear is = record {
  characters = λ j h. ground (arith, is.characters j, load8-store8 m dst v (s + j));
  terminated = ground (arith, is.terminated, load8-store8 m dst v (s + n));
}

-- One character copied, and then the rest of the string.
IsCopied-cons :
    (m : Memory) (dst src n : ℕ) (out : Memory)
    → Clear dst src (suc n)
    → IsCopied (store8 m dst (load8 m src)) (dst + 1) (src + 1) n out
    → IsCopied m dst src (suc n) out
IsCopied-cons m dst src n out clear copied b = ground (
  arith,
  copied b,
  load8-store8 m dst (load8 m src) b,
  load8-store8 m dst (load8 m src) (src + 1 + (b - (dst + 1))),
  load8-lt m src,
)

-- Given a round more than there are characters, `strcpy` ends, copies the string with its terminator
-- and changes nothing else, if the target starts below the string or behind its terminator.
pub strcpy_lem :
    (fuel n : ℕ) (m : Memory) (dst src : ℕ)
    → n < fuel
    → Clear dst src n
    → IsString m src n
    → (out : Memory) × (strcpy fuel m dst src ≡ some out) × IsCopied m dst src n out
unfolding strcpy
strcpy_lem zero n m dst src h clear is = absurd (omega arith)
strcpy_lem (suc fuel) zero m dst src h clear is =
    (store8 m dst 0, rw (IsString-end is), λ b. ground (arith, load8-store8 m dst 0 b))
strcpy_lem (suc fuel) (suc n) m dst src h clear is =
    let (out, e, copied) =
      strcpy_lem fuel n (store8 m dst (load8 m src)) (dst + 1) (src + 1) (omega arith) (omega arith)
        (IsString-store8 m dst (load8 m src) (src + 1) n (omega arith) (IsString-tail is)) in
    (out, rw (IsString-head is) e, IsCopied-cons m dst src n out clear copied)

-- The loop at `i` is the loop at 0 with both pointers moved on.
strncpy_loop_shift :
    (left i : ℕ) (m : Memory) (dst src : ℕ)
    → strncpy_loop left i m dst src ≡ strncpy_loop left 0 m (dst + i) (src + i)
unfolding strncpy_loop
strncpy_loop_shift zero i m dst src = ground arith
strncpy_loop_shift (suc left) i m dst src = ground (
  arith,
  strncpy_loop_shift left (i + 1) (store8 m (dst + i) (load8 m (src + i))) dst src,
  strncpy_loop_shift left 1 (store8 m (dst + i) (load8 m (src + i))) (dst + i) (src + i),
)

strncpy_loop_lem :
    (left n : ℕ) (m : Memory) (dst src : ℕ)
    → Clear dst src n
    → IsString m src n
    → IsCopied m dst src (min left n) (strncpy_loop left 0 m dst src)
unfolding strncpy_loop
strncpy_loop_lem zero n m dst src clear is = λ b. ground (arith, load8-store8 m (dst + 0) 0 b)
strncpy_loop_lem (suc left) zero m dst src clear is =
    λ b. ground (arith, is.terminated, load8-store8 m (dst + 0) 0 b)
strncpy_loop_lem (suc left) (suc n) m dst src clear is =
    rw (at_0, suc-min-suc left n, strncpy_loop_shift left 1 (store8 m dst (load8 m src)) dst src)
      (IsCopied-cons m dst src (min left n) _ (omega arith) (
        strncpy_loop_lem left n (store8 m dst (load8 m src)) (dst + 1) (src + 1) (omega arith)
          (IsString-store8 m dst (load8 m src) (src + 1) n (omega arith) (IsString-tail is))))
  where
    at_0 :
        strncpy_loop (suc left) 0 m dst src
        ≡ strncpy_loop left 1 (store8 m dst (load8 m src)) dst src
    at_0 = ground (arith, is.characters 0)

-- `strncpy` copies the string up to `length` characters, always puts a terminator behind them, and
-- changes nothing else, if the target starts below the string or behind its terminator. With a string
-- of `length` characters or more it writes `length + 1` bytes.
pub strncpy_lem :
    (length n : ℕ) (m : Memory) (dst src : ℕ)
    → Clear dst src n
    → IsString m src n
    → IsCopied m dst src (min length n) (strncpy m dst src length)
unfolding strncpy
strncpy_lem length n m dst src clear is = strncpy_loop_lem length n m dst src clear is
