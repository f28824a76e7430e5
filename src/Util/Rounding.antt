-- ===== src/Util/Rounding.antt =====
-- What the rounding helpers of src/util.h compute where nothing wraps.
use native.Mathlib.Nat.{mod-eq_of_lt}
use ratos.Prelude.{ℕ, zero, suc, ◌+◌, ◌-◌, ◌*◌, ◌/◌, ◌%◌, ◌^◌, ◌≤◌, ◌<◌, ◌≡◌, refl, arith}
use ratos.Prelude.{bit_or, max, ◌==◌, if◌then◌else◌, ◌&&◌, leb, ltb, Bool-cases, inl, inr}
use ratos.Prelude.Bits.{testbit, testbit-zero, testbit-bit_or, testbit-pow, pow-lt}
use ratos.Util.{floorchunku64, ceilchunku64, ceildivu64, bitmask_loop, get_bitmask64}

-- `n` is a multiple of `chunk`.
abbrev pub IsMultiple : ℕ → ℕ → Type 0
IsMultiple n chunk = (k : ℕ) × (n ≡ k * chunk)

-- Without a wrap, `ceilchunku64` is a multiple of the chunk, at or above `n` by less than a chunk.
pub ceilchunku64_bracket :
    (n chunk : ℕ)
    → 0 < chunk
    → n + chunk ≤ 2 ^ 64
    → (n ≤ ceilchunku64 n chunk)
      × (ceilchunku64 n chunk < n + chunk)
      × IsMultiple (ceilchunku64 n chunk) chunk
unfolding ceilchunku64
ceilchunku64_bracket n chunk pos fits = elim (Bool-cases (n % chunk == 0)) [
  | inl even ↦ rw even (grind arith, grind arith, (n / chunk, refl))
  | inr odd ↦ rw odd (grind arith, grind arith, (n / chunk + 1, grind arith))
]

pub floorchunku64_bracket :
    (n chunk : ℕ)
    → 0 < chunk
    → (floorchunku64 n chunk ≤ n)
      × (n < floorchunku64 n chunk + chunk)
      × IsMultiple (floorchunku64 n chunk) chunk
unfolding floorchunku64
floorchunku64_bracket n chunk pos = (grind arith, grind arith, (n / chunk, refl))

-- Without a wrap, `ceildivu64` is the least quotient whose product with the divisor reaches `n`.
pub ceildivu64_bracket :
    (n divisor : ℕ)
    → 1 < divisor
    → n < 2 ^ 64
    → (n ≤ ceildivu64 n divisor * divisor) × (ceildivu64 n divisor * divisor < n + divisor)
unfolding ceildivu64
ceildivu64_bracket n divisor big fits = grind arith

bitmask_loop-testbit :
    (left i j mask : ℕ)
    → i + left ≤ 64
    → testbit (bitmask_loop left i mask) j
      ≡ max (testbit mask j) (if leb i j && ltb j (i + left) then 1 else 0)
unfolding bitmask_loop
bitmask_loop-testbit zero i j mask fits = ground arith
bitmask_loop-testbit (suc left) i j mask fits = ground (
  arith,
  bitmask_loop-testbit left (i + 1) j (bit_or mask (2 ^ i)),
  testbit-bit_or j mask (2 ^ i),
  testbit-pow i j,
  mod-eq_of_lt (pow-lt i 64 (omega arith)),
)

-- `get_bitmask64` has exactly the digits from `start` to `end`, both included.
pub get_bitmask64-testbit :
    (start end j : ℕ)
    → end < 64
    → testbit (get_bitmask64 start end) j ≡ (if leb start j && leb j end then 1 else 0)
unfolding get_bitmask64
get_bitmask64-testbit start end j fits =
    ground (arith, bitmask_loop-testbit (end + 1 - start) start j 0, testbit-zero j)
