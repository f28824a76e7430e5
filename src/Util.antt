-- ===== src/Util.antt =====
-- The rounding helpers of src/util.h.
pub mod Rounding
use ratos.Prelude.{ℕ, zero, suc, ◌+◌, ◌-◌, ◌*◌, ◌/◌, ◌%◌, ◌^◌, bit_or, Bool, true, false, not, ◌==◌}
use ratos.Prelude.{if◌then◌else◌, u64, ◌<<<◌}

unfoldable pub floorchunku64 : ℕ → ℕ → ℕ
floorchunku64 n chunk = n / chunk * chunk

unfoldable pub ceilchunku64 : ℕ → ℕ → ℕ
ceilchunku64 n chunk =
    let result = n / chunk * chunk in if not (n % chunk == 0) then u64 (result + chunk) else result

unfoldable pub ceildivu64 : ℕ → ℕ → ℕ
ceildivu64 n divisor =
    let result = n / divisor in if not (n % divisor == 0) then u64 (result + 1) else result

-- The loop of `get_bitmask64` at `i`, with `left` rounds to go.
bitmask_loop : ℕ → ℕ → ℕ → ℕ
bitmask_loop zero i mask = mask
bitmask_loop (suc left) i mask = bitmask_loop left (i + 1) (bit_or mask (u64 (1 <<< i)))

unfoldable pub get_bitmask64 : ℕ → ℕ → ℕ
unfolding bitmask_loop
get_bitmask64 start end = bitmask_loop (end + 1 - start) start 0
