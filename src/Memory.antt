-- ===== src/Memory.antt =====
-- Memory as the C code sees it through its pointers: bytes at addresses, and little-endian
-- integers of several bytes, as on x86-64. A pointer is the number of its address, and `NULL` is 0.
pub mod Words
use ratos.Prelude.{ℕ, zero, suc, ◌+◌, ◌*◌, ◌/◌, ◌%◌, ◌^◌, ◌==◌, if◌then◌else◌, u8}

-- The cell of an address. It is read modulo 256, so that every memory holds bytes.
abbrev pub Memory : Type 0
Memory = ℕ → ℕ

-- `*(uint8_t *) a` as a value and as the target of an assignment.
unfoldable pub load8 : Memory → ℕ → ℕ
load8 m a = u8 (m a)

unfoldable pub store8 : Memory → ℕ → ℕ → Memory
store8 m a v b = if b == a then u8 v else m b

-- The same for an integer of `n` bytes.
unfoldable pub load : ℕ → Memory → ℕ → ℕ
unfolding load8
load zero m a = 0
load (suc n) m a = load8 m a + 2 ^ 8 * load n m (a + 1)

unfoldable pub store : ℕ → Memory → ℕ → ℕ → Memory
unfolding store8
store zero m a v = m
store (suc n) m a v = store n (store8 m a v) (a + 1) (v / 2 ^ 8)

-- `*(uint64_t *) a`.
unfoldable pub load64 : Memory → ℕ → ℕ
unfolding load
load64 m a = load 8 m a

unfoldable pub store64 : Memory → ℕ → ℕ → Memory
unfolding store
store64 m a v = store 8 m a v
