-- ===== src/Strings/Blocks.antt =====
-- The functions of src/string.c on blocks of a given size.
use ratos.Prelude.{ℕ, Bool, zero, suc, ◌+◌, ◌-◌, ◌≤◌, ◌<◌, ◌≡◌, ◌≢◌, refl, ◌⊎◌, arith}
use ratos.Prelude.{◌==◌, ltb, leb, ◌&&◌, if◌then◌else◌, u8, Bool-cases, inl, inr}
use ratos.Prelude.Int.{pos, sub_ℕ, is_nonzero-sub_ℕ}
use ratos.Memory.{Memory, load8, store8}
use ratos.Memory.Words.{load8-lt, load8-store8}
use ratos.Strings.{
  memset_loop, memset, memcpy_loop, memcpy, memchr_loop, memchr, memcmp_loop, memcmp,
}

-- `b` is one of the `n` addresses from `a` on.
abbrev pub within : ℕ → ℕ → ℕ → Bool
within a n b = leb a b && ltb b (a + n)

memset_loop_lem :
    (left i : ℕ) (m : Memory) (dst value b : ℕ)
    → load8 (memset_loop left i m dst value) b
      ≡ (if within (dst + i) left b then u8 value else load8 m b)
unfolding memset_loop
memset_loop_lem zero i m dst value b = ground arith
memset_loop_lem (suc left) i m dst value b = ground (
  arith,
  memset_loop_lem left (i + 1) (store8 m (dst + i) value) dst value b,
  load8-store8 m (dst + i) value b,
)

-- `memset` sets the bytes of its block to the value, cut to a byte, and changes no other.
pub memset_lem :
    (m : Memory) (dst value count b : ℕ)
    → load8 (memset m dst value count) b ≡ (if within dst count b then u8 value else load8 m b)
unfolding memset
memset_lem m dst value count b = ground (arith, memset_loop_lem count 0 m dst (u8 value) b)

memcpy_loop_lem :
    (left i : ℕ) (m : Memory) (dst src b : ℕ)
    → (dst ≤ src) ⊎ (src + (i + left) ≤ dst)
    → load8 (memcpy_loop left i m dst src) b
      ≡ (if within (dst + i) left b then load8 m (src + (b - dst)) else load8 m b)
unfolding memcpy_loop
memcpy_loop_lem zero i m dst src b h = ground arith
memcpy_loop_lem (suc left) i m dst src b h = ground (
  arith,
  memcpy_loop_lem left (i + 1) (store8 m (dst + i) (load8 m (src + i))) dst src b (omega arith),
  load8-store8 m (dst + i) (load8 m (src + i)) b,
  load8-store8 m (dst + i) (load8 m (src + i)) (src + (b - dst)),
  load8-lt m (src + i),
)

-- `memcpy` copies the block as it was before, and changes no byte outside, if the blocks do not
-- overlap or the target is the lower one.
pub memcpy_lem :
    (m : Memory) (dst src count b : ℕ)
    → (dst ≤ src) ⊎ (src + count ≤ dst)
    → load8 (memcpy m dst src count) b
      ≡ (if within dst count b then load8 m (src + (b - dst)) else load8 m b)
unfolding memcpy
memcpy_lem m dst src count b h = ground (arith, memcpy_loop_lem count 0 m dst src b (omega arith))

memchr_loop_lem :
    (left i : ℕ) (m : Memory) (ptr ch : ℕ)
    → 0 < ptr
    → ((memchr_loop left i m ptr ch ≡ 0)
        × ((j : ℕ) → i ≤ j → j < i + left → load8 m (ptr + j) ≢ u8 ch))
      ⊎ ((k : ℕ) × (memchr_loop left i m ptr ch ≡ ptr + k)
          × (i ≤ k)
          × (k < i + left)
          × (load8 m (ptr + k) ≡ u8 ch)
          × ((j : ℕ) → i ≤ j → j < k → load8 m (ptr + j) ≢ u8 ch))
unfolding memchr_loop
memchr_loop_lem zero i m ptr ch ne = inl (refl, λ j p q. absurd (omega arith))
memchr_loop_lem (suc left) i m ptr ch ne = elim (Bool-cases (load8 m (ptr + i) == u8 ch)) [
  | inl hit ↦ inr (i, rw hit, omega arith, omega arith, ground arith, λ j p q. absurd (omega arith))
  | inr miss ↦ rw miss (elim (memchr_loop_lem left (i + 1) m ptr ch ne) [
    | inl (e, h) ↦ inl (e, λ j p q e'. ground (arith, h j))
    | inr (k, e, p, q, at, h) ↦
        inr (k, e, omega arith, omega arith, at, λ j p q e'. ground (arith, h j))
  ])
]

-- `memchr` returns the address of the first byte of the block that is the character, and `NULL`
-- exactly when the block has none.
pub memchr_lem :
    (m : Memory) (ptr ch count : ℕ)
    → 0 < ptr
    → ((memchr m ptr ch count ≡ 0) × ((j : ℕ) → j < count → load8 m (ptr + j) ≢ u8 ch))
      ⊎ ((k : ℕ) × (memchr m ptr ch count ≡ ptr + k)
          × (k < count)
          × (load8 m (ptr + k) ≡ u8 ch)
          × ((j : ℕ) → j < k → load8 m (ptr + j) ≢ u8 ch))
unfolding memchr
memchr_lem m ptr ch count ne = elim (memchr_loop_lem count 0 m ptr ch ne) [
  | inl (e, h) ↦ inl (e, λ j q. h j (omega arith) (omega arith))
  | inr (k, e, p, q, at, h) ↦ inr (k, e, omega arith, at, λ j q. h j (omega arith) q)
]

memcmp_loop_lem :
    (left i : ℕ) (m : Memory) (a b : ℕ)
    → ((memcmp_loop left i m a b ≡ pos 0)
        × ((j : ℕ) → i ≤ j → j < i + left → load8 m (a + j) ≡ load8 m (b + j)))
      ⊎ ((k : ℕ) × (memcmp_loop left i m a b ≡ sub_ℕ (load8 m (a + k)) (load8 m (b + k)))
          × (i ≤ k)
          × (k < i + left)
          × (load8 m (a + k) ≢ load8 m (b + k))
          × ((j : ℕ) → i ≤ j → j < k → load8 m (a + j) ≡ load8 m (b + j)))
unfolding memcmp_loop
memcmp_loop_lem zero i m a b = inl (refl, λ j p q. absurd (omega arith))
memcmp_loop_lem (suc left) i m a b = elim (Bool-cases (load8 m (a + i) == load8 m (b + i))) [
  | inl same ↦
      rw (is_nonzero-sub_ℕ (load8 m (a + i)) (load8 m (b + i)), same)
        (elim (memcmp_loop_lem left (i + 1) m a b) [
          | inl (e, h) ↦ inl (e, λ j p q. ground (arith, h j))
          | inr (k, e, p, q, ne, h) ↦
              inr (k, e, omega arith, omega arith, ne, λ j p q. ground (arith, h j))
        ])
  | inr differ ↦
      rw (is_nonzero-sub_ℕ (load8 m (a + i)) (load8 m (b + i)), differ)
        (inr (i, refl, omega arith, omega arith, ground arith, λ j p q. absurd (omega arith)))
]

-- `memcmp` returns the difference of the first two bytes that differ, and 0 exactly when the blocks
-- are equal.
pub memcmp_lem :
    (m : Memory) (a b n : ℕ)
    → ((memcmp m a b n ≡ pos 0) × ((j : ℕ) → j < n → load8 m (a + j) ≡ load8 m (b + j)))
      ⊎ ((k : ℕ) × (memcmp m a b n ≡ sub_ℕ (load8 m (a + k)) (load8 m (b + k)))
          × (k < n)
          × (load8 m (a + k) ≢ load8 m (b + k))
          × ((j : ℕ) → j < k → load8 m (a + j) ≡ load8 m (b + j)))
unfolding memcmp
memcmp_lem m a b n = elim (memcmp_loop_lem n 0 m a b) [
  | inl (e, h) ↦ inl (e, λ j q. h j (omega arith) (omega arith))
  | inr (k, e, p, q, ne, h) ↦ inr (k, e, omega arith, ne, λ j q. h j (omega arith) q)
]
