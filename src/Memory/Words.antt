-- ===== src/Memory/Words.antt =====
-- The laws of loads and stores: a word reads back as it was stored, words that do not overlap are
-- independent, and a digit of a word is a digit of one of its bytes.
use native.Mathlib.Nat.{pow-suc}
use ratos.Prelude.{ℕ, zero, suc, ◌+◌, ◌*◌, ◌/◌, ◌^◌, ◌≤◌, ◌<◌, ◌≡◌, refl, ap, ◌∙◌, ◌⊎◌, inl}
use ratos.Prelude.{arith, u8, ◌==◌, if◌then◌else◌}
use ratos.Prelude.Bits.{testbit, testbit-low, testbit-high}
use ratos.Memory.{Memory, load8, store8, load, store, load64, store64}

-- Two runs of bytes that do not overlap.
abbrev pub Apart : ℕ → ℕ → ℕ → ℕ → Type 0
Apart a n b k = (a + n ≤ b) ⊎ (b + k ≤ a)

pub load8-lt : (m : Memory) (a : ℕ) → load8 m a < 2 ^ 8
unfolding load8
load8-lt m a = omega arith

pub load8-store8 :
    (m : Memory) (a v b : ℕ) → load8 (store8 m a v) b ≡ (if b == a then u8 v else load8 m b)
unfolding load8 store8
load8-store8 m a v b = ground arith

pub load8-store_apart :
    (n : ℕ) (m : Memory) (a v b : ℕ) → (b < a) ⊎ (a + n ≤ b) → load8 (store n m a v) b ≡ load8 m b
unfolding store
load8-store_apart zero m a v b h = refl
load8-store_apart (suc n) m a v b h = ground (
  arith,
  load8-store_apart n (store8 m a v) (a + 1) (v / 2 ^ 8) b (omega arith),
  load8-store8 m a v b,
)

pub load-store-Apart :
    (k n : ℕ) (m : Memory) (a v b : ℕ) → Apart a n b k → load k (store n m a v) b ≡ load k m b
unfolding load
load-store-Apart zero n m a v b h = refl
load-store-Apart (suc k) n m a v b h = omega (
  arith,
  load8-store_apart n m a v b (omega arith),
  load-store-Apart k n m a v (b + 1) (omega arith),
)

pub load-store : (n : ℕ) (m : Memory) (a v : ℕ) → v < (2 ^ 8) ^ n → load n (store n m a v) a ≡ v
unfolding load store
load-store zero m a v fits = omega arith
load-store (suc n) m a v fits = ground (
  arith,
  load8-store_apart n (store8 m a v) (a + 1) (v / 2 ^ 8) a (inl (omega arith)),
  load8-store8 m a v a,
  pow-suc (2 ^ 8) n,
  load-store n (store8 m a v) (a + 1) (v / 2 ^ 8) (omega (arith, pow-suc (2 ^ 8) n)),
)

pub load-lt : (n : ℕ) (m : Memory) (a : ℕ) → load n m a < (2 ^ 8) ^ n
unfolding load
load-lt zero m a = omega arith
load-lt (suc n) m a = omega (arith, load8-lt m a, load-lt n m (a + 1), pow-suc (2 ^ 8) n)

-- Integers with the same bytes are equal.
pub load_ext :
    (n : ℕ) (m m' : Memory) (a : ℕ)
    → ((b : ℕ) → a ≤ b → b < a + n → load8 m b ≡ load8 m' b)
    → load n m a ≡ load n m' a
unfolding load
load_ext zero m m' a same = refl
load_ext (suc n) m m' a same = omega (
  arith,
  same a (omega arith) (omega arith),
  load_ext n m m' (a + 1) (λ b p q. same b (omega arith) (omega arith)),
)

pub load_zero :
    (n : ℕ) (m : Memory) (a : ℕ) → ((b : ℕ) → a ≤ b → b < a + n → load8 m b ≡ 0) → load n m a ≡ 0
unfolding load
load_zero zero m a zeros = refl
load_zero (suc n) m a zeros = omega (
  arith,
  zeros a (omega arith) (omega arith),
  load_zero n m (a + 1) (λ b p q. zeros b (omega arith) (omega arith)),
)

-- Digit `j` of byte `k`.
pub testbit-load :
    (n k j : ℕ) (m : Memory) (a : ℕ)
    → k < n
    → j < 8
    → testbit (load n m a) (8 * k + j) ≡ testbit (load8 m (a + k)) j
unfolding load
testbit-load zero k j m a low small = absurd (omega arith)
testbit-load (suc n) zero j m a low small =
    ap (testbit (load8 m a + 2 ^ 8 * load n m (a + 1))) (omega arith)
    ∙ testbit-low 8 j (load8 m a) (load n m (a + 1)) small
    ∙ ap (λ (t : ℕ). testbit (load8 m t) j) (omega arith)
testbit-load (suc n) (suc k) j m a low small =
    ap (testbit (load8 m a + 2 ^ 8 * load n m (a + 1))) (omega arith)
    ∙ testbit-high 8 (8 * k + j) (load8 m a) (load n m (a + 1)) (load8-lt m a)
    ∙ testbit-load n k j m (a + 1) (omega arith) small
    ∙ ap (λ (t : ℕ). testbit (load8 m t) j) (omega arith)

-- The same at eight bytes.
pub load64-lt : (m : Memory) (a : ℕ) → load64 m a < 2 ^ 64
unfolding load64
load64-lt m a = load-lt 8 m a

pub load64-store64_self : (m : Memory) (a v : ℕ) → v < 2 ^ 64 → load64 (store64 m a v) a ≡ v
unfolding load64 store64
load64-store64_self m a v fits = load-store 8 m a v fits

pub load64-store64-Apart :
    (m : Memory) (a v b : ℕ) → Apart a 8 b 8 → load64 (store64 m a v) b ≡ load64 m b
unfolding load64 store64
load64-store64-Apart m a v b h = load-store-Apart 8 8 m a v b h

pub load8-store64_apart :
    (m : Memory) (a v b : ℕ) → (b < a) ⊎ (a + 8 ≤ b) → load8 (store64 m a v) b ≡ load8 m b
unfolding store64
load8-store64_apart m a v b h = load8-store_apart 8 m a v b h

pub testbit-load64 :
    (k j : ℕ) (m : Memory) (a : ℕ)
    → k < 8
    → j < 8
    → testbit (load64 m a) (8 * k + j) ≡ testbit (load8 m (a + k)) j
unfolding load64
testbit-load64 k j m a low small = testbit-load 8 k j m a low small

pub load64_ext :
    (m m' : Memory) (a : ℕ)
    → ((b : ℕ) → a ≤ b → b < a + 8 → load8 m b ≡ load8 m' b)
    → load64 m a ≡ load64 m' a
unfolding load64
load64_ext m m' a same = load_ext 8 m m' a same

pub load64_zero :
    (m : Memory) (a : ℕ) → ((b : ℕ) → a ≤ b → b < a + 8 → load8 m b ≡ 0) → load64 m a ≡ 0
unfolding load64
load64_zero m a zeros = load_zero 8 m a zeros
