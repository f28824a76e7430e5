-- ===== src/Phys/Bitmap.antt =====
-- The bitmap of src/mem/phys.c page by page: what each operation on one page does to every page.
use ratos.Prelude.{ℕ, ◌+◌, ◌*◌, ◌/◌, ◌%◌, ◌^◌, ◌<◌, ◌≡◌, ap, ◌∙◌, inl, inr, arith}
use ratos.Prelude.{bit_and, bit_or, ◌==◌, if◌then◌else◌, u64, not64, ◌<<<◌, Bool-cases}
use native.Mathlib.Nat.{mod-eq_of_lt}
use ratos.Prelude.Bits.{
  testbit, testbit-lt, testbit-bit_and, testbit-bit_or, testbit-pow, testbit-not, pow-lt,
}
use ratos.Prelude.Bits.{bit_or-lt, bit_and-lt, bit_and_pow-test}
use ratos.Memory.{Memory, load8, load64, store64}
use ratos.Memory.Words.{testbit-load64, load64-lt, load64-store64_self, load64-store64-Apart}
use ratos.Phys.{Phys, entry_at, page_size, bitmap_index, bitmap_bit_pos, is_marked}
use ratos.Phys.{phys_mark_used, phys_mark_unused, phys_free}

-- The bit of page `p`: 1 while the page is in use.
unfoldable pub page_bit : Phys → Memory → ℕ → ℕ
page_bit ph m p = testbit (load64 m (entry_at ph (p / 64))) (p % 64)

-- The bits of the pages of entry `i` are the digits of its word.
pub page_bit-entry :
    (ph : Phys) (m : Memory) (i p : ℕ)
    → p / 64 ≡ i
    → page_bit ph m p ≡ testbit (load64 m (entry_at ph i)) (p % 64)
unfolding page_bit
page_bit-entry ph m i p e = rw e

-- The bitmap byte by byte.
pub page_bit-byte :
    (ph : Phys) (m : Memory) (p : ℕ)
    → page_bit ph m p ≡ testbit (load8 m (ph.bitmap + p / 8)) (p % 8)
unfolding page_bit
page_bit-byte ph m p =
    ap (testbit (load64 m (entry_at ph (p / 64)))) (omega arith)
    ∙ testbit-load64 (p % 64 / 8) (p % 8) m (entry_at ph (p / 64)) (omega arith) (omega arith)
    ∙ ap (λ (t : ℕ). testbit (load8 m t) (p % 8)) (omega arith)

-- The page of an address.
abbrev pub page_of : ℕ → ℕ
page_of addr = addr / page_size

-- The mask of a bit below 64 does not wrap.
pub mask-eq-pow : (k : ℕ) → k < 64 → u64 (1 <<< k) ≡ 2 ^ k
mask-eq-pow k h = omega (arith, mod-eq_of_lt (pow-lt k 64 h))

module _ (w k j : ℕ) (h : k < 64) where
  pub set_bit-testbit : testbit (bit_or w (u64 (1 <<< k))) j ≡ (if j == k then 1 else testbit w j)
  set_bit-testbit =
      rw (mask-eq-pow k h)
        (ground (arith, testbit-bit_or j w (2 ^ k), testbit-pow k j, testbit-lt w j))

  pub clear_bit-testbit :
      j < 64 → testbit (bit_and w (not64 (u64 (1 <<< k)))) j ≡ (if j == k then 0 else testbit w j)
  clear_bit-testbit small = rw (mask-eq-pow k h) (
      ground (
        arith,
        testbit-bit_and j w (not64 (2 ^ k)),
        testbit-not 64 (2 ^ k) j (pow-lt k 64 h) small,
        testbit-pow k j,
        testbit-lt w j,
      ))

-- A store of another word into entry `i` changes the pages of that entry alone.
module _ (ph : Phys) (m : Memory) (i v : ℕ) (fits : v < 2 ^ 64) where
  pub page_bit-store64 :
      (p : ℕ)
      → page_bit ph (store64 m (entry_at ph i) v) p
        ≡ (if p / 64 == i then testbit v (p % 64) else page_bit ph m p)
  unfolding page_bit
  page_bit-store64 p = elim (Bool-cases (p / 64 == i)) [
    | inl same ↦ rw same (
        ap (λ t. testbit t (p % 64))
          (ap (λ (t : ℕ). load64 (store64 m (entry_at ph i) v) (entry_at ph t)) (ground arith)
            ∙ load64-store64_self m (entry_at ph i) v fits))
    | inr other ↦ rw other (
        ap (λ t. testbit t (p % 64))
          (load64-store64-Apart m (entry_at ph i) v (entry_at ph (p / 64)) (ground arith)))
  ]

-- Setting and clearing bit `k` of entry `i`.
module _ (ph : Phys) (m : Memory) (i k p : ℕ) (h : k < 64) where
  abbrev entry : ℕ
  entry = load64 m (entry_at ph i)

  pub page_bit-set :
      page_bit ph (store64 m (entry_at ph i) (bit_or (load64 m (entry_at ph i)) (u64 (1 <<< k)))) p
      ≡ (if p == i * 64 + k then 1 else page_bit ph m p)
  page_bit-set = ground (
    arith,
    page_bit-store64 ph m i (bit_or entry (u64 (1 <<< k)))
        (bit_or-lt 64 entry (u64 (1 <<< k)) (load64-lt m (entry_at ph i)) (omega arith)) p,
    set_bit-testbit entry k (p % 64) h,
    page_bit-entry ph m i p,
  )

  pub page_bit-clear :
      page_bit ph
        (store64 m (entry_at ph i) (bit_and (load64 m (entry_at ph i)) (not64 (u64 (1 <<< k)))))
        p
      ≡ (if p == i * 64 + k then 0 else page_bit ph m p)
  page_bit-clear = ground (
    arith,
    page_bit-store64 ph m i (bit_and entry (not64 (u64 (1 <<< k))))
        (bit_and-lt 64 entry (not64 (u64 (1 <<< k))) (load64-lt m (entry_at ph i))) p,
    clear_bit-testbit entry k (p % 64) h (omega arith),
    page_bit-entry ph m i p,
  )

module _ (ph : Phys) (m : Memory) (addr p : ℕ) where
  pub mark_used-page_bit :
      page_bit ph (phys_mark_used ph m addr) p ≡ (if p == page_of addr then 1 else page_bit ph m p)
  unfolding phys_mark_used
  mark_used-page_bit =
      ground (arith, page_bit-set ph m (bitmap_index addr) (bitmap_bit_pos addr) p (omega arith))

  pub mark_unused-page_bit :
      page_bit ph (phys_mark_unused ph m addr) p
      ≡ (if p == page_of addr then 0 else page_bit ph m p)
  unfolding phys_mark_unused
  mark_unused-page_bit =
      ground (arith, page_bit-clear ph m (bitmap_index addr) (bitmap_bit_pos addr) p (omega arith))

  pub free-page_bit :
      page_bit ph (phys_free ph m addr) p ≡ (if p == page_of addr then 0 else page_bit ph m p)
  unfolding phys_free
  free-page_bit =
      ground (arith, page_bit-clear ph m (bitmap_index addr) (bitmap_bit_pos addr) p (omega arith))

  pub is_marked-page_bit : is_marked ph m addr ≡ (page_bit ph m (page_of addr) == 1)
  unfolding is_marked page_bit
  is_marked-page_bit =
      rw (mask-eq-pow (bitmap_bit_pos addr) (omega arith))
        (bit_and_pow-test (bitmap_bit_pos addr) (load64 m (entry_at ph (bitmap_index addr))))

pub page_bit-lt : (ph : Phys) (m : Memory) (p : ℕ) → page_bit ph m p < 2
unfolding page_bit
page_bit-lt ph m p = testbit-lt (load64 m (entry_at ph (p / 64))) (p % 64)
