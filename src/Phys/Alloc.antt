-- ===== src/Phys/Alloc.antt =====
-- `phys_alloc` of src/mem/phys.c takes the least free page.
use ratos.Prelude.{
  ℕ, zero, suc, ◌+◌, ◌*◌, ◌%◌, ◌^◌, ◌≤◌, ◌<◌, ◌≡◌, refl, ap, ◌∙◌, ◌⊎◌, inl, inr, arith,
}
use ratos.Prelude.{
  ◌==◌, if◌then◌else◌, u64, ◌<<<◌, bit_or, Bool-cases, true, false, Option, none, some,
}
use ratos.Prelude.Bits.{testbit, testbit-ones, testbit-lt, bit_and_pow-test}
use ratos.Memory.{Memory, load64, store64}
use ratos.Phys.{Phys, entry_at, page_size, fully_used, clear_bit_loop, alloc_loop, phys_alloc}
use ratos.Phys.Bitmap.{page_bit, page_bit-entry, mask-eq-pow, page_bit-set}

-- What `clear_bit_loop` returns of the digits from `lo` to `hi`.
abbrev ClearBit : (entry lo hi : ℕ) → Option ℕ → Type 0
ClearBit entry lo hi none = (j : ℕ) → lo ≤ j → j < hi → testbit entry j ≡ 1
ClearBit entry lo hi (some k) =
    (lo ≤ k) × (k < hi) × (testbit entry k ≡ 0) × ((j : ℕ) → lo ≤ j → j < k → testbit entry j ≡ 1)

ClearBit-cons :
    (entry lo hi : ℕ) (r : Option ℕ)
    → testbit entry lo ≡ 1
    → ClearBit entry (lo + 1) hi r
    → ClearBit entry lo hi r
ClearBit-cons entry lo hi none set rest = λ j p q. ground (arith, rest j)
ClearBit-cons entry lo hi (some k) set (p, q, clear, first) =
    (omega arith, q, clear, λ j p' q'. ground (arith, first j))

clear_bit_loop-ClearBit :
    (left bit entry hi : ℕ)
    → bit + left ≡ hi
    → hi ≤ 64
    → ClearBit entry bit hi (clear_bit_loop left bit entry)
unfolding clear_bit_loop
clear_bit_loop-ClearBit zero bit entry hi e fits = λ j p q. absurd (omega arith)
clear_bit_loop-ClearBit (suc left) bit entry hi e fits =
    rw (mask-eq-pow bit (omega arith), bit_and_pow-test bit entry)
      (elim (Bool-cases (testbit entry bit == 1)) [
        | inl set ↦ rw set (
            ClearBit-cons entry bit hi _ (ground arith)
              (clear_bit_loop-ClearBit left (bit + 1) entry hi (omega arith) fits))
        | inr clear ↦ rw clear (
          omega arith,
          omega arith,
          ground (arith, testbit-lt entry bit),
          λ j p q. absurd (omega arith),
        )
      ])

-- All pages from `lo` to `hi` are in use.
abbrev pub AllUsed : Phys → Memory → (lo hi : ℕ) → Type 0
AllUsed ph m lo hi = (q : ℕ) → lo ≤ q → q < hi → page_bit ph m q ≡ 1

-- The result is the address of the first free page from `lo` on, which lies below `hi`, and in the
-- memory returned that page is in use and every other page is as before.
pub record Allocated (ph : Phys) (m : Memory) (lo hi : ℕ) (result : ℕ × Memory) : Type 0 where
  pub page : ℕ
  pub from : lo ≤ page
  pub below : page < hi
  pub was_free : page_bit ph m page ≡ 0
  pub first : AllUsed ph m lo page
  pub address : result.0 ≡ page * page_size
  pub marked : (q : ℕ) → page_bit ph result.1 q ≡ (if q == page then 1 else page_bit ph m q)

abbrev pub Alloc : Phys → Memory → (lo hi : ℕ) → ℕ × Memory → Type 0
Alloc ph m lo hi result = Allocated ph m lo hi result ⊎ (AllUsed ph m lo hi × (result ≡ (0, m)))

Alloc-skip :
    (ph : Phys) (m : Memory) (lo mid hi : ℕ) (result : ℕ × Memory)
    → lo ≤ mid
    → AllUsed ph m lo mid
    → Alloc ph m mid hi result
    → Alloc ph m lo hi result
Alloc-skip ph m lo mid hi result h used (inl a) = inl (record {
  page = a.page;
  from = omega (arith, a.from);
  below = a.below;
  was_free = a.was_free;
  first = λ q p p'. ground (arith, used q, a.first q);
  address = a.address;
  marked = a.marked;
})
Alloc-skip ph m lo mid hi result h used (inr (rest, e)) =
    inr (λ q p p'. ground (arith, used q, rest q), e)

module _ (ph : Phys) (m : Memory) (i : ℕ) where
  entry_used :
      (hi : ℕ)
      → hi ≤ 64
      → ((j : ℕ) → 0 ≤ j → j < hi → testbit (load64 m (entry_at ph i)) j ≡ 1)
      → AllUsed ph m (i * 64) (i * 64 + hi)
  entry_used hi fits h q p p' =
      page_bit-entry ph m i q (omega arith) ∙ h (q % 64) (omega arith) (omega arith)

  full_entry :
      (load64 m (entry_at ph i) == fully_used) ≡ true → AllUsed ph m (i * 64) ((i + 1) * 64)
  full_entry full q p p' =
      entry_used 64 (omega arith)
        (λ j _ below. ap (λ t. testbit t j) (ground arith) ∙ testbit-ones 64 j below) q p
        (omega arith)

  -- The allocation of bit `k` of entry `i`.
  take_bit :
      (k hi : ℕ)
      → k < 64
      → i < hi
      → hi * 64 * page_size ≤ 2 ^ 64
      → testbit (load64 m (entry_at ph i)) k ≡ 0
      → ((j : ℕ) → 0 ≤ j → j < k → testbit (load64 m (entry_at ph i)) j ≡ 1)
      → Allocated ph m (i * 64) (hi * 64) (
        u64 (u64 (u64 (i * 64) + k) * page_size),
        store64 m (entry_at ph i) (bit_or (load64 m (entry_at ph i)) (u64 (1 <<< k))),
      )
  take_bit k hi small below fits clear first = record {
    page = i * 64 + k;
    from = omega arith;
    below = omega arith;
    was_free = page_bit-entry ph m i (i * 64 + k) (omega arith) ∙ ground arith;
    first = entry_used k (omega arith) first;
    address = omega arith;
    marked = λ q. page_bit-set ph m i k q small;
  }

-- The result at entry `i`, by what `clear_bit_loop` returns and given the rest of the loop.
abbrev pub entry_result : Phys → Memory → ℕ → ℕ × Memory → Option ℕ → ℕ × Memory
entry_result ph m i rest none = rest
entry_result ph m i rest (some k) = (
  u64 (u64 (u64 (i * 64) + k) * page_size),
  store64 m (entry_at ph i) (bit_or (load64 m (entry_at ph i)) (u64 (1 <<< k))),
)

entry_result-Alloc :
    (ph : Phys) (m : Memory) (i hi : ℕ) (rest : ℕ × Memory) (r : Option ℕ)
    → i < hi
    → hi * 64 * page_size ≤ 2 ^ 64
    → ClearBit (load64 m (entry_at ph i)) 0 64 r
    → Alloc ph m ((i + 1) * 64) (hi * 64) rest
    → Alloc ph m (i * 64) (hi * 64) (entry_result ph m i rest r)
entry_result-Alloc ph m i hi rest none h fits used next =
    Alloc-skip ph m (i * 64) ((i + 1) * 64) (hi * 64) rest (omega arith)
      (λ q p p'. entry_used ph m i 64 (omega arith) used q p (omega arith)) next
entry_result-Alloc ph m i hi rest (some k) h fits (p, small, clear, first) next =
    inl (take_bit ph m i k hi small h fits clear first)

pub alloc_loop-suc :
    (ph : Phys) (m : Memory) (left i : ℕ)
    → (load64 m (entry_at ph i) == fully_used) ≡ false
    → alloc_loop ph (suc left) i m
      ≡ entry_result ph m i
          (alloc_loop ph left (i + 1) m)
          (clear_bit_loop 64 0 (load64 m (entry_at ph i)))
unfolding alloc_loop
alloc_loop-suc ph m left i open_entry = rw open_entry

alloc_loop-Alloc :
    (ph : Phys) (m : Memory) (left i hi : ℕ)
    → i + left ≡ hi
    → hi * 64 * page_size ≤ 2 ^ 64
    → Alloc ph m (i * 64) (hi * 64) (alloc_loop ph left i m)
unfolding alloc_loop
alloc_loop-Alloc ph m zero i hi e fits = inr (λ q p p'. absurd (omega arith), refl)
alloc_loop-Alloc ph m (suc left) i hi e fits =
    let rest = alloc_loop-Alloc ph m left (i + 1) hi (omega arith) fits in
    elim (Bool-cases (load64 m (entry_at ph i) == fully_used)) [
      | inl full ↦ rw full (
          Alloc-skip ph m (i * 64) ((i + 1) * 64) (hi * 64) _ (omega arith) (full_entry ph m i full)
            rest)
      | inr open_entry ↦ rw (alloc_loop-suc ph m left i open_entry) (
          entry_result-Alloc ph m i hi _ _ (omega arith) fits
            (clear_bit_loop-ClearBit 64 0 (load64 m (entry_at ph i)) 64 refl (omega arith)) rest)
    ]

-- If the addresses of all pages of the bitmap's entries fit 64 bits: `phys_alloc` returns the address
-- of the least free page below `64 * s_phys_bitmap_size` and marks that page alone, or it returns 0
-- and changes nothing, since all those pages are in use.
pub phys_alloc-Alloc :
    (ph : Phys) (m : Memory)
    → ph.bitmap_size * 64 * page_size ≤ 2 ^ 64
    → Alloc ph m 0 (ph.bitmap_size * 64) (phys_alloc ph m)
unfolding phys_alloc
phys_alloc-Alloc ph m fits =
    alloc_loop-Alloc ph m ph.bitmap_size 0 ph.bitmap_size (omega arith) fits
