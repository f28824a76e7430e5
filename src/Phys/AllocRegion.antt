-- ===== src/Phys/AllocRegion.antt =====
-- `phys_alloc_region` of src/mem/phys.c takes the first run of free pages that is long enough.
use ratos.Prelude.{
  ℕ, zero, suc, ◌+◌, ◌-◌, ◌*◌, ◌/◌, ◌^◌, ◌≤◌, ◌<◌, ◌≡◌, refl, sym, subst, ◌⊎◌, inl, inr, arith,
}
use ratos.Prelude.{◌==◌, if◌then◌else◌, u64, ltb, Bool-cases, true, false, Option, none, some}
use native.Mathlib.Decide.{dec_lt}
use ratos.Memory.{Memory}
use ratos.Phys.{Phys, page_size, rounds, find_marked_loop, Search, found, exhausted, out_of_fuel}
use ratos.Phys.{search_region, region_fuel, phys_alloc_region, phys_mark_region_used}
use ratos.Phys.Bitmap.{page_bit, page_bit-lt, is_marked-page_bit}
use ratos.Phys.Regions.{in_region, mark_region_used-page_bit}

module _ (ph : Phys) (m : Memory) where
  -- The `n` pages from `a` on are free.
  abbrev pub FreeRun : (a n : ℕ) → Type 0
  FreeRun a n = (q : ℕ) → a ≤ q → q < a + n → page_bit ph m q ≡ 0

  -- One of the `n` pages from `a` on is in use.
  abbrev pub Blocked : (a n : ℕ) → Type 0
  Blocked a n = (q : ℕ) × (a ≤ q) × (q < a + n) × (page_bit ph m q ≡ 1)

  -- What the inner loop returns in its round `j`, at page `a`, with `left` rounds to go.
  abbrev FindMarked : (a j left : ℕ) → Option ℕ → Type 0
  FindMarked a j left none = FreeRun a left
  FindMarked a j left (some k) =
      (d : ℕ) × (k ≡ (j + d) * page_size) × (d < left) × (page_bit ph m (a + d) ≡ 1)

  FindMarked-cons :
      (a j left : ℕ) (r : Option ℕ)
      → page_bit ph m a ≡ 0
      → FindMarked (a + 1) (suc j) left r
      → FindMarked a j (suc left) r
  FindMarked-cons a j left none free rest = λ q p p'. ground (arith, rest q)
  FindMarked-cons a j left (some k) free (d, e, below, used) =
      (suc d, omega arith, omega arith, ground arith)

  find_marked_loop-FindMarked :
      (left j a b : ℕ)
      → a + j ≡ b
      → (b + left) * page_size < 2 ^ 64
      → FindMarked b j left (find_marked_loop ph m left (j * page_size) (a * page_size))
  unfolding find_marked_loop
  find_marked_loop-FindMarked zero j a b e fits = λ q p p'. absurd (omega arith)
  find_marked_loop-FindMarked (suc left) j a b e fits =
      let here : u64 (a * page_size + j * page_size) ≡ b * page_size = omega arith in
      let next : u64 (j * page_size + page_size) ≡ suc j * page_size = omega arith in
      let page : b * page_size / page_size ≡ b = omega arith in
      rw (here, next, is_marked-page_bit ph m (b * page_size), page)
        (elim (Bool-cases (page_bit ph m b == 1)) [
          | inl used ↦ rw used (0, omega arith, omega arith, ground arith)
          | inr free ↦ rw free (
              FindMarked-cons b j left _ (ground (arith, page_bit-lt ph m b))
                (find_marked_loop-FindMarked left (suc j) a (b + 1) (omega arith) (omega arith)))
        ])

  -- How the search from page `a` ends, for `n` pages: at the first run of free pages that begins
  -- below the end of the address space, or without one.
  abbrev Searched : (a n : ℕ) → Search → Type 0
  Searched a n (found addr) =
      (b : ℕ) × (addr ≡ b * page_size)
      × (addr < ph.addr_space_size)
      × FreeRun b n
      × ((s : ℕ) → a ≤ s → s < b → Blocked s n)
  Searched a n exhausted = (s : ℕ) → a ≤ s → s * page_size < ph.addr_space_size → Blocked s n
  Searched a n out_of_fuel = ⊥

  -- A page in use blocks every run that starts at it or shortly before it.
  Searched-skip :
      (a d n : ℕ) (r : Search)
      → d < n
      → page_bit ph m (a + d) ≡ 1
      → Searched (a + d + 1) n r
      → Searched a n r
  Searched-skip a d n (found addr) h used (b, e, below, free, blocked) = (
    b,
    e,
    below,
    free,
    λ s p p'. elim (dec_lt (a + d) s) [
      | yes behind ↦ blocked s (omega arith) p'
      | no before ↦ (a + d, omega arith, omega arith, used)
    ],
  )
  Searched-skip a d n exhausted h used blocked = λ s p p'. elim (dec_lt (a + d) s) [
    | yes behind ↦ blocked s (omega arith) p'
    | no before ↦ (a + d, omega arith, omega arith, used)
  ]
  Searched-skip a d n out_of_fuel h used never = never

  -- One round of the search inside the address space, by what the inner loop returns.
  abbrev region_round : (fuel addr length : ℕ) → Option ℕ → Search
  region_round fuel addr length none = found addr
  region_round fuel addr length (some i) =
      search_region fuel ph m (u64 (addr + (i + page_size))) length

  search_region-inside :
      (fuel addr length : ℕ)
      → ltb addr ph.addr_space_size ≡ true
      → search_region (suc fuel) ph m addr length
        ≡ region_round fuel addr length (find_marked_loop ph m (rounds length) 0 addr)
  unfolding search_region
  search_region-inside fuel addr length inside = ground arith

  search_region-past :
      (fuel addr length : ℕ)
      → ltb addr ph.addr_space_size ≡ false
      → search_region (suc fuel) ph m addr length ≡ exhausted
  unfolding search_region
  search_region-past fuel addr length past = ground arith

  region_round-Searched :
      (fuel a length : ℕ) (r : Option ℕ)
      → a * page_size < ph.addr_space_size
      → ph.addr_space_size + length + 3 * page_size ≤ 2 ^ 64
      → FindMarked a 0 (rounds length) r
      → ((b : ℕ)
          → a < b
          → Searched b (rounds length) (search_region fuel ph m (b * page_size) length))
      → Searched a (rounds length) (region_round fuel (a * page_size) length r)
  region_round-Searched fuel a length none inside fits free rest =
      (a, refl, inside, free, λ s p p'. absurd (omega arith))
  region_round-Searched fuel a length (some i) inside fits (d, e, below, used) rest =
      let next : u64 (a * page_size + (i + page_size)) ≡ (a + d + 1) * page_size = omega arith in
      rw next (Searched-skip a d (rounds length) _ below used (rest (a + d + 1) (omega arith)))

  search_region-Searched :
      (fuel a length : ℕ)
      → rounds ph.addr_space_size - a < fuel
      → ph.addr_space_size + length + 3 * page_size ≤ 2 ^ 64
      → Searched a (rounds length) (search_region fuel ph m (a * page_size) length)
  search_region-Searched zero a length enough fits = absurd (omega arith)
  search_region-Searched (suc fuel) a length enough fits =
      elim (Bool-cases (ltb (a * page_size) ph.addr_space_size)) [
        | inr past ↦
            subst (Searched a (rounds length))
              (sym (search_region-past fuel (a * page_size) length past))
              (λ s p p'. absurd (ground arith))
        | inl inside ↦
            subst (Searched a (rounds length))
              (sym (search_region-inside fuel (a * page_size) length inside))
              (region_round-Searched fuel a length _ (ground arith) fits
                (find_marked_loop-FindMarked (rounds length) 0 a a (omega arith) (ground arith))
                (λ b later. search_region-Searched fuel b length (ground arith) fits))
      ]

  -- What `phys_alloc_region` is to return for `n` pages.
  pub record RegionAllocated (length : ℕ) (result : ℕ × Memory) : Type 0 where
    pub page : ℕ
    pub address : result.0 ≡ page * page_size
    pub inside : result.0 < ph.addr_space_size
    pub was_free : FreeRun page (rounds length)
    pub first : (s : ℕ) → s < page → Blocked s (rounds length)
    pub marked :
        (q : ℕ)
        → page_bit ph result.1 q ≡ (if in_region result.0 length q then 1 else page_bit ph m q)

  abbrev pub NoRegion : ℕ → ℕ × Memory → Type 0
  NoRegion length result =
      (result ≡ (0, m)) × ((s : ℕ) → s * page_size < ph.addr_space_size → Blocked s (rounds length))

  abbrev region_result : ℕ → Search → Option (ℕ × Memory)
  region_result length (found addr) = some (addr, phys_mark_region_used ph m addr length)
  region_result length exhausted = some (0, m)
  region_result length out_of_fuel = none

  region_result_lem :
      (length : ℕ) (r : Search)
      → ph.addr_space_size + length + 3 * page_size ≤ 2 ^ 64
      → Searched 0 (rounds length) r
      → (result : ℕ × Memory) × (region_result length r ≡ some result)
        × (RegionAllocated length result ⊎ NoRegion length result)
  region_result_lem length (found addr) fits (b, e, below, free, blocked) = (
    (addr, phys_mark_region_used ph m addr length),
    refl,
    inl (record {
      page = b;
      address = e;
      inside = below;
      was_free = free;
      first = λ s p. blocked s (omega arith) p;
      marked = λ q. mark_region_used-page_bit ph m addr length q (omega arith);
    }),
  )
  region_result_lem length exhausted fits blocked =
      ((0, m), refl, inr (refl, λ s p. blocked s (omega arith) p))
  region_result_lem length out_of_fuel fits never = absurd never

  -- If nothing wraps, the search ends. `phys_alloc_region` returns the address of the first run of
  -- free pages of that length which starts inside the address space, and marks exactly those pages; or
  -- it returns 0 and changes nothing, since every such run has a page in use.
  pub phys_alloc_region_lem :
      (length : ℕ)
      → ph.addr_space_size + length + 3 * page_size ≤ 2 ^ 64
      → (result : ℕ × Memory) × (phys_alloc_region ph m length ≡ some result)
        × (RegionAllocated length result ⊎ NoRegion length result)
  unfolding phys_alloc_region
  phys_alloc_region_lem length fits =
      region_result_lem length (search_region (region_fuel ph) ph m 0 length) fits
        (search_region-Searched (region_fuel ph) 0 length (omega arith) fits)
