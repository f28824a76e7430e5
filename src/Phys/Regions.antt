-- ===== src/Phys/Regions.antt =====
-- The loops of src/mem/phys.c over a region: each changes one run of pages.
use ratos.Prelude.{ℕ, Bool, zero, suc, ◌+◌, ◌*◌, ◌^◌, ◌≤◌, ◌<◌, ◌≡◌, arith}
use ratos.Prelude.{if◌then◌else◌, u64}
use ratos.Memory.{Memory}
use ratos.Strings.Blocks.{within}
use ratos.Phys.{Phys, page_size, rounds, mark_used_loop, mark_unused_loop, free_loop}
use ratos.Phys.{phys_mark_used, phys_mark_unused, phys_free}
use ratos.Phys.{phys_mark_region_used, phys_mark_region_unused, phys_free_region}
use ratos.Phys.Bitmap.{page_bit, page_of, mark_used-page_bit, mark_unused-page_bit, free-page_bit}

-- Neither the address nor the counter of a loop over the region wraps.
abbrev pub FitsRegion : ℕ → ℕ → Type 0
FitsRegion addr length = addr + length + page_size ≤ 2 ^ 64

-- Page `p` is one of those that a loop over the region visits.
abbrev pub in_region : (addr length p : ℕ) → Bool
in_region addr length p = within (page_of addr) (rounds length) p

module _ (ph : Phys) where
  mark_used_loop-page_bit :
      (left i : ℕ) (m : Memory) (addr p : ℕ)
      → addr + i + left * page_size < 2 ^ 64
      → page_bit ph (mark_used_loop ph left i m addr) p
        ≡ (if within (page_of (addr + i)) left p then 1 else page_bit ph m p)
  unfolding mark_used_loop
  mark_used_loop-page_bit zero i m addr p fits = ground arith
  mark_used_loop-page_bit (suc left) i m addr p fits = ground (
    arith,
    mark_used_loop-page_bit left (u64 (i + page_size)) (phys_mark_used ph m (u64 (addr + i))) addr
        p,
    mark_used-page_bit ph m (u64 (addr + i)) p,
  )

  mark_unused_loop-page_bit :
      (left i : ℕ) (m : Memory) (addr p : ℕ)
      → addr + i + left * page_size < 2 ^ 64
      → page_bit ph (mark_unused_loop ph left i m addr) p
        ≡ (if within (page_of (addr + i)) left p then 0 else page_bit ph m p)
  unfolding mark_unused_loop
  mark_unused_loop-page_bit zero i m addr p fits = ground arith
  mark_unused_loop-page_bit (suc left) i m addr p fits = ground (
    arith,
    mark_unused_loop-page_bit left (u64 (i + page_size)) (phys_mark_unused ph m (u64 (addr + i)))
        addr p,
    mark_unused-page_bit ph m (u64 (addr + i)) p,
  )

  free_loop-page_bit :
      (left i : ℕ) (m : Memory) (addr p : ℕ)
      → addr + i + left * page_size < 2 ^ 64
      → page_bit ph (free_loop ph left i m addr) p
        ≡ (if within (page_of (addr + i)) left p then 0 else page_bit ph m p)
  unfolding free_loop
  free_loop-page_bit zero i m addr p fits = ground arith
  free_loop-page_bit (suc left) i m addr p fits = ground (
    arith,
    free_loop-page_bit left (u64 (i + page_size)) (phys_free ph m (u64 (addr + i))) addr p,
    free-page_bit ph m (u64 (addr + i)) p,
  )

  module _ (m : Memory) (addr length p : ℕ) (fits : FitsRegion addr length) where
    pub mark_region_used-page_bit :
        page_bit ph (phys_mark_region_used ph m addr length) p
        ≡ (if in_region addr length p then 1 else page_bit ph m p)
    unfolding phys_mark_region_used
    mark_region_used-page_bit =
        ground (arith, mark_used_loop-page_bit (rounds length) 0 m addr p (omega arith))

    pub mark_region_unused-page_bit :
        page_bit ph (phys_mark_region_unused ph m addr length) p
        ≡ (if in_region addr length p then 0 else page_bit ph m p)
    unfolding phys_mark_region_unused
    mark_region_unused-page_bit =
        ground (arith, mark_unused_loop-page_bit (rounds length) 0 m addr p (omega arith))

    pub free_region-page_bit :
        page_bit ph (phys_free_region ph m addr length) p
        ≡ (if in_region addr length p then 0 else page_bit ph m p)
    unfolding phys_free_region
    free_region-page_bit =
        ground (arith, free_loop-page_bit (rounds length) 0 m addr p (omega arith))

    -- Where nothing wraps, `phys_mark_region_used` sets the bit of as many pages as start within the
    -- length, counted from the page of its address, `phys_mark_region_unused` and `phys_free_region`
    -- clear it, and all three leave every other page as it was.
    pub regions-page_bit :
        (page_bit ph (phys_mark_region_used ph m addr length) p
          ≡ (if in_region addr length p then 1 else page_bit ph m p))
        × (page_bit ph (phys_mark_region_unused ph m addr length) p
            ≡ (if in_region addr length p then 0 else page_bit ph m p))
        × (page_bit ph (phys_free_region ph m addr length) p
            ≡ (if in_region addr length p then 0 else page_bit ph m p))
    regions-page_bit =
        (mark_region_used-page_bit, mark_region_unused-page_bit, free_region-page_bit)
