-- ===== src/Tests/Phys.antt =====
-- Runs of src/mem/phys.c with small bitmaps.
use ratos.Prelude.{
  ◌<◌, ℕ, ◌+◌, ◌/◌, ◌%◌, ◌≤◌, ◌≡◌, ◌≢◌, ◌⊎◌, ◌↔◌, refl, arith, [], ◌∷◌, some, ◌∙◌, ap,
}
use ratos.Prelude.{◌==◌, if◌then◌else◌}
use ratos.Prelude.Bits.{testbit, testbit-ones}
use ratos.Memory.{Memory, load8, load64, store64}
use ratos.Phys.{Phys, MemmapEntry, phys_alloc, phys_free, phys_alloc_region, boot_statics}
use ratos.Phys.{phys_mark_region_used, phys_mark_region_unused, phys_free_region}
use ratos.Phys.Bitmap.{page_bit, page_bit-byte}
use ratos.Phys.Regions.{regions-page_bit}
use ratos.Phys.Alloc.{AllUsed, Alloc, phys_alloc-Alloc}
use ratos.Phys.Reuse.{
  phys_alloc-eq_zero_iff, phys_free-phys_alloc, phys_alloc-distinct, phys_alloc_overrun,
}
use ratos.Phys.AllocRegion.{RegionAllocated, NoRegion, phys_alloc_region_lem}

-- A bitmap of one byte, for eight pages, at address 0x8000.
abbrev small : Phys
small = record { hhdm_offset = 0; bitmap = 0x8000; bitmap_size = 1; addr_space_size = 0x8000 }

-- Pages 0, 1 and 3 are in use.
abbrev three_used : Memory
three_used a = if a == 0x8000 then 0x0b else 0

-- All eight pages are in use; the bytes behind the bitmap are 0.
abbrev all_used : Memory
all_used a = if a == 0x8000 then 0xff else 0

alloc_run :
    ((phys_alloc small three_used).0 ≡ 0x2000)
    × ((phys_alloc small (phys_alloc small three_used).1).0 ≡ 0x4000)
    × ((phys_alloc small all_used).0 ≡ 0x8000)
unfolding phys_alloc load64 store64
alloc_run = (refl, refl, refl)

phys_alloc-Alloc_example : Alloc small three_used 0 64 (phys_alloc small three_used)
phys_alloc-Alloc_example = phys_alloc-Alloc small three_used (omega arith)

-- Pages 0, 1 and 3 are in use; the bits behind the bitmap are set.
abbrev guarded : Memory
guarded a = if a == 0x8000 then 0x0b else 0xff

behind_small : AllUsed small guarded 8 64
unfolding load8
behind_small q from below =
    let byte : load8 guarded (0x8000 + q / 8) ≡ 0xff = ground arith in
    page_bit-byte small guarded q
    ∙ ap (λ (t : ℕ). testbit t (q % 8)) byte
    ∙ testbit-ones 8 (q % 8) (omega arith)

phys_alloc-eq_zero_iff_example :
    (((phys_alloc small guarded).0 ≡ 0) ↔ AllUsed small guarded 0 8)
    × ((phys_alloc small guarded).0 < 0x8000)
phys_alloc-eq_zero_iff_example =
    phys_alloc-eq_zero_iff small guarded (omega arith) (omega arith)
      (unfold page_bit load64 testbit in refl) behind_small

phys_free-phys_alloc_example :
    page_bit small
      (phys_free small (phys_alloc small three_used).1 (phys_alloc small three_used).0)
      2
    ≡ page_bit small three_used 2
phys_free-phys_alloc_example =
    phys_free-phys_alloc small three_used (omega arith)
      (λ e. absurd (omega (arith, alloc_run.0, e))) 2

phys_alloc-distinct_example :
    (phys_alloc small (phys_alloc small three_used).1).0 ≢ (phys_alloc small three_used).0
phys_alloc-distinct_example =
    phys_alloc-distinct small three_used (omega arith) (λ e. absurd (omega (arith, alloc_run.0, e)))
      (λ e. absurd (omega (arith, alloc_run.1, e)))

all_used_pages : AllUsed small all_used 0 8
unfolding load8
all_used_pages q p p' =
    page_bit-byte small all_used q
    ∙ ap (λ (t : ℕ). testbit (load8 all_used (0x8000 + t)) (q % 8)) {x = q / 8} {y = 0}
        (omega arith)
    ∙ testbit-ones 8 (q % 8) (omega arith)

phys_alloc_overrun_example : 0x8000 ≤ (phys_alloc small all_used).0
phys_alloc_overrun_example =
    phys_alloc_overrun small all_used (omega arith) 8 (omega arith) all_used_pages (omega arith)
      (unfold page_bit load64 testbit in refl)

regions-page_bit_example :
    (page_bit small (phys_mark_region_used small three_used 0x4000 0x2000) 5 ≡ 1)
    × (page_bit small (phys_mark_region_unused small three_used 0x4000 0x2000) 5 ≡ 0)
    × (page_bit small (phys_free_region small three_used 0x4000 0x2000) 5 ≡ 0)
regions-page_bit_example = regions-page_bit small three_used 0x4000 0x2000 5 (omega arith)

phys_alloc_region_lem_example :
    (result : ℕ × Memory) × (phys_alloc_region small three_used 0x2000 ≡ some result)
    × (RegionAllocated small three_used 0x2000 result ⊎ NoRegion small three_used 0x2000 result)
phys_alloc_region_lem_example = phys_alloc_region_lem small three_used 0x2000 (omega arith)

-- 16 pages, of which the first 8 are usable.
abbrev usable_entry : MemmapEntry
usable_entry = record { base = 0; length = 0x8000; kind = 0 }

abbrev reserved_entry : MemmapEntry
reserved_entry = record { base = 0x8000; length = 0x8000; kind = 1 }

abbrev booted : Phys
booted = boot_statics 0 0x100000 usable_entry (reserved_entry ∷ [])

booted_run : booted ≡ record {
  hhdm_offset = 0x100000;
  bitmap = 0x101000;
  bitmap_size = 2;
  addr_space_size = 0x10000;
}
unfolding boot_statics
booted_run = refl
