-- ===== src/Phys.antt =====
-- src/mem/phys.c: the allocator of physical pages. Bit `p` of the bitmap is set while page `p` is in
-- use. The bitmap lies in the memory that it describes, at a virtual address of the direct map.
-- A loop `for (i = 0; i < length; i += PHYS_PAGE_SIZE)` makes `rounds length` rounds.
pub mod Bitmap
pub mod Regions
pub mod Alloc
pub mod Untouched
pub mod Reuse
pub mod AllocRegion
pub mod Init
use ratos.Prelude.{ℕ, zero, suc, ◌+◌, ◌-◌, ◌*◌, ◌/◌, ◌%◌, ◌^◌, bit_and, bit_or}
use ratos.Prelude.{Bool, true, false, not, ◌&&◌, Option, none, some, List, [], ◌∷◌}
use ratos.Prelude.{◌==◌, ltb, if◌then◌else◌, u64, sub64, not64, ◌<<<◌}
use ratos.Memory.{Memory, load64, store64}
use ratos.Strings.{memset}
use ratos.Util.{ceildivu64}

abbrev pub page_size : ℕ
page_size = 4096

-- `FULLY_USED`.
abbrev pub fully_used : ℕ
fully_used = not64 0

-- The static variables of the file.
pub record Phys : Type 0 where
  pub hhdm_offset : ℕ
  pub bitmap : ℕ
  pub bitmap_size : ℕ
  pub addr_space_size : ℕ

-- `PHYS_BITMAP_INDEX`, `PHYS_BITMAP_BIT_POS` and `PHYS_BITMAP_MASK`.
abbrev pub bitmap_index : ℕ → ℕ
bitmap_index addr = addr / page_size / 64

abbrev pub bitmap_bit_pos : ℕ → ℕ
bitmap_bit_pos addr = addr / page_size % 64

abbrev pub bitmap_mask : ℕ → ℕ
bitmap_mask addr = u64 (1 <<< bitmap_bit_pos addr)

-- `&s_phys_bitmap[i]`.
abbrev pub entry_at : Phys → ℕ → ℕ
entry_at ph i = ph.bitmap + 8 * i

abbrev pub rounds : ℕ → ℕ
rounds length = (length + (page_size - 1)) / page_size

unfoldable pub phys_mark_used : Phys → Memory → ℕ → Memory
phys_mark_used ph m addr =
    let entry = entry_at ph (bitmap_index addr) in
    store64 m entry (bit_or (load64 m entry) (bitmap_mask addr))

unfoldable pub phys_mark_unused : Phys → Memory → ℕ → Memory
phys_mark_unused ph m addr =
    let entry = entry_at ph (bitmap_index addr) in
    store64 m entry (bit_and (load64 m entry) (not64 (bitmap_mask addr)))

mark_used_loop : Phys → (left i : ℕ) → Memory → ℕ → Memory
mark_used_loop ph zero i m addr = m
mark_used_loop ph (suc left) i m addr =
    mark_used_loop ph left (u64 (i + page_size)) (phys_mark_used ph m (u64 (addr + i))) addr

unfoldable pub phys_mark_region_used : Phys → Memory → (addr length : ℕ) → Memory
unfolding mark_used_loop
phys_mark_region_used ph m addr length = mark_used_loop ph (rounds length) 0 m addr

mark_unused_loop : Phys → (left i : ℕ) → Memory → ℕ → Memory
mark_unused_loop ph zero i m addr = m
mark_unused_loop ph (suc left) i m addr =
    mark_unused_loop ph left (u64 (i + page_size)) (phys_mark_unused ph m (u64 (addr + i))) addr

unfoldable pub phys_mark_region_unused : Phys → Memory → (addr length : ℕ) → Memory
unfolding mark_unused_loop
phys_mark_region_unused ph m addr length = mark_unused_loop ph (rounds length) 0 m addr

-- The inner loop of `phys_alloc` at `bit`: the first bit of `entry` that is clear.
pub clear_bit_loop : (left bit : ℕ) → ℕ → Option ℕ
clear_bit_loop zero bit entry = none
clear_bit_loop (suc left) bit entry =
    let rest = clear_bit_loop left (bit + 1) entry in
    if not (bit_and entry (u64 (1 <<< bit)) == 0) then rest else some bit

-- The outer loop of `phys_alloc` at entry `i`. It returns the page's address and the memory.
pub alloc_loop : Phys → (left i : ℕ) → Memory → ℕ × Memory
alloc_loop ph zero i m = (0, m)
alloc_loop ph (suc left) i m =
    let entry = load64 m (entry_at ph i) in
    let rest = alloc_loop ph left (i + 1) m in
    if entry == fully_used then rest else elim (clear_bit_loop 64 0 entry) [
      | none ↦ rest
      | some bit ↦
          let mask = u64 (1 <<< bit) in
          (
            u64 (u64 (u64 (i * 64) + bit) * page_size),
            store64 m (entry_at ph i) (bit_or (load64 m (entry_at ph i)) mask),
          )
    ]

unfoldable pub phys_alloc : Phys → Memory → ℕ × Memory
unfolding alloc_loop clear_bit_loop
phys_alloc ph m = alloc_loop ph ph.bitmap_size 0 m

-- `s_phys_bitmap[PHYS_BITMAP_INDEX(addr)] & PHYS_BITMAP_MASK(addr)` as a condition.
pub is_marked : Phys → Memory → ℕ → Bool
is_marked ph m addr =
    not (bit_and (load64 m (entry_at ph (bitmap_index addr))) (bitmap_mask addr) == 0)

-- The inner loop of `phys_alloc_region` at `i`: the offset at which it stops at a page in use.
find_marked_loop : Phys → Memory → (left i : ℕ) → ℕ → Option ℕ
find_marked_loop ph m zero i addr = none
find_marked_loop ph m (suc left) i addr =
    let rest = find_marked_loop ph m left (u64 (i + page_size)) addr in
    if is_marked ph m (u64 (addr + i)) then some i else rest

-- How the search of `phys_alloc_region` ends.
pub data Search : Type 0 where
  found : ℕ → Search
  exhausted out_of_fuel : Search

-- The outer loop of `phys_alloc_region` at `addr`.
pub search_region : ℕ → Phys → Memory → (addr length : ℕ) → Search
unfolding find_marked_loop is_marked
search_region zero ph m addr length = out_of_fuel
search_region (suc fuel) ph m addr length =
    let stop = find_marked_loop ph m (rounds length) 0 addr in
    elim (ltb addr ph.addr_space_size) [
      | false ↦ exhausted
      | true ↦ elim stop [
        | none ↦ found addr
        | some i ↦ search_region fuel ph m (u64 (addr + (i + page_size))) length
      ]
    ]

-- One round more than there are pages, which is as many as the search can make.
abbrev pub region_fuel : Phys → ℕ
region_fuel ph = rounds ph.addr_space_size + 1

-- `none` means that the fuel ran out.
unfoldable pub phys_alloc_region : Phys → Memory → ℕ → Option (ℕ × Memory)
unfolding search_region
phys_alloc_region ph m length = elim (search_region (region_fuel ph) ph m 0 length) [
  | found addr ↦ some (addr, phys_mark_region_used ph m addr length)
  | exhausted ↦ some (0, m)
  | out_of_fuel ↦ none
]

unfoldable pub phys_free : Phys → Memory → ℕ → Memory
phys_free ph m addr =
    let entry = entry_at ph (bitmap_index addr) in
    store64 m entry (bit_and (load64 m entry) (not64 (bitmap_mask addr)))

free_loop : Phys → (left i : ℕ) → Memory → ℕ → Memory
free_loop ph zero i m addr = m
free_loop ph (suc left) i m addr =
    free_loop ph left (u64 (i + page_size)) (phys_free ph m (u64 (addr + i))) addr

unfoldable pub phys_free_region : Phys → Memory → (addr length : ℕ) → Memory
unfolding free_loop
phys_free_region ph m addr length = free_loop ph (rounds length) 0 m addr

pub phys_get_address_space_size : Phys → ℕ
phys_get_address_space_size ph = ph.addr_space_size

-- `struct limine_memmap_entry`.
pub record MemmapEntry : Type 0 where
  pub base : ℕ
  pub length : ℕ
  pub kind : ℕ

-- How `phys_init` ends. `fault` is the read of `memmap_entries[-1]` of an empty map.
pub data InitResult : Type 0 where
  ready : Phys → Memory → InitResult
  halted fault : InitResult

pub last_entry : MemmapEntry → List MemmapEntry → MemmapEntry
last_entry e [] = e
last_entry e (e' ∷ es) = last_entry e' es

-- `usable` is `LIMINE_MEMMAP_USABLE` of limine.h.
module _ (usable : ℕ) where
  -- The loop that places the bitmap: its virtual address, or 0.
  unfoldable pub place_bitmap : (hhdm_offset bitmap_size : ℕ) → List MemmapEntry → ℕ
  place_bitmap hhdm_offset bitmap_size [] = 0
  place_bitmap hhdm_offset bitmap_size (e ∷ es) =
      let base = if e.base == 0 then u64 (e.base + page_size) else e.base in
      let length = if e.base == 0 then sub64 e.length page_size else e.length in
      let rest = place_bitmap hhdm_offset bitmap_size es in
      if (e.kind == usable) && ltb bitmap_size length then u64 (base + hhdm_offset) else rest

  -- The loop that releases the usable regions.
  release_loop : Phys → Memory → List MemmapEntry → Memory
  release_loop ph m [] = m
  release_loop ph m (e ∷ es) =
      release_loop ph (if e.kind == usable then phys_mark_region_unused ph m e.base e.length else m)
        es

  -- The static variables as the first part of `phys_init` sets them.
  unfoldable pub boot_statics : (hhdm_offset : ℕ) → MemmapEntry → List MemmapEntry → Phys
  unfolding last_entry place_bitmap ceildivu64
  boot_statics hhdm_offset e es =
      let last = last_entry e es in
      let addr_space_size = u64 (last.base + last.length) in
      let bitmap_size = ceildivu64 addr_space_size (page_size * 8) in
      record {
        hhdm_offset = hhdm_offset;
        bitmap = place_bitmap hhdm_offset bitmap_size (e ∷ es);
        bitmap_size = bitmap_size;
        addr_space_size = addr_space_size;
      }

  -- `phys_init` behind the check that the bitmap has a place.
  pub boot_bitmap : Phys → Memory → List MemmapEntry → Memory
  unfolding release_loop
  boot_bitmap ph m es =
      let cleared = memset m ph.bitmap 0xff ph.bitmap_size in
      let released = release_loop ph cleared es in
      let owned =
        phys_mark_region_used ph released (sub64 ph.bitmap ph.hhdm_offset)
          (u64 (ph.bitmap_size * 8)) in
      phys_mark_used ph owned 0

  unfoldable pub phys_init : Memory → (hhdm_offset : ℕ) → List MemmapEntry → InitResult
  unfolding boot_statics boot_bitmap
  phys_init m hhdm_offset [] = fault
  phys_init m hhdm_offset (e ∷ es) =
      let ph = boot_statics hhdm_offset e es in
      if ph.bitmap == 0 then halted else ready ph (boot_bitmap ph m (e ∷ es))
