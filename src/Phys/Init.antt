-- ===== src/Phys/Init.antt =====
-- `phys_init` of src/mem/phys.c: where the bitmap goes and which pages are free afterwards.
use ratos.Prelude.{ℕ, ◌+◌, ◌*◌, ◌/◌, ◌%◌, ◌≤◌, ◌<◌, ◌≡◌, ◌≢◌, refl, ap, ◌∙◌, ◌⊎◌, arith}
use ratos.Prelude.{◌==◌, if◌then◌else◌, u64, sub64, Bool, false, ◌&&◌, ◌||◌, List, [], ◌∷◌}
use ratos.Prelude.Bits.{testbit, testbit-ones}
use ratos.Memory.{Memory}
use ratos.Strings.{memset}
use ratos.Strings.Blocks.{memset_lem}
use ratos.Phys.{Phys, page_size, MemmapEntry, place_bitmap}
use ratos.Phys.Bitmap.{page_bit, page_bit-byte}
use ratos.Phys.Regions.{FitsRegion, in_region}

-- Filling the bitmap with 0xff marks every page that it has a bit for.
pub memset-page_bit :
    (ph : Phys) (m : Memory) (p : ℕ)
    → p < ph.bitmap_size * 8
    → page_bit ph (memset m ph.bitmap 0xff ph.bitmap_size) p ≡ 1
memset-page_bit ph m p below =
    page_bit-byte ph (memset m ph.bitmap 0xff ph.bitmap_size) p
    ∙ ap (λ t. testbit t (p % 8))
        (ground (arith, memset_lem m ph.bitmap 0xff ph.bitmap_size (ph.bitmap + p / 8)))
    ∙ testbit-ones 8 (p % 8) (omega arith)

-- The page frames that hold the bitmap.
abbrev pub in_bitmap : Phys → ℕ → Bool
in_bitmap ph p = in_region (sub64 ph.bitmap ph.hhdm_offset) (u64 (ph.bitmap_size * 8)) p

-- Nothing wraps in the loop over the bitmap's own pages.
abbrev pub FitsBitmap : Phys → Type 0
FitsBitmap ph = FitsRegion (sub64 ph.bitmap ph.hhdm_offset) (u64 (ph.bitmap_size * 8))

-- Some entry of the map has the property.
abbrev pub Any : (MemmapEntry → Type 0) → List MemmapEntry → Type 0
Any P [] = ⊥
Any P (e ∷ es) = P e ⊎ Any P es

module _ (usable : ℕ) where
  -- A usable region of the memory map covers page `p`.
  pub covered : List MemmapEntry → ℕ → Bool
  covered [] p = false
  covered (e ∷ es) p = ((e.kind == usable) && in_region e.base e.length p) || covered es p

  -- No usable region reaches the last page of the 64-bit addresses.
  abbrev pub FitsMap : List MemmapEntry → Type 0
  FitsMap [] = Unit
  FitsMap (e ∷ es) = (e.kind ≡ usable → FitsRegion e.base e.length) × FitsMap es

  -- The bitmap's place in a region: usable, with more bytes than the bitmap has; page 0 is left out.
  abbrev pub Holds : (hhdm_offset bitmap_size bitmap : ℕ) → MemmapEntry → Type 0
  Holds hhdm_offset bitmap_size bitmap e =
      (e.kind ≡ usable)
      × (((e.base ≢ 0) × (bitmap ≡ u64 (e.base + hhdm_offset)) × (bitmap_size < e.length))
          ⊎ ((e.base ≡ 0)
              × (bitmap ≡ u64 (page_size + hhdm_offset))
              × (bitmap_size < sub64 e.length page_size)))

  -- The bitmap is placed at the start of a usable region with more bytes than `s_phys_bitmap_size`, a
  -- page behind it if the region starts at address 0.
  pub place_bitmap-Holds :
      (hhdm_offset bitmap_size : ℕ) (es : List MemmapEntry)
      → place_bitmap usable hhdm_offset bitmap_size es ≢ 0
      → Any (Holds hhdm_offset bitmap_size (place_bitmap usable hhdm_offset bitmap_size es)) es
  unfolding place_bitmap
  place_bitmap-Holds hhdm_offset bitmap_size [] ne = absurd (ne refl)
  place_bitmap-Holds hhdm_offset bitmap_size (e ∷ es) ne =
      ground (arith, place_bitmap-Holds hhdm_offset bitmap_size es)

  -- The bitmap that `phys_init` leaves: a page is free exactly when a usable region covers it, and it
  -- is neither page 0 nor one of the bitmap's own.
  pub record Booted (es : List MemmapEntry) (hhdm_offset : ℕ) (ph : Phys) (m : Memory)
      : Type 0 where
    pub hhdm : ph.hhdm_offset ≡ hhdm_offset
    pub covers : ph.addr_space_size ≤ ph.bitmap_size * 8 * page_size
    pub pages :
        (p : ℕ)
        → p < ph.bitmap_size * 8
        → page_bit ph m p
          ≡ (if (p == 0) || in_bitmap ph p then 1 else if covered es p then 0 else 1)
