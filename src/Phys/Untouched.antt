-- ===== src/Phys/Untouched.antt =====
-- What the allocator of src/mem/phys.c leaves alone: the memory outside the bitmap.
use ratos.Prelude.{ℕ, zero, suc, ◌+◌, ◌*◌, ◌/◌, ◌%◌, ◌≤◌, ◌<◌, ◌≡◌, refl, ap, ◌⊎◌, inl, inr, arith}
use ratos.Prelude.{◌==◌, u64, ◌<<<◌, bit_or, Bool-cases, Option, none, some}
use ratos.Prelude.Bits.{testbit}
use ratos.Memory.{Memory, load8, load64}
use ratos.Memory.Words.{load8-store64_apart, load64_ext}
use ratos.Phys.{Phys, entry_at, fully_used, clear_bit_loop, alloc_loop, phys_alloc}
use ratos.Phys.Bitmap.{page_bit}
use ratos.Phys.Alloc.{entry_result, alloc_loop-suc}

-- The address lies outside the `bitmap_size` entries that `phys_alloc` looks at.
abbrev pub OutsideBitmap : Phys → ℕ → Type 0
OutsideBitmap ph b = (b < ph.bitmap) ⊎ (ph.bitmap + 8 * ph.bitmap_size ≤ b)

entry_result-outside :
    (ph : Phys) (m : Memory) (i b : ℕ) (rest : ℕ × Memory) (r : Option ℕ)
    → i < ph.bitmap_size
    → OutsideBitmap ph b
    → load8 rest.1 b ≡ load8 m b
    → load8 (entry_result ph m i rest r).1 b ≡ load8 m b
entry_result-outside ph m i b rest none below out same = same
entry_result-outside ph m i b rest (some k) below out same =
    load8-store64_apart m (entry_at ph i) (bit_or (load64 m (entry_at ph i)) (u64 (1 <<< k))) b
      (omega arith)

alloc_loop-outside :
    (ph : Phys) (m : Memory) (left i b : ℕ)
    → i + left ≤ ph.bitmap_size
    → OutsideBitmap ph b
    → load8 (alloc_loop ph left i m).1 b ≡ load8 m b
unfolding alloc_loop
alloc_loop-outside ph m zero i b inside out = refl
alloc_loop-outside ph m (suc left) i b inside out =
    let rest = alloc_loop-outside ph m left (i + 1) b (omega arith) out in
    elim (Bool-cases (load64 m (entry_at ph i) == fully_used)) [
      | inl full ↦ rw full rest
      | inr open_entry ↦ rw (alloc_loop-suc ph m left i open_entry) (
          entry_result-outside ph m i b _ (clear_bit_loop 64 0 (load64 m (entry_at ph i)))
            (omega arith) out rest)
    ]

-- `phys_alloc` changes no byte outside the bitmap.
pub phys_alloc-outside :
    (ph : Phys) (m : Memory) (b : ℕ) → OutsideBitmap ph b → load8 (phys_alloc ph m).1 b ≡ load8 m b
unfolding phys_alloc
phys_alloc-outside ph m b out = alloc_loop-outside ph m ph.bitmap_size 0 b (omega arith) out

-- The bits of the pages depend on the bitmap alone.
pub page_bit_ext :
    (ph : Phys) (m m' : Memory) (p : ℕ)
    → p < ph.bitmap_size * 64
    → ((b : ℕ) → ph.bitmap ≤ b → b < ph.bitmap + 8 * ph.bitmap_size → load8 m b ≡ load8 m' b)
    → page_bit ph m p ≡ page_bit ph m' p
unfolding page_bit
page_bit_ext ph m m' p below same =
    ap (λ t. testbit t (p % 64))
      (load64_ext m m' (entry_at ph (p / 64)) (λ b q r. same b (omega arith) (omega arith)))
