-- ===== src/Virt/Tables.antt =====
-- The tables of src/mem/virt.c as a tree: `level p` says at which level page `p` is a table, 4 for the
-- top one and 0 for a page that is none.
use ratos.Prelude.{
  ℕ, ◌+◌, ◌*◌, ◌/◌, ◌%◌, ◌^◌, ◌≤◌, ◌<◌, ◌≡◌, ◌≢◌, sym, ap, ◌∙◌, ◌⊎◌, inl, inr, arith, bit_and, ◌==◌,
  if◌then◌else◌,
}
use ratos.Memory.{Memory, load8, load64, store64}
use ratos.Memory.Words.{Apart, load8-store64_apart, load64-store64_self}
use ratos.Strings.{memset}
use ratos.Strings.Blocks.{memset_lem}
use ratos.Phys.{phys_alloc}
use ratos.Phys.Bitmap.{page_bit}
use ratos.Phys.Alloc.{Allocated}
use ratos.Phys.Untouched.{phys_alloc-outside, page_bit_ext}
use ratos.Virt.{Kernel, vf_pd_big_page}
use ratos.Virt.Entries.{frame_of}

-- The address of page `p` in the direct map, and of entry `i` of a table there.
abbrev pub page_at : Kernel → ℕ → ℕ
page_at k p = k.hhdm_offset + p * 4096

abbrev pub slot : Kernel → (p i : ℕ) → ℕ
slot k p i = page_at k p + 8 * i

-- An entry of a table of level `l`: missing, or the address of a table one level below.
abbrev pub IsEntry : (level : ℕ → ℕ) → (l e : ℕ) → Type 0
IsEntry level l e = (e ≡ 0) ⊎ ((level (frame_of e) + 1 ≡ l) × (bit_and e vf_pd_big_page ≡ 0))

-- The direct map of all pages fits below 2 ^ 64. The tables are pages in use, apart from the bitmap of the allocator, and so are the free pages. Every
-- entry above the lowest level is missing or names a table one level below; there are no big pages.
pub record IsTree (level : ℕ → ℕ) (k : Kernel) : Type 0 where
  pub offset_pos : 0 < k.hhdm_offset
  pub offset_fits : k.hhdm_offset + k.phys.bitmap_size * 64 * 4096 ≤ 2 ^ 64
  pub pages_fit : k.phys.bitmap_size * 64 ≤ 2 ^ 40
  pub reserved : page_bit k.phys k.memory 0 ≡ 1
  pub root : level (k.cr3 / 4096) ≡ 4
  pub aligned : k.cr3 % 4096 ≡ 0
  pub entries :
      (p i : ℕ) → 2 ≤ level p → i < 512 → IsEntry level (level p) (load64 k.memory (slot k p i))
  pub bounded : (p : ℕ) → 0 < level p → p < k.phys.bitmap_size * 64
  pub used : (p : ℕ) → 0 < level p → page_bit k.phys k.memory p ≡ 1
  pub apart :
      (p : ℕ)
      → p < k.phys.bitmap_size * 64
      → (0 < level p) ⊎ (page_bit k.phys k.memory p ≡ 0)
      → Apart (page_at k p) 4096 k.phys.bitmap (8 * k.phys.bitmap_size)

-- What a new table at page `q`, of which entry `i` of the table at page `p` gets the value, does to the
-- memory.
pub record Created (k : Kernel) (p i v q : ℕ) (m : Memory) : Type 0 where
  pub below : q < k.phys.bitmap_size * 64
  pub was_free : page_bit k.phys k.memory q ≡ 0
  pub entry : load64 m (slot k p i) ≡ v
  pub zeros : (b : ℕ) → page_at k q ≤ b → b < page_at k q + 4096 → load8 m b ≡ 0
  pub pages :
      (r : ℕ)
      → r < k.phys.bitmap_size * 64
      → page_bit k.phys m r ≡ (if r == q then 1 else page_bit k.phys k.memory r)
  pub outside :
      (b : ℕ)
      → (b < k.phys.bitmap) ⊎ (k.phys.bitmap + 8 * k.phys.bitmap_size ≤ b)
      → (b < page_at k q) ⊎ (page_at k q + 4096 ≤ b)
      → (b < slot k p i) ⊎ (slot k p i + 8 ≤ b)
      → load8 m b ≡ load8 k.memory b

-- The memory behind the three steps of `create_table`: the allocation, the clearing and the entry.
abbrev pub created : Kernel → (p i q v : ℕ) → Memory
created k p i q v =
    store64 (memset (phys_alloc k.phys k.memory).1 (page_at k q) 0 4096) (slot k p i) v

module _ (level : ℕ → ℕ) (k : Kernel) (tree : IsTree level k) (p i v q : ℕ) where
  pub created-Created :
      0 < level p
      → i < 512
      → v < 2 ^ 64
      → (a : Allocated k.phys k.memory 0 (k.phys.bitmap_size * 64) (phys_alloc k.phys k.memory))
      → a.page ≡ q
      → Created k p i v q (created k p i q v)
  created-Created is_table small fits a e =
      let ph = k.phys in
      let m1 = (phys_alloc ph k.memory).1 in
      let m2 = memset m1 (page_at k q) 0 4096 in
      let below : q < ph.bitmap_size * 64 = omega (arith, a.below) in
      let free : page_bit ph k.memory q ≡ 0 = ap (page_bit ph k.memory) (sym e) ∙ a.was_free in
      let differs : q ≢ p =
        λ same. absurd (omega (arith, ap (page_bit ph k.memory) same, tree.used p is_table)) in
      let q_apart = tree.apart q below (inr free) in
      let p_apart = tree.apart p (tree.bounded p is_table) (inl is_table) in
      record {
        below = below;
        was_free = free;
        entry = load64-store64_self m2 (slot k p i) v fits;
        zeros = λ b lo hi.
            load8-store64_apart m2 (slot k p i) v b (omega arith)
            ∙ memset_lem m1 (page_at k q) 0 4096 b
            ∙ ground arith;
        pages = λ r inside.
            page_bit_ext ph (created k p i q v) m1 r inside (λ b lo hi.
              load8-store64_apart m2 (slot k p i) v b (omega arith)
              ∙ memset_lem m1 (page_at k q) 0 4096 b
              ∙ ground arith)
            ∙ a.marked r
            ∙ ground arith;
        outside = λ b no_bitmap no_page no_entry.
            load8-store64_apart m2 (slot k p i) v b no_entry
            ∙ memset_lem m1 (page_at k q) 0 4096 b
            ∙ ground (arith, phys_alloc-outside ph k.memory b no_bitmap);
      }
