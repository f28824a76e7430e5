-- ===== src/Acpi/Mapping.antt =====
-- `uacpi_kernel_map` and `uacpi_kernel_unmap` of src/acpi/kernel_api.c against the address space.
use ratos.Prelude.{
  subst, none, some, ℕ, suc, ◌+◌, ◌-◌, ◌*◌, ◌/◌, ◌%◌, ◌^◌, ◌≤◌, ◌<◌, ◌≡◌, ◌≢◌, refl, sym, ap, ap₂,
  ◌∙◌, ◌⊎◌, inl, inr, arith, u64,
}
use ratos.Util.{floorchunku64, ceilchunku64}
use ratos.Virt.{Kernel, Outcome, done, halted, pure, and_then, virt_page_size}
use ratos.Virt.Walk.{virt_get_physical_address}
use ratos.Virt.Map.{steps, virt_unmap}
use ratos.Virt.Contexts.{kernel_limit, virt_map_anywhere}
use ratos.Virt.Leaf.{page_of}
use ratos.Virt.Prepare.{Exhausted}
use ratos.Virt.Translate.{translated}
use ratos.Virt.MapPage.{translated_lem}
use ratos.Virt.Space.{Space, map_pages, unmap_pages, Shows, Shows-ext}
use ratos.Virt.Regions.{get_physical_address-Shows}
use ratos.Virt.UnmapRegion.{virt_unmap-Shows}
use ratos.Virt.Search.{FirstFit}
use ratos.Virt.Anywhere.{search_start, virt_map_anywhere-Places}
use ratos.Acpi.KernelApi.{offset_within_page, actual_len, uacpi_kernel_map, uacpi_kernel_unmap}

-- The pages that `len` bytes from `addr` on touch.
abbrev pub pages : (addr len : ℕ) → ℕ
pages addr len = (len + addr % 4096 + 4095) / 4096

offset_lem : (addr : ℕ) → addr < 2 ^ 64 → offset_within_page addr ≡ addr % 4096
unfolding floorchunku64
offset_lem addr fits = omega arith

actual_len_lem :
    (addr len : ℕ)
    → addr < 2 ^ 64
    → len + 8192 ≤ 2 ^ 64
    → actual_len addr len ≡ pages addr len * 4096
unfolding ceilchunku64
actual_len_lem addr len fits fits' =
    ap (λ (t : ℕ). ceilchunku64 (u64 (len + t)) 4096) (offset_lem addr fits) ∙ ground arith

floor_lem : (addr : ℕ) → floorchunku64 addr 4096 ≡ addr / 4096 * 4096
unfolding floorchunku64
floor_lem addr = refl

uacpi_kernel_map-call :
    (fuel : ℕ) (k : Kernel) (addr len : ℕ)
    → addr < 2 ^ 64
    → len + 8192 ≤ 2 ^ 64
    → uacpi_kernel_map fuel addr len k
      ≡ and_then
          (virt_map_anywhere fuel 0 (addr / 4096 * 4096) (pages addr len * 4096) 3 k)
          (λ v. pure (u64 (v + addr % 4096)))
unfolding uacpi_kernel_map
uacpi_kernel_map-call fuel k addr len fits fits' =
    let after : ℕ → Outcome ℕ → Outcome ℕ = λ t o. and_then o (λ v. pure (u64 (v + t))) in
    ap
      (λ (t : ℕ).
        after t (virt_map_anywhere fuel 0 (floorchunku64 addr 4096) (actual_len addr len) 3 k))
      (offset_lem addr fits)
    ∙ ap₂ (λ (t u : ℕ). after (addr % 4096) (virt_map_anywhere fuel 0 t u 3 k)) (floor_lem addr)
        (actual_len_lem addr len fits fits')

-- The call returned a pointer to `len` bytes: each leads to the byte of the physical memory that was
-- asked for, every page that led somewhere still leads there, and `uacpi_kernel_unmap` takes it all back.
pub record Granted (s : Space) (addr len : ℕ) (o : Outcome ℕ) : Type 0 where
  pub pointer : ℕ
  pub kernel : Kernel
  pub space : Space
  pub returned : o ≡ done pointer kernel
  pub shown : Shows kernel space
  pub others : (x : ℕ) → x < 2 ^ 36 → s x ≢ 0 → space x ≡ s x
  pub same_offset : pointer % 4096 ≡ addr % 4096
  pub bytes :
      (b : ℕ)
      → b < len
      → virt_get_physical_address 0 (pointer + b) kernel ≡ done ((addr + b) / 4096 * 4096) kernel
  pub restored : (k' : Kernel) × (uacpi_kernel_unmap pointer len kernel ≡ done tt k') × Shows k' s

module _ (s : Space) (addr len a : ℕ) (in_range : addr + len + 8192 ≤ 2 ^ 53)
    (high : 2 ^ 64 - 2 ^ 48 ≤ a) (below : a < kernel_limit)
    (fits : a + pages addr len * 4096 ≤ 2 ^ 64) (aligned : a % 4096 ≡ 0)
    (free : (j : ℕ) → j < pages addr len → s (page_of (a + j * 4096)) ≡ 0) where
  abbrev n : ℕ
  n = pages addr len

  abbrev q : ℕ
  q = addr / 4096

  abbrev pointer : ℕ
  pointer = a + addr % 4096

  abbrev space : Space
  space = map_pages s (page_of a) n q 3

  -- The pages of the region led nowhere.
  was_free : (x : ℕ) → page_of a ≤ x → x < page_of a + n → s x ≡ 0
  was_free x from inside =
      let page : page_of (a + (x - page_of a) * 4096) ≡ x = omega arith in
      ap s (sym page) ∙ free (x - page_of a) (omega (arith, inside))

  others : (x : ℕ) → x < 2 ^ 36 → s x ≢ 0 → space x ≡ s x
  unfolding map_pages
  others x small used = ground (arith, was_free x)

  unmap-map : (x : ℕ) → unmap_pages space (page_of a) n x ≡ s x
  unfolding unmap_pages map_pages
  unmap-map x = ground (arith, was_free x)

  value_at :
      (b : ℕ) → b < len → translated (space (page_of (pointer + b))) ≡ (addr + b) / 4096 * 4096
  unfolding map_pages
  value_at b inside =
      let j : ℕ = (addr % 4096 + b) / 4096 in
      let page : page_of (pointer + b) ≡ page_of a + j = omega arith in
      let in_region : j < n = omega (arith, inside) in
      let entry : space (page_of a + j) ≡ (q + j) * 4096 + 3 = ground arith in
      ap (λ (t : ℕ). translated (space t)) page
      ∙ ap translated entry
      ∙ translated_lem (q + j) 0 3 (omega (arith, in_range, inside)) (omega arith) refl
      ∙ omega arith

  restored-lem :
      (k : Kernel)
      → Shows k space
      → (k' : Kernel) × (uacpi_kernel_unmap pointer len k ≡ done tt k') × Shows k' s
  unfolding uacpi_kernel_unmap floorchunku64
  restored-lem k h =
      let base : floorchunku64 pointer 4096 ≡ a = omega arith in
      let size : actual_len pointer len ≡ n * 4096 =
        actual_len_lem pointer len (omega arith) (omega (arith, in_range)) ∙ omega arith in
      let (k', returned, shown, _) =
        virt_unmap-Shows k space a (n * 4096) h (omega arith) (omega arith) in
      (
        k',
        ap₂ (λ (t u : ℕ). virt_unmap 0 t u k) base size ∙ returned,
        Shows-ext k' (unmap_pages space (page_of a) (steps 4096 (n * 4096))) s shown (λ x small.
            ap (λ (t : ℕ). unmap_pages space (page_of a) t x) {x = steps 4096 (n * 4096)} {y = n}
              (omega arith)
            ∙ unmap-map x),
      )

  granted : (k : Kernel) (o : Outcome ℕ) → o ≡ done pointer k → Shows k space → Granted s addr len o
  granted k o returned h = record {
    pointer = pointer;
    kernel = k;
    space = space;
    returned = returned;
    shown = h;
    others = others;
    same_offset = omega arith;
    bytes = λ b inside.
        get_physical_address-Shows k space (pointer + b) h
        ∙ ap (λ (t : ℕ). done t k) (value_at b inside);
    restored = restored-lem k h;
  }

-- There is no region of `n` free pages: nothing changed, and the call gives the offset.
abbrev pub NoRegion : Space → Kernel → (offset n : ℕ) → Outcome ℕ → Type 0
NoRegion s k offset n o = (o ≡ done offset k) × FirstFit s kernel_limit n (search_start k) none

-- The call halted after it had mapped `j` pages of the first region, with all pages of the memory in use.
abbrev pub OutOfMemory : Space → Kernel → (q n : ℕ) → Outcome ℕ → Type 0
OutOfMemory s k q n o =
    (a : ℕ) × FirstFit s kernel_limit n (search_start k) (some a)
    × (j : ℕ) × (k' : Kernel) × (j < n)
    × (o ≡ halted k')
    × Shows k' (map_pages s (page_of a) j q 3)
    × Exhausted k'

-- If the tables stand for a space, with the direct map page-aligned in the upper half, and the bytes are
-- below 2 ^ 53 and touch at most 16 pages, `uacpi_kernel_map` ends in one of three ways. If the search
-- behind the first page of the direct map has no region of as many pages, it changes nothing and
-- returns the offset of the address in its page, which is no null pointer in general. If it has one, the
-- call may halt, with some of these pages mapped and all pages of the memory in use. Or it returns a
-- pointer under which each byte that was asked for is found, every page that led somewhere leads there
-- still, and `uacpi_kernel_unmap` with the same length gives the space from before the call.
pub uacpi_kernel_map-Granted :
    (fuel : ℕ) (k : Kernel) (s : Space) (addr len : ℕ)
    → Shows k s
    → 2 ^ 64 - 2 ^ 48 ≤ k.hhdm_offset
    → k.hhdm_offset % virt_page_size ≡ 0
    → kernel_limit ≤ k.hhdm_offset + virt_page_size * fuel
    → addr + len + 8192 ≤ 2 ^ 53
    → len + addr % virt_page_size ≤ 16 * virt_page_size
    → let o = uacpi_kernel_map (suc fuel) addr len k in
      NoRegion s k (addr % virt_page_size) (pages addr len) o
      ⊎ OutOfMemory s k (addr / virt_page_size) (pages addr len) o
      ⊎ Granted s addr len o
uacpi_kernel_map-Granted fuel k s addr len h upper aligned enough in_range limited =
    let n : ℕ = pages addr len in
    let count : steps 4096 (n * 4096) ≡ n = omega arith in
    let after : Outcome ℕ → Outcome ℕ = λ o. and_then o (λ v. pure (u64 (v + addr % 4096))) in
    rw
      (uacpi_kernel_map-call (suc fuel) k addr len (omega (arith, in_range))
        (omega (arith, in_range)))
      (elim (virt_map_anywhere-Places fuel k s (addr / 4096) (n * 4096) 3 h upper aligned enough
        (omega (arith, limited)) (omega (arith, in_range, count)) (omega arith)) [
          | inl (nothing, full) ↦ inl (
            ap after nothing ∙ ap (λ (t : ℕ). done t k) (omega arith),
            subst (λ (t : ℕ). FirstFit s kernel_limit t (search_start k) none) count full,
          )
          | inr (a, high, first, fits, page_aligned, free, result) ↦
              let below : a < kernel_limit = first.2 in
              elim result [
                | inl (j, k', below', stops, shown, used) ↦ inr (
                    inl (
                      a,
                      subst (λ (t : ℕ). FirstFit s kernel_limit t (search_start k) (some a)) count
                          first,
                      j,
                      k',
                      omega (arith, below', count),
                      ap after stops,
                      shown,
                      used,
                    ))
                | inr (k', returned, shown) ↦ inr (
                    inr (
                      granted s addr len a in_range high below (rw (sym count) fits) page_aligned
                        (λ j inside. free j (omega (arith, inside, count))) k' _
                        (ap after returned
                          ∙ ap (λ (t : ℕ). done t k')
                              (omega (arith, below, high, fits, page_aligned)))
                        (Shows-ext k' _ (map_pages s (page_of a) n (addr / 4096) 3) shown
                          (λ x small.
                            ap (λ (t : ℕ). map_pages s (page_of a) t (addr / 4096) 3 x) count))))
              ]
        ])
