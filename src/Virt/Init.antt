-- ===== src/Virt/Init.antt =====
-- `virt_init` of src/mem/virt.c.
use ratos.Prelude.{
  ℕ, ◌+◌, ◌*◌, ◌/◌, bit_or, Bool, true, false, List, [], ◌∷◌, ◌==◌, if◌then◌else◌, u64, sub64,
}
use ratos.Util.{ceilchunku64}
use ratos.Phys.{MemmapEntry}
use ratos.Virt.{
  Run, done, pure, hcf, read, write, alloc_page, to_virt, ctx_phys, ctx_virt, ◌>>=◌, ◌>>◌,
}
use ratos.Virt.{virt_page_size, vf_pt_present, vf_pt_writable}
use ratos.Virt.Map.{virt_map}
use ratos.Virt.Contexts.{virt_ctx_use}

abbrev pub bits_per_byte : ℕ
bits_per_byte = 8

-- What the boot loader reports, through the getters of src/limine_data.c, and the size of the kernel,
-- `&kernel_end - &kernel_start`.
pub record BootData : Type 0 where
  pub hhdm_offset : ℕ
  pub memmap : List MemmapEntry
  pub fb_address : ℕ
  pub fb_width : ℕ
  pub fb_height : ℕ
  pub fb_bpp : ℕ
  pub physical_base : ℕ
  pub virtual_base : ℕ
  pub kernel_size : ℕ

abbrev pub set_hhdm_offset : ℕ → Run (Unit {0})
set_hhdm_offset n k = done tt (record k { hhdm_offset = n })

abbrev pub set_kernel_pdpt : ℕ → Run (Unit {0})
set_kernel_pdpt p k = done tt (record k { kernel_pdpt_virt = p })

abbrev pub map_flags : ℕ
map_flags = bit_or vf_pt_present vf_pt_writable

-- `mapped` says which kinds the `switch` of `virt_init` names; their numbers are those of limine.h.
module _ (mapped : ℕ → Bool) where
  unfoldable pub map_memory : (hhdm_offset : ℕ) → List MemmapEntry → (ctx : ℕ) → Run (Unit {0})
  unfolding virt_map ceilchunku64
  map_memory hhdm_offset [] ctx = pure tt
  map_memory hhdm_offset (e ∷ es) ctx = do
    if mapped e.kind
        then virt_map ctx e.base (u64 (e.base + hhdm_offset)) (ceilchunku64 e.length virt_page_size)
            map_flags
        else pure tt
    map_memory hhdm_offset es ctx

  unfoldable pub virt_init : BootData → Run (Unit {0})
  unfolding map_memory virt_ctx_use
  virt_init b = do
    set_hhdm_offset b.hhdm_offset
    kernel_pdpt_phys ← alloc_page
    elim (kernel_pdpt_phys == 0) [
      | true ↦ hcf
      | false ↦ (do
        pdpt ← to_virt kernel_pdpt_phys
        set_kernel_pdpt pdpt
        ctx_page ← alloc_page
        ctx ← to_virt ctx_page
        pml4_page ← alloc_page
        write (ctx_phys ctx) pml4_page
        phys ← read (ctx_phys ctx)
        pml4 ← to_virt phys
        write (ctx_virt ctx) pml4
        map_memory b.hhdm_offset b.memmap ctx
        virt_map ctx (sub64 b.fb_address b.hhdm_offset) b.fb_address
            (u64 (u64 (b.fb_width * b.fb_height) * b.fb_bpp) / bits_per_byte) map_flags
        virt_map ctx b.physical_base b.virtual_base b.kernel_size map_flags
        virt_ctx_use ctx)
    ]
