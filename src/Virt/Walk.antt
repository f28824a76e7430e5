-- ===== src/Virt/Walk.antt =====
-- The walk over the page tables of src/mem/virt.c.
use ratos.Prelude.{ℕ, ◌+◌, ◌*◌, bit_and, bit_or, Bool, true, false, not, ◌==◌, if◌then◌else◌, ◌>>>◌}
use ratos.Memory.{load64}
use ratos.Phys.{phys_alloc}
use ratos.Strings.{memset}
use ratos.Virt.{
  Run, pure, done, hcf, read, write, alloc_page, clear_page, to_virt, s_phys_to_virt, ctx_virt,
  ◌>>=◌, ◌>>◌,
}
use ratos.Virt.{
  entry_phys_addr_mask, vf_pt_present, vf_pd_present, vf_pd_writable, vf_pd_user, vf_pd_big_page,
}
use ratos.Virt.{
  virt_pml4_index_offset, virt_pdpt_index_offset, virt_pd_index_offset, virt_pt_index_offset,
  virt_index_mask,
}

unfoldable pub s_virt_get_top_level : (ctx : ℕ) → Run ℕ
unfolding s_phys_to_virt
s_virt_get_top_level ctx k =
    done (if not (ctx == 0) then load64 k.memory (ctx_virt ctx) else s_phys_to_virt k k.cr3) k

unfoldable pub s_virt_entry_ptr_to_table_ptr : (entry : ℕ) → Run ℕ
unfolding s_phys_to_virt
s_virt_entry_ptr_to_table_ptr entry = do
  value ← read entry
  to_virt (bit_and value entry_phys_addr_mask)

-- The page for a missing table.
unfoldable pub create_table : (table index flags : ℕ) → Run (Unit {0})
unfolding phys_alloc memset s_phys_to_virt
create_table table index flags = do
  phys ← alloc_page
  elim (phys == 0) [
    | true ↦ hcf
    | false ↦ (do
      page ← to_virt phys
      clear_page page
      write (table + 8 * index) (bit_or (bit_or phys flags) vf_pd_present))
  ]

-- The result is `&table[index]`, or 0 for `NULL`.
unfoldable pub s_virt_get_entry_ptr : (table index : ℕ) → Bool → (flags : ℕ) → Run ℕ
unfolding create_table
s_virt_get_entry_ptr table index create_if_missing flags = do
  entry ← read (table + 8 * index)
  elim (entry == 0) [
    | false ↦ pure (table + 8 * index)
    | true ↦ elim (not create_if_missing) [
      | true ↦ pure 0
      | false ↦ (do create_table table index flags; pure (table + 8 * index))
    ]
  ]

-- `(addr >> offset) & VIRT_INDEX_MASK`.
unfoldable pub virt_index : (addr offset : ℕ) → ℕ
virt_index addr offset = bit_and (addr >>> offset) virt_index_mask

-- What `s_virt_get_pte` and `s_virt_get_or_create_pte` do with an entry of a page directory.
unfoldable pub pte_of_pde : (pde addr : ℕ) → Bool → Run ℕ
unfolding s_virt_entry_ptr_to_table_ptr virt_index
pte_of_pde pde addr is_big_page = elim is_big_page [
  | true ↦ pure pde
  | false ↦ (do
    value ← read pde
    elim (not (bit_and value vf_pd_big_page == 0)) [
      | true ↦ pure pde
      | false ↦ (do
        pt ← s_virt_entry_ptr_to_table_ptr pde
        pure (pt + 8 * virt_index addr virt_pt_index_offset))
    ])
]

-- `if (!entry) return NULL;` in front of the rest.
abbrev pub unless_null : (entry : ℕ) → Run ℕ → Run ℕ
unless_null entry rest = elim (entry == 0) [ true ↦ pure 0 | false ↦ rest ]

-- The common body of `s_virt_get_pte` and `s_virt_get_or_create_pte`, which differ in what they pass on
-- to `s_virt_get_entry_ptr`: from an entry of a PDPT on, from one of the PML4 on, and from the top.
unfoldable pub pte_of_pdpte : (create_if_missing : Bool) → (flags pdpte addr : ℕ) → Bool → Run ℕ
unfolding s_virt_get_entry_ptr s_virt_entry_ptr_to_table_ptr virt_index pte_of_pde
pte_of_pdpte create_if_missing flags pdpte addr is_big_page = do
  pd ← s_virt_entry_ptr_to_table_ptr pdpte
  pde ← s_virt_get_entry_ptr pd (virt_index addr virt_pd_index_offset) create_if_missing flags
  unless_null pde (pte_of_pde pde addr is_big_page)

unfoldable pub pte_of_pml4e : (create_if_missing : Bool) → (flags pml4e addr : ℕ) → Bool → Run ℕ
unfolding s_virt_get_entry_ptr s_virt_entry_ptr_to_table_ptr virt_index pte_of_pdpte
pte_of_pml4e create_if_missing flags pml4e addr is_big_page = do
  pdpt ← s_virt_entry_ptr_to_table_ptr pml4e
  pdpte ← s_virt_get_entry_ptr pdpt (virt_index addr virt_pdpt_index_offset) create_if_missing flags
  unless_null pdpte (pte_of_pdpte create_if_missing flags pdpte addr is_big_page)

unfoldable pub pte_of_ctx : (create_if_missing : Bool) → (flags ctx addr : ℕ) → Bool → Run ℕ
unfolding s_virt_get_top_level s_virt_get_entry_ptr virt_index pte_of_pml4e
pte_of_ctx create_if_missing flags ctx addr is_big_page = do
  pml4 ← s_virt_get_top_level ctx
  pml4e ← s_virt_get_entry_ptr pml4 (virt_index addr virt_pml4_index_offset) create_if_missing flags
  unless_null pml4e (pte_of_pml4e create_if_missing flags pml4e addr is_big_page)

unfoldable pub s_virt_get_pte : (ctx addr : ℕ) → Bool → Run ℕ
unfolding pte_of_ctx
s_virt_get_pte ctx addr is_big_page = pte_of_ctx false 0 ctx addr is_big_page

-- The flags of a new table.
abbrev pub table_flags : (is_user : Bool) → ℕ
table_flags is_user =
    bit_or (bit_or (if is_user then vf_pd_user else 0) vf_pd_present) vf_pd_writable

unfoldable pub s_virt_get_or_create_pte : (ctx addr : ℕ) → (is_user is_big_page : Bool) → Run ℕ
unfolding pte_of_ctx
s_virt_get_or_create_pte ctx addr is_user is_big_page =
    pte_of_ctx true (table_flags is_user) ctx addr is_big_page

unfoldable pub s_virt_is_address_mapped : (ctx addr : ℕ) → Run Bool
unfolding s_virt_get_pte
s_virt_is_address_mapped ctx addr = do
  entry ← s_virt_get_pte ctx addr false
  elim (entry == 0) [ true ↦ pure false | false ↦ (do value ← read entry; pure (not (value == 0))) ]

unfoldable pub virt_get_physical_address : (ctx virt_addr : ℕ) → Run ℕ
unfolding s_virt_get_pte
virt_get_physical_address ctx virt_addr = do
  entry ← s_virt_get_pte ctx virt_addr false
  elim (entry == 0) [
    | true ↦ pure 0
    | false ↦ (do
      value ← read entry
      elim (bit_and value vf_pt_present == 0) [
        | true ↦ pure 0
        | false ↦ pure (bit_and value entry_phys_addr_mask)
      ])
  ]
