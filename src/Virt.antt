-- ===== src/Virt.antt =====
-- src/mem/virt.c: the four levels of page tables. The tables are read and written through the direct
-- map, so that the memory is indexed by virtual addresses; pointers are numbers, and a context is the
-- pointer to its struct, 0 for the tables that CR3 names. Log lines are left out.
pub mod Walk
pub mod Map
pub mod Contexts
pub mod Init
pub mod Entries
pub mod Tables
pub mod Leaf
pub mod Growth
pub mod Extends
pub mod Create
pub mod Path
pub mod Prepare
pub mod Access
pub mod Translate
pub mod Mapping
pub mod MapPage
pub mod Lookup
pub mod Store
pub mod Space
pub mod Unmap
pub mod Regions
pub mod UnmapRegion
pub mod UserRegion
pub mod Anywhere
pub mod User
pub mod Search
use ratos.Prelude.{ℕ, zero, suc, ◌+◌, ◌-◌, ◌*◌, ◌/◌, ◌%◌, ◌^◌, bit_and, bit_or, List, [], ◌∷◌}
use ratos.Prelude.{Bool, true, false, not, ◌&&◌, ◌==◌, if◌then◌else◌, u64, sub64, ◌>>>◌}
use ratos.Memory.{Memory, load64, store64}
use ratos.Strings.{memset}
use ratos.Phys.{Phys, phys_alloc}

abbrev pub entry_phys_addr_mask : ℕ
entry_phys_addr_mask = 0x001ffffffffff000

abbrev pub virt_entries_per_struct : ℕ
virt_entries_per_struct = 512

abbrev pub virt_page_size : ℕ
virt_page_size = 4096

abbrev pub virt_page_size_big : ℕ
virt_page_size_big = virt_page_size * virt_entries_per_struct

abbrev pub vf_pt_present : ℕ
vf_pt_present = 0x001

abbrev pub vf_pt_writable : ℕ
vf_pt_writable = 0x002

abbrev pub vf_pt_user : ℕ
vf_pt_user = 0x004

abbrev pub vf_pd_present : ℕ
vf_pd_present = 0x001

abbrev pub vf_pd_writable : ℕ
vf_pd_writable = 0x002

abbrev pub vf_pd_user : ℕ
vf_pd_user = 0x004

abbrev pub vf_pd_big_page : ℕ
vf_pd_big_page = 0x080

abbrev pub virt_pml4_index_offset : ℕ
virt_pml4_index_offset = 39

abbrev pub virt_pdpt_index_offset : ℕ
virt_pdpt_index_offset = 30

abbrev pub virt_pd_index_offset : ℕ
virt_pd_index_offset = 21

abbrev pub virt_pt_index_offset : ℕ
virt_pt_index_offset = 12

abbrev pub virt_index_mask : ℕ
virt_index_mask = 0x1ff

-- The static variables of src/mem/phys.c and src/mem/virt.c, the memory, the register CR3, and the
-- addresses that `invlpg` was run on, the last one first.
pub record Kernel : Type 0 where
  pub phys : Phys
  pub memory : Memory
  pub hhdm_offset : ℕ
  pub kernel_pdpt_virt : ℕ
  pub cr3 : ℕ
  pub flushed : List ℕ

-- How a call ends: it returns, halts in `hcf`, or its loop runs out of fuel.
pub data Outcome (A : Type 0) : Type 0 where
  done : A → Kernel → Outcome A
  halted : Kernel → Outcome A
  out_of_fuel : Outcome A

abbrev pub Run : Type 0 → Type 0
Run A = Kernel → Outcome A

abbrev pub pure : {A : Type 0} → A → Run A
pure a k = done a k

abbrev pub and_then : {A B : Type 0} → Outcome A → (A → Run B) → Outcome B
and_then (done a k) f = f a k
and_then (halted k) f = halted k
and_then out_of_fuel f = out_of_fuel

infixl 5 ◌>>=◌ ◌>>◌
abbrev pub ◌>>=◌ : {A B : Type 0} → Run A → (A → Run B) → Run B
◌>>=◌ m f k = and_then (m k) f

abbrev pub ◌>>◌ : {B : Type 0} → Run (Unit {0}) → Run B → Run B
m >> r = m >>= λ _. r

abbrev pub hcf : {A : Type 0} → Run A
hcf k = halted k

-- `*p` and `*p = v`.
abbrev pub read : ℕ → Run ℕ
read p k = done (load64 k.memory p) k

abbrev pub write : (p v : ℕ) → Run (Unit {0})
write p v k = done tt (record k { memory = store64 k.memory p v })

abbrev pub alloc_page : Run ℕ
alloc_page k = let (page, m) = phys_alloc k.phys k.memory in done page (record k { memory = m })

abbrev pub clear_page : ℕ → Run (Unit {0})
clear_page p k = done tt (record k { memory = memset k.memory p 0 virt_page_size })

unfoldable pub s_phys_to_virt : Kernel → ℕ → ℕ
s_phys_to_virt k addr = u64 (addr + k.hhdm_offset)

unfoldable pub s_virt_to_phys : Kernel → ℕ → ℕ
s_virt_to_phys k addr = sub64 addr k.hhdm_offset

abbrev pub to_virt : ℕ → Run ℕ
to_virt addr k = done (s_phys_to_virt k addr) k

-- `ctx->phys` and `ctx->virt`.
abbrev pub ctx_phys : ℕ → ℕ
ctx_phys ctx = ctx

abbrev pub ctx_virt : ℕ → ℕ
ctx_virt ctx = ctx + 8
