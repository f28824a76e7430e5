-- ===== src/Tests/Space.antt =====
-- Runs of src/mem/virt.c and src/acpi/kernel_api.c on a small machine, against its address space.
use ratos.Prelude.{
  Option, ℕ, ◌+◌, ◌*◌, ◌<◌, ◌≡◌, ◌≢◌, ◌⊎◌, ◌≤◌, inl, inr, refl, ap, arith, ◌^◌, ◌∙◌,
}
use ratos.Memory.{load8, load64}
use ratos.Memory.Words.{load64_zero}
use ratos.Virt.{Kernel, done, virt_page_size}
use ratos.Virt.Entries.{frame_of}
use ratos.Virt.Walk.{virt_get_physical_address}
use ratos.Virt.UserRegion.{Fills, virt_map_user-Fills}
use ratos.Virt.Map.{virt_map_user, virt_map, virt_unmap}
use ratos.Virt.Contexts.{virt_map_anywhere, kernel_limit, search_space}
use ratos.Virt.Search.{FirstFit, search_space-FirstFit}
use ratos.Virt.Tables.{slot}
use ratos.Virt.Leaf.{page_of, view, view_from-empty}
use ratos.Virt.Translate.{translated}
use ratos.Virt.Space.{Shows, unmap_pages}
use ratos.Virt.Regions.{Maps, virt_map-Maps, get_physical_address-Shows}
use ratos.Virt.UnmapRegion.{Flushed, virt_unmap-Shows}
use ratos.Virt.Anywhere.{search_start, Places, virt_map_anywhere-Places}
use ratos.Acpi.{lapic_init}
use ratos.Acpi.Lapic.{Settled, lapic_init-Settled}
use ratos.Acpi.KernelApi.{uacpi_kernel_map}
use ratos.Acpi.Mapping.{NoRegion, OutOfMemory, Granted, uacpi_kernel_map-Granted}
use ratos.Tests.Virt.{
  machine, top_only, machine-IsTree, machine', four_tables, machine'-IsTree, table_pages, only1,
  only3, only4,
}

-- The entries of the machine with one table are all missing.
no_entries : (i : ℕ) → i < 512 → load64 machine.memory (slot machine 1 i) ≡ 0
unfolding load8
no_entries i below = load64_zero machine.memory (slot machine 1 i) (λ b lo hi. ground arith)

top_page : (p : ℕ) → 2 ≤ top_only p → p ≡ 1
top_page p pos = ground arith

machine-Shows : Shows machine (λ _. 0)
machine-Shows = record {
  level = top_only;
  tree = machine-IsTree;
  unshared = λ p i p' i' high below _ _ present. absurd (
      present (
        ap (λ (t : ℕ). load64 machine.memory (slot machine t i)) (top_page p high)
        ∙ no_entries i below));
  shows = λ x _. view_from-empty machine 4 1 x (omega arith) no_entries;
}

-- The three entries of the machine with four tables, each with the page that it names.
named :
    (p i : ℕ)
    → 2 ≤ four_tables p
    → i < 512
    → load64 machine'.memory (slot machine' p i) ≢ 0
    → let f = frame_of (load64 machine'.memory (slot machine' p i)) in
      ((p ≡ 1) × (i ≡ 0) × (f ≡ 3)) ⊎ ((p ≡ 3) × (i ≡ 0) × (f ≡ 4)) ⊎ ((p ≡ 4) × (i ≡ 2) × (f ≡ 5))
unfolding load64 load8
named p i high below present = elim (table_pages p (omega arith)) [
  | inl e ↦ (elim (only1 i below) [
    | inl e' ↦ inl (e, e', rw (e, e') refl)
    | inr z ↦ absurd (present (ap (λ (t : ℕ). load64 machine'.memory (slot machine' t i)) e ∙ z))
  ])
  | inr (inl e) ↦ elim (only3 i below) [
    | inl e' ↦ inr (inl (e, e', rw (e, e') refl))
    | inr z ↦ absurd (present (ap (λ (t : ℕ). load64 machine'.memory (slot machine' t i)) e ∙ z))
  ]
  | inr (inr (inl e)) ↦ elim (only4 i below) [
    | inl e' ↦ inr (inr (e, e', rw (e, e') refl))
    | inr z ↦ absurd (present (ap (λ (t : ℕ). load64 machine'.memory (slot machine' t i)) e ∙ z))
  ]
  | inr (inr (inr e)) ↦ absurd (ground arith)
]

pub machine'-Shows : Shows machine' (view machine')
machine'-Shows = record {
  level = four_tables;
  tree = machine'-IsTree;
  unshared = λ p i p' i' high below high' below' present present' same. (
    omega (arith, named p i high below present, named p' i' high' below' present', same),
    omega (arith, named p i high below present, named p' i' high' below' present', same),
  );
  shows = λ x _. refl;
}

get_physical_address-Shows_example :
    virt_get_physical_address 0 0x400123 machine'
    ≡ done (translated (view machine' (page_of 0x400123))) machine'
get_physical_address-Shows_example =
    get_physical_address-Shows machine' (view machine') 0x400123 machine'-Shows

virt_map-Maps_example :
    Maps tt (view machine') 0x400 3 9 3 (virt_map 0 (9 * virt_page_size) 0x400000 9000 3 machine')
virt_map-Maps_example =
    virt_map-Maps machine' (view machine') 9 0x400000 9000 3 machine'-Shows (omega arith)
      (omega arith) (omega arith) (omega arith) refl

virt_unmap-Shows_example :
    (k' : Kernel) × (virt_unmap 0 0x3ff000 9000 machine' ≡ done tt k')
    × Shows k' (unmap_pages (view machine') 0x3ff 3)
    × Flushed (view machine') 0x3ff000 3 k'
virt_unmap-Shows_example =
    virt_unmap-Shows machine' (view machine') 0x3ff000 9000 machine'-Shows (omega arith)
      (omega arith)

virt_map_anywhere-Places_example :
    Places
      (λ _. 0)
      machine
      2
      9
      3
      (virt_map_anywhere (2 ^ 35 + 1) 0 (9 * virt_page_size) 8192 3 machine)
virt_map_anywhere-Places_example =
    virt_map_anywhere-Places (2 ^ 35) machine (λ _. 0) 9 8192 3 machine-Shows (omega arith) refl
      (omega arith) (omega arith) (omega arith) (omega arith)

uacpi_kernel_map-Granted_example :
    let o = uacpi_kernel_map (2 ^ 35 + 1) 0x12345 100 machine in
    NoRegion (λ _. 0) machine 0x345 1 o
    ⊎ OutOfMemory (λ _. 0) machine 0x12 1 o
    ⊎ Granted (λ _. 0) 0x12345 100 o
uacpi_kernel_map-Granted_example =
    uacpi_kernel_map-Granted (2 ^ 35) machine (λ _. 0) 0x12345 100 machine-Shows (omega arith) refl
      (omega arith) (omega arith) (omega arith)

lapic_init-Settled_example :
    Settled
      (λ _. 0)
      machine
      0xfee00
      0xfee00900
      (lapic_init (2 ^ 35 + 1) 0xfee00000 0xfee00900 machine)
lapic_init-Settled_example =
    lapic_init-Settled (2 ^ 35) machine (λ _. 0) 0xfee00 0xfee00900 machine-Shows (omega arith) refl
      (omega arith) (omega arith)

virt_map_user-Fills_example :
    Fills
      (view machine')
      0x400
      3
      0x9007
      (virt_map_user 0 (9 * virt_page_size) 0x400000 9000 7 machine')
virt_map_user-Fills_example =
    virt_map_user-Fills machine' (view machine') 9 0x400000 9000 7 machine'-Shows (omega arith)
      (omega arith) (omega arith) (omega arith) refl

search_space-FirstFit_example :
    (r : Option ℕ) × (search_space (2 ^ 52 + 1) 0 kernel_limit 8192 (search_start machine') machine'
      ≡ done r machine')
    × FirstFit (view machine') kernel_limit 2 (search_start machine') r
search_space-FirstFit_example =
    search_space-FirstFit (2 ^ 52) kernel_limit 8192 (search_start machine') machine'
      (view machine') machine'-Shows (omega arith) (omega arith) (omega arith)
