-- ===== src/Limine/Rsdp.antt =====
-- `limine_data_get_rsdp_phys` of src/limine_data.c on the tables that CR3 names.
use ratos.Prelude.{
  ap, ℕ, ◌%◌, ◌≡◌, ◌≢◌, refl, arith, Bool, Bool-cases, true, false, inl, inr, bit_and, ◌==◌,
}
use ratos.Virt.{Kernel, done, Run, pure, vf_pt_present}
use ratos.Virt.Entries.{table_address}
use ratos.Virt.Walk.{virt_get_physical_address}
use ratos.Virt.Leaf.{page_of}
use ratos.Virt.Translate.{translated}
use ratos.Virt.Space.{Space, Shows}
use ratos.Virt.Regions.{get_physical_address-Shows}
use ratos.Limine.{limine_data_get_rsdp_phys}

-- The address of a frame is a multiple of the page size.
translated-multiple : (e : ℕ) → translated e % 4096 ≡ 0
translated-multiple e = elim (Bool-cases (bit_and e vf_pt_present == 0)) [
  | inl missing ↦ rw missing refl
  | inr present ↦ rw (present, table_address e) (omega arith)
]

-- If the tables stand for a space in which the page of the RSDP leads to a frame other than 0, the first
-- call gives the start of the frame, without the offset of the RSDP in its page. Each later call gives
-- the same, whatever has become of the tables by then.
pub get_rsdp_phys_lem :
    (k later : Kernel) (s : Space) (rsdp_virt : ℕ)
    → Shows k s
    → translated (s (page_of rsdp_virt)) ≢ 0
    → let p = translated (s (page_of rsdp_virt)) in
      (limine_data_get_rsdp_phys rsdp_virt 0 k ≡ done p k)
      × (p % 4096 ≡ 0)
      × (limine_data_get_rsdp_phys rsdp_virt p later ≡ done p later)
unfolding limine_data_get_rsdp_phys
get_rsdp_phys_lem k later s rsdp_virt h found =
    let p : ℕ = translated (s (page_of rsdp_virt)) in
    let kept : p == 0 ≡ false = ground (arith, found) in
    let by_test : Bool → Run ℕ = λ b. elim b as (λ _. Run ℕ) [
      | true ↦ virt_get_physical_address 0 rsdp_virt
      | false ↦ pure p
    ] in
    (
      get_physical_address-Shows k s rsdp_virt h,
      translated-multiple (s (page_of rsdp_virt)),
      ap (λ b. by_test b later) kept,
    )
