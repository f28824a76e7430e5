-- ===== src/Acpi.antt =====
-- src/acpi/: the walk over the MADT of src/acpi/acpi.c, and src/acpi/lapic.c. What uACPI does and
-- where its structures have their fields are parameters.
pub mod KernelApi
pub mod Mapping
pub mod Entries
pub mod Logging
pub mod Lapic
use ratos.Prelude.{
  ℕ, zero, suc, ◌+◌, Option, none, some, Bool, true, false, not, ◌==◌, ltb, if◌then◌else◌, u64,
  bit_and, bit_or,
}
use ratos.Memory.{Memory}
use ratos.Virt.{
  Run, Outcome, done, halted, out_of_fuel, pure, hcf, ◌>>=◌, ◌>>◌, virt_page_size, vf_pt_present,
  vf_pt_writable,
}
use ratos.Acpi.KernelApi.{uacpi_kernel_get_rsdp}
use ratos.Virt.Contexts.{virt_alloc, virt_map_anywhere}

-- Fields that are read through a pointer, the type of an entry that overrides the address of the local
-- APIC, and the calls of `acpi_init`: the setup of the early tables, which asks the kernel for the RSDP and
-- returns a status, and the
-- search for the MADT, which gives its header and its start.
pub record Uacpi : Type 0 where
  pub entry_type : Memory → ℕ → ℕ
  pub entry_length : Memory → ℕ → ℕ
  pub override_address : Memory → ℕ → ℕ
  pub local_interrupt_controller_address : Memory → ℕ → ℕ
  pub table_length : Memory → ℕ → ℕ
  pub override_type : ℕ
  pub status_ok : ℕ
  pub setup_early_table_access : (get_rsdp : Run ℕ) → (buffer size : ℕ) → Run ℕ
  pub find_madt : Run (ℕ × ℕ)

module _ (u : Uacpi) where
  -- The loop over the entries from `offset` on: the address of the local APIC. It takes fuel, as an entry
  -- of length 0 keeps the loop where it is.
  unfoldable pub madt_loop : (fuel : ℕ) → Memory → (madt table_length offset address : ℕ) → Option ℕ
  madt_loop zero m madt table_length offset address = none
  madt_loop (suc fuel) m madt table_length offset address =
      let entry = madt + offset in
      let address' =
        if u.entry_type m entry == u.override_type then u.override_address m entry else address in
      let rest =
        madt_loop fuel m madt table_length (u64 (offset + u.entry_length m entry)) address' in
      if ltb offset table_length then rest else some address

  abbrev pub from_result : Option ℕ → Run ℕ
  from_result none k = out_of_fuel
  from_result (some address) k = done address k

  -- The result is `s_local_apic_address_phys`. uACPI calls `uacpi_kernel_get_rsdp` in its setup; `rsdp_virt`
  -- is what `limine_data_get_rsdp_virt` gives then.
  unfoldable pub acpi_init : (fuel rsdp_virt : ℕ) → Run ℕ
  unfolding madt_loop
  acpi_init fuel rsdp_virt = do
    buffer ← virt_alloc fuel 0 virt_page_size
    err ← u.setup_early_table_access (uacpi_kernel_get_rsdp rsdp_virt 0) buffer virt_page_size
    elim (not (err == u.status_ok)) [
      | true ↦ hcf
      | false ↦ (do
        (hdr, madt) ← u.find_madt
        λ k.
            from_result
              (madt_loop fuel k.memory madt (u.table_length k.memory hdr) 0x2c
                (u.local_interrupt_controller_address k.memory madt))
              k)
    ]

abbrev pub acpi_get_lapic_address : (s_local_apic_address_phys : ℕ) → ℕ
acpi_get_lapic_address s_local_apic_address_phys = s_local_apic_address_phys

abbrev pub vf_pt_write_through : ℕ
vf_pt_write_through = 0x008

abbrev pub vf_pt_cache_disable : ℕ
vf_pt_cache_disable = 0x010

abbrev pub msr_apic_base_flags_enabled : ℕ
msr_apic_base_flags_enabled = 0x800

-- `apic_base_msr` is what `msr_read(MSR_APIC_BASE)` gives.
unfoldable pub lapic_init : (fuel s_local_apic_address_phys apic_base_msr : ℕ) → Run (Unit {0})
lapic_init fuel s_local_apic_address_phys apic_base_msr = do
  _ ← virt_map_anywhere fuel 0 (acpi_get_lapic_address s_local_apic_address_phys) virt_page_size (
      bit_or (bit_or (bit_or vf_pt_present vf_pt_writable) vf_pt_write_through) vf_pt_cache_disable)
  elim (bit_and apic_base_msr msr_apic_base_flags_enabled == 0) [ true ↦ hcf | false ↦ pure tt ]
