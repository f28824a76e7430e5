-- ===== src/Gdt/Segments.antt =====
-- The table that `gdt_init` of src/mem/gdt.c builds.
use ratos.Prelude.{ℕ, ◌-◌, ◌*◌, ◌/◌, ◌%◌, ◌≡◌, refl, arith, some}
use ratos.Gdt.{Gdt, gdt_init, raw}
use ratos.Gdt.Encoding.{descriptor_base, descriptor_limit, descriptor_access, descriptor_flags}

-- A flat 4 GiB segment of the privilege level: present, of the code and data kind, readable or
-- writable. With `code` 1 it is executable 64-bit code, with 0 it is 32-bit data.
pub record IsFlat (w dpl code : ℕ) : Type 0 where
  pub base : descriptor_base w ≡ 0
  pub limit : descriptor_limit w ≡ 0xfffff
  pub granularity : descriptor_flags w / 8 ≡ 1
  pub present : descriptor_access w / 128 ≡ 1
  pub level : descriptor_access w / 32 % 4 ≡ dpl
  pub not_system : descriptor_access w / 16 % 2 ≡ 1
  pub executable : descriptor_access w / 8 % 2 ≡ code
  pub read_write : descriptor_access w / 2 % 2 ≡ 1
  pub long_mode : descriptor_flags w / 2 % 2 ≡ code
  pub default_size : descriptor_flags w / 4 % 2 ≡ 1 - code

-- Whatever the table held, `gdt_init` leaves a null descriptor, flat code and data segments for ring 0
-- at the selectors 0x08 and 0x10 and for ring 3 at 0x18 and 0x20, and loads a table of exactly these
-- five descriptors.
pub gdt_init-IsFlat :
    (gdt_address : ℕ) (g : Gdt)
    → let g' = gdt_init gdt_address g in
      (raw (g'.entry 0) ≡ 0)
      × IsFlat (raw (g'.entry (0x08 / 8))) 0 1
      × IsFlat (raw (g'.entry (0x10 / 8))) 0 0
      × IsFlat (raw (g'.entry (0x18 / 8))) 3 1
      × IsFlat (raw (g'.entry (0x20 / 8))) 3 0
      × (g'.loaded ≡ some (record { size = 5 * 8 - 1; offset = gdt_address }))
unfolding gdt_init raw
gdt_init-IsFlat gdt_address g = (refl, omega arith, omega arith, omega arith, omega arith, refl)
