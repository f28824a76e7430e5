-- ===== src/Tests/Gdt.antt =====
-- Runs of src/mem/gdt.c.
use ratos.Prelude.{ℕ, ◌-◌, ◌*◌, ◌/◌, ◌≡◌, ◌≢◌, refl, some, none}
use ratos.Gdt.{Gdt, GdtEntry, gdt_init, raw, s_add_gdt_entry}
use ratos.Gdt.Encoding.{Describes, s_add_gdt_entry-Describes}
use ratos.Gdt.Segments.{IsFlat, gdt_init-IsFlat}

abbrev no_entry : GdtEntry
no_entry = record {
  limit_low = 0;
  base_low = 0;
  access = 0;
  limit_high = 0;
  flags = 0;
  base_high = 0;
}

abbrev no_table : Gdt
no_table = record { entry = λ i. no_entry; gdtr = record { size = 0; offset = 0 }; loaded = none }

gdt_run :
    (raw ((gdt_init 0x1000 no_table).entry 1) ≡ 0x00af9b000000ffff)
    × (raw ((gdt_init 0x1000 no_table).entry 4) ≡ 0x00cff3000000ffff)
unfolding raw gdt_init
gdt_run = (refl, refl)

s_add_gdt_entry-Describes_example :
    Describes
      (raw ((s_add_gdt_entry no_table 3 0x12345678 0xabcde 0x9b 0xa).entry 3))
      0x12345678
      0xabcde
      0x9b
      0xa
    × ((i : ℕ)
        → i ≢ 3
        → (s_add_gdt_entry no_table 3 0x12345678 0xabcde 0x9b 0xa).entry i ≡ no_entry)
s_add_gdt_entry-Describes_example = s_add_gdt_entry-Describes no_table 3 0x12345678 0xabcde 0x9b 0xa

gdt_init-IsFlat_example :
    let g' = gdt_init 0x1000 no_table in
    (raw (g'.entry 0) ≡ 0)
    × IsFlat (raw (g'.entry (0x08 / 8))) 0 1
    × IsFlat (raw (g'.entry (0x10 / 8))) 0 0
    × IsFlat (raw (g'.entry (0x18 / 8))) 3 1
    × IsFlat (raw (g'.entry (0x20 / 8))) 3 0
    × (g'.loaded ≡ some (record { size = 5 * 8 - 1; offset = 0x1000 }))
gdt_init-IsFlat_example = gdt_init-IsFlat 0x1000 no_table
