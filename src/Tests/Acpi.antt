-- ===== src/Tests/Acpi.antt =====
-- A run of src/acpi/acpi.c.
use ratos.Prelude.{◌+◌, ◌≡◌, refl, some, [], ◌∷◌, arith, ◌==◌, if◌then◌else◌}
use ratos.Memory.{Memory, load8, load64}
use ratos.Virt.{pure}
use ratos.Acpi.{Uacpi, madt_loop}
use ratos.Acpi.Entries.{Entry, AreEntries, last_override, madt_loop-last_override}

-- The layout of the MADT: the type and the length of an entry, and the address 4 bytes behind them.
abbrev pub layout : Uacpi
layout = record {
  entry_type = load8;
  entry_length = λ m a. load8 m (a + 1);
  override_address = λ m a. load64 m (a + 4);
  local_interrupt_controller_address = λ m a. load64 m (a + 36);
  table_length = λ m a. load64 m (a + 4);
  override_type = 5;
  status_ok = 0;
  setup_early_table_access = λ _ _ _. pure 0;
  find_madt = pure (0x1000, 0x1000);
}

-- An entry of 8 bytes behind the head, and one of 12 that overrides the address with 0xfee00000.
abbrev table : Memory
table a =
    if a == 0x102d
    then 8
    else if a == 0x1034
    then 5
    else if a == 0x1035
    then 12
    else if a == 0x103a
    then 0xe0
    else if a == 0x103b
    then 0xfe
    else 0

abbrev skipped : Entry
skipped = record { kind = 0; size = 8; address = 0xc0500000000 }

abbrev overriding : Entry
overriding = record { kind = 5; size = 12; address = 0xfee00000 }

table-AreEntries : AreEntries layout table 0x1000 0x40 0x2c (skipped ∷ overriding ∷ [])
unfolding load8 load64
table-AreEntries = (
  omega arith,
  omega arith,
  record { kind = refl; size = refl; address = refl },
  (omega arith, omega arith, record { kind = refl; size = refl; address = refl }, omega arith),
)

madt_loop-last_override_example :
    madt_loop layout 3 table 0x1000 0x40 0x2c 0xfed00000 ≡ some 0xfee00000
unfolding last_override
madt_loop-last_override_example =
    madt_loop-last_override layout table 0x1000 0x40 (skipped ∷ overriding ∷ []) 3 0x2c 0xfed00000
      (omega arith) table-AreEntries
