-- ===== src/Tests/Boot.antt =====
-- A run of src/main.c.
use ratos.Prelude.{true, none, some, [], ◌∷◌}
use ratos.Io.{pure}
use ratos.Gdt.{GdtEntry}
use ratos.Phys.{MemmapEntry}
use ratos.Limine.{Responses}
use ratos.Boot.{Environment, Machine}
use ratos.Tests.Virt.{machine}
use ratos.Tests.Acpi.{layout}

abbrev entry : MemmapEntry
entry = record { base = 0; length = 0x8000; kind = 0 }

-- The boot loader left out where the kernel was loaded.
abbrev incomplete : Responses
incomplete = record {
  base_revision_supported = true;
  framebuffer = some (0x1000 ∷ []);
  flanterm = some (0x2000 ∷ []);
  hhdm = some 0xffff800000000000;
  memmap = some (entry ∷ []);
  paging_mode = some 0;
  modules = some [];
  executable_address = none;
  rsdp = some 0xffff8000000e0000;
}

abbrev environment : Environment
environment = record {
  responses = incomplete;
  device = λ h port. 0;
  gdt_address = 0x2000;
  idt_load = pure tt;
  usable = 0;
  mapped = λ kind. true;
  framebuffer = λ a. (0xb8000, 80, 25, 16);
  kernel_size = 0x1000;
  uacpi = layout;
  apic_base_msr = 0x800;
  fuel = 100;
}

abbrev empty_entry : GdtEntry
empty_entry = record {
  limit_low = 0;
  base_low = 0;
  access = 0;
  limit_high = 0;
  flags = 0;
  base_high = 0;
}

abbrev started : Machine
started = record {
  kernel = machine;
  gdt = record { entry = λ i. empty_entry; gdtr = record { size = 0; offset = 0 }; loaded = none };
  screen = [];
  history = [];
}
