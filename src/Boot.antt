-- ===== src/Boot.antt =====
-- src/main.c: the order in which the parts are initialised. Log lines of `kmain` itself are left out.
pub mod Safety
use ratos.Prelude.{ℕ, if◌then◌else◌, Bool, true, false, not, Option, none, some, List, [], ◌∷◌}
use ratos.Io.{Io, Device, History}
use ratos.Phys.{MemmapEntry, InitResult, ready, halted, fault, phys_init}
use ratos.Gdt.{Gdt, gdt_init}
use ratos.Idt.{idt_init}
use ratos.Virt.{Kernel, Outcome, done, ◌>>=◌, ◌>>◌}
use ratos.Virt as Virt
use ratos.Virt.Init.{BootData, virt_init}
use ratos.Limine.{
  Responses, limine_data_bare_minimum_present, limine_data_wanted_responses_present,
  limine_data_hhdm_get_offset, limine_data_get_rsdp_virt, limine_data_get_framebuffer_response,
  limine_data_get_flanterm_fb_init_params_response, limine_data_get_memmap_response,
  limine_data_get_executable_address_response,
}
use ratos.Term.{Screen, term_init}
use ratos.Acpi.{Uacpi, acpi_init, lapic_init}

-- What `kmain` finds: the answers of the boot loader, the devices, and what is not in the source.
-- `framebuffer` reads a framebuffer's address, width, height and bits per pixel.
pub record Environment : Type 0 where
  pub responses : Responses
  pub device : Device
  pub gdt_address : ℕ
  pub idt_load : Io (Unit {0})
  pub usable : ℕ
  pub mapped : ℕ → Bool
  pub framebuffer : ℕ → ℕ × ℕ × ℕ × ℕ
  pub kernel_size : ℕ
  pub uacpi : Uacpi
  pub apic_base_msr : ℕ
  pub fuel : ℕ

pub record Machine : Type 0 where
  pub kernel : Kernel
  pub gdt : Gdt
  pub screen : Screen
  pub history : History

-- How `kmain` ends: in `while (1)`, in `hcf`, with a read through a null pointer or in front of an array,
-- or with a loop that runs out of fuel.
pub data Boot : Type 0 where
  runs : Machine → Boot
  stops faults out_of_fuel : Boot

-- A read through a pointer, and of entry 0 of an array behind one.
abbrev pub needs : {A : Type 0} → Option A → (A → Boot) → Boot
needs none f = faults
needs (some a) f = f a

abbrev pub needs_first : {A : Type 0} → Option (List A) → (A → Boot) → Boot
needs_first none f = faults
needs_first (some []) f = faults
needs_first (some (a ∷ rest)) f = f a

abbrev pub needs_all : Option (List MemmapEntry) → (List MemmapEntry → Boot) → Boot
needs_all none f = faults
needs_all (some l) f = f l

abbrev pub after : {A : Type 0} → Outcome A → (Kernel → Boot) → Boot
after (done a k) f = f k
after (Virt.halted k) f = stops
after Virt.out_of_fuel f = out_of_fuel

module _ (env : Environment) where
  -- `acpi_init` and what follows it. In its setup uACPI asks for the RSDP, whose response is read then.
  unfoldable pub start_acpi : Machine → Boot
  start_acpi m = needs (limine_data_get_rsdp_virt env.responses) (λ rsdp_virt.
      after
        ((acpi_init env.uacpi env.fuel rsdp_virt >>= λ address.
            lapic_init env.fuel address env.apic_base_msr)
          m.kernel)
        (λ k. runs (record m { kernel = k })))

  -- The initialisations that work on the page tables.
  unfoldable pub start_paging : BootData → Machine → Boot
  start_paging b m =
      after (virt_init env.mapped b m.kernel) (λ k. start_acpi (record m { kernel = k }))

  -- What follows `phys_init`.
  abbrev pub behind_phys :
      (framebuffer hhdm_offset : ℕ) → List MemmapEntry → InitResult → Machine → Boot
  behind_phys framebuffer hhdm_offset memmap fault m = faults
  behind_phys framebuffer hhdm_offset memmap halted m = stops
  behind_phys framebuffer hhdm_offset memmap (ready ph memory) m =
      needs (limine_data_get_executable_address_response env.responses) (λ executable.
        let (address, width, height, bpp) = env.framebuffer framebuffer in
        start_paging
          (record {
            hhdm_offset = hhdm_offset;
            memmap = memmap;
            fb_address = address;
            fb_width = width;
            fb_height = height;
            fb_bpp = bpp;
            physical_base = executable.0;
            virtual_base = executable.1;
            kernel_size = env.kernel_size;
          })
          (record m { kernel = record m.kernel { phys = ph; memory = memory } }))

  -- From `phys_init` on.
  unfoldable pub start_memory : (framebuffer : ℕ) → Machine → Boot
  start_memory framebuffer m = needs (limine_data_hhdm_get_offset env.responses) (λ hhdm_offset.
      needs_all (limine_data_get_memmap_response env.responses) (λ memmap.
        behind_phys framebuffer hhdm_offset memmap
          (phys_init env.usable m.kernel.memory hhdm_offset memmap) m))

  -- What follows `term_init`, with the result of the second check.
  abbrev pub behind_checks : (framebuffer : ℕ) → Machine → Option Bool → Boot
  behind_checks framebuffer m present =
      needs present (λ all_there. if not all_there then stops else start_memory framebuffer m)

  unfoldable pub kmain : Machine → Boot
  kmain m =
      if not (limine_data_bare_minimum_present env.responses)
      then stops
      else needs_first (limine_data_get_framebuffer_response env.responses) (λ framebuffer.
        needs_first (limine_data_get_flanterm_fb_init_params_response env.responses) (λ _.
          let ((_, screen), h1) = term_init m.screen env.device m.history in
          let (present, h2) = limine_data_wanted_responses_present env.responses env.device h1 in
          behind_checks framebuffer
            (record m {
              gdt = gdt_init env.gdt_address m.gdt;
              screen = screen;
              history = (idt_init env.idt_load env.device h2).1;
            })
            present))
