-- ===== src/Boot/Safety.antt =====
-- What lets `kmain` of src/main.c go on, and that it then reads through no null pointer.
use ratos.Prelude.{
  none, some, ◌⊎◌, ℕ, ◌≡◌, ◌≢◌, sym, subst, Bool, true, false, not, if◌then◌else◌, Option, List,
}
use ratos.Phys.{InitResult, ready, halted, fault}
use ratos.Memory.{Memory}
use ratos.Virt as Virt
use ratos.Gdt.{gdt_init}
use ratos.Io.{History}
use ratos.Idt.{idt_init}
use ratos.Limine.{
  Responses, limine_data_wanted_responses_present, limine_data_get_framebuffer_response,
  limine_data_get_flanterm_fb_init_params_response,
}
use ratos.Limine.Present.{AllPresent, HasFirst}
use ratos.Term.{Screen, term_init}
use ratos.Boot.{
  behind_checks, Environment, Machine, Boot, runs, stops, faults, out_of_fuel, needs_first,
  start_memory,
}

value_of : Option Bool → Bool
value_of none = false
value_of (some b) = b

-- What is not a fault.
abbrev pub Fine : Boot → Type 0
Fine b = b ≢ faults

is_fault : Boot → Bool
is_fault (runs m) = false
is_fault stops = false
is_fault faults = true
is_fault out_of_fuel = false

is_init_fault : InitResult → Bool
is_init_fault (ready ph memory) = false
is_init_fault halted = false
is_init_fault fault = true

module _ (env : Environment) where
  needs_first-Fine :
      {A : Type 0} (o : Option (List A)) (f : A → Boot)
      → HasFirst o
      → ((a : A) → Fine (f a))
      → Fine (needs_first o f)
  needs_first-Fine o f (a, rest, e) fine = subst (λ o'. Fine (needs_first o' f)) (sym e) (fine a)

-- The checks let `kmain` go on exactly if this holds.
abbrev pub Complete : Responses → Type 0
Complete r = (r.base_revision_supported ≡ true) × AllPresent r

-- `kmain` went on to `phys_init`, with the first framebuffer and the kernel state that it started with,
-- behind `gdt_init`, and reads through no null pointer from there on.
abbrev pub GoesOn : Environment → Machine → Boot → Type 0
GoesOn env m b =
    (framebuffer : ℕ) × (m' : Machine) × (b ≡ start_memory env framebuffer m')
    × (m'.kernel ≡ m.kernel)
    × (m'.gdt ≡ gdt_init env.gdt_address m.gdt)
    × (b ≢ faults)

module _ (env : Environment) (m : Machine) where
  abbrev r : Responses
  r = env.responses

  abbrev terminal : (ℕ × Screen) × History
  terminal = term_init m.screen env.device m.history

  abbrev wanted : Option Bool × History
  wanted = limine_data_wanted_responses_present r env.device terminal.1

  abbrev set_up : Machine
  set_up = record m {
    gdt = gdt_init env.gdt_address m.gdt;
    screen = terminal.0.1;
    history = (idt_init env.idt_load env.device wanted.1).1;
  }

  abbrev by_bare : Bool → Boot
  by_bare bare =
      if not bare
      then stops
      else needs_first (limine_data_get_framebuffer_response r) (λ framebuffer.
        needs_first (limine_data_get_flanterm_fb_init_params_response r)
          (λ _. behind_checks env framebuffer set_up wanted.0))

  abbrev Ends : Boot → Type 0
  Ends b = (¬ Complete r × (b ≡ stops)) ⊎ (Complete r × GoesOn env m b)
