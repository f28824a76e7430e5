-- ===== src/Tests/Limine.antt =====
-- Runs of src/limine_data.c.
use ratos.Prelude.{arith, ◌≡◌, ◌↔◌, ◌%◌, refl, true, false, some, [], ◌∷◌}
use ratos.Io.{Device}
use ratos.Virt.{done}
use ratos.Virt.Leaf.{leaf, page_of, view}
use ratos.Virt.Translate.{translated}
use ratos.Phys.{MemmapEntry}
use ratos.Limine.{
  Responses, limine_data_bare_minimum_present, limine_data_wanted_responses_present,
  limine_data_get_rsdp_phys,
}
use ratos.Limine.Present.{AllPresent, AllPresent-iff}
use ratos.Limine.Rsdp.{get_rsdp_phys_lem}
use ratos.Memory.{load8, load64}
use ratos.Tests.Virt.{machine, machine'}
use ratos.Tests.Space.{machine'-Shows}

abbrev entry : MemmapEntry
entry = record { base = 0; length = 0x8000; kind = 0 }

-- Every response, but no module.
abbrev no_modules : Responses
no_modules = record {
  base_revision_supported = true;
  framebuffer = some (0x1000 ∷ []);
  flanterm = some (0x2000 ∷ []);
  hhdm = some 0xffff800000000000;
  memmap = some (entry ∷ []);
  paging_mode = some 0;
  modules = some [];
  executable_address = some (0x100000, 0xffffffff80000000);
  rsdp = some 0xffff8000000e0000;
}

abbrev silent : Device
silent h port = 0

wanted_run : (limine_data_wanted_responses_present no_modules silent []).0 ≡ some false
unfolding limine_data_wanted_responses_present
wanted_run = refl

AllPresent-iff_example :
    ((limine_data_bare_minimum_present no_modules ≡ true)
      × ((limine_data_wanted_responses_present no_modules silent []).0 ≡ some true))
    ↔ ((no_modules.base_revision_supported ≡ true) × AllPresent no_modules)
AllPresent-iff_example = AllPresent-iff no_modules silent []

mapped_page : translated (view machine' (page_of 0x400123)) ≡ 0x7000
unfolding leaf load64 load8
mapped_page = refl

-- The address is 0x123 behind the start of its page. Later the tables may be others.
get_rsdp_phys_lem_example :
    let p = translated (view machine' (page_of 0x400123)) in
    (limine_data_get_rsdp_phys 0x400123 0 machine' ≡ done p machine')
    × (p % 4096 ≡ 0)
    × (limine_data_get_rsdp_phys 0x400123 p machine ≡ done p machine)
get_rsdp_phys_lem_example =
    get_rsdp_phys_lem machine' machine (view machine') 0x400123 machine'-Shows
      (λ e. absurd (omega (arith, e, mapped_page)))
