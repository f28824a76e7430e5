-- ===== src/Limine.antt =====
-- src/limine_data.c: what the boot loader answered. A response that is missing, a null pointer, is
-- `none`; an array with its count is a list. A log line is an event with its level.
pub mod Present
pub mod Rsdp
use ratos.Prelude.{
  ℕ, length, Bool, true, false, ◌||◌, ◌==◌, ltb, not, Option, none, some, List, [], ◌∷◌,
}
use ratos.Io.{Io, pure, klog, ◌>>=◌, ◌>>◌}
use ratos.Phys.{MemmapEntry}
use ratos.Stacktrace.{LimineFile}
use ratos.Virt.{Run, done}
use ratos.Virt.Walk.{virt_get_physical_address}
use ratos.Virt as Virt

abbrev pub ll_info : ℕ
ll_info = 2

abbrev pub ll_error : ℕ
ll_error = 4

-- The answers. `base_revision_supported` is what `LIMINE_BASE_REVISION_SUPPORTED` reads; a framebuffer
-- and a set of parameters are the pointers to them.
pub record Responses : Type 0 where
  pub base_revision_supported : Bool
  pub framebuffer : Option (List ℕ)
  pub flanterm : Option (List ℕ)
  pub hhdm : Option ℕ
  pub memmap : Option (List MemmapEntry)
  pub paging_mode : Option ℕ
  pub modules : Option (List LimineFile)
  pub executable_address : Option (ℕ × ℕ)
  pub rsdp : Option ℕ

abbrev pub is_none : {A : Type 0} → Option A → Bool
is_none none = true
is_none (some a) = false

-- `response == NULL || response->count < 1`.
abbrev pub lacks : {A : Type 0} → Option (List A) → Bool
lacks none = true
lacks (some l) = ltb (length l) 1

unfoldable pub limine_data_bare_minimum_present : Responses → Bool
limine_data_bare_minimum_present r =
    not (not r.base_revision_supported || lacks r.framebuffer || lacks r.flanterm)

-- `kerror(…); return false;` where a response is missing. The result `none` is a read through a null
-- pointer.
abbrev pub wants : (missing : Bool) → Io (Option Bool) → Io (Option Bool)
wants missing rest = elim missing [ true ↦ (do klog ll_error; pure (some false)) | false ↦ rest ]

-- A line for each module.
unfoldable pub log_modules : List LimineFile → Io (Unit {0})
log_modules [] = pure tt
log_modules (f ∷ fs) = do klog ll_info; log_modules fs

-- The lines about the modules, whose response is read for their number.
unfoldable pub list_modules : Option (List LimineFile) → Io (Option Bool) → Io (Option Bool)
unfolding log_modules
list_modules none rest = pure none
list_modules (some l) rest = do klog ll_info; log_modules l; rest

unfoldable pub limine_data_wanted_responses_present : Responses → Io (Option Bool)
unfolding list_modules
limine_data_wanted_responses_present r = wants (is_none r.hhdm) (
    wants (lacks r.memmap) (
      wants (is_none r.paging_mode) (
        wants (lacks r.modules) (
          list_modules r.modules
            (wants (is_none r.executable_address) (wants (is_none r.rsdp) (pure (some true))))))))

-- The getters that read through a response: `none` is the read through a null pointer.
unfoldable pub limine_data_hhdm_get_offset : Responses → Option ℕ
limine_data_hhdm_get_offset r = r.hhdm

unfoldable pub limine_data_paging_get_mode : Responses → Option ℕ
limine_data_paging_get_mode r = r.paging_mode

unfoldable pub limine_data_get_rsdp_virt : Responses → Option ℕ
limine_data_get_rsdp_virt r = r.rsdp

-- The getters of a response.
unfoldable pub limine_data_get_flanterm_fb_init_params_response : Responses → Option (List ℕ)
limine_data_get_flanterm_fb_init_params_response r = r.flanterm

unfoldable pub limine_data_get_framebuffer_response : Responses → Option (List ℕ)
limine_data_get_framebuffer_response r = r.framebuffer

unfoldable pub limine_data_get_memmap_response : Responses → Option (List MemmapEntry)
limine_data_get_memmap_response r = r.memmap

unfoldable pub limine_data_get_module_response : Responses → Option (List LimineFile)
limine_data_get_module_response r = r.modules

unfoldable pub limine_data_get_executable_address_response : Responses → Option (ℕ × ℕ)
limine_data_get_executable_address_response r = r.executable_address

-- `s_limine_data_rsdp_phys` is 0 until the first call found an address; the result is the static
-- variable behind the call. `rsdp_virt` is the result of `limine_data_get_rsdp_virt`.
unfoldable pub limine_data_get_rsdp_phys : (rsdp_virt rsdp_phys : ℕ) → Run ℕ
limine_data_get_rsdp_phys rsdp_virt rsdp_phys = elim (rsdp_phys == 0) [
  | true ↦ virt_get_physical_address 0 rsdp_virt
  | false ↦ Virt.pure rsdp_phys
]
