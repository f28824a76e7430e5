-- ===== src/Acpi/KernelApi.antt =====
-- src/acpi/kernel_api.c: what the kernel offers to uACPI.
use ratos.Prelude.{ℕ, ◌+◌, u64, sub64, ◌==◌, if◌then◌else◌, bit_or}
use ratos.Util.{floorchunku64, ceilchunku64}
use ratos.Prelude.{List, [], ◌∷◌}
use ratos.Prelude.Int.{pos, negsuc}
use ratos.Io.{Io}
use ratos.Virt.{Run, pure, ◌>>=◌, virt_page_size, vf_pt_present, vf_pt_writable}
use ratos.Virt.Map.{virt_unmap}
use ratos.Virt.Contexts.{virt_map_anywhere}
use ratos.Limine.{limine_data_get_rsdp_phys}
use ratos.Term.{Screen, Formats, kvlog}

-- The part of an address below its page, and the bytes of the pages that `len` bytes from there touch.
abbrev pub offset_within_page : ℕ → ℕ
offset_within_page addr = sub64 addr (floorchunku64 addr virt_page_size)

abbrev pub actual_len : (addr len : ℕ) → ℕ
actual_len addr len = ceilchunku64 (u64 (len + offset_within_page addr)) virt_page_size

unfoldable pub uacpi_kernel_map : (fuel addr len : ℕ) → Run ℕ
uacpi_kernel_map fuel addr len = do
  virt_addr ←
      virt_map_anywhere fuel 0 (floorchunku64 addr virt_page_size) (actual_len addr len)
        (bit_or vf_pt_present vf_pt_writable)
  pure (u64 (virt_addr + offset_within_page addr))

unfoldable pub uacpi_kernel_unmap : (addr len : ℕ) → Run (Unit {0})
uacpi_kernel_unmap addr len = virt_unmap 0 (floorchunku64 addr virt_page_size) (actual_len addr len)

-- The levels of uACPI.
pub record UacpiLogLevels : Type 0 where
  pub debug : ℕ
  pub trace : ℕ
  pub info : ℕ
  pub warn : ℕ
  pub error : ℕ

unfoldable pub s_kernel_api_convert_log_level : UacpiLogLevels → ℕ → ℕ
s_kernel_api_convert_log_level u log_level =
    if log_level == u.debug
    then 1
    else if log_level == u.trace
    then 0
    else if log_level == u.info
    then 2
    else if log_level == u.warn
    then 3
    else if log_level == u.error
    then 4
    else 4

abbrev pub u_acpi : List ℕ
u_acpi = b'u' ∷ b'A' ∷ b'C' ∷ b'P' ∷ b'I' ∷ []

unfoldable pub uacpi_kernel_vlog :
    Formats → UacpiLogLevels → (log_level : ℕ) → (text : List ℕ) → Screen → Io (ℕ × Screen)
uacpi_kernel_vlog f u log_level text screen =
    kvlog f (pos (s_kernel_api_convert_log_level u log_level)) u_acpi (negsuc 0) text screen

unfoldable pub uacpi_kernel_log :
    Formats → UacpiLogLevels → (log_level : ℕ) → (text : List ℕ) → Screen → Io (ℕ × Screen)
uacpi_kernel_log f u log_level text screen = uacpi_kernel_vlog f u log_level text screen

-- `*out_rsdp_address`; the status is always `UACPI_STATUS_OK`.
unfoldable pub uacpi_kernel_get_rsdp : (rsdp_virt rsdp_phys : ℕ) → Run ℕ
uacpi_kernel_get_rsdp rsdp_virt rsdp_phys = limine_data_get_rsdp_phys rsdp_virt rsdp_phys
