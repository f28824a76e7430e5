-- ===== src/Acpi/Logging.antt =====
-- `uacpi_kernel_vlog` of src/acpi/kernel_api.c.
use ratos.Prelude.{ℕ, ◌≡◌, ◌≤◌, arith, Bool, true, leb, if◌then◌else◌, List, ◌++◌, subst}
use ratos.Prelude.Int.{pos, negsuc}
use ratos.Io.{Device}
use ratos.Term.{Formats, ll_error, kvlog}
use ratos.Term.Output.{Says, full_head}
use ratos.Term.Log.{kvlog-Says, complaint}
use ratos.Acpi.KernelApi.{UacpiLogLevels, s_kernel_api_convert_log_level, u_acpi, uacpi_kernel_vlog}

converted-le :
    (u : UacpiLogLevels) (log_level : ℕ) → s_kernel_api_convert_log_level u log_level ≤ ll_error
unfolding s_kernel_api_convert_log_level
converted-le u log_level = ground arith

-- A line at a valid level.
valid-Says :
    (d : Device) (f : Formats) (level : ℕ) (text : List ℕ)
    → level ≤ ll_error
    → let line = full_head f level u_acpi (negsuc 0) ++ text in
      Says d line line (kvlog f (pos level) u_acpi (negsuc 0) text)
valid-Says d f level text small =
    let valid : leb level ll_error ≡ true = ground arith in
    let line : List ℕ = full_head f level u_acpi (negsuc 0) ++ text in
    let corrected : List ℕ = full_head f ll_error u_acpi (negsuc 0) ++ text in
    let complained : List ℕ =
      complaint f (pos level) u_acpi (negsuc 0) ++ full_head f ll_error u_acpi (negsuc 0) ++ text in
    subst
      (λ (b : Bool).
        Says d (if b then line else complained) (if b then line else corrected)
          (kvlog f (pos level) u_acpi (negsuc 0) text))
      valid (kvlog-Says d f (pos level) u_acpi (negsuc 0) text)

-- A line of uACPI's log, at whatever level, goes out at one of the kernel's levels, without a complaint
-- and without a line number.
pub uacpi_kernel_vlog-Says :
    (d : Device) (f : Formats) (u : UacpiLogLevels) (log_level : ℕ) (text : List ℕ)
    → let line =
        full_head f (s_kernel_api_convert_log_level u log_level) u_acpi (negsuc 0) ++ text in
      (s_kernel_api_convert_log_level u log_level ≤ ll_error)
      × Says d line line (uacpi_kernel_vlog f u log_level text)
unfolding uacpi_kernel_vlog
uacpi_kernel_vlog-Says d f u log_level text = (
  converted-le u log_level,
  valid-Says d f (s_kernel_api_convert_log_level u log_level) text (converted-le u log_level),
)
