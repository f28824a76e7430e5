-- ===== src/Term.antt =====
-- src/drv/term.c: the terminal and the log. What nanoprintf makes of a format and its arguments is a
-- list of characters, each of which it hands to `s_putchar`, and it returns their number. What flanterm
-- is told is a list, the newest first.
pub mod Output
pub mod Log
use ratos.Prelude.{
  ℕ, zero, suc, ◌+◌, length, Bool, true, false, ◌==◌, leb, if◌then◌else◌, List, [], ◌∷◌, ◌++◌, u8,
}
use ratos.Prelude.Int.{ℤ, pos, negsuc}
use ratos.Memory.{Memory}
use ratos.Io.{Io, pure, ◌>>=◌, ◌>>◌}
use ratos.Serial.{s_com1, serial_init, serial_write}

abbrev pub kernel_logging_port : ℕ
kernel_logging_port = s_com1

abbrev pub s_baud_115200 : ℕ
s_baud_115200 = 1

abbrev pub ll_error : ℕ
ll_error = 4

-- `flanterm_write` of one character, and `flanterm_flush`.
pub data ScreenCall : Type 0 where
  put : ℕ → ScreenCall
  flush : ScreenCall

abbrev pub Screen : Type 0
Screen = List ScreenCall

-- `c` where `&c` points.
abbrev pub holding : ℕ → Memory
holding c a = c

unfoldable pub s_putchar : (wide_c : ℕ) → Screen → Io Screen
s_putchar wide_c screen =
    let c = u8 wide_c in
    let screen' = if c == b'\n' then put b'\r' ∷ screen else screen in
    (do _ ← serial_write 2 (holding c) kernel_logging_port 1 1; pure (put c ∷ screen'))

-- `npf_vpprintf` with `s_putchar`.
unfoldable pub put_all : List ℕ → Screen → Io Screen
put_all [] screen = pure screen
put_all (c ∷ cs) screen = do screen' ← s_putchar c screen; put_all cs screen'

unfoldable pub kvprintf : List ℕ → Screen → Io (ℕ × Screen)
kvprintf text screen = do screen' ← put_all text screen; pure (length text, flush ∷ screen')

unfoldable pub kprintf : List ℕ → Screen → Io (ℕ × Screen)
kprintf text screen = kvprintf text screen

-- What nanoprintf makes of the number of a line, and of the complaint about a log level.
pub record Formats : Type 0 where
  pub line_number : ℤ → List ℕ
  pub invalid_level : (log_level : ℤ) → (file : List ℕ) → (line : ℤ) → List ℕ

abbrev pub ansi_sgr_fg_color : List ℕ
ansi_sgr_fg_color = 27 ∷ b'[' ∷ b'3' ∷ b'8' ∷ b';' ∷ b'5' ∷ b';' ∷ []

abbrev pub ansi_sgr_end : List ℕ
ansi_sgr_end = b'm' ∷ []

abbrev pub ansi_sgr_fg_color_reset : List ℕ
ansi_sgr_fg_color_reset = 27 ∷ b'[' ∷ b'3' ∷ b'9' ∷ b';' ∷ b'4' ∷ b'9' ∷ b'm' ∷ []

-- The tables, at a level up to `LL_ERROR`.
abbrev pub log_colors : ℕ → List ℕ
log_colors level =
    if level == 0
    then b'7' ∷ []
    else if level == 1
    then b'6' ∷ b'9' ∷ []
    else if level == 2
    then b'7' ∷ b'0' ∷ []
    else if level == 3
    then b'2' ∷ b'2' ∷ b'1' ∷ []
    else b'1' ∷ b'6' ∷ b'0' ∷ []

abbrev pub log_level_names : ℕ → List ℕ
log_level_names level =
    if level == 0
    then b't' ∷ b'r' ∷ b'c' ∷ []
    else if level == 1
    then b'd' ∷ b'b' ∷ b'g' ∷ []
    else if level == 2
    then b'i' ∷ b'n' ∷ b'f' ∷ []
    else if level == 3
    then b'w' ∷ b'r' ∷ b'n' ∷ []
    else b'e' ∷ b'r' ∷ b'r' ∷ []

-- `"[%s%s%s%s%s] [%s"`.
abbrev pub head_text : (level : ℕ) → (file : List ℕ) → List ℕ
head_text level file =
    (b'[' ∷ [])
    ++ ansi_sgr_fg_color
    ++ log_colors level
    ++ ansi_sgr_end
    ++ log_level_names level
    ++ ansi_sgr_fg_color_reset
    ++ (b']' ∷ b' ' ∷ b'[' ∷ [])
    ++ file

-- `if (line >= 0)`.
abbrev pub print_line_number : Formats → ℤ → Screen → Io (ℕ × Screen)
print_line_number f (pos n) screen = kprintf (f.line_number (pos n)) screen
print_line_number f (negsuc n) screen = pure (0, screen)

-- `s_print_log_head` behind the check of the level.
unfoldable pub print_head :
    Formats → (level : ℕ) → (file : List ℕ) → (line : ℤ) → Screen → Io (ℕ × Screen)
print_head f level file line screen = do
  (size, screen1) ← kprintf (head_text level file) screen
  (size', screen2) ← print_line_number f line screen1
  (size'', screen3) ← kprintf (b']' ∷ b' ' ∷ []) screen2
  pure (size + size' + size'', screen3)

-- `klog` at a valid level.
unfoldable pub log_at :
    Formats
    → (level : ℕ) → (file : List ℕ) → (line : ℤ) → (text : List ℕ) → Screen
    → Io (ℕ × Screen)
log_at f level file line text screen = do
  (size, screen1) ← print_head f level file line screen
  (size', screen2) ← kvprintf text screen1
  pure (size + size', screen2)

-- `__FILE_NAME__` and `__LINE__` of the complaint.
abbrev pub term_c : List ℕ
term_c = b't' ∷ b'e' ∷ b'r' ∷ b'm' ∷ b'.' ∷ b'c' ∷ []

abbrev pub complaint_line : ℤ
complaint_line = pos 84

-- The rest of `s_print_log_head` after the complaint about a level out of range.
abbrev pub complain :
    Formats → (log_level : ℤ) → (file : List ℕ) → (line : ℤ) → Screen → Io (ℕ × Screen)
complain f log_level file line screen = do
  (_, screen1) ←
      log_at f ll_error term_c complaint_line (f.invalid_level log_level file line) screen
  print_head f ll_error file line screen1

unfoldable pub s_print_log_head :
    Formats → (log_level : ℤ) → (file : List ℕ) → (line : ℤ) → Screen → Io (ℕ × Screen)
s_print_log_head f (negsuc n) file line screen = complain f (negsuc n) file line screen
s_print_log_head f (pos n) file line screen = elim (leb n ll_error) [
  | true ↦ print_head f n file line screen
  | false ↦ complain f (pos n) file line screen
]

-- `MIN_LOG_LEVEL` is `LL_TRACE`, 0.
unfoldable pub kvlog :
    Formats
    → (log_level : ℤ) → (file : List ℕ) → (line : ℤ) → (text : List ℕ) → Screen
    → Io (ℕ × Screen)
kvlog f (negsuc n) file line text screen = pure (0, screen)
kvlog f (pos n) file line text screen = do
  (size, screen1) ← s_print_log_head f (pos n) file line screen
  (size', screen2) ← kvprintf text screen1
  pure (size + size', screen2)

unfoldable pub klog :
    Formats
    → (log_level : ℤ) → (file : List ℕ) → (line : ℤ) → (text : List ℕ) → Screen
    → Io (ℕ × Screen)
klog f log_level file line text screen = kvlog f log_level file line text screen

-- `term_init` behind the setup of flanterm: the serial port, and the sequence that clears the screen.
unfoldable pub term_init : Screen → Io (ℕ × Screen)
term_init screen = do
  _ ← serial_init kernel_logging_port s_baud_115200
  kprintf (27 ∷ b'[' ∷ b'2' ∷ b'J' ∷ []) screen
