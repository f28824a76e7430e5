-- ===== src/Pit.antt =====
-- src/drv/pit.c: the set-up of the interval timer.
use ratos.Prelude.{ℕ, bit_or}
use ratos.Io.{Io, ◌>>◌, outb}

abbrev pub pit_chan0 : ℕ
pit_chan0 = 0x40

abbrev pub pit_mode : ℕ
pit_mode = 0x43

abbrev pub pit_mode_chan0 : ℕ
pit_mode_chan0 = 0x00

abbrev pub pit_mode_hilo : ℕ
pit_mode_hilo = 0x30

abbrev pub pit_mode_sq_wave : ℕ
pit_mode_sq_wave = 0x03

unfoldable pub pit_init : Io (Unit {0})
unfolding outb
pit_init = do
  outb pit_mode (bit_or (bit_or pit_mode_chan0 pit_mode_hilo) pit_mode_sq_wave)
  outb pit_chan0 0x01
  outb pit_chan0 0x00
