-- ===== src/Serial.antt =====
-- src/drv/rs232.c: the driver of a 16550 serial port.
pub mod Setup
pub mod Transfer
pub mod Receive
use ratos.Prelude.{
  ℕ, zero, suc, ◌+◌, bit_and, bit_or, Bool, true, false, not, ◌&&◌, ◌||◌, Option, none, some, List,
  [], ◌∷◌,
}
use ratos.Prelude.{◌==◌, ltb, if◌then◌else◌, u8, ◌>>>◌}
use ratos.Prelude.Int.{ℤ, pos, negsuc}
use ratos.Memory.{Memory, load8, store8}
use ratos.Io.{Io, pure, ◌>>=◌, ◌>>◌, outb, inb}

abbrev pub s_com1 : ℕ
s_com1 = 0x3f8

-- The registers of a port.
abbrev pub s_tx_rx : ℕ → ℕ
s_tx_rx port = port + 0

abbrev pub s_divisor_lsb : ℕ → ℕ
s_divisor_lsb port = port + 0

abbrev pub s_int_enable : ℕ → ℕ
s_int_enable port = port + 1

abbrev pub s_divisor_msb : ℕ → ℕ
s_divisor_msb port = port + 1

abbrev pub s_fifo_control : ℕ → ℕ
s_fifo_control port = port + 2

abbrev pub s_line_control : ℕ → ℕ
s_line_control port = port + 3

abbrev pub s_modem_control : ℕ → ℕ
s_modem_control port = port + 4

abbrev pub s_line_status : ℕ → ℕ
s_line_status port = port + 5

abbrev pub s_lcr_dlab : ℕ
s_lcr_dlab = 0b10000000

-- 0x00000000, cut to a byte.
abbrev pub s_lcr_parity_none : ℕ
s_lcr_parity_none = u8 0x00000000

abbrev pub s_lcr_stop_bits_1 : ℕ
s_lcr_stop_bits_1 = 0b00000000

abbrev pub s_lcr_data_bits_8 : ℕ
s_lcr_data_bits_8 = 0b00000011

abbrev pub s_fcr_itl_14_bytes : ℕ
s_fcr_itl_14_bytes = 0b11000000

abbrev pub s_fcr_clear_tx_fifo : ℕ
s_fcr_clear_tx_fifo = 0b00000100

abbrev pub s_fcr_clear_rx_fifo : ℕ
s_fcr_clear_rx_fifo = 0b00000010

abbrev pub s_fcr_enable_fifos : ℕ
s_fcr_enable_fifos = 0b00000001

abbrev pub s_mcr_loopback : ℕ
s_mcr_loopback = 0b00010000

abbrev pub s_mcr_out2 : ℕ
s_mcr_out2 = 0b00001000

abbrev pub s_mcr_rts : ℕ
s_mcr_rts = 0b00000010

abbrev pub s_mcr_dtr : ℕ
s_mcr_dtr = 0b00000001

abbrev pub s_lsr_tx_reg_empty : ℕ
s_lsr_tx_reg_empty = 0b00100000

abbrev pub s_lsr_data_ready : ℕ
s_lsr_data_ready = 0b00000001

unfoldable pub can_tx : ℕ → Io ℕ
unfolding inb
can_tx port = do status ← inb (s_line_status port); pure (bit_and status s_lsr_tx_reg_empty)

unfoldable pub can_rx : ℕ → Io ℕ
unfolding inb
can_rx port = do status ← inb (s_line_status port); pure (bit_and status s_lsr_data_ready)

abbrev pub test_bytes : List ℕ
test_bytes = 0x00 ∷ 0xff ∷ 0xa5 ∷ 0x5a ∷ []

-- The loopback test over the bytes that are left; false where the source returns -1.
unfoldable pub test_loop : ℕ → List ℕ → Io Bool
unfolding outb inb
test_loop port [] = pure true
test_loop port (byte ∷ bytes) = do
  outb (s_tx_rx port) byte
  echo ← inb (s_tx_rx port)
  elim (not (echo == byte)) [ true ↦ pure false | false ↦ test_loop port bytes ]

-- The writes of `serial_init` in front of the loopback test.
unfoldable pub set_up : (port baud_rate_divisor : ℕ) → Io (Unit {0})
unfolding outb
set_up port baud_rate_divisor = do
  outb (s_int_enable port) 0
  outb (s_line_control port) s_lcr_dlab
  outb (s_divisor_lsb port) (u8 (bit_and baud_rate_divisor 0xff))
  outb (s_divisor_msb port) (u8 (bit_and (baud_rate_divisor >>> 8) 0xff))
  outb (s_line_control port) (bit_or (bit_or s_lcr_data_bits_8 s_lcr_parity_none) s_lcr_stop_bits_1)
  outb (s_fifo_control port) (
      bit_or (bit_or (bit_or s_fcr_enable_fifos s_fcr_clear_rx_fifo) s_fcr_clear_tx_fifo)
        s_fcr_itl_14_bytes)
  outb (s_modem_control port) (bit_or (bit_or s_mcr_out2 s_mcr_dtr) s_mcr_rts)
  outb (s_modem_control port) (bit_or (bit_or s_mcr_out2 s_mcr_rts) s_mcr_loopback)

-- What `serial_init` does behind the test.
unfoldable pub conclude : (port : ℕ) → Bool → Io ℤ
unfolding outb
conclude port true = do
  outb (s_modem_control port) (bit_or (bit_or s_mcr_out2 s_mcr_dtr) s_mcr_rts)
  pure (pos 0)
conclude port false = pure (negsuc 0)

unfoldable pub serial_init : (port baud_rate_divisor : ℕ) → Io ℤ
serial_init port baud_rate_divisor = do
  set_up port baud_rate_divisor
  passed ← test_loop port test_bytes
  conclude port passed

-- The condition of the loop of `serial_write`.
unfoldable pub goes_on : Memory → (str size i : ℕ) → Bool
goes_on m str size i =
    (not (size == 0) && ltb i size) || ((size == 0) && not (load8 m (str + i) == 0))

-- The loop of `serial_write` at `i`; false means that the fuel ran out. What `can_tx` answers is read
-- and not used, as in the source.
unfoldable pub write_loop : ℕ → Memory → (port str size i : ℕ) → Io Bool
unfolding can_tx outb
write_loop zero m port str size i = pure false
write_loop (suc fuel) m port str size i =
    let round = (do
      _ ← can_tx port
      outb (s_tx_rx port) (load8 m (str + i))
      write_loop fuel m port str size (i + 1)) in
    if goes_on m str size i then round else pure true

unfoldable pub serial_write : ℕ → Memory → (port str size : ℕ) → Io Bool
unfolding write_loop
serial_write fuel m port str size = write_loop fuel m port str size 0

-- The loop of `serial_read` at `i`, with `left` rounds to go: the number of bytes read and the memory.
unfoldable pub read_loop : (left : ℕ) → Memory → (port buf size i : ℕ) → Io (ℕ × Memory)
unfolding can_rx inb
read_loop zero m port buf size i = pure (size, m)
read_loop (suc left) m port buf size i = do
  ready ← can_rx port
  elim (ready == 0) [
    | true ↦ pure (i, m)
    | false ↦ (do
      byte ← inb (s_tx_rx port)
      read_loop left (store8 m (buf + i) byte) port buf size (i + 1))
  ]

unfoldable pub serial_read : Memory → (port buf size : ℕ) → Io (ℕ × Memory)
unfolding read_loop
serial_read m port buf size = read_loop size m port buf size 0
