-- ===== src/Serial/Setup.antt =====
-- `serial_init` of src/drv/rs232.c against the registers of a 16550.
use ratos.Prelude.{ℕ, ◌+◌, ◌*◌, ◌/◌, ◌%◌, ◌^◌, ◌≡◌, refl, ◌∙◌, ◌⊎◌, inl, inr, arith, ◌>>>◌}
use ratos.Prelude.{Bool, true, false, not, ◌==◌, if◌then◌else◌, List, [], ◌∷◌, u8}
use ratos.Prelude.Int.{ℤ, pos, negsuc}
use ratos.Prelude.Bits.{bit_and_mask}
use ratos.Io.{wrote, got, History, Device, Io, pure}
use ratos.Serial.{s_com1, test_loop, test_bytes, set_up, conclude, serial_init}

-- The registers that a driver sets, and what a write to each of the first ports does. With the divisor
-- latch open the first two ports set the divisor.
pub record Uart : Type 0 where
  pub divisor_lsb : ℕ
  pub divisor_msb : ℕ
  pub line_control : ℕ
  pub fifo_control : ℕ
  pub modem_control : ℕ

abbrev pub latch_open : Uart → Bool
latch_open u = u.line_control / 128 % 2 == 1

abbrev pub program : (base port value : ℕ) → Uart → Uart
program base port value u =
    if port == base
    then (if latch_open u then record u { divisor_lsb = value } else u)
    else if port == base + 1
    then (if latch_open u then record u { divisor_msb = value } else u)
    else if port == base + 2
    then record u { fifo_control = value }
    else if port == base + 3
    then record u { line_control = value }
    else if port == base + 4
    then record u { modem_control = value }
    else u

-- The registers behind a history, from what they were at its start.
abbrev pub uart : (base : ℕ) → Uart → History → Uart
uart base u [] = u
uart base u (wrote port value ∷ h) = program base port value (uart base u h)
uart base u (_ ∷ h) = uart base u h

module _ (u : Uart) (d : Device) where
  test_loop-uart :
      (bytes : List ℕ) (h : History)
      → latch_open (uart s_com1 u h) ≡ false
      → uart s_com1 u (test_loop s_com1 bytes d h).1 ≡ uart s_com1 u h
  unfolding test_loop
  test_loop-uart [] h closed = refl
  test_loop-uart (b ∷ bs) h closed =
      elim (not (u8 (d (wrote s_com1 (u8 b) ∷ h) s_com1) == b))
        as (λ t.
          uart s_com1 u
            ((elim t as (λ x. Io Bool) [ true ↦ pure false | false ↦ test_loop s_com1 bs ]) d
              sent).1
          ≡ uart s_com1 u h) [
            | true ↦ same
            | false ↦ test_loop-uart bs sent (rw same closed) ∙ same
          ]
    where
      sent : History
      sent = got s_com1 (u8 (d (wrote s_com1 (u8 b) ∷ h) s_com1)) ∷ wrote s_com1 (u8 b) ∷ h

      same : uart s_com1 u sent ≡ uart s_com1 u h
      same = rw closed

-- The registers that `serial_init` sets and its test does not touch.
pub record IsConfigured (baud_rate_divisor : ℕ) (u : Uart) : Type 0 where
  pub divisor : u.divisor_lsb + 256 * u.divisor_msb ≡ baud_rate_divisor % 2 ^ 16
  pub eight_n_one : u.line_control ≡ 0b00000011
  pub fifos : u.fifo_control ≡ 0b11000111

-- The mode that `serial_init` leaves by its result: normal operation on 0, loopback on -1.
abbrev pub Mode : ℤ → Uart → Type 0
Mode result u =
    ((result ≡ pos 0) × (u.modem_control ≡ 0b00001011))
    ⊎ ((result ≡ negsuc 0) × (u.modem_control ≡ 0b00011010))

module _ (u : Uart) (d : Device) where
  set_up-IsConfigured :
      (h : History) (baud_rate_divisor : ℕ)
      → let u' = uart s_com1 u (set_up s_com1 baud_rate_divisor d h).1 in
        IsConfigured baud_rate_divisor u' × (u'.modem_control ≡ 0b00011010)
  unfolding set_up
  set_up-IsConfigured h baud_rate_divisor =
      ground (arith, bit_and_mask 8 baud_rate_divisor, bit_and_mask 8 (baud_rate_divisor >>> 8))

  conclude-Mode :
      (passed : Bool) (h : History) (baud_rate_divisor : ℕ)
      → IsConfigured baud_rate_divisor (uart s_com1 u h)
      → (uart s_com1 u h).modem_control ≡ 0b00011010
      → IsConfigured baud_rate_divisor (uart s_com1 u (conclude s_com1 passed d h).1)
        × Mode (conclude s_com1 passed d h).0 (uart s_com1 u (conclude s_com1 passed d h).1)
  unfolding conclude
  conclude-Mode true h baud_rate_divisor c m = (
    record { divisor = c.divisor; eight_n_one = c.eight_n_one; fifos = c.fifos },
    inl (refl, refl),
  )
  conclude-Mode false h baud_rate_divisor c m = (c, inr (refl, m))

-- Whatever the devices answer and the registers held, `serial_init` on COM1 returns 0 or -1. It leaves
-- the divisor, cut to 16 bits, with the latch closed, 8 data bits, no parity and 1 stop bit, and the
-- FIFOs on. On 0 the port is in normal operation, on -1 it is left in loopback mode.
pub serial_init-IsConfigured :
    (u : Uart) (d : Device) (h : History) (baud_rate_divisor : ℕ)
    → IsConfigured baud_rate_divisor (uart s_com1 u (serial_init s_com1 baud_rate_divisor d h).1)
      × Mode
          (serial_init s_com1 baud_rate_divisor d h).0
          (uart s_com1 u (serial_init s_com1 baud_rate_divisor d h).1)
unfolding serial_init
serial_init-IsConfigured u d h baud_rate_divisor =
    let start : History = (set_up s_com1 baud_rate_divisor d h).1 in
    let (c, mode) = set_up-IsConfigured u d h baud_rate_divisor in
    let same : uart s_com1 u (test_loop s_com1 test_bytes d start).1 ≡ uart s_com1 u start =
      test_loop-uart u d test_bytes start (rw c.eight_n_one refl) in
    conclude-Mode u d (test_loop s_com1 test_bytes d start).0
      (test_loop s_com1 test_bytes d start).1 baud_rate_divisor (rw same c) (rw same mode)
