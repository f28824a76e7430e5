-- ===== src/Tests/Serial.antt =====
-- Runs of src/drv/rs232.c against a port that gives back what it was sent last.
use ratos.Prelude.{◌≡◌, inr, refl, arith, [], ◌∷◌, ◌==◌, if◌then◌else◌}
use ratos.Prelude.Int.{pos, negsuc}
use ratos.Memory.{Memory, load8}
use ratos.Strings.Scan.{IsString}
use ratos.Io.{wrote, Device}
use ratos.Serial.{s_com1, conclude, test_loop, serial_init, serial_write, serial_read}
use ratos.Serial.Setup.{Uart, uart, IsConfigured, Mode, serial_init-IsConfigured}
use ratos.Serial.Transfer.{Sent, serial_write-Transmits}
use ratos.Serial.Receive.{Received, Polled, serial_read-Received, serial_init-verdict}

-- A port that loops back, with a byte ready and room for one.
abbrev loopback : Device
loopback [] port = 0x21
loopback (wrote p v ∷ h) port = if p == port then v else 0x21
loopback (_ ∷ h) port = 0x21

-- A port that is not there.
abbrev absent : Device
absent h port = 0xff

abbrev unset : Uart
unset = record {
  divisor_lsb = 0;
  divisor_msb = 0;
  line_control = 0;
  fifo_control = 0;
  modem_control = 0;
}

-- "ab" at 16.
abbrev sample : Memory
sample a = if a == 16 then b'a' else if a == 17 then b'b' else 0

sample_ab : IsString sample 16 2
unfolding load8
sample_ab = record { characters = λ j h. grind arith; terminated = refl }

serial_run :
    ((serial_init s_com1 3 loopback []).0 ≡ pos 0)
    × ((serial_init s_com1 3 absent []).0 ≡ negsuc 0)
    × ((serial_read sample s_com1 16 2 loopback []).0.0 ≡ 2)
unfolding serial_init serial_read conclude test_loop
serial_run = (refl, refl, refl)

serial_init-IsConfigured_example :
    IsConfigured 3 (uart s_com1 unset (serial_init s_com1 3 loopback []).1)
    × Mode
        (serial_init s_com1 3 loopback []).0
        (uart s_com1 unset (serial_init s_com1 3 loopback []).1)
serial_init-IsConfigured_example = serial_init-IsConfigured unset loopback [] 3

serial_write-Transmits_example :
    Sent loopback sample s_com1 16 0 2 [] (serial_write 3 sample s_com1 16 0 loopback [])
serial_write-Transmits_example =
    serial_write-Transmits 3 2 sample s_com1 16 0 loopback [] (omega arith) (inr (refl, sample_ab))
      (omega arith)

serial_read-Received_example :
    let r = serial_read sample s_com1 32 2 loopback [] in
    Received sample s_com1 32 2 0 [] r × Polled loopback s_com1 2 r.0.0 [] r.1
serial_read-Received_example = serial_read-Received sample s_com1 32 2 loopback [] (omega arith)

serial_init-verdict_example : (serial_init s_com1 3 absent []).0 ≡ negsuc 0
serial_init-verdict_example = serial_init-verdict absent [] 3 (inr (0xff, λ h. refl))
