-- ===== src/Tests/Idt.antt =====
-- Runs of src/int/idt.c.
use ratos.Prelude.{ℕ, suc, ◌≡◌, refl, arith, [], ◌==◌, leb, if◌then◌else◌, ◌&&◌, ◌||◌, some}
use ratos.Io.{pure, History, Device}
use ratos.Idt.{State, pic1_cmd, pic2_cmd, pic2_irq_start, idt_init, idt_int_handler}
use ratos.Idt.Pic.{Pic, vector, ready, pic, idt_init-ready}
use ratos.Idt.Irq.{eois, is_real, idt_int_handler-eois}

-- Every interrupt of the second controller is in service, none of the first.
abbrev second_serves : Device
second_serves h port = if port == pic2_cmd then 0xff else 0

abbrev interrupted : ℕ → State
interrupted n = record {
  rax = 0;
  rbx = 0;
  rcx = 0;
  rdx = 0;
  rsi = 0;
  rdi = 0;
  rbp = 0;
  r8 = 0;
  r9 = 0;
  r10 = 0;
  r11 = 0;
  r12 = 0;
  r13 = 0;
  r14 = 0;
  r15 = 0;
  int_no = n;
  err_no = 0;
  rip = 0;
  cs = 0;
  rflags = 0;
  rsp = 0;
  ss = 0;
}

abbrev unset : Pic
unset = record { stage = vector; vector_base = 0; cascading = 0; control = 0; mask = 0 }

irq_run :
    (eois pic1_cmd (idt_int_handler (interrupted 0x27) second_serves []).1 ≡ 0)
    × (eois pic1_cmd (idt_int_handler (interrupted 0x2f) second_serves []).1 ≡ 1)
    × (eois pic2_cmd (idt_int_handler (interrupted 0x2f) second_serves []).1 ≡ 1)
unfolding idt_int_handler
irq_run = (refl, refl, refl)

idt_init-ready_example :
    (pic pic1_cmd unset (idt_init (pure tt) second_serves []).1
      ≡ record { stage = ready; vector_base = 0x20; cascading = 4; control = 1; mask = 0xff })
    × (pic pic2_cmd unset (idt_init (pure tt) second_serves []).1
        ≡ record { stage = ready; vector_base = 0x20; cascading = 2; control = 1; mask = 0xff })
idt_init-ready_example = idt_init-ready unset unset (pure tt) second_serves []

idt_int_handler-eois_example :
    let s = interrupted 0x2f in
    let d = second_serves in
    let h : History = [] in
    let result = idt_int_handler s d h in
    let second = leb pic2_irq_start s.int_no in
    (result.0 ≡ some s)
    × (eois pic1_cmd result.1
        ≡ (if is_real d h s || second then suc (eois pic1_cmd h) else eois pic1_cmd h))
    × (eois pic2_cmd result.1
        ≡ (if is_real d h s && second then suc (eois pic2_cmd h) else eois pic2_cmd h))
idt_int_handler-eois_example =
    idt_int_handler-eois (interrupted 0x2f) second_serves [] (omega arith) (omega arith)
