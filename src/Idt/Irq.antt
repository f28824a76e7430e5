-- ===== src/Idt/Irq.antt =====
-- The acknowledgement of interrupts in `idt_int_handler` of src/int/idt.c.
use ratos.Prelude.{
  ℕ, suc, ◌-◌, ◌^◌, ◌≤◌, ◌≡◌, refl, arith, ◌==◌, leb, if◌then◌else◌, ◌&&◌, ◌||◌, u32, sub64, ap,
  ◌∙◌, bit_and, bit_or, Bool, true, false, not, [], ◌∷◌, Option, none, some, u8, u16, ◌<<<◌,
}
use ratos.Prelude.Bits.{testbit, bit_and_pow-test}
use ratos.Io.{wrote, got, History, Device, Io, klog, outb, pure, ◌>>◌}
use ratos.Idt.{
  s_pic_read_isr, s_pic_read_regs, s_print_regs, State, pic_irq_mask, irq_last, pic1_cmd, pic2_cmd,
  pic_eoi, irq_first, irq_last, pic2_irq_start, idt_int_handler, s_handle_irq, s_acknowledge,
  s_handle_spurious_interrupt,
}

-- How many end-of-interrupt commands a controller got.
abbrev pub eois : (base : ℕ) → History → ℕ
eois base [] = 0
eois base (wrote port value ∷ h) =
    if (port == base) && (value == pic_eoi) then suc (eois base h) else eois base h
eois base (_ ∷ h) = eois base h

-- The in-service registers of the two controllers, as they answer once both were asked for it.
pub in_service : Device → History → ℕ
in_service d h =
    let asked = wrote pic2_cmd 0x0b ∷ wrote pic1_cmd 0x0b ∷ h in
    let high = u8 (d asked pic2_cmd) in
    let low = u8 (d (got pic2_cmd high ∷ asked) pic1_cmd) in u16 (bit_or (high <<< 8) low)

-- The interrupt is in service: it is no spurious one.
abbrev pub is_real : Device → History → State → Bool
is_real d h s = testbit (in_service d h) (s.int_no - irq_first) == 1

-- The two ways through `s_handle_irq` behind the read of the in-service registers.
module _ (d : Device) (s : State) (h : History) where
  abbrev isr_read : History
  isr_read =
      let asked = wrote pic2_cmd 0x0b ∷ wrote pic1_cmd 0x0b ∷ h in
      let high = u8 (d asked pic2_cmd) in
      let after = got pic2_cmd high ∷ asked in got pic1_cmd (u8 (d after pic1_cmd)) ∷ after

  abbrev by_service : Bool → Option State × History
  by_service t =
      (elim t as (λ _. Io (Option State)) [
        | true ↦ s_handle_spurious_interrupt s
        | false ↦ s_acknowledge s
      ])
        d isr_read

  s_handle_irq-cases :
      s_handle_irq s d h
      ≡ by_service (bit_and (in_service d h) (pic_irq_mask (u32 (sub64 s.int_no irq_first))) == 0)
  unfolding s_handle_irq s_pic_read_isr s_pic_read_regs in_service
  s_handle_irq-cases = refl

  idt_int_handler-irq :
      irq_first ≤ s.int_no
      → s.int_no ≤ irq_last
      → idt_int_handler s d h ≡ by_service (not (is_real d h s))
  unfolding idt_int_handler
  idt_int_handler-irq lo hi =
      let irq_no : u32 (sub64 s.int_no irq_first) ≡ s.int_no - irq_first = omega arith in
      let mask : pic_irq_mask (s.int_no - irq_first) ≡ 2 ^ (s.int_no - irq_first) = ground arith in
      let hardware : (leb irq_first s.int_no && leb s.int_no irq_last) ≡ true = ground arith in
      let tested : bit_and (in_service d h) (pic_irq_mask (u32 (sub64 s.int_no irq_first))) == 0
          ≡ not (is_real d h s) =
        rw (irq_no, mask)
          (grind (arith, bit_and_pow-test (s.int_no - irq_first) (in_service d h))) in
      ap (λ t. (if t then s_handle_irq s else (s_print_regs s >> pure none)) d h) hardware
      ∙ s_handle_irq-cases
      ∙ ap by_service tested

  by_service-eois :
      (real : Bool)
      → let result = by_service (not real) in
        let second = leb pic2_irq_start s.int_no in
        (result.0 ≡ some s)
        × (eois pic1_cmd result.1
            ≡ (if real || second then suc (eois pic1_cmd h) else eois pic1_cmd h))
        × (eois pic2_cmd result.1
            ≡ (if real && second then suc (eois pic2_cmd h) else eois pic2_cmd h))
  unfolding s_handle_spurious_interrupt s_acknowledge outb klog
  by_service-eois true = ground arith
  by_service-eois false = ground arith

-- For a hardware interrupt the handler resumes the very state it was given. It sends one
-- end-of-interrupt command to the first controller if the interrupt is in service or comes from the
-- second one, and one to the second controller if it is in service and comes from there; a spurious
-- interrupt of the first controller is not acknowledged.
pub idt_int_handler-eois :
    (s : State) (d : Device) (h : History)
    → irq_first ≤ s.int_no
    → s.int_no ≤ irq_last
    → let result = idt_int_handler s d h in
      let second = leb pic2_irq_start s.int_no in
      (result.0 ≡ some s)
      × (eois pic1_cmd result.1
          ≡ (if is_real d h s || second then suc (eois pic1_cmd h) else eois pic1_cmd h))
      × (eois pic2_cmd result.1
          ≡ (if is_real d h s && second then suc (eois pic2_cmd h) else eois pic2_cmd h))
idt_int_handler-eois s d h lo hi =
    rw (idt_int_handler-irq d s h lo hi) (by_service-eois d s h (is_real d h s))
