-- ===== src/Idt.antt =====
-- src/int/idt.c: the two interrupt controllers and the handler that the entry code of src/int/idt.asm
-- calls. The handler returns the state to resume, or `none` where it halts in `hcf`.
pub mod Pic
pub mod Irq
use ratos.Prelude.{
  ℕ, ◌+◌, ◌-◌, ◌*◌, ◌^◌, bit_and, bit_or, Bool, true, false, not, ◌&&◌, Option, none, some, ◌∷◌,
}
use ratos.Prelude.{◌==◌, leb, if◌then◌else◌, u16, u32, sub64, ◌<<<◌}
use ratos.Io.{Io, pure, ◌>>=◌, ◌>>◌, outb, inb, klog, History, traced}

abbrev pub pic1_cmd : ℕ
pic1_cmd = 0x20

abbrev pub pic1_data : ℕ
pic1_data = pic1_cmd + 1

abbrev pub pic2_cmd : ℕ
pic2_cmd = 0xa0

abbrev pub pic2_data : ℕ
pic2_data = pic2_cmd + 1

abbrev pub pic_eoi : ℕ
pic_eoi = 0x20

abbrev pub pic_icw1_icw4 : ℕ
pic_icw1_icw4 = 0x01

abbrev pub pic_icw1_init : ℕ
pic_icw1_init = 0x10

abbrev pub pic_icw4_8086 : ℕ
pic_icw4_8086 = 0x01

abbrev pub pic_cascade_id : ℕ
pic_cascade_id = 2

abbrev pub pic_irq_mask : ℕ → ℕ
pic_irq_mask n = 1 <<< n

abbrev pub pic_read_irr : ℕ
pic_read_irr = 0x0a

abbrev pub pic_read_isr : ℕ
pic_read_isr = 0x0b

abbrev pub irq_first : ℕ
irq_first = 0x20

abbrev pub pic1_irq_start : ℕ
pic1_irq_start = 0x20

abbrev pub pic2_irq_start : ℕ
pic2_irq_start = pic1_irq_start + 0x08

abbrev pub irq_last : ℕ
irq_last = 0x2f

-- The levels of src/drv/term.h.
abbrev pub ll_debug : ℕ
ll_debug = 0x01

abbrev pub ll_warn : ℕ
ll_warn = 0x03

abbrev pub ll_error : ℕ
ll_error = 0x04

-- `state_t`.
pub record State : Type 0 where
  pub rax : ℕ
  pub rbx : ℕ
  pub rcx : ℕ
  pub rdx : ℕ
  pub rsi : ℕ
  pub rdi : ℕ
  pub rbp : ℕ
  pub r8 : ℕ
  pub r9 : ℕ
  pub r10 : ℕ
  pub r11 : ℕ
  pub r12 : ℕ
  pub r13 : ℕ
  pub r14 : ℕ
  pub r15 : ℕ
  pub int_no : ℕ
  pub err_no : ℕ
  pub rip : ℕ
  pub cs : ℕ
  pub rflags : ℕ
  pub rsp : ℕ
  pub ss : ℕ

unfoldable pub s_pic_init : Io (Unit {0})
unfolding outb
s_pic_init = do
  outb pic1_cmd (bit_or pic_icw1_init pic_icw1_icw4)
  outb pic1_data pic1_irq_start
  outb pic1_data (pic_irq_mask pic_cascade_id)
  outb pic1_data pic_icw4_8086
  outb pic2_cmd (bit_or pic_icw1_init pic_icw1_icw4)
  outb pic2_data pic1_irq_start
  outb pic2_data pic_cascade_id
  outb pic2_data pic_icw4_8086
  outb pic1_data 0xff
  outb pic2_data 0xff

-- The two reads are made from left to right; C leaves their order open.
unfoldable pub s_pic_read_regs : ℕ → Io ℕ
unfolding outb inb
s_pic_read_regs reg = do
  outb pic1_cmd reg
  outb pic2_cmd reg
  high ← inb pic2_cmd
  low ← inb pic1_cmd
  pure (u16 (bit_or (high <<< 8) low))

unfoldable pub s_pic_read_irr : Io ℕ
unfolding s_pic_read_regs
s_pic_read_irr = s_pic_read_regs pic_read_irr

unfoldable pub s_pic_read_isr : Io ℕ
unfolding s_pic_read_regs
s_pic_read_isr = s_pic_read_regs pic_read_isr

unfoldable pub s_handle_spurious_interrupt : State → Io (Option State)
unfolding outb klog
s_handle_spurious_interrupt state = do
  if leb pic2_irq_start state.int_no then outb pic1_cmd pic_eoi else pure tt
  klog ll_warn
  pure (some state)

-- `s_handle_irq` behind the test whether the interrupt is in service.
unfoldable pub s_acknowledge : State → Io (Option State)
unfolding outb klog
s_acknowledge state = do
  klog ll_debug
  if leb pic2_irq_start state.int_no then outb pic2_cmd pic_eoi else pure tt
  outb pic1_cmd pic_eoi
  pure (some state)

unfoldable pub s_handle_irq : State → Io (Option State)
unfolding s_pic_read_isr s_handle_spurious_interrupt s_acknowledge
s_handle_irq state = do
  isr ← s_pic_read_isr
  elim (bit_and isr (pic_irq_mask (u32 (sub64 state.int_no irq_first))) == 0) [
    | true ↦ s_handle_spurious_interrupt state
    | false ↦ s_acknowledge state
  ]

unfoldable pub print_stacktrace : Io (Unit {0})
print_stacktrace d h = (tt, traced ∷ h)

-- The lines that `s_print_regs` logs, and the stack trace.
unfoldable pub s_print_regs : State → Io (Unit {0})
unfolding klog print_stacktrace
s_print_regs state = do
  klog ll_error
  if state.int_no == 0x0e then klog ll_error else pure tt
  klog ll_error
  klog ll_error
  klog ll_error
  klog ll_error
  klog ll_error
  print_stacktrace

unfoldable pub idt_int_handler : State → Io (Option State)
unfolding s_handle_irq s_print_regs
idt_int_handler state =
    if leb irq_first state.int_no && leb state.int_no irq_last
    then s_handle_irq state
    else (do s_print_regs state; pure none)

-- `idt_load` is assembly.
unfoldable pub idt_init : (idt_load : Io (Unit {0})) → Io (Unit {0})
unfolding s_pic_init
idt_init idt_load = do idt_load; s_pic_init
