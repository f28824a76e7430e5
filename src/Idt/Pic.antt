-- ===== src/Idt/Pic.antt =====
-- `idt_init` of src/int/idt.c against the initialisation sequence of an 8259.
use ratos.Prelude.{ℕ, ◌+◌, ◌≡◌, refl, ◌==◌, if◌then◌else◌, bit_and, [], ◌∷◌}
use ratos.Io.{wrote, History, Device, Io}
use ratos.Idt.{pic1_cmd, pic2_cmd, s_pic_init, idt_init}

-- Which word a controller takes next on its data port: three initialisation words, then masks.
pub data Stage : Type 0 where
  vector cascade mode ready : Stage

pub record Pic : Type 0 where
  pub stage : Stage
  pub vector_base : ℕ
  pub cascading : ℕ
  pub control : ℕ
  pub mask : ℕ

-- A write to the data port of a controller.
abbrev pub take_word : Stage → ℕ → Pic → Pic
take_word vector value p = record p { vector_base = value; stage = cascade }
take_word cascade value p = record p { cascading = value; stage = mode }
take_word mode value p = record p { control = value; stage = ready }
take_word ready value p = record p { mask = value }

-- A command with bit 4 set starts the initialisation over.
abbrev pub command : ℕ → Pic → Pic
command value p = if bit_and value 0x10 == 0x10 then record p { stage = vector } else p

-- The controller at `base` behind a history, from what it was at its start.
abbrev pub pic : (base : ℕ) → Pic → History → Pic
pic base p [] = p
pic base p (wrote port value ∷ h) =
    let q = pic base p h in
    if port == base
    then command value q
    else if port == base + 1
    then take_word q.stage value q
    else q
pic base p (_ ∷ h) = pic base p h

-- Whatever state they were in and whatever `idt_load` does, `idt_init` leaves both controllers in 8086
-- mode, cascaded at IRQ 2, with every interrupt masked, and both with the vectors from 0x20 on.
pub idt_init-ready :
    (p q : Pic) (idt_load : Io (Unit {0})) (d : Device) (h : History)
    → let h' = (idt_init idt_load d h).1 in
      (pic pic1_cmd p h'
        ≡ record { stage = ready; vector_base = 0x20; cascading = 4; control = 1; mask = 0xff })
      × (pic pic2_cmd q h'
          ≡ record { stage = ready; vector_base = 0x20; cascading = 2; control = 1; mask = 0xff })
unfolding idt_init s_pic_init
idt_init-ready p q idt_load d h = (refl, refl)
