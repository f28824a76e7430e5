-- ===== src/Io.antt =====
-- Port input and output: `outb` and `inb` of src/util.h. A device answers a read by what has happened
-- before; a run extends the history of events, the newest first.
use ratos.Prelude.{ℕ, List, ◌∷◌, u8, u16}

-- `logged` stands for a call of the log at a level, and `traced` for the output of `print_stacktrace`.
pub data Event : Type 0 where
  wrote got : (port value : ℕ) → Event
  logged : ℕ → Event
  traced : Event

abbrev pub History : Type 0
History = List Event

-- What the devices answer to a read of a port behind a history.
abbrev pub Device : Type 0
Device = History → ℕ → ℕ

abbrev pub Io : Type 0 → Type 0
Io A = Device → History → A × History

abbrev pub pure : {A : Type 0} → A → Io A
pure a d h = (a, h)

infixl 5 ◌>>=◌ ◌>>◌
abbrev pub ◌>>=◌ : {A B : Type 0} → Io A → (A → Io B) → Io B
◌>>=◌ m f d h = let (a, h') = m d h in f a d h'

abbrev pub ◌>>◌ : {B : Type 0} → Io (Unit {0}) → Io B → Io B
m >> k = m >>= λ _. k

unfoldable pub outb : (port value : ℕ) → Io (Unit {0})
outb port value d h = (tt, wrote (u16 port) (u8 value) ∷ h)

unfoldable pub inb : (port : ℕ) → Io ℕ
inb port d h = let value = u8 (d h (u16 port)) in (value, got (u16 port) value ∷ h)

unfoldable pub klog : (level : ℕ) → Io (Unit {0})
klog level d h = (tt, logged level ∷ h)
