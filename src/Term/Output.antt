-- ===== src/Term/Output.antt =====
-- What src/drv/term.c sends to the serial port and to the terminal.
use ratos.Prelude.{
  ℕ, ◌+◌, ◌≡◌, refl, sym, ap, ◌∙◌, inl, arith, length, true, false, ◌==◌, if◌then◌else◌, List, [],
  ◌∷◌, ◌++◌, u8,
}
use ratos.Prelude.Int.{ℤ, pos, negsuc}
use ratos.Memory.{load8}
use ratos.Io.{Io, History, Device, pure, ◌>>=◌}
use ratos.Serial.Transfer.{transmitted, serial_write-Transmits}
use ratos.Term.{
  kernel_logging_port, put, flush, Screen, holding, s_putchar, put_all, kvprintf, kprintf, Formats,
  head_text, print_line_number, print_head, log_at,
}

-- The characters that the terminal was told, the newest first.
abbrev pub shown : Screen → List ℕ
shown [] = []
shown (put c ∷ screen) = c ∷ shown screen
shown (flush ∷ screen) = shown screen

-- The bytes of a text in front of what was sent before, and with a carriage return before each line feed.
unfoldable pub on_wire : List ℕ → List ℕ → List ℕ
on_wire [] out = out
on_wire (c ∷ cs) out = on_wire cs (u8 c ∷ out)

unfoldable pub on_screen : List ℕ → List ℕ → List ℕ
on_screen [] out = out
on_screen (c ∷ cs) out = on_screen cs (u8 c ∷ (if u8 c == b'\n' then b'\r' ∷ out else out))

-- The text went to both.
abbrev pub Prints : List ℕ → Screen → History → Screen → History → Type 0
Prints text screen h screen' h' =
    (transmitted kernel_logging_port h' ≡ on_wire text (transmitted kernel_logging_port h))
    × (shown screen' ≡ on_screen text (shown screen))

on_wire-append : (s t out : List ℕ) → on_wire (s ++ t) out ≡ on_wire t (on_wire s out)
unfolding on_wire
on_wire-append [] t out = refl
on_wire-append (c ∷ s) t out = on_wire-append s t (u8 c ∷ out)

on_screen-append : (s t out : List ℕ) → on_screen (s ++ t) out ≡ on_screen t (on_screen s out)
unfolding on_screen
on_screen-append [] t out = refl
on_screen-append (c ∷ s) t out = on_screen-append s t _

pub Prints-append :
    (s t : List ℕ) (screen screen' screen'' : Screen) (h h' h'' : History)
    → Prints s screen h screen' h'
    → Prints t screen' h' screen'' h''
    → Prints (s ++ t) screen h screen'' h''
Prints-append s t screen screen' screen'' h h' h'' (wire, tube) (wire', tube') = (
  wire' ∙ ap (on_wire t) wire ∙ sym (on_wire-append s t _),
  tube' ∙ ap (on_screen t) tube ∙ sym (on_screen-append s t _),
)

length-append : (s t : List ℕ) → length (s ++ t) ≡ length s + length t
length-append [] t = omega arith
length-append (c ∷ s) t = omega (arith, length-append s t)

-- One call after the other, with the sum of their results.
abbrev pub both : (m m' : Screen → Io (ℕ × Screen)) → Screen → Io (ℕ × Screen)
both m m' screen = do
  (size, screen1) ← m screen
  (size', screen2) ← m' screen1
  pure (size + size', screen2)

abbrev pub line_text : Formats → ℤ → List ℕ
line_text f (pos n) = f.line_number (pos n)
line_text f (negsuc n) = []

abbrev pub full_head : Formats → (level : ℕ) → (file : List ℕ) → (line : ℤ) → List ℕ
full_head f level file line = head_text level file ++ line_text f line ++ (b']' ∷ b' ' ∷ [])

module _ (d : Device) where
  s_putchar-Prints :
      (c : ℕ) (screen : Screen) (h : History)
      → let r = s_putchar c screen d h in Prints (c ∷ []) screen h r.0 r.1
  unfolding s_putchar on_wire on_screen load8
  s_putchar-Prints c screen h =
      let (_, wire) =
        serial_write-Transmits 2 1 (holding (u8 c)) kernel_logging_port 1 1 d h (omega arith)
          (inl (omega arith, refl)) (omega arith) in
      (
        wire ∙ ap (λ (t : ℕ). t ∷ transmitted kernel_logging_port h) (omega arith),
        elim (u8 c == b'\n')
            as (λ b.
              shown (put (u8 c) ∷ (if b then put b'\r' ∷ screen else screen))
              ≡ u8 c ∷ (if b then b'\r' ∷ shown screen else shown screen)) [
                | true ↦ refl
                | false ↦ refl
              ],
      )

  put_all-Prints :
      (text : List ℕ) (screen : Screen) (h : History)
      → let r = put_all text screen d h in Prints text screen h r.0 r.1
  unfolding put_all on_wire on_screen
  put_all-Prints [] screen h = (refl, refl)
  put_all-Prints (c ∷ cs) screen h =
      let (screen', h') = s_putchar c screen d h in
      let r = put_all cs screen' d h' in
      Prints-append (c ∷ []) cs screen screen' r.0 h h' r.1 (s_putchar-Prints c screen h)
        (put_all-Prints cs screen' h')

  -- The call prints the text, and returns the length of the part that is counted.
  abbrev pub Says : (text counted : List ℕ) → (Screen → Io (ℕ × Screen)) → Type 0
  Says text counted m =
      (screen : Screen) (h : History)
      → let r = m screen d h in Prints text screen h r.0.1 r.1 × (r.0.0 ≡ length counted)

  pub kvprintf-Says : (text : List ℕ) → Says text text (kvprintf text)
  unfolding kvprintf
  kvprintf-Says text screen h = (put_all-Prints text screen h, refl)

  pub both-Says :
      (s s' t t' : List ℕ) (m m' : Screen → Io (ℕ × Screen))
      → Says s s' m
      → Says t t' m'
      → Says (s ++ t) (s' ++ t') (both m m')
  both-Says s s' t t' m m' first second screen h =
      let ((size, screen1), h1) = m screen d h in
      let ((size', screen2), h2) = m' screen1 d h1 in
      let (printed, counted) = first screen h in
      let (printed', counted') = second screen1 h1 in
      (
        Prints-append s t screen screen1 screen2 h h1 h2 printed printed',
        omega (arith, counted, counted', length-append s' t'),
      )

  print_line_number-Says :
      (f : Formats) (line : ℤ)
      → Says (line_text f line) (line_text f line) (print_line_number f line)
  unfolding kprintf on_wire on_screen
  print_line_number-Says f (pos n) screen h = kvprintf-Says (f.line_number (pos n)) screen h
  print_line_number-Says f (negsuc n) screen h = ((refl, refl), refl)

  pub print_head-Says :
      (f : Formats) (level : ℕ) (file : List ℕ) (line : ℤ)
      → Says
          (full_head f level file line)
          (full_head f level file line)
          (print_head f level file line)
  unfolding print_head kprintf
  print_head-Says f level file line =
      let s : List ℕ = head_text level file in
      let t : List ℕ = line_text f line in
      let u : List ℕ = b']' ∷ b' ' ∷ [] in
      let first =
        both-Says s s t t (kprintf (head_text level file)) (print_line_number f line)
          (kvprintf-Says (head_text level file)) (print_line_number-Says f line) in
      both-Says (s ++ t) (s ++ t) u u
        (both (kprintf (head_text level file)) (print_line_number f line))
        (kprintf (b']' ∷ b' ' ∷ [])) first (kvprintf-Says (b']' ∷ b' ' ∷ []))

  pub log_at-Says :
      (f : Formats) (level : ℕ) (file : List ℕ) (line : ℤ) (text : List ℕ)
      → Says
          (full_head f level file line ++ text)
          (full_head f level file line ++ text)
          (log_at f level file line text)
  unfolding log_at
  log_at-Says f level file line text =
      both-Says (full_head f level file line) (full_head f level file line) text text
        (print_head f level file line) (kvprintf text) (print_head-Says f level file line)
        (kvprintf-Says text)
