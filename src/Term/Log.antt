-- ===== src/Term/Log.antt =====
-- `kvlog` of src/drv/term.c: what a log line is.
use ratos.Prelude.{ℕ, refl, Bool, true, false, leb, if◌then◌else◌, List, [], ◌++◌}
use ratos.Prelude.Int.{ℤ, pos, negsuc}
use ratos.Io.{Io, Device}
use ratos.Term.{
  Screen, kvprintf, Formats, print_head, log_at, complain, s_print_log_head, kvlog, ll_error,
  term_c, complaint_line,
}
use ratos.Term.Output.{
  on_wire, on_screen, Prints-append, Says, both, both-Says, full_head, kvprintf-Says,
  print_head-Says, log_at-Says,
}

-- The complaint about a level out of range.
abbrev pub complaint : Formats → (log_level : ℤ) → (file : List ℕ) → (line : ℤ) → List ℕ
complaint f log_level file line =
    full_head f ll_error term_c complaint_line ++ f.invalid_level log_level file line

-- What a line of the log shows, and the part of it whose length is returned. A level below `LL_TRACE`
-- shows nothing, and one above `LL_ERROR` is complained about and taken for `LL_ERROR`.
abbrev pub logged :
    Formats → (log_level : ℤ) → (file : List ℕ) → (line : ℤ) → (text : List ℕ) → List ℕ
logged f (negsuc n) file line text = []
logged f (pos n) file line text =
    if leb n ll_error
    then full_head f n file line ++ text
    else complaint f (pos n) file line ++ full_head f ll_error file line ++ text

abbrev pub counted :
    Formats → (log_level : ℤ) → (file : List ℕ) → (line : ℤ) → (text : List ℕ) → List ℕ
counted f (negsuc n) file line text = []
counted f (pos n) file line text =
    if leb n ll_error
    then full_head f n file line ++ text
    else full_head f ll_error file line ++ text

module _ (d : Device) (f : Formats) where
  complain-Says :
      (log_level : ℤ) (file : List ℕ) (line : ℤ)
      → Says d
          (complaint f log_level file line ++ full_head f ll_error file line)
          (full_head f ll_error file line)
          (complain f log_level file line)
  complain-Says log_level file line screen h =
      let text : List ℕ = f.invalid_level log_level file line in
      let ((size, screen1), h1) = log_at f ll_error term_c complaint_line text screen d h in
      let ((size', screen2), h2) = print_head f ll_error file line screen1 d h1 in
      let (printed, _) = log_at-Says d f ll_error term_c complaint_line text screen h in
      let (printed', counted') = print_head-Says d f ll_error file line screen1 h1 in
      (
        Prints-append (complaint f log_level file line) (full_head f ll_error file line) screen
            screen1 screen2 h h1 h2 printed printed',
        counted',
      )

  -- The head of a line, for a level that is not negative, and the line.
  abbrev by_level : (n : ℕ) (file : List ℕ) (line : ℤ) → Bool → Screen → Io (ℕ × Screen)
  by_level n file line valid screen = elim valid as (λ _. Io (ℕ × Screen)) [
    | true ↦ print_head f n file line screen
    | false ↦ complain f (pos n) file line screen
  ]

  line-Says :
      (n : ℕ) (file : List ℕ) (line : ℤ) (text : List ℕ) (valid : Bool)
      → Says d
          (if valid
            then full_head f n file line ++ text
            else complaint f (pos n) file line ++ full_head f ll_error file line ++ text)
          (if valid
            then full_head f n file line ++ text
            else full_head f ll_error file line ++ text)
          (both (by_level n file line valid) (kvprintf text))
  line-Says n file line text true =
      both-Says d (full_head f n file line) (full_head f n file line) text text
        (print_head f n file line) (kvprintf text) (print_head-Says d f n file line)
        (kvprintf-Says d text)
  line-Says n file line text false =
      both-Says d (complaint f (pos n) file line ++ full_head f ll_error file line)
        (full_head f ll_error file line) text text (complain f (pos n) file line) (kvprintf text)
        (complain-Says (pos n) file line) (kvprintf-Says d text)

-- Whatever the devices answer, a log line goes to the serial port byte by byte and to the terminal with
-- a carriage return in front of each line feed: the level's colour and name, the file, the line number
-- unless it is negative, and the text. `kvlog` returns the length of the line. A negative level shows
-- nothing and gives 0; one above `LL_ERROR` is shown as `LL_ERROR`, behind a line of complaint that the
-- length leaves out.
pub kvlog-Says :
    (d : Device) (f : Formats) (log_level : ℤ) (file : List ℕ) (line : ℤ) (text : List ℕ)
    → Says d
        (logged f log_level file line text)
        (counted f log_level file line text)
        (kvlog f log_level file line text)
unfolding kvlog s_print_log_head on_wire on_screen
kvlog-Says d f (negsuc n) file line text screen h = ((refl, refl), refl)
kvlog-Says d f (pos n) file line text screen h =
    line-Says d f n file line text (leb n ll_error) screen h
