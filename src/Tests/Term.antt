-- ===== src/Tests/Term.antt =====
-- A run of src/drv/term.c.
use ratos.Prelude.{ℕ, List, [], ◌∷◌}
use ratos.Prelude.Int.{pos}
use ratos.Io.{Device}
use ratos.Term.{Formats, kvlog}
use ratos.Term.Output.{Says}
use ratos.Term.Log.{logged, counted, kvlog-Says}

-- Every number is printed as "7".
abbrev formats : Formats
formats = record { line_number = λ _. b'7' ∷ []; invalid_level = λ _ _ _. b'?' ∷ b'\n' ∷ [] }

abbrev silent : Device
silent h port = 0

abbrev file : List ℕ
file = b'a' ∷ b'.' ∷ b'c' ∷ []

kvlog-Says_example :
    Says silent
      (logged formats (pos 9) file (pos 7) (b'x' ∷ []))
      (counted formats (pos 9) file (pos 7) (b'x' ∷ []))
      (kvlog formats (pos 9) file (pos 7) (b'x' ∷ []))
kvlog-Says_example = kvlog-Says silent formats (pos 9) file (pos 7) (b'x' ∷ [])
