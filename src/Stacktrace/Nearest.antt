-- ===== src/Stacktrace/Nearest.antt =====
-- Which symbol `s_print_function_name` of src/debug/stacktrace.c takes in a map that is in order: the
-- nearest one at or below the return address.
use mathlib.Core.List.{Memᴰ}
use mathlib.Core.List.Memᴰ
use ratos.Prelude.{
  ℕ, ◌≤◌, ◌<◌, refl, ap, arith, inl, inr, Bool-cases, ltb, List, [], ◌∷◌, Option, none, some,
}
use ratos.Stacktrace.Symbols.{Symbol, last_symbol}

abbrev pub Ascending : List Symbol → Type 0
Ascending [] = Unit
Ascending (s ∷ symbols) =
    ((t : Symbol) → Memᴰ t symbols → s.address ≤ t.address) × Ascending symbols

abbrev pub Nearest : (return_address : ℕ) → List Symbol → Option Symbol → Type 0
Nearest return_address symbols none = (t : Symbol) → Memᴰ t symbols → return_address < t.address
Nearest return_address symbols (some s) =
    Memᴰ s symbols
    × (s.address ≤ return_address)
    × ((t : Symbol) → Memᴰ t symbols → t.address ≤ return_address → t.address ≤ s.address)

module _ (return_address : ℕ) where
  -- No symbol from the first one on is reached.
  beyond :
      (s : Symbol) (symbols : List Symbol)
      → return_address < s.address
      → Ascending (s ∷ symbols)
      → (t : Symbol) → Memᴰ t (s ∷ symbols)
      → return_address < t.address
  beyond s symbols large (lowest, _) t among = elim (Memᴰ.cases_cons among) [
    | inl e ↦ omega (arith, ap Symbol.address e)
    | inr among' ↦ omega (arith, lowest t among')
  ]

  -- One more symbol below.
  one_below :
      (f s : Symbol) (symbols : List Symbol) (r : Option Symbol)
      → f.address ≤ s.address
      → s.address ≤ return_address
      → Nearest return_address (s ∷ symbols) r
      → Nearest return_address (f ∷ s ∷ symbols) r
  one_below f s symbols none order reached nearest =
      absurd (omega (arith, nearest s (Memᴰ.head refl), reached))
  one_below f s symbols (some x) order reached (among, reached', highest) = (
    Memᴰ.tail among,
    reached',
    λ t among' below. elim (Memᴰ.cases_cons among') [
      | inl e ↦ omega (arith, ap Symbol.address e, order, highest s (Memᴰ.head refl) reached)
      | inr later ↦ highest t later below
    ],
  )

  -- With a symbol found already, which lies below the rest.
  from_found :
      (f : Symbol) (symbols : List Symbol)
      → f.address ≤ return_address
      → Ascending (f ∷ symbols)
      → Nearest return_address (f ∷ symbols) (last_symbol return_address (some f) symbols)
  unfolding last_symbol
  from_found f [] reached order = (
    Memᴰ.head refl,
    reached,
    λ t among below. elim (Memᴰ.cases_cons among) [
      | inl e ↦ omega (arith, ap Symbol.address e)
      | inr later ↦ elim later [ ]
    ],
  )
  from_found f (s ∷ symbols) reached (lowest, order) =
      let rest = from_found s symbols in
      let above : f.address ≤ s.address = lowest s (Memᴰ.head refl) in
      elim (Bool-cases (ltb return_address s.address)) [
        | inl large ↦ rw large (
          Memᴰ.head refl,
          reached,
          λ t among below. elim (Memᴰ.cases_cons among) [
            | inl e ↦ omega (arith, ap Symbol.address e)
            | inr later ↦
                absurd (omega (arith, beyond s symbols (ground arith) order t later, below))
          ],
        )
        | inr small ↦
            let small' : s.address ≤ return_address = ground arith in
            rw small (
              one_below f s symbols (last_symbol return_address (some s) symbols) above small'
                (rest small' order))
      ]

  pub last_symbol-Nearest :
      (symbols : List Symbol)
      → Ascending symbols
      → Nearest return_address symbols (last_symbol return_address none symbols)
  unfolding last_symbol
  last_symbol-Nearest [] order = λ t among. elim among [ ]
  last_symbol-Nearest (s ∷ symbols) order = elim (Bool-cases (ltb return_address s.address)) [
    | inl large ↦ rw large (beyond s symbols (ground arith) order)
    | inr small ↦ rw small (from_found s symbols (ground arith) order)
  ]
