-- ===== src/Stacktrace/Lookup.antt =====
-- The loop of `s_print_function_name` of src/debug/stacktrace.c over the lines of a symbol map.
use ratos.Prelude.{
  ℕ, length, zero, suc, ◌+◌, ◌-◌, ◌^◌, ◌≤◌, ◌<◌, ◌≡◌, ◌⊎◌, refl, ap, subst, ◌∙◌, arith, inl, inr,
  Bool, Bool-cases, true, false, not, ◌==◌, ltb, if◌then◌else◌, List, [], ◌∷◌, Option, none, some,
}
use ratos.Memory.{Memory}
use ratos.Strings.{strchr}
use ratos.Strings.Scan.{IsString, strchr_lem}
use ratos.Stacktrace.{
  Trace, Ends, returns, faults, out_of_fuel, more_lines, copy_name, symbol_loop,
  s_pointer_to_number,
}
use ratos.Stacktrace.Symbols.{
  Symbol, IsLine, AreLines, last_symbol, Holds, OnlyBuffer, IsLine-ext, AreLines-le, line_end,
  IsString-ext, IsString-later, copy_name-outside, copy_name-name, copy_name-end,
}

-- The loop returned, with nothing changed but the buffer, which holds the name of the symbol.
abbrev pub Finds : (m : Memory) → (f : ℕ) → Option Symbol → Trace → Ends → Type 0
Finds m f symbol t o =
    (m' : Memory) × (o ≡ returns (record t { memory = m' }))
    × OnlyBuffer m m' f
    × Holds m m' f symbol

module _ (scan f map_data size return_address : ℕ) (m : Memory) (not_null : 0 < map_data)
    (fits : map_data + size < 2 ^ 64) (small : size < 2 ^ 63) where
  -- The rest of a round, once `strchr` found the end of the line, and by its result.
  abbrev by_line : (fuel curr_data : ℕ) → Trace → (end_of_line : ℕ) → Ends
  by_line fuel curr_data t end_of_line =
      if ltb return_address (s_pointer_to_number t.memory curr_data)
      then returns t
      else if end_of_line == 0
      then faults
      else symbol_loop fuel scan f map_data size return_address (end_of_line + 1)
          (record t { memory = copy_name t.memory f curr_data end_of_line })

  abbrev by_end : (fuel curr_data : ℕ) → Trace → Option ℕ → Ends
  by_end fuel curr_data t o = elim o [
    | none ↦ out_of_fuel
    | some end_of_line ↦
        if not (more_lines map_data size curr_data end_of_line)
        then returns t
        else by_line fuel curr_data t end_of_line
  ]

  round :
      (fuel curr_data e : ℕ) (t : Trace)
      → 0 < curr_data
      → strchr scan t.memory curr_data 10 ≡ some e
      → symbol_loop (suc fuel) scan f map_data size return_address curr_data t
        ≡ by_end fuel curr_data t (some e)
  unfolding symbol_loop
  round fuel curr_data e t pos found =
      let there : curr_data == 0 ≡ false = ground arith in
      ap
        (λ (b : Bool).
          if b then returns t else by_end fuel curr_data t (strchr scan t.memory curr_data 10))
        there
      ∙ ap (by_end fuel curr_data t) found

  by_more : (fuel curr_data e : ℕ) → Trace → Bool → Ends
  by_more fuel curr_data e t b = if not b then returns t else by_line fuel curr_data t e

  -- The three ends of a round.
  at_end :
      (fuel curr_data e : ℕ) (t : Trace)
      → more_lines map_data size curr_data e ≡ false
      → by_end fuel curr_data t (some e) ≡ returns t
  unfolding by_more
  at_end fuel curr_data e t over = ap (by_more fuel curr_data e t) over

  behind :
      (fuel curr_data e : ℕ) (t : Trace)
      → more_lines map_data size curr_data e ≡ true
      → ltb return_address (s_pointer_to_number t.memory curr_data) ≡ true
      → by_end fuel curr_data t (some e) ≡ returns t
  unfolding by_more
  behind fuel curr_data e t more large = ap (by_more fuel curr_data e t) more ∙ rw large refl

  onwards :
      (fuel curr_data e : ℕ) (t : Trace)
      → more_lines map_data size curr_data e ≡ true
      → ltb return_address (s_pointer_to_number t.memory curr_data) ≡ false
      → 0 < e
      → by_end fuel curr_data t (some e)
        ≡ symbol_loop fuel scan f map_data size return_address
            (e + 1)
            (record t { memory = copy_name t.memory f curr_data e })
  unfolding by_more
  onwards fuel curr_data e t more small_enough pos =
      let there : e == 0 ≡ false = ground arith in
      ap (by_more fuel curr_data e t) more ∙ rw (small_enough, there) refl

  pub symbol_loop-Finds :
      (symbols : List Symbol) (fuel n curr_data : ℕ) (found : Option Symbol) (t : Trace)
      → length symbols < fuel
      → n < scan
      → map_data ≤ curr_data
      → IsString m curr_data n
      → map_data + size ≤ curr_data + n
      → AreLines m curr_data symbols (map_data + size)
      → (f + 64 ≤ map_data) ⊎ (curr_data + n < f)
      → OnlyBuffer m t.memory f
      → Holds m t.memory f found
      → Finds m f
          (last_symbol return_address found symbols)
          t
          (symbol_loop fuel scan f map_data size return_address curr_data t)
  unfolding last_symbol
  symbol_loop-Finds symbols zero n curr_data found t enough enough' from is inside lines clear only
        holds =
      absurd (omega (arith, enough))
  symbol_loop-Finds [] (suc fuel) n curr_data found t enough enough' from is inside lines clear only
        holds =
      let same = λ (b : ℕ) (lo : curr_data ≤ b) (hi : b ≤ curr_data + n).
        only b (omega (arith, lo, hi, clear, from)) in
      let is' : IsString t.memory curr_data n = IsString-ext m t.memory curr_data n same is in
      let over : (e : ℕ) → more_lines map_data size curr_data e ≡ false =
        λ e. ground (arith, lines) in
      let stops = λ (e : ℕ) (at : strchr scan t.memory curr_data 10 ≡ some e).
        round fuel curr_data e t (omega (arith, from)) at ∙ at_end fuel curr_data e t (over e) in
      elim (strchr_lem scan n t.memory curr_data 10 enough' is') [
        | inl (at, _) ↦ (t.memory, stops 0 at, only, holds)
        | inr (k, at, _, _, _) ↦ (t.memory, stops (curr_data + k) at, only, holds)
      ]
  symbol_loop-Finds (s ∷ symbols) (suc fuel) n curr_data found t enough enough' from is inside
        (line, rest) clear only holds =
      let e : ℕ = curr_data + (17 + s.length) in
      let below : curr_data + 18 + s.length ≤ map_data + size =
        AreLines-le m (curr_data + 18 + s.length) symbols (map_data + size) rest in
      let same = λ (b : ℕ) (lo : curr_data ≤ b) (hi : b ≤ curr_data + n).
        only b (omega (arith, lo, hi, clear, from)) in
      let is' : IsString t.memory curr_data n = IsString-ext m t.memory curr_data n same is in
      let line' : IsLine t.memory curr_data s =
        IsLine-ext m t.memory curr_data s (λ b lo hi. same b lo (omega (arith, hi, below, inside)))
          line in
      let head =
        round fuel curr_data e t (omega (arith, from))
          (line_end scan n t.memory curr_data s enough' is' (omega (arith, below, inside)) line') in
      let more : more_lines map_data size curr_data e ≡ true = ground (arith, below) in
      elim (Bool-cases (ltb return_address s.address)) [
        | inl large ↦
            let large' : ltb return_address (s_pointer_to_number t.memory curr_data) ≡ true =
              ap (ltb return_address) line'.number ∙ large in
            rw large (t.memory, head ∙ behind fuel curr_data e t more large', only, holds)
        | inr reached ↦
            let reached' : ltb return_address (s_pointer_to_number t.memory curr_data) ≡ false =
              ap (ltb return_address) line'.number ∙ reached in
            let clear' : (f + 64 ≤ curr_data) ⊎ (curr_data + 18 + s.length ≤ f) =
              omega (arith, clear, from, below, inside) in
            let m' : Memory = copy_name t.memory f curr_data e in
            let t' : Trace = record t { memory = m' } in
            let only' : OnlyBuffer m m' f =
              λ b out. copy_name-outside t.memory f curr_data s line' clear' b out ∙ only b out in
            let holds' : Holds m m' f (some s) = (
              λ j inside'.
                  copy_name-name t.memory f curr_data s line' clear' j inside'
                  ∙ same (s.name + j) (omega (arith, line.place))
                      (omega (arith, line.place, inside', below, inside)),
              copy_name-end t.memory f curr_data s line' clear',
            ) in
            let left : n ≡ 18 + s.length + (n - (18 + s.length)) = omega (arith, below, inside) in
            let later : IsString m (curr_data + 18 + s.length) (n - (18 + s.length)) =
              subst (λ (x : ℕ). IsString m x (n - (18 + s.length)))
                {x = curr_data + (18 + s.length)} {y = curr_data + 18 + s.length} (omega arith)
                (IsString-later m curr_data (n - (18 + s.length)) (18 + s.length)
                  (subst (IsString m curr_data) left is)) in
            let next : e + 1 ≡ curr_data + (18 + s.length) = omega arith in
            let (m'', returned, only'', holds'') =
              symbol_loop-Finds symbols fuel (n - (18 + s.length)) (curr_data + 18 + s.length)
                (some s) t' (omega (arith, enough)) (omega (arith, enough')) (omega (arith, from))
                later (omega (arith, inside, below)) rest (omega (arith, clear, below, inside))
                only' holds' in
            rw reached (
              m'',
              head
                  ∙ onwards fuel curr_data e t more reached' (omega arith)
                  ∙ ap (λ (x : ℕ). symbol_loop fuel scan f map_data size return_address x t')
                      (omega arith)
                  ∙ returned,
              only'',
              holds'',
            )
      ]
