-- ===== src/Stacktrace/Printing.antt =====
-- What `s_print_function_name` of src/debug/stacktrace.c prints.
use mathlib.Core.List.{Memᴰ}
use mathlib.Core.List.Memᴰ
use ratos.Prelude.{
  ℕ, length, zero, suc, ◌+◌, ◌^◌, ◌≤◌, ◌<◌, ◌≡◌, ◌≢◌, ◌⊎◌, refl, sym, ap, subst, ◌∙◌, arith, inl,
  inr, Bool, true, false, ◌==◌, List, [], ◌∷◌, Option, none, some, min,
}
use ratos.Memory.{Memory, load8}
use ratos.Strings.Scan.{IsString}
use ratos.Stacktrace.{
  LimineFile, Statics, Trace, Ends, returns, halts, out_of_fuel, and_then, find_symbol_map,
  symbol_loop, string_at, conclude, s_print_function_name,
}
use ratos.Stacktrace.Symbols.{Symbol, IsLine, AreLines, Holds, OnlyBuffer, last_symbol}
use ratos.Stacktrace.Lookup.{symbol_loop-Finds}
use ratos.Stacktrace.Nearest.{Ascending, Nearest, last_symbol-Nearest}

-- The symbol map `file` is loaded, in order and without a zero byte, and lies apart from the buffer;
-- it is followed by `n - file.size` more bytes and a terminator. The search for its title does not
-- depend on the buffer.
pub record IsLoaded (fuel : ℕ) (m : Memory) (st : Statics) (file : LimineFile)
    (symbols : List Symbol) (n : ℕ) : Type 0 where
  pub found :
      (m' : Memory)
      → OnlyBuffer m m' st.function_name
      → find_symbol_map fuel m' st.symbol_map_title st.modules ≡ some (some file)
  pub not_null : 0 < file.address
  pub fits : file.address + file.size < 2 ^ 64
  pub small : file.size < 2 ^ 63
  pub enough_rounds : length symbols < fuel
  pub enough_characters : n < fuel
  pub string : IsString m file.address n
  pub inside : file.size ≤ n
  pub lines : AreLines m file.address symbols (file.address + file.size)
  pub order : Ascending symbols
  pub clear : (st.function_name + 64 ≤ file.address) ⊎ (file.address + n < st.function_name)

IsLine-of :
    (m : Memory) (s : Symbol) (a : ℕ) (symbols : List Symbol) (end : ℕ)
    → AreLines m a symbols end
    → Memᴰ s symbols
    → (b : ℕ) × IsLine m b s
IsLine-of m s a [] end lines among = elim among [ ]
IsLine-of m s a (t ∷ symbols) end (line, rest) among = elim (Memᴰ.cases_cons among) [
  | inl e ↦ (a, subst (IsLine m a) (sym e) line)
  | inr later ↦ IsLine-of m s (a + 18 + t.length) symbols end rest later
]

string_at_copy :
    (n left : ℕ) (m m' : Memory) (dst src : ℕ)
    → n < left
    → ((j : ℕ) → j < n → load8 m' (dst + j) ≡ load8 m (src + j))
    → ((j : ℕ) → j < n → load8 m (src + j) ≢ 0)
    → load8 m' (dst + n) ≡ 0
    → string_at left m' dst ≡ string_at n m src
unfolding string_at
string_at_copy n zero m m' dst src enough same there ended = absurd (omega arith)
string_at_copy zero (suc left) m m' dst src enough same there ended =
    let at_end : load8 m' dst == 0 ≡ true = ground (arith, ended) in rw at_end refl
string_at_copy (suc n) (suc left) m m' dst src enough same there ended =
    let first : load8 m' dst ≡ load8 m src = ground (arith, same 0) in
    let there' : load8 m src == 0 ≡ false = ground (arith, there 0) in
    let rest =
      string_at_copy n left m m' (dst + 1) (src + 1) (omega arith)
        (λ j below. ground (arith, same (suc j))) (λ j below. ground (arith, there (suc j)))
        (ground (arith, ended)) in
    rw (first, there') (ap (λ l. load8 m src ∷ l) rest)

-- The contents of the buffer: unchanged without a symbol, else its name, cut to 63 characters.
abbrev pub Text : (m m' : Memory) → (function_name : ℕ) → Option Symbol → Type 0
Text m m' f none = (b : ℕ) → load8 m' b ≡ load8 m b
Text m m' f (some s) = string_at 64 m' f ≡ string_at (min 63 s.length) m s.name

-- The call returned, having changed the buffer alone, which holds the nearest symbol's name.
pub record Named (st : Statics) (return_address : ℕ) (symbols : List Symbol) (skip_printing : Bool)
    (t : Trace) (o : Ends) : Type 0 where
  pub symbol : Option Symbol
  pub nearest : Nearest return_address symbols symbol
  pub memory : Memory
  pub returned : o ≡ returns (conclude st skip_printing (record t { memory = memory }))
  pub only : OnlyBuffer t.memory memory st.function_name
  pub text : Text t.memory memory st.function_name symbol

module _ (fuel : ℕ) (st : Statics) (file : LimineFile) (symbols : List Symbol) (n : ℕ) (t : Trace)
    (loaded : IsLoaded fuel t.memory st file symbols n) where
  Holds-Text :
      (m' : Memory) (r : Option Symbol) (return_address : ℕ)
      → Nearest return_address symbols r
      → Holds t.memory m' st.function_name r
      → Text t.memory m' st.function_name r
  Holds-Text m' none return_address nearest holds = holds
  Holds-Text m' (some s) return_address (among, _, _) (same, ended) =
      let (a, line) =
        IsLine-of t.memory s file.address symbols (file.address + file.size) loaded.lines among in
      string_at_copy (min 63 s.length) 64 t.memory m' st.function_name s.name (omega arith) same
        (λ j below z.
          (line.characters (17 + j) (omega (arith, below))).0 (
            ap (load8 t.memory) {x = a + (17 + j)} {y = s.name + j} (omega (arith, line.place))
            ∙ z))
        ended

-- With a loaded symbol map, `s_print_function_name` returns. It changes nothing but the buffer, which
-- then holds the name of the symbol with the greatest address at or below the return address, cut to 63
-- characters; it compares and prints the buffer. If every symbol lies above the return address, the
-- buffer is as it was: the name printed is the one from the call before.
pub s_print_function_name-Named :
    (fuel : ℕ) (st : Statics) (file : LimineFile) (symbols : List Symbol) (n return_address : ℕ)
    (skip_printing : Bool) (t : Trace)
    → IsLoaded fuel t.memory st file symbols n
    → Named st return_address symbols skip_printing t
        (s_print_function_name fuel st return_address skip_printing t)
unfolding s_print_function_name
s_print_function_name-Named fuel st file symbols n return_address skip_printing t loaded =
    let (m', returned, only, holds) =
      symbol_loop-Finds fuel st.function_name file.address file.size return_address t.memory
        loaded.not_null loaded.fits loaded.small symbols fuel n file.address none t
        loaded.enough_rounds loaded.enough_characters (omega arith) loaded.string
        (omega (arith, loaded.inside)) loaded.lines loaded.clear (λ b out. refl) (λ b. refl) in
    let nearest = last_symbol-Nearest return_address symbols loaded.order in
    record {
      symbol = last_symbol return_address none symbols;
      nearest = nearest;
      memory = m';
      returned =
          ap
            (λ (o : Option (Option LimineFile)). elim o as (λ _. Ends) [
              | none ↦ out_of_fuel
              | some none ↦ halts
              | some (some f) ↦
                  and_then
                    (symbol_loop fuel fuel st.function_name f.address f.size return_address
                      f.address t)
                    (λ t'. returns (conclude st skip_printing t'))
            ])
            (loaded.found t.memory (λ b out. refl))
          ∙ ap (λ o. and_then o (λ t'. returns (conclude st skip_printing t'))) returned;
      only = only;
      text = Holds-Text fuel st file symbols n t loaded m' _ return_address nearest holds;
    }
