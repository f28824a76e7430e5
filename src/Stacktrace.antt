-- ===== src/Stacktrace.antt =====
-- src/debug/stacktrace.c: the names of functions from the symbol map, and the walk along the frames.
-- The static buffer `function_name` and the string literals are places in the memory; what is printed
-- is a list of pieces, the newest first. The scans of src/string.c take `fuel`.
pub mod Number
pub mod Symbols
pub mod Lookup
pub mod Nearest
pub mod Printing
use ratos.Prelude.{
  ℕ, zero, suc, ◌+◌, ◌-◌, ◌*◌, ◌^◌, Bool, true, false, not, ◌&&◌, Option, none, some, List, [], ◌∷◌,
  ◌==◌, ltb, leb, if◌then◌else◌, u64, sub64, ◌<<<◌,
}
use ratos.Prelude.Int.{is_nonzero}
use ratos.Memory.{Memory, load8, store8, load64}
use ratos.Strings.{strcmp, strncmp, strchr, strncpy}

-- What a hexadecimal digit adds.
abbrev pub digit_of : ℕ → ℕ
digit_of c =
    if leb 48 c && leb c 57
    then c - 48
    else if leb 97 c && leb c 102
    then c - 97 + 10
    else if leb 65 c && leb c 70
    then c - 65 + 10
    else 0

pointer_loop : (left i n : ℕ) → Memory → (str : ℕ) → ℕ
pointer_loop zero i n m str = n
pointer_loop (suc left) i n m str =
    pointer_loop left (i + 1) (u64 (u64 (n <<< 4) + digit_of (load8 m (str + i)))) m str

unfoldable pub s_pointer_to_number : Memory → (str : ℕ) → ℕ
unfolding pointer_loop
s_pointer_to_number m str = pointer_loop 16 0 0 m str

-- `struct limine_file`, by the fields that are used.
pub record LimineFile : Type 0 where
  pub string : ℕ
  pub address : ℕ
  pub size : ℕ

-- Where the buffer and the literals are, the modules that the boot loader loaded, and the addresses of
-- words of 8 bytes that are mapped.
pub record Statics : Type 0 where
  pub function_name : ℕ
  pub symbol_map_title : ℕ
  pub common_handler_title : ℕ
  pub modules : List LimineFile
  pub readable : ℕ → Bool

-- What is printed: a line head for an address, the contents of `function_name`, the line of `_start`,
-- and the end of a line.
pub data Piece : Type 0 where
  at_address : ℕ → Piece
  name : List ℕ → Piece
  at_start new_line : Piece

pub record Trace : Type 0 where
  pub memory : Memory
  pub was_common_handler : Bool
  pub printed : List Piece

-- How a call ends: it returns, halts in `hcf`, writes through `NULL` or reads
-- what is not mapped, or a loop runs out of fuel.
pub data Ends : Type 0 where
  returns : Trace → Ends
  halts faults out_of_fuel : Ends

abbrev pub and_then : Ends → (Trace → Ends) → Ends
and_then (returns t) f = f t
and_then halts f = halts
and_then faults f = faults
and_then out_of_fuel f = out_of_fuel

abbrev pub print : Piece → Trace → Trace
print p t = record t { printed = p ∷ t.printed }

-- The signed comparison of two words.
abbrev pub slt64 : ℕ → ℕ → Bool
slt64 a b = ltb (u64 (a + 2 ^ 63)) (u64 (b + 2 ^ 63))

-- The first module with the title, or that there is none; `none` is that `strcmp` ran out of fuel.
unfoldable pub find_symbol_map :
    (fuel : ℕ) → Memory → (title : ℕ) → List LimineFile → Option (Option LimineFile)
find_symbol_map fuel m title [] = some none
find_symbol_map fuel m title (f ∷ fs) =
    let rest = find_symbol_map fuel m title fs in
    elim (strcmp fuel m f.string title) [
      | none ↦ none
      | some diff ↦ if is_nonzero diff then rest else some (some f)
    ]

-- The loop condition of `s_print_function_name` with the result of its `strchr`.
abbrev pub more_lines : (map_data size curr_data end_of_line : ℕ) → Bool
more_lines map_data size curr_data end_of_line =
    slt64 10 (sub64 end_of_line map_data) && slt64 (sub64 curr_data map_data) size

-- The name of a line goes to `function_name`, for which the end of the line is a terminator meanwhile.
abbrev pub copy_name : Memory → (function_name curr_data end_of_line : ℕ) → Memory
copy_name m function_name curr_data end_of_line =
    store8 (strncpy (store8 m end_of_line 0) function_name (curr_data + 17) 63) end_of_line 10

-- The loop over the lines, which `fuel` bounds together with `scan` for each `strchr`. `curr_data` is
-- never `NULL` behind the first line.
unfoldable pub symbol_loop :
    (fuel scan : ℕ) → (function_name map_data size return_address curr_data : ℕ) → Trace → Ends
symbol_loop zero scan function_name map_data size return_address curr_data t = out_of_fuel
symbol_loop (suc fuel) scan function_name map_data size return_address curr_data t =
    let m = t.memory in
    let rest = λ (end_of_line : ℕ).
      symbol_loop fuel scan function_name map_data size return_address (end_of_line + 1)
        (record t { memory = copy_name m function_name curr_data end_of_line }) in
    if curr_data == 0 then returns t else elim (strchr scan m curr_data 10) [
      | none ↦ out_of_fuel
      | some end_of_line ↦
          if not (more_lines map_data size curr_data end_of_line)
          then returns t
          else if ltb return_address (s_pointer_to_number m curr_data)
          then returns t
          else if end_of_line == 0
          then faults
          else rest end_of_line
    ]

-- The characters in front of the terminator, `left` at most.
unfoldable pub string_at : (left : ℕ) → Memory → ℕ → List ℕ
string_at zero m a = []
string_at (suc left) m a =
    let rest = string_at left m (a + 1) in if load8 m a == 0 then [] else load8 m a ∷ rest

-- The comparison with the common handler, and the name, unless `skip_printing`.
abbrev pub conclude : Statics → (skip_printing : Bool) → Trace → Trace
conclude s skip_printing t =
    let common = not (is_nonzero (strncmp t.memory s.common_handler_title s.function_name 63)) in
    let t' = record t { was_common_handler = common } in
    if skip_printing then t' else print (name (string_at 64 t.memory s.function_name)) t'

unfoldable pub s_print_function_name :
    (fuel : ℕ) → Statics → (return_address : ℕ) → (skip_printing : Bool) → Trace → Ends
s_print_function_name fuel s return_address skip_printing t =
    elim (find_symbol_map fuel t.memory s.symbol_map_title s.modules) [
      | none ↦ out_of_fuel
      | some none ↦ halts
      | some (some f) ↦
          and_then
            (symbol_loop fuel fuel s.function_name f.address f.size return_address f.address t)
            (λ t'. returns (conclude s skip_printing t'))
    ]

abbrev pub stacktrace_max_recursion : ℕ
stacktrace_max_recursion = 64

-- The word of a frame that a pointer leads to.
abbrev pub read_word : Statics → (p : ℕ) → Trace → (ℕ → Ends) → Ends
read_word s p t f = if s.readable p then f (load64 t.memory p) else faults

-- The frame of the common handler: the address of the interrupted instruction is looked up as well.
unfoldable pub common_frame : (fuel : ℕ) → Statics → (skips base_pointer : ℕ) → Trace → Ends
common_frame fuel s skips base_pointer t =
    let t1 = if skips == 0 then print new_line t else t in
    read_word s (base_pointer + 8 * 19) t1 (λ rip.
      and_then (s_print_function_name fuel s rip false (print (at_address rip) t1)) (λ t2.
        let t3 = if not (skips == 0) then print new_line t2 else t2 in
        returns (record t3 { was_common_handler = true })))

-- What one frame prints.
unfoldable pub print_frame : (fuel : ℕ) → Statics → (skips base_pointer rip : ℕ) → Trace → Ends
print_frame fuel s skips base_pointer rip t =
    let t1 = if skips == 0 then print (at_address rip) t else t in
    and_then (s_print_function_name fuel s rip (not (skips == 0)) t1) (λ t2.
      and_then
        (if t2.was_common_handler then common_frame fuel s skips base_pointer t2 else returns t2)
        (λ t3. returns (if skips == 0 then print new_line t3 else t3)))

-- The loop of `print_stacktrace` with `left` rounds to go.
unfoldable pub frame_loop : (left fuel : ℕ) → Statics → (skips base_pointer : ℕ) → Trace → Ends
frame_loop zero fuel s skips base_pointer t = returns t
frame_loop (suc left) fuel s skips base_pointer t =
    let rest = λ (t' : Trace) (next : ℕ). frame_loop left fuel s (skips - 1) next t' in
    let behind = λ (t' : Trace).
      read_word s (if t'.was_common_handler then base_pointer + 8 * 8 else base_pointer) t'
        (rest t') in
    if base_pointer == 0
    then returns t
    else read_word s (base_pointer + 8) t (λ rip.
      if rip == 0
      then returns (print at_start t)
      else and_then (print_frame fuel s skips base_pointer rip t) behind)

-- From the base pointer of `print_stacktrace` on.
unfoldable pub print_stacktrace : (fuel : ℕ) → Statics → (base_pointer : ℕ) → Trace → Ends
unfolding frame_loop
print_stacktrace fuel s base_pointer t = frame_loop stacktrace_max_recursion fuel s 3 base_pointer t
