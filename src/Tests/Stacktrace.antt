-- ===== src/Tests/Stacktrace.antt =====
-- Runs of src/debug/stacktrace.c on a symbol map of one line.
use ratos.Prelude.{
  true, ℕ, zero, suc, ◌+◌, ◌≡◌, ◌⊎◌, inl, inr, refl, ap, ◌∙◌, arith, [], ◌∷◌, ◌==◌, leb, ltb, ◌&&◌,
  if◌then◌else◌, false, Option, none, some,
}
use ratos.Prelude.Int.{pos, is_nonzero, ℤ}
use ratos.Memory.{Memory, load8}
use ratos.Strings.{strcmp}
use ratos.Strings.Scan.{IsString}
use ratos.Strings.Compare.{strcmp_lem}
use ratos.Stacktrace.{
  LimineFile, Statics, Trace, find_symbol_map, s_pointer_to_number, s_print_function_name,
}
use ratos.Stacktrace.Number.{IsPrinted, s_pointer_to_number_lem}
use ratos.Stacktrace.Symbols.{Symbol, OnlyBuffer}
use ratos.Stacktrace.Printing.{IsLoaded, Named, s_print_function_name-Named}

-- "0000000000001000 f\n" at 1024, and the title "s" at 100 and at 110.
abbrev sample : Memory
sample a =
    if a == 1036
    then b'1'
    else if leb 1024 a && ltb a 1040
    then b'0'
    else if a == 1040
    then b' '
    else if a == 1041
    then b'f'
    else if a == 1042
    then b'\n'
    else if a == 100
    then b's'
    else if a == 110
    then b's'
    else 0

abbrev file : LimineFile
file = record { string = 100; address = 1024; size = 19 }

abbrev statics : Statics
statics = record {
  function_name = 2048;
  symbol_map_title = 110;
  common_handler_title = 3000;
  modules = file ∷ [];
  readable = λ p. true;
}

abbrev trace : Trace
trace = record { memory = sample; was_common_handler = false; printed = [] }

abbrev f_symbol : Symbol
f_symbol = record { address = 0x1000; name = 1041; length = 1 }

sample_digits : IsPrinted sample 1024 0x1000
unfolding load8
sample_digits zero below = inl (omega arith, refl)
sample_digits (suc zero) below = inl (omega arith, refl)
sample_digits (suc (suc zero)) below = inl (omega arith, refl)
sample_digits (suc (suc (suc zero))) below = inl (omega arith, refl)
sample_digits (suc (suc (suc (suc zero)))) below = inl (omega arith, refl)
sample_digits (suc (suc (suc (suc (suc zero))))) below = inl (omega arith, refl)
sample_digits (suc (suc (suc (suc (suc (suc zero)))))) below = inl (omega arith, refl)
sample_digits (suc (suc (suc (suc (suc (suc (suc zero))))))) below = inl (omega arith, refl)
sample_digits (suc (suc (suc (suc (suc (suc (suc (suc zero)))))))) below = inl (omega arith, refl)
sample_digits (suc (suc (suc (suc (suc (suc (suc (suc (suc zero))))))))) below =
    inl (omega arith, refl)
sample_digits (suc (suc (suc (suc (suc (suc (suc (suc (suc (suc zero)))))))))) below =
    inl (omega arith, refl)
sample_digits (suc (suc (suc (suc (suc (suc (suc (suc (suc (suc (suc zero))))))))))) below =
    inl (omega arith, refl)
sample_digits (suc (suc (suc (suc (suc (suc (suc (suc (suc (suc (suc (suc zero)))))))))))) below =
    inl (omega arith, refl)
sample_digits (suc (suc (suc (suc (suc (suc (suc (suc (suc (suc (suc (suc (suc zero)))))))))))))
      below =
    inl (omega arith, refl)
sample_digits
      (suc (suc (suc (suc (suc (suc (suc (suc (suc (suc (suc (suc (suc (suc zero))))))))))))))
      below =
    inl (omega arith, refl)
sample_digits
      (suc (suc (suc (suc (suc (suc (suc (suc (suc (suc (suc (suc (suc (suc (suc zero)))))))))))))))
      below =
    inl (omega arith, refl)
sample_digits
      (suc
        (suc (suc (suc (suc (suc (suc (suc (suc (suc (suc (suc (suc (suc (suc (suc i))))))))))))))))
      below =
    absurd (omega (arith, below))

s_pointer_to_number_lem_example : s_pointer_to_number sample 1024 ≡ 0x1000
s_pointer_to_number_lem_example =
    s_pointer_to_number_lem sample 1024 0x1000 (omega arith) sample_digits

title-IsString :
    (m : Memory) → OnlyBuffer sample m 2048 → (a : ℕ) → (a ≡ 100) ⊎ (a ≡ 110) → IsString m a 1
unfolding load8
title-IsString m only a place = record {
  characters = λ j below z. absurd (ground (arith, only a));
  terminated = only (a + 1) (omega (arith, place)) ∙ ground arith;
}

same_title : (m : Memory) → OnlyBuffer sample m 2048 → strcmp 64 m 100 110 ≡ some (pos 0)
unfolding load8
same_title m only =
    elim (strcmp_lem 64 0 0 m 100 110 (omega arith) (title-IsString m only 100 (inl refl))
      (title-IsString m only 110 (inr refl))) [
        | inl (k, below, (_, differ), _) ↦
            absurd (differ (ground (arith, only (100 + k), only (110 + k))))
        | inr (_, e) ↦ e
      ]

loaded : IsLoaded 64 sample statics file (f_symbol ∷ []) 19
unfolding find_symbol_map load8
loaded = record {
  found = λ m only.
      ap
        (λ (o : Option ℤ). elim o as (λ _. Option (Option LimineFile)) [
          | none ↦ none
          | some diff ↦ if is_nonzero diff then some none else some (some file)
        ])
        (same_title m only);
  not_null = omega arith;
  fits = omega arith;
  small = omega arith;
  enough_rounds = omega arith;
  enough_characters = omega arith;
  string = record { characters = λ j below z. ground arith; terminated = refl };
  inside = omega arith;
  lines = (
    record {
      number = s_pointer_to_number_lem sample 1024 0x1000 (omega arith) sample_digits;
      place = refl;
      characters = λ j below. (λ z. ground arith, λ z. ground arith);
      ended = refl;
    },
    refl,
  );
  order = (λ t among. elim among [ ], tt);
  clear = inr (omega arith);
}

s_print_function_name-Named_example :
    Named statics 0x1234
      (f_symbol ∷ [])
      false
      trace
      (s_print_function_name 64 statics 0x1234 false trace)
s_print_function_name-Named_example =
    s_print_function_name-Named 64 statics file (f_symbol ∷ []) 19 0x1234 false trace loaded
