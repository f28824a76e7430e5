-- ===== src/Tests/Strings.antt =====
-- Runs of src/string.c on a small memory.
use ratos.Prelude.{ℕ, ◌+◌, ◌<◌, ◌≡◌, ◌≢◌, ◌⊎◌, inl, refl, arith, List, [], ◌∷◌, some}
use ratos.Prelude.{◌==◌, if◌then◌else◌, u8}
use ratos.Prelude.Int.{pos, negsuc, sub_ℕ}
use ratos.Memory.{Memory, load8}
use ratos.Strings.{memcpy, memchr, memcmp, strlen, strcmp, strncmp, strchr, strcpy, strncpy}
use ratos.Strings.Blocks.{memcpy_lem, memcmp_lem}
use ratos.Strings.Scan.{IsString, strchr_lem}
use ratos.Strings.Compare.{Compared, strcmp_lem, strcmp_overrun, strncmp_lem}
use ratos.Strings.Copy.{IsCopied, strcpy_lem, strncpy_lem}

-- The bytes from an address on, and 0 elsewhere.
abbrev place : ℕ → List ℕ → Memory
place base [] a = 0
place base (x ∷ xs) a = if a == base then x else place (base + 1) xs a

-- "ab" at 16 and "abc" at 32; at 48 two empty strings with more behind them.
abbrev sample : Memory
sample a =
    if a == 16
    then b'a'
    else if a == 17
    then b'b'
    else if a == 32
    then b'a'
    else if a == 33
    then b'b'
    else if a == 34
    then b'c'
    else if a == 49
    then 5
    else if a == 65
    then 7
    else 0

sample_ab : IsString sample 16 2
unfolding load8
sample_ab = record { characters = λ j h. grind arith; terminated = refl }

sample_abc : IsString sample 32 3
unfolding load8
sample_abc = record { characters = λ j h. grind arith; terminated = refl }

sample_empty : IsString sample 48 0
unfolding load8
sample_empty = record { characters = λ j h. absurd (omega arith); terminated = refl }

sample_empty' : IsString sample 64 0
unfolding load8
sample_empty' = record { characters = λ j h. absurd (omega arith); terminated = refl }

strings_run :
    (strlen 9 sample 32 ≡ some 3)
    × (strcmp 9 sample 16 32 ≡ some (pos 0))
    × (strncmp sample 17 16 5 ≡ pos 1)
    × (strchr 9 sample 32 b'c' ≡ some 34)
    × (memchr sample 32 b'c' 3 ≡ 34)
    × (memcmp sample 16 32 3 ≡ negsuc 98)
unfolding strlen strcmp strncmp strchr memchr memcmp load8
strings_run = (refl, refl, refl, refl, refl, refl)

memcpy_lem_example : load8 (memcpy sample 8 32 3) 10 ≡ load8 sample 34
memcpy_lem_example = memcpy_lem sample 8 32 3 10 (inl (omega arith))

memcmp_lem_example :
    ((memcmp sample 16 32 3 ≡ pos 0)
      × ((j : ℕ) → j < 3 → load8 sample (16 + j) ≡ load8 sample (32 + j)))
    ⊎ ((k : ℕ) × (memcmp sample 16 32 3 ≡ sub_ℕ (load8 sample (16 + k)) (load8 sample (32 + k)))
        × (k < 3)
        × (load8 sample (16 + k) ≢ load8 sample (32 + k))
        × ((j : ℕ) → j < k → load8 sample (16 + j) ≡ load8 sample (32 + j)))
memcmp_lem_example = memcmp_lem sample 16 32 3

strchr_lem_example :
    ((strchr 4 sample 32 b'c' ≡ some 0) × ((j : ℕ) → j < 3 → load8 sample (32 + j) ≢ u8 b'c'))
    ⊎ ((k : ℕ) × (strchr 4 sample 32 b'c' ≡ some (32 + k))
        × (k < 3)
        × (load8 sample (32 + k) ≡ u8 b'c')
        × ((j : ℕ) → j < k → load8 sample (32 + j) ≢ u8 b'c'))
strchr_lem_example = strchr_lem 4 3 sample 32 b'c' (omega arith) sample_abc

-- "ab" and "abc" compare equal.
strcmp_lem_example : Compared sample 16 32 2 (strcmp 2 sample 16 32)
strcmp_lem_example = strcmp_lem 2 1 2 sample 16 32 (omega arith) sample_ab sample_abc

strcmp_overrun_example : strcmp 2 sample 48 64 ≡ some (sub_ℕ (load8 sample 49) (load8 sample 65))
strcmp_overrun_example =
    strcmp_overrun 0 sample 48 64 sample_empty sample_empty' (unfold load8 in omega arith)
      (unfold load8 in omega arith) (unfold load8 in omega arith)

strncmp_lem_example : Compared sample 16 32 2 (some (strncmp sample 16 32 5))
strncmp_lem_example = strncmp_lem 4 1 2 sample 16 32 sample_ab sample_abc

strcpy_lem_example : (out : Memory) × (strcpy 4 sample 8 32 ≡ some out) × IsCopied sample 8 32 3 out
strcpy_lem_example = strcpy_lem 4 3 sample 8 32 (omega arith) (inl (omega arith)) sample_abc

strncpy_lem_example : IsCopied sample 8 32 2 (strncpy sample 8 32 2)
strncpy_lem_example = strncpy_lem 2 3 sample 8 32 (inl (omega arith)) sample_abc
