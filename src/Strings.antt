-- ===== src/Strings.antt =====
-- src/string.c. A function that writes through a pointer returns the new memory. Loops over a count
-- recur on the rounds left; loops that stop at a terminator take fuel, and `none` means that it ran
-- out. `char` is read as an unsigned byte.
pub mod Blocks
pub mod Compare
pub mod Scan
pub mod Copy
use ratos.Prelude.{ℕ, zero, suc, ◌+◌, Bool, true, false, not, ◌&&◌, Option, none, some}
use ratos.Prelude.{◌==◌, ltb, if◌then◌else◌, u8}
use ratos.Prelude.Int.{ℤ, pos, sub_ℕ, is_nonzero}
use ratos.Memory.{Memory, load8, store8}

memset_loop : (left i : ℕ) → Memory → ℕ → ℕ → Memory
memset_loop zero i m dst value = m
memset_loop (suc left) i m dst value = memset_loop left (i + 1) (store8 m (dst + i) value) dst value

unfoldable pub memset : Memory → ℕ → ℕ → ℕ → Memory
unfolding memset_loop
memset m dst value count = memset_loop count 0 m dst (u8 value)

memcpy_loop : (left i : ℕ) → Memory → ℕ → ℕ → Memory
memcpy_loop zero i m dst src = m
memcpy_loop (suc left) i m dst src =
    memcpy_loop left (i + 1) (store8 m (dst + i) (load8 m (src + i))) dst src

unfoldable pub memcpy : Memory → ℕ → ℕ → ℕ → Memory
unfolding memcpy_loop
memcpy m dst src count = memcpy_loop count 0 m dst src

-- The result is a pointer, 0 for `NULL`.
memchr_loop : (left i : ℕ) → Memory → ℕ → ℕ → ℕ
memchr_loop zero i m ptr ch = 0
memchr_loop (suc left) i m ptr ch =
    let rest = memchr_loop left (i + 1) m ptr ch in
    if load8 m (ptr + i) == u8 ch then ptr + i else rest

unfoldable pub memchr : Memory → ℕ → ℕ → ℕ → ℕ
unfolding memchr_loop
memchr m ptr ch count = memchr_loop count 0 m ptr ch

memcmp_loop : (left i : ℕ) → Memory → ℕ → ℕ → ℤ
memcmp_loop zero i m a b = pos 0
memcmp_loop (suc left) i m a b =
    let rest = memcmp_loop left (i + 1) m a b in
    let diff = sub_ℕ (load8 m (a + i)) (load8 m (b + i)) in if is_nonzero diff then diff else rest

unfoldable pub memcmp : Memory → ℕ → ℕ → ℕ → ℤ
unfolding memcmp_loop
memcmp m a b n = memcmp_loop n 0 m a b

-- `while (*(str++)) length++`.
strlen_loop : ℕ → Memory → (str length : ℕ) → Option ℕ
strlen_loop zero m str length = none
strlen_loop (suc fuel) m str length =
    let rest = strlen_loop fuel m (str + 1) (length + 1) in
    if not (load8 m str == 0) then rest else some length

unfoldable pub strlen : ℕ → Memory → ℕ → Option ℕ
unfolding strlen_loop
strlen fuel m str = strlen_loop fuel m str 0

-- The `do` loop of `strcmp`: the terminators are looked at after the step to the next characters.
unfoldable pub strcmp : ℕ → Memory → ℕ → ℕ → Option ℤ
strcmp zero m a b = none
strcmp (suc fuel) m a b =
    let rest = strcmp fuel m (a + 1) (b + 1) in
    let diff = sub_ℕ (load8 m a) (load8 m b) in
    if is_nonzero diff
    then some diff
    else if not (load8 m (a + 1) == 0) && not (load8 m (b + 1) == 0)
    then rest
    else some diff

-- The `do` loop of `strncmp` with `left` rounds to go, the first of which is made in any case.
strncmp_loop : (left : ℕ) → Memory → ℕ → ℕ → ℤ
strncmp_loop zero m a b = pos 0
strncmp_loop (suc left) m a b =
    let rest = strncmp_loop left m (a + 1) (b + 1) in
    let diff = sub_ℕ (load8 m a) (load8 m b) in
    if is_nonzero diff
    then diff
    else if not (load8 m (a + 1) == 0) && not (load8 m (b + 1) == 0) && ltb 0 left
    then rest
    else diff

unfoldable pub strncmp : Memory → ℕ → ℕ → ℕ → ℤ
unfolding strncmp_loop
strncmp m a b n = if n == 0 then pos 0 else strncmp_loop n m a b

-- The result is a pointer, 0 for `NULL`.
unfoldable pub strchr : ℕ → Memory → ℕ → ℕ → Option ℕ
strchr zero m str ch = none
strchr (suc fuel) m str ch =
    let rest = strchr fuel m (str + 1) ch in
    if not (load8 m str == 0) then if load8 m str == u8 ch then some str else rest else some 0

unfoldable pub strcpy : ℕ → Memory → ℕ → ℕ → Option Memory
strcpy zero m dst src = none
strcpy (suc fuel) m dst src =
    let rest = strcpy fuel (store8 m dst (load8 m src)) (dst + 1) (src + 1) in
    if not (load8 m src == 0) then rest else some (store8 m dst 0)

-- The loop of `strncpy` at `i`, with `left` rounds to go at most, and the store behind it.
strncpy_loop : (left i : ℕ) → Memory → ℕ → ℕ → Memory
strncpy_loop zero i m dst src = store8 m (dst + i) 0
strncpy_loop (suc left) i m dst src =
    let rest = strncpy_loop left (i + 1) (store8 m (dst + i) (load8 m (src + i))) dst src in
    if not (load8 m (src + i) == 0) then rest else store8 m (dst + i) 0

unfoldable pub strncpy : Memory → ℕ → ℕ → ℕ → Memory
unfolding strncpy_loop
strncpy m dst src length = strncpy_loop length 0 m dst src
