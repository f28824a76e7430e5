-- ===== src/Stacktrace/Symbols.antt =====
-- `s_print_function_name` of src/debug/stacktrace.c on a symbol map: which name it finds.
use ratos.Prelude.{
  ℕ, zero, suc, ◌+◌, ◌*◌, ◌^◌, ◌≤◌, ◌<◌, ◌≡◌, ◌≢◌, ◌⊎◌, refl, sym, ap, ◌∙◌, arith, inl, inr, u64,
  Bool-cases, ◌==◌, ltb, if◌then◌else◌, List, [], ◌∷◌, Option, none, some, min,
}
use ratos.Memory.{Memory, load8, store8}
use ratos.Memory.Words.{load8-store8}
use ratos.Strings.{strchr, strncpy}
use ratos.Strings.Scan.{IsString, strchr_lem}
use ratos.Strings.Copy.{IsCopied, strncpy_lem}
use ratos.Stacktrace.{copy_name, s_pointer_to_number, pointer_loop, digit_of}

-- A line of the map: a symbol with its address, and where its name is.
pub record Symbol : Type 0 where
  pub address : ℕ
  pub name : ℕ
  pub length : ℕ

-- The line at `a`: 16 digits and one more character, the name, and the end of the line.
pub record IsLine (m : Memory) (a : ℕ) (s : Symbol) : Type 0 where
  pub number : s_pointer_to_number m a ≡ s.address
  pub place : s.name ≡ a + 17
  pub characters : (j : ℕ) → j < 17 + s.length → (load8 m (a + j) ≢ 0) × (load8 m (a + j) ≢ 10)
  pub ended : load8 m (a + (17 + s.length)) ≡ 10

-- The lines of `symbols` from `a` to `end`.
abbrev pub AreLines : Memory → (a : ℕ) → List Symbol → (end : ℕ) → Type 0
AreLines m a [] end = a ≡ end
AreLines m a (s ∷ symbols) end = IsLine m a s × AreLines m (a + 18 + s.length) symbols end

-- The last symbol in front of the first one whose address is too large, or `found`.
unfoldable pub last_symbol :
    (return_address : ℕ) → (found : Option Symbol) → List Symbol → Option Symbol
last_symbol return_address found [] = found
last_symbol return_address found (s ∷ symbols) =
    let rest = last_symbol return_address (some s) symbols in
    if ltb return_address s.address then found else rest

-- The name, cut to 63 characters, is in the buffer; without a symbol the buffer is as it was.
abbrev pub Holds : (m m' : Memory) → (function_name : ℕ) → Option Symbol → Type 0
Holds m m' f none = (b : ℕ) → load8 m' b ≡ load8 m b
Holds m m' f (some s) =
    ((j : ℕ) → j < min 63 s.length → load8 m' (f + j) ≡ load8 m (s.name + j))
    × (load8 m' (f + min 63 s.length) ≡ 0)

-- Nothing but the buffer has changed.
abbrev pub OnlyBuffer : (m m' : Memory) → (function_name : ℕ) → Type 0
OnlyBuffer m m' f = (b : ℕ) → (b < f) ⊎ (f + 64 ≤ b) → load8 m' b ≡ load8 m b

-- The number depends on its 16 characters.
pointer_loop_ext :
    (m m' : Memory) (str left i n : ℕ)
    → ((j : ℕ) → j < i + left → load8 m' (str + j) ≡ load8 m (str + j))
    → pointer_loop left i n m' str ≡ pointer_loop left i n m str
unfolding pointer_loop
pointer_loop_ext m m' str zero i n same = refl
pointer_loop_ext m m' str (suc left) i n same =
    ap (λ (t : ℕ). pointer_loop left (i + 1) (u64 (u64 (n * 2 ^ 4) + digit_of t)) m' str)
      (same i (omega arith))
    ∙ pointer_loop_ext m m' str left (i + 1) (u64 (u64 (n * 2 ^ 4) + digit_of (load8 m (str + i))))
        (λ j below. same j (omega (arith, below)))

pub IsLine-ext :
    (m m' : Memory) (a : ℕ) (s : Symbol)
    → ((b : ℕ) → a ≤ b → b < a + 18 + s.length → load8 m' b ≡ load8 m b)
    → IsLine m a s
    → IsLine m' a s
unfolding s_pointer_to_number
IsLine-ext m m' a s same line = record {
  number =
      pointer_loop_ext m m' a 16 0 0 (λ j below. same (a + j) (omega arith) (omega (arith, below)))
      ∙ line.number;
  place = line.place;
  characters = λ j below.
      let e = same (a + j) (omega arith) (omega (arith, below)) in
      let (not_end, not_line) = line.characters j below in
      (λ z. not_end (sym e ∙ z), λ z. not_line (sym e ∙ z));
  ended = same (a + (17 + s.length)) (omega arith) (omega arith) ∙ line.ended;
}

pub AreLines-le :
    (m : Memory) (a : ℕ) (symbols : List Symbol) (end : ℕ) → AreLines m a symbols end → a ≤ end
AreLines-le m a [] end lines = omega (arith, lines)
AreLines-le m a (s ∷ symbols) end (_, rest) =
    omega (arith, AreLines-le m (a + 18 + s.length) symbols end rest)

pub AreLines-ext :
    (m m' : Memory) (a : ℕ) (symbols : List Symbol) (end : ℕ)
    → ((b : ℕ) → a ≤ b → b < end → load8 m' b ≡ load8 m b)
    → AreLines m a symbols end
    → AreLines m' a symbols end
AreLines-ext m m' a [] end same lines = lines
AreLines-ext m m' a (s ∷ symbols) end same (line, rest) =
    let inside = AreLines-le m (a + 18 + s.length) symbols end rest in
    (
      IsLine-ext m m' a s (λ b lo hi. same b lo (omega (arith, hi, inside))) line,
      AreLines-ext m m' (a + 18 + s.length) symbols end (λ b lo hi. same b (omega (arith, lo)) hi)
          rest,
    )

-- The `strchr` of a line finds its end.
pub line_end :
    (fuel n : ℕ) (m : Memory) (a : ℕ) (s : Symbol)
    → n < fuel
    → IsString m a n
    → 18 + s.length ≤ n
    → IsLine m a s
    → strchr fuel m a 10 ≡ some (a + (17 + s.length))
line_end fuel n m a s enough is inside line = elim (strchr_lem fuel n m a 10 enough is) [
  | inl (_, nowhere) ↦ absurd (nowhere (17 + s.length) (omega arith) line.ended)
  | inr (k, e, below, at, first) ↦ elim (Bool-cases (ltb k (17 + s.length))) [
    | inl early ↦ absurd ((line.characters k (ground arith)).1 at)
    | inr late ↦ elim (Bool-cases (k == 17 + s.length)) [
      | inl same ↦ e ∙ ap (λ (t : ℕ). some (a + t)) {x = k} {y = 17 + s.length} (ground arith)
      | inr later ↦ absurd (first (17 + s.length) (ground arith) line.ended)
    ]
  ]
]

pub IsString-ext :
    (m m' : Memory) (a n : ℕ)
    → ((b : ℕ) → a ≤ b → b ≤ a + n → load8 m' b ≡ load8 m b)
    → IsString m a n
    → IsString m' a n
IsString-ext m m' a n same is = record {
  characters = λ j below z.
      is.characters j below (sym (same (a + j) (omega arith) (omega (arith, below))) ∙ z);
  terminated = same (a + n) (omega arith) (omega arith) ∙ is.terminated;
}

pub IsString-later : (m : Memory) (a n k : ℕ) → IsString m a (k + n) → IsString m (a + k) n
IsString-later m a n k is = record {
  characters = λ j below z.
      is.characters (k + j) (omega (arith, below))
        (ap (load8 m) {x = a + (k + j)} {y = a + k + j} (omega arith) ∙ z);
  terminated = ap (load8 m) {x = a + k + n} {y = a + (k + n)} (omega arith) ∙ is.terminated;
}

-- The copy of the name of a line.
module _ (m : Memory) (f a : ℕ) (s : Symbol) (line : IsLine m a s)
    (clear : (f + 64 ≤ a) ⊎ (a + 18 + s.length ≤ f)) where
  abbrev eol : ℕ
  eol = a + (17 + s.length)

  abbrev m1 : Memory
  m1 = store8 m eol 0

  abbrev m2 : Memory
  m2 = strncpy m1 f (a + 17) 63

  name-IsString : IsString m1 (a + 17) s.length
  name-IsString = record {
    characters = λ j below z. (line.characters (17 + j) (omega (arith, below))).0 (
        ap (load8 m) {x = a + (17 + j)} {y = a + 17 + j} (omega arith)
        ∙ sym (load8-store8 m eol 0 (a + 17 + j) ∙ ground arith)
        ∙ z);
    terminated = load8-store8 m eol 0 (a + 17 + s.length) ∙ ground arith;
  }

  copied : IsCopied m1 f (a + 17) (min 63 s.length) m2
  copied = strncpy_lem 63 s.length m1 f (a + 17) (omega (arith, clear)) name-IsString

  pub copy_name-outside :
      (b : ℕ) → (b < f) ⊎ (f + 64 ≤ b) → load8 (copy_name m f a eol) b ≡ load8 m b
  copy_name-outside b out =
      ground (arith, load8-store8 m2 eol 10 b, copied b, load8-store8 m eol 0 b, line.ended)

  pub copy_name-name :
      (j : ℕ) → j < min 63 s.length → load8 (copy_name m f a eol) (f + j) ≡ load8 m (s.name + j)
  copy_name-name j below = ground (
    arith,
    load8-store8 m2 eol 10 (f + j),
    copied (f + j),
    load8-store8 m eol 0 (a + 17 + j),
    line.place,
  )

  pub copy_name-end : load8 (copy_name m f a eol) (f + min 63 s.length) ≡ 0
  copy_name-end =
      ground (arith, load8-store8 m2 eol 10 (f + min 63 s.length), copied (f + min 63 s.length))
