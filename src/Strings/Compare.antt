-- ===== src/Strings/Compare.antt =====
-- `strcmp` and `strncmp` of src/string.c on terminated strings.
use native.Mathlib.Nat.{suc-min-suc}
use ratos.Prelude.{
  ℕ, zero, suc, ◌+◌, ◌<◌, ◌≡◌, ◌≢◌, refl, ap, ◌∙◌, ◌⊎◌, arith, inl, inr, Option, some,
}
use ratos.Prelude.{◌==◌, Bool-cases, min, true, false}
use ratos.Prelude.Int.{ℤ, pos, sub_ℕ, is_nonzero-sub_ℕ}
use ratos.Memory.{Memory, load8}
use ratos.Strings.{strcmp, strncmp_loop, strncmp}
use ratos.Strings.Scan.{IsString, IsString-tail}

-- The first `n` bytes of two places are equal.
abbrev pub Agree : Memory → ℕ → ℕ → ℕ → Type 0
Agree m a b n = (j : ℕ) → j < n → load8 m (a + j) ≡ load8 m (b + j)

-- The first difference is byte `k`.
abbrev pub FirstDifference : Memory → ℕ → ℕ → ℕ → Type 0
FirstDifference m a b k = Agree m a b k × (load8 m (a + k) ≢ load8 m (b + k))

Agree-cons :
    (m : Memory) (a b n : ℕ)
    → load8 m a ≡ load8 m b
    → Agree m (a + 1) (b + 1) n
    → Agree m a b (suc n)
Agree-cons m a b n e rest zero h = ground arith
Agree-cons m a b n e rest (suc j) h = ground (arith, rest j)

FirstDifference-cons :
    (m : Memory) (a b k : ℕ)
    → load8 m a ≡ load8 m b
    → FirstDifference m (a + 1) (b + 1) k
    → FirstDifference m a b (suc k)
FirstDifference-cons m a b k e (agree, differ) =
    (Agree-cons m a b k e agree, λ e'. ground (arith, differ))

module _ (fuel : ℕ) (m : Memory) (a b : ℕ) where
  strcmp-differ :
      (load8 m a == load8 m b) ≡ false
      → strcmp (suc fuel) m a b ≡ some (sub_ℕ (load8 m a) (load8 m b))
  unfolding strcmp
  strcmp-differ ne = rw (is_nonzero-sub_ℕ (load8 m a) (load8 m b), ne)

  strcmp-stop :
      (load8 m a == load8 m b) ≡ true
      → (load8 m (a + 1) ≡ 0) ⊎ (load8 m (b + 1) ≡ 0)
      → strcmp (suc fuel) m a b ≡ some (pos 0)
  unfolding strcmp
  strcmp-stop e h = rw (is_nonzero-sub_ℕ (load8 m a) (load8 m b), e) (ground arith)

  strcmp-next :
      (load8 m a == load8 m b) ≡ true
      → load8 m (a + 1) ≢ 0
      → load8 m (b + 1) ≢ 0
      → strcmp (suc fuel) m a b ≡ strcmp fuel m (a + 1) (b + 1)
  unfolding strcmp
  strcmp-next e h h' = rw (is_nonzero-sub_ℕ (load8 m a) (load8 m b), e) (ground arith)

-- What `strcmp` is to return on two strings that both have `n` characters at least.
abbrev pub Compared : Memory → ℕ → ℕ → ℕ → Option ℤ → Type 0
Compared m a b n result =
    ((k : ℕ) × (k < n)
      × FirstDifference m a b k
      × (result ≡ some (sub_ℕ (load8 m (a + k)) (load8 m (b + k)))))
    ⊎ (Agree m a b n × (result ≡ some (pos 0)))

module _ (m : Memory) (a b n : ℕ) (result : Option ℤ) where
  Compared-here :
      (load8 m a == load8 m b) ≡ false
      → result ≡ some (sub_ℕ (load8 m a) (load8 m b))
      → Compared m a b (suc n) result
  Compared-here ne e =
      inl (0, omega arith, (λ j h. absurd (omega arith), ground arith), ground arith)

  Compared-cons :
      (load8 m a == load8 m b) ≡ true
      → Compared m (a + 1) (b + 1) n result
      → Compared m a b (suc n) result
  Compared-cons e (inl (k, h, first, r)) =
      inl (suc k, omega arith, FirstDifference-cons m a b k (ground arith) first, ground arith)
  Compared-cons e (inr (agree, r)) = inr (Agree-cons m a b n (ground arith) agree, r)

-- After an equal first character, given what the rest of the loop does.
strcmp_tail :
    (fuel p q : ℕ) (m : Memory) (a b : ℕ)
    → min p q < suc fuel
    → IsString m a (suc p)
    → IsString m b (suc q)
    → (load8 m a == load8 m b) ≡ true
    → ((p' q' : ℕ)
        → min p' q' < fuel
        → IsString m (a + 1) (suc p')
        → IsString m (b + 1) (suc q')
        → Compared m (a + 1) (b + 1) (suc (min p' q')) (strcmp fuel m (a + 1) (b + 1)))
    → Compared m (a + 1) (b + 1) (min p q) (strcmp (suc fuel) m a b)
strcmp_tail fuel zero q m a b h is is' e rest =
    inr (λ j below. absurd (omega arith), strcmp-stop fuel m a b e (inl is.terminated))
strcmp_tail fuel (suc p) zero m a b h is is' e rest =
    inr (λ j below. absurd (omega arith), strcmp-stop fuel m a b e (inr is'.terminated))
strcmp_tail fuel (suc p) (suc q) m a b h is is' e rest =
    rw
      (
        strcmp-next fuel m a b e (is.characters 1 (omega arith)) (is'.characters 1 (omega arith)),
        suc-min-suc,
      )
      (rest p q (omega arith) (IsString-tail is) (IsString-tail is'))

-- On two strings of which neither is empty, `strcmp` ends. It returns the difference of the first
-- two characters that differ, if both strings reach that far, and 0 if one string begins with the
-- other.
pub strcmp_lem :
    (fuel p q : ℕ) (m : Memory) (a b : ℕ)
    → min p q < fuel
    → IsString m a (suc p)
    → IsString m b (suc q)
    → Compared m a b (suc (min p q)) (strcmp fuel m a b)
strcmp_lem zero p q m a b h is is' = absurd (omega arith)
strcmp_lem (suc fuel) p q m a b h is is' = elim (Bool-cases (load8 m a == load8 m b)) [
  | inr ne ↦ Compared-here m a b (min p q) _ ne (strcmp-differ fuel m a b ne)
  | inl e ↦ Compared-cons m a b (min p q) _ e (
      strcmp_tail fuel p q m a b h is is' e
        (λ p' q' h'. strcmp_lem fuel p' q' m (a + 1) (b + 1) h'))
]

-- On two empty strings, `strcmp` steps over both terminators: it returns the difference of the bytes
-- behind them, if those differ and neither is a terminator.
pub strcmp_overrun :
    (fuel : ℕ) (m : Memory) (a b : ℕ)
    → IsString m a 0
    → IsString m b 0
    → load8 m (a + 1) ≢ 0
    → load8 m (b + 1) ≢ 0
    → load8 m (a + 1) ≢ load8 m (b + 1)
    → strcmp (suc (suc fuel)) m a b ≡ some (sub_ℕ (load8 m (a + 1)) (load8 m (b + 1)))
strcmp_overrun fuel m a b is is' h h' ne =
    strcmp-next (suc fuel) m a b (ground (arith, is.terminated, is'.terminated)) h h'
    ∙ strcmp-differ fuel m (a + 1) (b + 1) (ground arith)

module _ (left : ℕ) (m : Memory) (a b : ℕ) where
  strncmp_loop-differ :
      (load8 m a == load8 m b) ≡ false
      → strncmp_loop (suc left) m a b ≡ sub_ℕ (load8 m a) (load8 m b)
  unfolding strncmp_loop
  strncmp_loop-differ ne = rw (is_nonzero-sub_ℕ (load8 m a) (load8 m b), ne)

  strncmp_loop-stop :
      (load8 m a == load8 m b) ≡ true
      → (load8 m (a + 1) ≡ 0) ⊎ (load8 m (b + 1) ≡ 0) ⊎ (left ≡ 0)
      → strncmp_loop (suc left) m a b ≡ pos 0
  unfolding strncmp_loop
  strncmp_loop-stop e h = rw (is_nonzero-sub_ℕ (load8 m a) (load8 m b), e) (ground arith)

  strncmp_loop-next :
      (load8 m a == load8 m b) ≡ true
      → load8 m (a + 1) ≢ 0
      → load8 m (b + 1) ≢ 0
      → 0 < left
      → strncmp_loop (suc left) m a b ≡ strncmp_loop left m (a + 1) (b + 1)
  unfolding strncmp_loop
  strncmp_loop-next e h h' more = rw (is_nonzero-sub_ℕ (load8 m a) (load8 m b), e) (ground arith)

strncmp_tail :
    (left p q : ℕ) (m : Memory) (a b : ℕ)
    → IsString m a (suc p)
    → IsString m b (suc q)
    → (load8 m a == load8 m b) ≡ true
    → ((left' p' q' : ℕ)
        → left ≡ suc left'
        → IsString m (a + 1) (suc p')
        → IsString m (b + 1) (suc q')
        → Compared m
            (a + 1)
            (b + 1)
            (suc (min left' (min p' q')))
            (some (strncmp_loop left m (a + 1) (b + 1))))
    → Compared m (a + 1) (b + 1) (min left (min p q)) (some (strncmp_loop (suc left) m a b))
strncmp_tail zero p q m a b is is' e rest =
    inr (λ j below. absurd (omega arith), ap some (strncmp_loop-stop 0 m a b e (inr (inr refl))))
strncmp_tail (suc left) zero q m a b is is' e rest = inr (
  λ j below. absurd (omega arith),
  ap some (strncmp_loop-stop (suc left) m a b e (inl is.terminated)),
)
strncmp_tail (suc left) (suc p) zero m a b is is' e rest = inr (
  λ j below. absurd (omega arith),
  ap some (strncmp_loop-stop (suc left) m a b e (inr (inl is'.terminated))),
)
strncmp_tail (suc left) (suc p) (suc q) m a b is is' e rest =
    rw
      (
        strncmp_loop-next (suc left) m a b e (is.characters 1 (omega arith))
            (is'.characters 1 (omega arith)) (omega arith),
        suc-min-suc p q,
        suc-min-suc left (min p q),
      )
      (rest left p q refl (IsString-tail is) (IsString-tail is'))

strncmp_loop_lem :
    (left p q : ℕ) (m : Memory) (a b : ℕ)
    → IsString m a (suc p)
    → IsString m b (suc q)
    → Compared m a b (suc (min left (min p q))) (some (strncmp_loop (suc left) m a b))
strncmp_loop_lem zero p q m a b is is' = elim (Bool-cases (load8 m a == load8 m b)) [
  | inr ne ↦ Compared-here m a b _ _ ne (ap some (strncmp_loop-differ 0 m a b ne))
  | inl e ↦
      Compared-cons m a b _ _ e
        (strncmp_tail 0 p q m a b is is' e (λ left' p' q' e'. absurd (omega arith)))
]
strncmp_loop_lem (suc left) p q m a b is is' = elim (Bool-cases (load8 m a == load8 m b)) [
  | inr ne ↦ Compared-here m a b _ _ ne (ap some (strncmp_loop-differ (suc left) m a b ne))
  | inl e ↦ Compared-cons m a b _ _ e (
      strncmp_tail (suc left) p q m a b is is' e λ left' p' q' e' t t'.
        let same : left' ≡ left = omega arith in
        rw same (strncmp_loop_lem left p' q' m (a + 1) (b + 1) t t'))
]

strncmp-suc :
    (left : ℕ) (m : Memory) (a b : ℕ) → strncmp m a b (suc left) ≡ strncmp_loop (suc left) m a b
unfolding strncmp
strncmp-suc left m a b = ground arith

-- On two strings of which neither is empty, and a bound that is not 0, `strncmp` compares at most
-- that many characters. It returns the difference of the first two that differ, if both strings
-- reach that far, and 0 if there are none such.
pub strncmp_lem :
    (left p q : ℕ) (m : Memory) (a b : ℕ)
    → IsString m a (suc p)
    → IsString m b (suc q)
    → Compared m a b (suc (min left (min p q))) (some (strncmp m a b (suc left)))
strncmp_lem left p q m a b is is' =
    rw (strncmp-suc left m a b) (strncmp_loop_lem left p q m a b is is')
