-- ===== src/Strings/Scan.antt =====
-- `strlen` and `strchr` of src/string.c on terminated strings.
use ratos.Prelude.{ℕ, zero, suc, ◌+◌, ◌<◌, ◌≡◌, ◌≢◌, refl, ◌⊎◌, arith, inl, inr, some}
use ratos.Prelude.{◌==◌, u8, Bool-cases, true, false}
use ratos.Memory.{Memory, load8}
use ratos.Strings.{strlen_loop, strlen, strchr}

-- `n` characters from `s` on, and then a terminator.
pub record IsString (m : Memory) (s n : ℕ) : Type 0 where
  pub characters : (j : ℕ) → j < n → load8 m (s + j) ≢ 0
  pub terminated : load8 m (s + n) ≡ 0

module _ {m : Memory} {s : ℕ} where
  pub IsString-tail : {n : ℕ} → IsString m s (suc n) → IsString m (s + 1) n
  IsString-tail is = record {
    characters = λ j h e. ground (arith, is.characters (suc j));
    terminated = ground (arith, is.terminated);
  }

  pub IsString-head : {n : ℕ} → IsString m s (suc n) → (load8 m s == 0) ≡ false
  IsString-head is = ground (arith, is.characters 0)

  pub IsString-end : IsString m s 0 → (load8 m s == 0) ≡ true
  IsString-end is = ground (arith, is.terminated)

strlen_loop_lem :
    (fuel n : ℕ) (m : Memory) (s length : ℕ)
    → n < fuel
    → IsString m s n
    → strlen_loop fuel m s length ≡ some (length + n)
unfolding strlen_loop
strlen_loop_lem zero n m s length h is = absurd (omega arith)
strlen_loop_lem (suc fuel) zero m s length h is = rw (IsString-end is) (ground arith)
strlen_loop_lem (suc fuel) (suc n) m s length h is =
    rw (IsString-head is) (
      ground
        (arith, strlen_loop_lem fuel n m (s + 1) (length + 1) (omega arith) (IsString-tail is)))

-- With one round more than there are characters, `strlen` ends and returns their number.
pub strlen_lem :
    (fuel n : ℕ) (m : Memory) (s : ℕ) → n < fuel → IsString m s n → strlen fuel m s ≡ some n
unfolding strlen
strlen_lem fuel n m s h is = ground (arith, strlen_loop_lem fuel n m s 0 h is)

-- On a string, `strchr` ends and returns the address of the first character equal to `ch` as a
-- byte, or `NULL` if none of the characters before the terminator is.
pub strchr_lem :
    (fuel n : ℕ) (m : Memory) (s ch : ℕ)
    → n < fuel
    → IsString m s n
    → ((strchr fuel m s ch ≡ some 0) × ((j : ℕ) → j < n → load8 m (s + j) ≢ u8 ch))
      ⊎ ((k : ℕ) × (strchr fuel m s ch ≡ some (s + k))
          × (k < n)
          × (load8 m (s + k) ≡ u8 ch)
          × ((j : ℕ) → j < k → load8 m (s + j) ≢ u8 ch))
unfolding strchr
strchr_lem zero n m s ch h is = absurd (omega arith)
strchr_lem (suc fuel) zero m s ch h is =
    rw (IsString-end is) (inl (refl, λ j p. absurd (omega arith)))
strchr_lem (suc fuel) (suc n) m s ch h is =
    rw (IsString-head is) (elim (Bool-cases (load8 m s == u8 ch)) [
      | inl hit ↦
          rw hit (inr (0, ground arith, omega arith, ground arith, λ j p. absurd (omega arith)))
      | inr miss ↦ rw miss (elim (strchr_lem fuel n m (s + 1) ch (omega arith) (IsString-tail is)) [
        | inl (e, none_is) ↦ inl (e, shift n miss none_is)
        | inr (k, e, p, at, first) ↦
            inr (suc k, ground arith, omega arith, ground arith, shift k miss first)
      ])
    ])
  where
    shift :
        (n : ℕ)
        → (load8 m s == u8 ch) ≡ false
        → ((j : ℕ) → j < n → load8 m (s + 1 + j) ≢ u8 ch)
        → (j : ℕ) → j < suc n
        → load8 m (s + j) ≢ u8 ch
    shift n miss rest zero p e = ground arith
    shift n miss rest (suc j) p e = ground (arith, rest j)
