-- ===== src/Virt/Entries.antt =====
-- Page table entries as numbers: the address of a page of 4096 bytes with flags in its low digits.
use native.Mathlib.Nat.{pow-suc}
use ratos.Prelude.{
  ℕ, zero, suc, ◌+◌, ◌-◌, ◌*◌, ◌/◌, ◌%◌, ◌^◌, ◌<◌, ◌≡◌, ap, ap₂, ◌∙◌, bit_and, bit_or, arith, ◌>>>◌,
}
use ratos.Prelude.Bits.{bit_and_step, bit_or_step, bit_and_mask, bit_and_pow, testbit, testbit-low}
use ratos.Virt.{vf_pd_present, entry_phys_addr_mask, vf_pd_big_page}
use ratos.Virt.Walk.{virt_index}

bit_or_zero : (fuel x : ℕ) → x < fuel → bit_or 0 x ≡ x
bit_or_zero zero x h = absurd (omega arith)
bit_or_zero (suc fuel) zero h = omega (arith, bit_or_step 0 0)
bit_or_zero (suc fuel) (suc x) h =
    let half = bit_or_zero fuel (suc x / 2) (omega arith) in
    omega (arith, half, bit_or_step 0 (suc x))

bit_or_right_zero : (fuel x : ℕ) → x < fuel → bit_or x 0 ≡ x
bit_or_right_zero zero x h = absurd (omega arith)
bit_or_right_zero (suc fuel) zero h = bit_or_zero 1 0 (omega arith)
bit_or_right_zero (suc fuel) (suc x) h =
    let half = bit_or_right_zero fuel (suc x / 2) (omega arith) in
    omega (arith, half, bit_or_step (suc x) 0)

-- An address with `k` low zeros, and flags that fit there.
pub bit_or_low : (k p f : ℕ) → f < 2 ^ k → bit_or (p * 2 ^ k) f ≡ p * 2 ^ k + f
bit_or_low zero p f h =
    ap (bit_or (p * 2 ^ 0)) {x = f} {y = 0} (omega arith)
    ∙ bit_or_right_zero (suc (p * 2 ^ 0)) (p * 2 ^ 0) (omega arith)
    ∙ omega arith
bit_or_low (suc k) p f h = omega (
  arith,
  bit_or_step (p * 2 ^ suc k) f,
  ap (λ (t : ℕ). p * t) (pow-suc 2 k),
  pow-suc 2 k,
  ap (λ t. bit_or t (f / 2)) {x = p * 2 ^ suc k / 2} {y = p * 2 ^ k}
      (omega (arith, ap (λ (t : ℕ). p * t) (pow-suc 2 k))),
  bit_or_low k p (f / 2) (omega (arith, pow-suc 2 k)),
)

-- The entry for a new table: the present flag is there already.
pub new_entry_lem :
    (p f : ℕ) → f < 4096 → f % 2 ≡ 1 → bit_or (bit_or (p * 4096) f) vf_pd_present ≡ p * 4096 + f
new_entry_lem p f small odd =
    let value : bit_or (p * 4096) f ≡ p * 4096 + f = bit_or_low 12 p f small in
    rw value (
      omega (
        arith,
        bit_or_step (p * 4096 + f) 1,
        bit_or_right_zero (suc ((p * 4096 + f) / 2)) ((p * 4096 + f) / 2) (omega arith),
      ))

-- A mask with `k` low zeros takes the digits behind them.
bit_and_high :
    (k x r mask : ℕ) → r < 2 ^ k → bit_and (x * 2 ^ k + r) (mask * 2 ^ k) ≡ bit_and x mask * 2 ^ k
bit_and_high zero x r mask h =
    ap₂ bit_and {x = x * 2 ^ 0 + r} {y = x} {u = mask * 2 ^ 0} {v = mask} (omega arith)
      (omega arith)
    ∙ omega arith
bit_and_high (suc k) x r mask h =
    let twice : (t : ℕ) → t * 2 ^ suc k ≡ 2 * (t * 2 ^ k) =
      λ t. omega (arith, ap (λ (s : ℕ). t * s) (pow-suc 2 k)) in
    omega (
      arith,
      bit_and_step (x * 2 ^ suc k + r) (mask * 2 ^ suc k),
      twice x,
      twice mask,
      twice (bit_and x mask),
      ap₂ bit_and {x = (x * 2 ^ suc k + r) / 2} {y = x * 2 ^ k + r / 2} {u = mask * 2 ^ suc k / 2}
          {v = mask * 2 ^ k} (omega (arith, twice x)) (omega (arith, twice mask)),
      bit_and_high k x (r / 2) mask (omega (arith, pow-suc 2 k)),
    )

-- The frame of an entry.
abbrev pub frame_of : ℕ → ℕ
frame_of e = e / 4096 % 2 ^ 41

pub table_address : (e : ℕ) → bit_and e entry_phys_addr_mask ≡ frame_of e * 4096
table_address e =
    ap (λ t. bit_and t entry_phys_addr_mask) {x = e} {y = e / 4096 * 2 ^ 12 + e % 4096}
      (omega arith)
    ∙ bit_and_high 12 (e / 4096) (e % 4096) (2 ^ 41 - 1) (omega arith)
    ∙ omega (arith, bit_and_mask 41 (e / 4096))

module _ (p f : ℕ) (small : f < 4096) where
  pub frame_of-entry : p < 2 ^ 40 → frame_of (p * 4096 + f) ≡ p
  frame_of-entry below = omega arith

  pub big_page-entry : testbit f 7 ≡ 0 → bit_and (p * 4096 + f) vf_pd_big_page ≡ 0
  big_page-entry e =
      let digit : testbit (f + 2 ^ 12 * p) 7 ≡ 0 = testbit-low 12 7 f p (omega arith) ∙ e in
      let swap : p * 4096 + f ≡ f + 2 ^ 12 * p = omega arith in
      rw swap (omega (arith, bit_and_pow 7 (f + 2 ^ 12 * p), digit))

-- An index selects 9 digits.
pub virt_index_lem : (addr offset : ℕ) → virt_index addr offset ≡ addr / 2 ^ offset % 512
unfolding virt_index
virt_index_lem addr offset = bit_and_mask 9 (addr >>> offset)
