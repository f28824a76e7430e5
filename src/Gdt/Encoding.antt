-- ===== src/Gdt/Encoding.antt =====
-- How the processor reads a descriptor of src/mem/gdt.c: the layout of the Intel manual.
use ratos.Prelude.{ℕ, ◌+◌, ◌*◌, ◌/◌, ◌%◌, ◌^◌, ◌≡◌, ◌≢◌, true, arith, ◌==◌, ◌>>>◌}
use ratos.Prelude.Bits.{bit_and_mask}
use ratos.Gdt.{Gdt, new_entry, s_add_gdt_entry, raw}

-- The fields of the descriptor word `w`.
abbrev pub descriptor_base : ℕ → ℕ
descriptor_base w = w / 2 ^ 16 % 2 ^ 24 + w / 2 ^ 56 % 2 ^ 8 * 2 ^ 24

abbrev pub descriptor_limit : ℕ → ℕ
descriptor_limit w = w % 2 ^ 16 + w / 2 ^ 48 % 2 ^ 4 * 2 ^ 16

abbrev pub descriptor_access : ℕ → ℕ
descriptor_access w = w / 2 ^ 40 % 2 ^ 8

abbrev pub descriptor_flags : ℕ → ℕ
descriptor_flags w = w / 2 ^ 52 % 2 ^ 4

-- The word decodes to the four values, cut to the widths of a descriptor: 32 bits of base, 20 of
-- limit, 8 of access and 4 of flags.
abbrev pub Describes : (w base limit access flags : ℕ) → Type 0
Describes w base limit access flags =
    (descriptor_base w ≡ base % 2 ^ 32)
    × (descriptor_limit w ≡ limit % 2 ^ 20)
    × (descriptor_access w ≡ access % 2 ^ 8)
    × (descriptor_flags w ≡ flags % 2 ^ 4)

module _ (base limit access flags : ℕ) where
  abbrev fields : ℕ
  fields =
      limit % 2 ^ 16
      + base % 2 ^ 24 * 2 ^ 16
      + access % 2 ^ 8 * 2 ^ 40
      + limit / 2 ^ 16 % 2 ^ 4 * 2 ^ 48
      + flags % 2 ^ 4 * 2 ^ 52
      + base / 2 ^ 24 % 2 ^ 8 * 2 ^ 56

  raw-new_entry : raw (new_entry base limit access flags) ≡ fields
  unfolding raw new_entry
  raw-new_entry = omega (
    arith,
    bit_and_mask 16 limit,
    bit_and_mask 24 base,
    bit_and_mask 8 access,
    bit_and_mask 4 (limit >>> 16),
    bit_and_mask 4 flags,
    bit_and_mask 8 (base >>> 24),
  )

  fields-Describes : Describes fields base limit access flags
  fields-Describes = (omega arith, omega arith, omega arith, omega arith)

  new_entry-Describes : Describes (raw (new_entry base limit access flags)) base limit access flags
  new_entry-Describes = rw raw-new_entry fields-Describes

-- The processor reads in the entry what `s_add_gdt_entry` was given for it, and finds every other
-- entry as it was.
pub s_add_gdt_entry-Describes :
    (g : Gdt) (index base limit access flags : ℕ)
    → Describes
        (raw ((s_add_gdt_entry g index base limit access flags).entry index))
        base
        limit
        access
        flags
      × ((i : ℕ)
          → i ≢ index
          → (s_add_gdt_entry g index base limit access flags).entry i ≡ g.entry i)
unfolding s_add_gdt_entry
s_add_gdt_entry-Describes g index base limit access flags =
    (rw self (new_entry-Describes base limit access flags), λ i ne. ground arith)
  where
    self : (index == index) ≡ true
    self = ground arith
