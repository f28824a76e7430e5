-- ===== src/Gdt.antt =====
-- src/mem/gdt.c: the global descriptor table. An entry is the struct of bit fields; `raw` is the
-- 64-bit word that the packed struct occupies, with the first field in the lowest bits.
pub mod Encoding
pub mod Segments
use ratos.Prelude.{
  ℕ, zero, suc, ◌+◌, ◌-◌, ◌*◌, ◌%◌, ◌^◌, bit_and, bit_or, List, [], ◌∷◌, Option, none, some,
}
use ratos.Prelude.{u16, ◌==◌, if◌then◌else◌, ◌<<<◌, ◌>>>◌}

abbrev pub gdt_access_present : ℕ
gdt_access_present = 0x80

abbrev pub gdt_access_dpl_ring0 : ℕ
gdt_access_dpl_ring0 = 0x00

abbrev pub gdt_access_dpl_ring3 : ℕ
gdt_access_dpl_ring3 = 0x60

abbrev pub gdt_access_code_segment : ℕ
gdt_access_code_segment = 0x18

abbrev pub gdt_access_data_segment : ℕ
gdt_access_data_segment = 0x10

abbrev pub gdt_access_readable : ℕ
gdt_access_readable = 0x02

abbrev pub gdt_access_writable : ℕ
gdt_access_writable = 0x02

abbrev pub gdt_access_accessed : ℕ
gdt_access_accessed = 0x01

abbrev pub gdt_flags_page_granularity : ℕ
gdt_flags_page_granularity = 0x8

abbrev pub gdt_flags_protected_mode : ℕ
gdt_flags_protected_mode = 0x4

abbrev pub gdt_flags_long_mode_code : ℕ
gdt_flags_long_mode_code = 0x2

abbrev pub gdt_entries : ℕ
gdt_entries = 5

-- `gdt_entry_t`.
pub record GdtEntry : Type 0 where
  pub limit_low : ℕ
  pub base_low : ℕ
  pub access : ℕ
  pub limit_high : ℕ
  pub flags : ℕ
  pub base_high : ℕ

-- `gdtr_t`.
pub record Gdtr : Type 0 where
  pub size : ℕ
  pub offset : ℕ

-- The static variables, and the operand of the last `lgdt`, behind which the segment registers are
-- reloaded.
pub record Gdt : Type 0 where
  pub entry : ℕ → GdtEntry
  pub gdtr : Gdtr
  pub loaded : Option Gdtr

-- The six assignments of `s_add_gdt_entry`. One to a bit field keeps the bits that fit.
unfoldable pub new_entry : (base limit access flags : ℕ) → GdtEntry
new_entry base limit access flags = record {
  limit_low = bit_and limit 0xffff % 2 ^ 16;
  base_low = bit_and base 0xffffff % 2 ^ 24;
  access = bit_and access 0xff % 2 ^ 8;
  limit_high = bit_and (limit >>> 16) 0xf % 2 ^ 4;
  flags = bit_and flags 0xf % 2 ^ 4;
  base_high = bit_and (base >>> 24) 0xff % 2 ^ 8;
}

unfoldable pub s_add_gdt_entry : Gdt → (index base limit access flags : ℕ) → Gdt
unfolding new_entry
s_add_gdt_entry g index base limit access flags = record g {
  entry = λ i. if i == index then new_entry base limit access flags else g.entry i;
}

unfoldable pub s_load_gdt : Gdt → Gdt
s_load_gdt g = record g { loaded = some g.gdtr }

-- `gdt_address` is `(uint64_t) gdt`.
unfoldable pub gdt_init : (gdt_address : ℕ) → Gdt → Gdt
unfolding s_add_gdt_entry s_load_gdt
gdt_init gdt_address g0 =
    let g1 = s_add_gdt_entry g0 0 0 0 0 0 in
    let g2 =
      s_add_gdt_entry g1 1 0 0xfffff
        (bit_or
          (bit_or (bit_or (bit_or gdt_access_present gdt_access_dpl_ring0) gdt_access_code_segment)
            gdt_access_readable)
          gdt_access_accessed)
        (bit_or gdt_flags_page_granularity gdt_flags_long_mode_code) in
    let g3 =
      s_add_gdt_entry g2 2 0 0xfffff
        (bit_or
          (bit_or (bit_or (bit_or gdt_access_present gdt_access_dpl_ring0) gdt_access_data_segment)
            gdt_access_writable)
          gdt_access_accessed)
        (bit_or gdt_flags_page_granularity gdt_flags_protected_mode) in
    let g4 =
      s_add_gdt_entry g3 3 0 0xfffff
        (bit_or
          (bit_or (bit_or (bit_or gdt_access_present gdt_access_dpl_ring3) gdt_access_code_segment)
            gdt_access_readable)
          gdt_access_accessed)
        (bit_or gdt_flags_page_granularity gdt_flags_long_mode_code) in
    let g5 =
      s_add_gdt_entry g4 4 0 0xfffff
        (bit_or
          (bit_or (bit_or (bit_or gdt_access_present gdt_access_dpl_ring3) gdt_access_data_segment)
            gdt_access_writable)
          gdt_access_accessed)
        (bit_or gdt_flags_page_granularity gdt_flags_protected_mode) in
    s_load_gdt
      (record g5 { gdtr = record { size = u16 (8 * gdt_entries - 1); offset = gdt_address } })

-- The word in memory.
unfoldable pub raw : GdtEntry → ℕ
raw e =
    e.limit_low
    + e.base_low * 2 ^ 16
    + e.access * 2 ^ 40
    + e.limit_high * 2 ^ 48
    + e.flags * 2 ^ 52
    + e.base_high * 2 ^ 56
