-- ===== src/Tests/Virt.antt =====
-- Runs of src/mem/virt.c on a small machine.
use ratos.Prelude.{
  ℕ, ◌+◌, ◌*◌, ◌<◌, ◌≡◌, ◌≢◌, ◌⊎◌, inl, inr, refl, ap, arith, [], ◌==◌, if◌then◌else◌,
}
use ratos.Prelude.Bits.{testbit}
use ratos.Memory.{load8, load64}
use ratos.Memory.Words.{load64_zero}
use ratos.Phys.Bitmap.{page_bit}
use ratos.Virt.{Kernel, virt_page_size}
use ratos.Virt.Tables.{page_at, slot, IsTree}
use ratos.Prelude.{◌≤◌, ◌≢◌, ◌⊎◌, Bool-cases}
use ratos.Virt.{virt_page_size}
use ratos.Virt.Walk.{virt_index}
use ratos.Virt.Tables.{IsEntry}
use ratos.Virt.Access.{HasTables}

abbrev pub offset : ℕ
offset = 0xffff800000000000

-- 64 pages: page 0 is reserved, page 1 is an empty top table, page 2 holds the bitmap.
abbrev pub machine : Kernel
machine = record {
  phys = record {
    hhdm_offset = offset;
    bitmap = offset + 2 * 4096;
    bitmap_size = 1;
    addr_space_size = 64 * 4096;
  };
  memory = λ a. if a == offset + 2 * 4096 then 0b111 else 0;
  hhdm_offset = offset;
  kernel_pdpt_virt = 0;
  cr3 = 4096;
  flushed = [];
}

abbrev pub top_only : ℕ → ℕ
top_only p = if p == 1 then 4 else 0

top_is_one : (p : ℕ) → 0 < top_only p → p ≡ 1
top_is_one p pos = ground arith

pub machine-IsTree : IsTree top_only machine
unfolding page_bit testbit load64 load8
machine-IsTree = record {
  offset_pos = omega arith;
  offset_fits = omega arith;
  pages_fit = omega arith;
  reserved = refl;
  root = refl;
  aligned = refl;
  entries = λ p i high below.
      let e : p ≡ 1 = top_is_one p (omega arith) in
      inl (load64_zero machine.memory (slot machine p i) (λ b lo hi. grind arith));
  bounded = λ p pos. omega (arith, top_is_one p pos);
  used = λ p pos. ap (page_bit machine.phys machine.memory) (top_is_one p pos);
  apart = λ p below free. elim free [
    | inl pos ↦ omega (arith, top_is_one p pos)
    | inr clear ↦
        let ne : p ≢ 2 =
          λ e. absurd (omega (arith, ap (page_bit machine.phys machine.memory) e, clear)) in
        omega arith
  ];
}

-- The same machine with the tables for 0x400000 at the pages 3, 4 and 5.
abbrev pub machine' : Kernel
machine' = record machine {
  memory = λ a.
      if a == offset + 2 * 4096
      then 0b111111
      else if a == offset + 1 * 4096
      then 0x03
      else if a == offset + 1 * 4096 + 1
      then 0x30
      else if a == offset + 3 * 4096
      then 0x03
      else if a == offset + 3 * 4096 + 1
      then 0x40
      else if a == offset + 4 * 4096 + 16
      then 0x03
      else if a == offset + 4 * 4096 + 17
      then 0x50
      else if a == offset + 5 * 4096
      then 0x03
      else if a == offset + 5 * 4096 + 1
      then 0x70
      else 0;
}

abbrev pub four_tables : ℕ → ℕ
four_tables p =
    if p == 1 then 4 else if p == 3 then 3 else if p == 4 then 2 else if p == 5 then 1 else 0

pub table_pages : (p : ℕ) → 0 < four_tables p → (p ≡ 1) ⊎ (p ≡ 3) ⊎ (p ≡ 4) ⊎ (p ≡ 5)
table_pages p pos = ground arith

-- The bits of the pages that are in use.
used_pages :
    (p : ℕ) → (p ≡ 1) ⊎ (p ≡ 3) ⊎ (p ≡ 4) ⊎ (p ≡ 5) → page_bit machine'.phys machine'.memory p ≡ 1
unfolding page_bit testbit load64 load8
used_pages p (inl e) = ap (page_bit machine'.phys machine'.memory) e
used_pages p (inr (inl e)) = ap (page_bit machine'.phys machine'.memory) e
used_pages p (inr (inr (inl e))) = ap (page_bit machine'.phys machine'.memory) e
used_pages p (inr (inr (inr e))) = ap (page_bit machine'.phys machine'.memory) e

-- A table whose only entry is number `j`.
one_entry :
    (q j i : ℕ)
    → ((b : ℕ)
        → (b < slot machine' q j) ⊎ (slot machine' q j + 8 ≤ b)
        → page_at machine' q ≤ b
        → b < page_at machine' q + 4096
        → load8 machine'.memory b ≡ 0)
    → i < 512
    → (i ≡ j) ⊎ (load64 machine'.memory (slot machine' q i) ≡ 0)
one_entry q j i zeros below = elim (Bool-cases (i == j)) [
  | inl e ↦ inl (ground arith)
  | inr ne ↦ inr (
      load64_zero machine'.memory (slot machine' q i)
        (λ b lo hi. zeros b (ground arith) (omega arith) (omega arith)))
]

pub only1 : (i : ℕ) → i < 512 → (i ≡ 0) ⊎ (load64 machine'.memory (slot machine' 1 i) ≡ 0)
unfolding load8
only1 i below = one_entry 1 0 i (λ b out lo hi. grind arith) below

pub only3 : (i : ℕ) → i < 512 → (i ≡ 0) ⊎ (load64 machine'.memory (slot machine' 3 i) ≡ 0)
unfolding load8
only3 i below = one_entry 3 0 i (λ b out lo hi. grind arith) below

pub only4 : (i : ℕ) → i < 512 → (i ≡ 2) ⊎ (load64 machine'.memory (slot machine' 4 i) ≡ 0)
unfolding load8
only4 i below = one_entry 4 2 i (λ b out lo hi. grind arith) below

entries' :
    (p i : ℕ)
    → 2 ≤ four_tables p
    → i < 512
    → IsEntry four_tables (four_tables p) (load64 machine'.memory (slot machine' p i))
unfolding load64 load8
entries' p i high below = elim (table_pages p (omega arith)) [
  | inl e ↦ rw e (elim (only1 i below) [ inl e' ↦ rw e' (inr (refl, refl)) | inr z ↦ inl z ])
  | inr (inl e) ↦ rw e (elim (only3 i below) [ inl e' ↦ rw e' (inr (refl, refl)) | inr z ↦ inl z ])
  | inr (inr (inl e)) ↦
      rw e (elim (only4 i below) [ inl e' ↦ rw e' (inr (refl, refl)) | inr z ↦ inl z ])
  | inr (inr (inr e)) ↦ absurd (ground arith)
]

pub machine'-IsTree : IsTree four_tables machine'
unfolding page_bit testbit load64 load8
machine'-IsTree = record {
  offset_pos = omega arith;
  offset_fits = omega arith;
  pages_fit = omega arith;
  reserved = refl;
  root = refl;
  aligned = refl;
  entries = entries';
  bounded = λ p pos. omega (arith, table_pages p pos);
  used = λ p pos. used_pages p (table_pages p pos);
  apart = λ p below free. elim free [
    | inl pos ↦ omega (arith, table_pages p pos)
    | inr clear ↦
        let ne : p ≢ 2 =
          λ e. absurd (omega (arith, ap (page_bit machine'.phys machine'.memory) e, clear)) in
        omega arith
  ];
}

machine'-HasTables : HasTables four_tables machine' 0x400000
unfolding load64 load8 virt_index
machine'-HasTables = record {
  tree = machine'-IsTree;
  there4 = λ z. absurd (omega (arith, z));
  there3 = λ z. absurd (omega (arith, z));
  there2 = λ z. absurd (omega (arith, z));
}

machine'-next : HasTables four_tables machine' (0x400000 + virt_page_size)
unfolding load64 load8 virt_index
machine'-next = record {
  tree = machine'-IsTree;
  there4 = λ z. absurd (omega (arith, z));
  there3 = λ z. absurd (omega (arith, z));
  there2 = λ z. absurd (omega (arith, z));
}
