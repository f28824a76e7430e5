-- ===== src/Virt/Mapping.antt =====
-- `virt_map` of src/mem/virt.c on the tables that CR3 names.
use ratos.Prelude.{
  ℕ, ◌/◌, ◌^◌, ◌≤◌, ◌<◌, ◌≡◌, ◌≢◌, ap, ap₂, ◌∙◌, ◌⊎◌, inl, inr, arith, ◌∷◌, ◌==◌, Bool-cases,
}
use ratos.Memory.{Memory, load64, store64}
use ratos.Memory.Words.{load64-store64_self}
use ratos.Virt.{
  Kernel, Outcome, done, virt_pml4_index_offset, virt_pdpt_index_offset, virt_pd_index_offset,
  virt_pt_index_offset,
}
use ratos.Virt.Walk.{virt_index, virt_get_physical_address}
use ratos.Virt.Tables.{slot, IsTree}
use ratos.Virt.Growth.{with_memory}
use ratos.Virt.Path.{entry4, entry3, entry2, table3, table2, table1, pte, virt_index-lt}
use ratos.Virt.Access.{HasTables, level3, level2, level1, written_other, written-IsTree}
use ratos.Virt.Translate.{pte_same, same_way, translated, get_physical_address_lem, Prepared}

-- What `invlpg` records does not matter to the tables.
pub flushed-IsTree :
    (level : ℕ → ℕ) (k : Kernel) (a : ℕ)
    → IsTree level k
    → IsTree level (record k { flushed = a ∷ k.flushed })
flushed-IsTree level k a tree = record {
  offset_pos = tree.offset_pos;
  offset_fits = tree.offset_fits;
  pages_fit = tree.pages_fit;
  reserved = tree.reserved;
  root = tree.root;
  aligned = tree.aligned;
  entries = tree.entries;
  bounded = tree.bounded;
  used = tree.used;
  apart = tree.apart;
}

pub flushed_tables :
    (level : ℕ → ℕ) (k : Kernel) (addr a : ℕ)
    → HasTables level k addr
    → HasTables level (record k { flushed = a ∷ k.flushed }) addr
flushed_tables level k addr a has = record {
  tree = flushed-IsTree level k a has.tree;
  there4 = has.there4;
  there3 = has.there3;
  there2 = has.there2;
}

-- An address that had its tables, and whose entry is not the one written, keeps its translation.
abbrev pub SameElsewhere : (level : ℕ → ℕ) → (k k' : Kernel) → (entry : ℕ) → Type 0
SameElsewhere level k k' entry =
    (addr : ℕ)
    → HasTables level k addr
    → pte k addr ≢ entry
    → (v : ℕ) × (virt_get_physical_address 0 addr k ≡ done v k)
      × (virt_get_physical_address 0 addr k' ≡ done v k')

-- The call returned; the tables are a tree, in which the address now leads to the page.
pub record Mapped (level : ℕ → ℕ) (k : Kernel) (phys_addr addr : ℕ) (o : Outcome (Unit {0}))
    : Type 0 where
  pub level' : ℕ → ℕ
  pub kernel : Kernel
  pub returned : o ≡ done tt kernel
  pub has : HasTables level' kernel addr
  pub translates : virt_get_physical_address 0 addr kernel ≡ done phys_addr kernel
  pub others : SameElsewhere level k kernel (pte kernel addr)

-- The kernel behind the write of an entry and its flush.
abbrev pub mapped : Kernel → Memory → (addr v : ℕ) → Kernel
mapped k m addr v = record k {
  memory = store64 m (pte (with_memory k m) addr) v;
  flushed = addr ∷ k.flushed;
}

module _ (level : ℕ → ℕ) (k : Kernel) (addr v : ℕ) (tree : IsTree level k) (o : Outcome ℕ)
    (r : Prepared level k addr o) (fits : v < 2 ^ 64) where
  abbrev k1 : Kernel
  k1 = with_memory k r.memory

  abbrev m2 : Memory
  m2 = store64 r.memory (pte k1 addr) v

  upper_kept :
      (p j : ℕ) → 2 ≤ r.level' p → j < 512 → load64 m2 (slot k p j) ≡ load64 r.memory (slot k p j)
  upper_kept p j upper below =
      written_other r.level' k1 addr r.has v p j below
        (inl (λ e. absurd (omega (arith, ap r.level' e, level1 r.level' k1 addr r.has))))

  tree2 : IsTree r.level' (with_memory k m2)
  tree2 = written-IsTree r.level' k1 addr r.has v

  at4 : load64 m2 (entry4 k1 addr) ≡ load64 r.memory (entry4 k1 addr)
  at4 =
      upper_kept (k.cr3 / 4096) (virt_index addr virt_pml4_index_offset)
        (omega (arith, r.has.tree.root)) (virt_index-lt addr virt_pml4_index_offset)

  at3 : load64 m2 (entry3 k1 addr) ≡ load64 r.memory (entry3 k1 addr)
  at3 =
      upper_kept (table3 k1 addr) (virt_index addr virt_pdpt_index_offset)
        (omega (arith, level3 r.level' k1 addr r.has)) (virt_index-lt addr virt_pdpt_index_offset)

  at2 : load64 m2 (entry2 k1 addr) ≡ load64 r.memory (entry2 k1 addr)
  at2 =
      upper_kept (table2 k1 addr) (virt_index addr virt_pd_index_offset)
        (omega (arith, level2 r.level' k1 addr r.has)) (virt_index-lt addr virt_pd_index_offset)

  pub has2 : HasTables r.level' (with_memory k m2) addr
  has2 = same_way r.level' k1 m2 addr tree2 at4 at3 at2 r.has

  pub pte2 : pte (with_memory k m2) addr ≡ pte k1 addr
  pte2 = pte_same r.level' k1 m2 addr tree2 at4 at3 at2

  pub written_entry : load64 m2 (pte (with_memory k m2) addr) ≡ v
  written_entry = ap (load64 m2) pte2 ∙ load64-store64_self r.memory (pte k1 addr) v fits

  -- An entry of a table of `k` above the lowest level.
  old_upper :
      (p j : ℕ)
      → 2 ≤ level p
      → j < 512
      → load64 k.memory (slot k p j) ≢ 0
      → load64 m2 (slot k p j) ≡ load64 k.memory (slot k p j)
  old_upper p j upper below present =
      upper_kept p j (omega (arith, upper, r.kept.levels p (omega (arith, upper)))) below
      ∙ r.kept.entries p j (omega (arith, upper)) below (inr present)

  -- The way of another address that had its tables, and its entry.
  module _ (addr' : ℕ) (has : HasTables level k addr') where
    elsewhere4 : load64 m2 (entry4 k addr') ≡ load64 k.memory (entry4 k addr')
    elsewhere4 =
        old_upper (k.cr3 / 4096) (virt_index addr' virt_pml4_index_offset)
          (omega (arith, has.tree.root)) (virt_index-lt addr' virt_pml4_index_offset) has.there4

    elsewhere3 : load64 m2 (entry3 k addr') ≡ load64 k.memory (entry3 k addr')
    elsewhere3 =
        old_upper (table3 k addr') (virt_index addr' virt_pdpt_index_offset)
          (omega (arith, level3 level k addr' has)) (virt_index-lt addr' virt_pdpt_index_offset)
          has.there3

    elsewhere2 : load64 m2 (entry2 k addr') ≡ load64 k.memory (entry2 k addr')
    elsewhere2 =
        old_upper (table2 k addr') (virt_index addr' virt_pd_index_offset)
          (omega (arith, level2 level k addr' has)) (virt_index-lt addr' virt_pd_index_offset)
          has.there2

    pub tables_elsewhere : HasTables r.level' (with_memory k m2) addr'
    tables_elsewhere = same_way r.level' k m2 addr' tree2 elsewhere4 elsewhere3 elsewhere2 has

    pub pte_elsewhere : pte (with_memory k m2) addr' ≡ pte k addr'
    pte_elsewhere = pte_same r.level' k m2 addr' tree2 elsewhere4 elsewhere3 elsewhere2

    pub value_elsewhere :
        pte k addr' ≢ pte k1 addr
        → load64 m2 (pte (with_memory k m2) addr') ≡ load64 k.memory (pte k addr')
    value_elsewhere ne =
        ap (load64 m2) pte_elsewhere
        ∙ written_other r.level' k1 addr r.has v (table1 k addr')
            (virt_index addr' virt_pt_index_offset) (virt_index-lt addr' virt_pt_index_offset)
            differs
        ∙ r.kept.entries (table1 k addr') (virt_index addr' virt_pt_index_offset)
            (omega (arith, level1 level k addr' has)) (virt_index-lt addr' virt_pt_index_offset)
            (inl (level1 level k addr' has))
      where
        differs :
            (table1 k addr' ≢ table1 k1 addr)
            ⊎ (virt_index addr' virt_pt_index_offset ≢ virt_index addr virt_pt_index_offset)
        differs = elim (Bool-cases (table1 k addr' == table1 k1 addr)) [
          | inr other ↦ inl (ground arith)
          | inl e ↦ inr (λ e'. ne (ap₂ (slot k) (ground arith) e'))
        ]

  pub others2 : SameElsewhere level k (mapped k r.memory addr v) (pte k1 addr)
  others2 addr' has ne = (
    translated (load64 k.memory (pte k addr')),
    get_physical_address_lem level k addr' has,
    get_physical_address_lem r.level' (mapped k r.memory addr v) addr'
          (flushed_tables r.level' (with_memory k m2) addr' addr (tables_elsewhere addr' has))
        ∙ ap (λ t. done (translated t) (mapped k r.memory addr v)) (value_elsewhere addr' has ne),
  )
