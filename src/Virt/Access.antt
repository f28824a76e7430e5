-- ===== src/Virt/Access.antt =====
-- Reading and writing the entry of an address in the tables of src/mem/virt.c.
use ratos.Prelude.{Bool, false, true, ℕ, ◌*◌, ◌/◌, ◌<◌, ◌≡◌, ◌≢◌, ap, ◌∙◌, ◌⊎◌, inl, arith}
use ratos.Memory.{load64, store64}
use ratos.Memory.Words.{load8-store64_apart, load64-store64-Apart}
use ratos.Phys.Bitmap.{page_bit}
use ratos.Phys.Untouched.{page_bit_ext}
use ratos.Virt.{
  Kernel, done, virt_pml4_index_offset, virt_pdpt_index_offset, virt_pd_index_offset,
  virt_pt_index_offset,
}
use ratos.Virt.Walk.{
  virt_index, pte_of_pde, pte_of_pdpte, pte_of_pml4e, pte_of_ctx, s_virt_get_or_create_pte,
  table_flags, s_virt_get_pte,
}
use ratos.Virt.Tables.{slot, IsTree}
use ratos.Virt.Growth.{with_memory}
use ratos.Virt.Path.{
  entry4, entry3, entry2, table3, table2, table1, pte, virt_index-lt, next_level, no_big_page,
  found_entry_lem, ctx_head, pml4e_head, pdpte_head, pde_end, goes_on_lem,
}

-- The three tables below the top one that an address needs are there.
pub record HasTables (level : ℕ → ℕ) (k : Kernel) (addr : ℕ) : Type 0 where
  pub tree : IsTree level k
  pub there4 : load64 k.memory (entry4 k addr) ≢ 0
  pub there3 : load64 k.memory (entry3 k addr) ≢ 0
  pub there2 : load64 k.memory (entry2 k addr) ≢ 0

module _ (level : ℕ → ℕ) (k : Kernel) (addr : ℕ) (has : HasTables level k addr) where
  pub level3 : level (table3 k addr) ≡ 3
  level3 =
      next_level level k has.tree (k.cr3 / 4096) (virt_index addr virt_pml4_index_offset) 2
        has.tree.root (virt_index-lt addr virt_pml4_index_offset) has.there4

  pub level2 : level (table2 k addr) ≡ 2
  level2 =
      next_level level k has.tree (table3 k addr) (virt_index addr virt_pdpt_index_offset) 1 level3
        (virt_index-lt addr virt_pdpt_index_offset) has.there3

  pub level1 : level (table1 k addr) ≡ 1
  level1 =
      next_level level k has.tree (table2 k addr) (virt_index addr virt_pd_index_offset) 0 level2
        (virt_index-lt addr virt_pd_index_offset) has.there2

  -- The walk finds the entry and changes nothing, whether or not it would create tables.
  pub pte_of_ctx_lem :
      (create : Bool) (flags : ℕ) → pte_of_ctx create flags 0 addr false k ≡ done (pte k addr) k
  pte_of_ctx_lem create flags =
      let i4 : ℕ = virt_index addr virt_pml4_index_offset in
      let i3 : ℕ = virt_index addr virt_pdpt_index_offset in
      let i2 : ℕ = virt_index addr virt_pd_index_offset in
      let r : ℕ = k.cr3 / 4096 in
      ctx_head level k has.tree create flags addr false
      ∙ goes_on_lem level k has.tree _ r i4 (λ e. pte_of_pml4e create flags e addr false)
          (found_entry_lem level k has.tree r i4 flags create has.there4)
      ∙ pml4e_head level k has.tree create flags r i4 addr false (omega (arith, has.tree.root))
          (virt_index-lt addr virt_pml4_index_offset)
      ∙ goes_on_lem level k has.tree _ (table3 k addr) i3
          (λ e. pte_of_pdpte create flags e addr false)
          (found_entry_lem level k has.tree (table3 k addr) i3 flags create has.there3)
      ∙ pdpte_head level k has.tree create flags (table3 k addr) i3 addr false
          (omega (arith, level3)) (virt_index-lt addr virt_pdpt_index_offset)
      ∙ goes_on_lem level k has.tree _ (table2 k addr) i2 (λ e. pte_of_pde e addr false)
          (found_entry_lem level k has.tree (table2 k addr) i2 flags create has.there2)
      ∙ pde_end level k has.tree (table2 k addr) i2 addr (omega (arith, level2))
          (virt_index-lt addr virt_pd_index_offset)
          (no_big_page level k has.tree (table2 k addr) i2 (omega (arith, level2))
            (virt_index-lt addr virt_pd_index_offset))

  pub get_pte_lem : s_virt_get_pte 0 addr false k ≡ done (pte k addr) k
  unfolding s_virt_get_pte
  get_pte_lem = pte_of_ctx_lem false 0

  pub get_or_create_pte_lem :
      (is_user : Bool) → s_virt_get_or_create_pte 0 addr is_user false k ≡ done (pte k addr) k
  unfolding s_virt_get_or_create_pte
  get_or_create_pte_lem is_user = pte_of_ctx_lem true (table_flags is_user)

  -- A write to the entry changes no other entry of a table.
  pub written_other :
      (v r j : ℕ)
      → j < 512
      → (r ≢ table1 k addr) ⊎ (j ≢ virt_index addr virt_pt_index_offset)
      → load64 (store64 k.memory (pte k addr) v) (slot k r j) ≡ load64 k.memory (slot k r j)
  written_other v r j below other =
      load64-store64-Apart k.memory (pte k addr) v (slot k r j)
        (let small = virt_index-lt addr virt_pt_index_offset in omega arith)

  pub written_bits :
      (v r : ℕ)
      → r < k.phys.bitmap_size * 64
      → page_bit k.phys (store64 k.memory (pte k addr) v) r ≡ page_bit k.phys k.memory r
  written_bits v r below =
      let t : ℕ = table1 k addr in
      let small = virt_index-lt addr virt_pt_index_offset in
      let apart =
        has.tree.apart t (has.tree.bounded t (omega (arith, level1)))
          (inl (omega (arith, level1))) in
      page_bit_ext k.phys (store64 k.memory (pte k addr) v) k.memory r below
        (λ b lo hi. load8-store64_apart k.memory (pte k addr) v b (omega arith))

  pub written-IsTree : (v : ℕ) → IsTree level (with_memory k (store64 k.memory (pte k addr) v))
  written-IsTree v = record {
    offset_pos = has.tree.offset_pos;
    offset_fits = has.tree.offset_fits;
    pages_fit = has.tree.pages_fit;
    reserved =
        written_bits v 0
          (omega (arith, has.tree.bounded (k.cr3 / 4096) (omega (arith, has.tree.root))))
        ∙ has.tree.reserved;
    root = has.tree.root;
    aligned = has.tree.aligned;
    entries = λ r j high below.
        rw (written_other v r j below (inl (λ e. absurd (omega (arith, ap level e, level1)))))
          (has.tree.entries r j high below);
    bounded = has.tree.bounded;
    used = λ r pos. written_bits v r (has.tree.bounded r pos) ∙ has.tree.used r pos;
    apart = λ r below free. has.tree.apart r below (ground (arith, written_bits v r below));
  }
