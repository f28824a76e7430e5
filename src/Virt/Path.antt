-- ===== src/Virt/Path.antt =====
-- The way of an address through the tables of src/mem/virt.c.
use ratos.Prelude.{
  ℕ, suc, ◌+◌, ◌*◌, ◌/◌, ◌^◌, ◌≤◌, ◌<◌, ◌≡◌, ◌≢◌, ap, ◌∙◌, inl, inr, arith, bit_and, Bool, true,
  false, not, ◌==◌,
}
use ratos.Memory.{load64}
use ratos.Virt.{
  Kernel, Outcome, done, Run, pure, and_then, s_phys_to_virt, virt_pml4_index_offset,
  virt_pdpt_index_offset, virt_pd_index_offset, virt_pt_index_offset, vf_pd_big_page, ◌>>=◌, ◌>>◌,
}
use ratos.Virt.Walk.{
  create_table, s_virt_get_top_level, s_virt_entry_ptr_to_table_ptr, s_virt_get_entry_ptr,
  virt_index, unless_null, pte_of_pde, pte_of_pdpte, pte_of_pml4e, pte_of_ctx,
}
use ratos.Virt.Entries.{frame_of, table_address, virt_index_lem}
use ratos.Virt.Tables.{page_at, slot, IsTree}

-- The tables that an address passes, as pages, and the pointer to its entry in the last one.
abbrev pub entry4 : Kernel → ℕ → ℕ
entry4 k addr = slot k (k.cr3 / 4096) (virt_index addr virt_pml4_index_offset)

abbrev pub table3 : Kernel → ℕ → ℕ
table3 k addr = frame_of (load64 k.memory (entry4 k addr))

abbrev pub entry3 : Kernel → ℕ → ℕ
entry3 k addr = slot k (table3 k addr) (virt_index addr virt_pdpt_index_offset)

abbrev pub table2 : Kernel → ℕ → ℕ
table2 k addr = frame_of (load64 k.memory (entry3 k addr))

abbrev pub entry2 : Kernel → ℕ → ℕ
entry2 k addr = slot k (table2 k addr) (virt_index addr virt_pd_index_offset)

abbrev pub table1 : Kernel → ℕ → ℕ
table1 k addr = frame_of (load64 k.memory (entry2 k addr))

abbrev pub pte : Kernel → ℕ → ℕ
pte k addr = slot k (table1 k addr) (virt_index addr virt_pt_index_offset)

pub virt_index-lt : (addr offset : ℕ) → virt_index addr offset < 512
virt_index-lt addr offset = omega (arith, virt_index_lem addr offset)

module _ (level : ℕ → ℕ) (k : Kernel) (tree : IsTree level k) where
  -- An entry that is not missing names a table one level below.
  pub next_level :
      (p i l : ℕ)
      → level p ≡ suc (suc l)
      → i < 512
      → load64 k.memory (slot k p i) ≢ 0
      → level (frame_of (load64 k.memory (slot k p i))) ≡ suc l
  next_level p i l e small present = elim (tree.entries p i (omega (arith, e)) small) [
    | inl missing ↦ absurd (present missing)
    | inr (below, _) ↦ omega (arith, below, e)
  ]

  pub no_big_page :
      (p i : ℕ) → 2 ≤ level p → i < 512 → bit_and (load64 k.memory (slot k p i)) vf_pd_big_page ≡ 0
  no_big_page p i upper small = elim (tree.entries p i upper small) [
    | inl missing ↦ ap (λ (t : ℕ). bit_and t vf_pd_big_page) missing
    | inr (_, small_page) ↦ small_page
  ]

  -- The table that an entry names lies in the direct map.
  frame_fits :
      (p i : ℕ)
      → 2 ≤ level p
      → i < 512
      → k.hhdm_offset + frame_of (load64 k.memory (slot k p i)) * 4096 < 2 ^ 64
  frame_fits p i upper small =
      let root_in = tree.bounded (k.cr3 / 4096) (omega (arith, tree.root)) in
      elim (tree.entries p i upper small) [
        | inl missing ↦ omega (arith, ap frame_of missing, root_in, tree.offset_fits)
        | inr (below, _) ↦ omega (
          arith,
          tree.bounded (frame_of (load64 k.memory (slot k p i))) (omega (arith, below, upper)),
          tree.offset_fits,
        )
      ]

  pub table_ptr_lem :
      (p i : ℕ)
      → 2 ≤ level p
      → i < 512
      → s_virt_entry_ptr_to_table_ptr (slot k p i) k
        ≡ done (page_at k (frame_of (load64 k.memory (slot k p i)))) k
  unfolding s_virt_entry_ptr_to_table_ptr s_phys_to_virt
  table_ptr_lem p i upper small =
      rw (table_address (load64 k.memory (slot k p i)))
        (ap (λ (t : ℕ). done t k) (omega (arith, frame_fits p i upper small)))

  pub top_level_lem : s_virt_get_top_level 0 k ≡ done (page_at k (k.cr3 / 4096)) k
  unfolding s_virt_get_top_level s_phys_to_virt
  top_level_lem =
      ap (λ (t : ℕ). done t k)
        (omega (
          arith,
          tree.offset_fits,
          tree.aligned,
          tree.bounded (k.cr3 / 4096) (omega (arith, tree.root)),
          tree.pages_fit,
        ))

  pub found_entry_lem :
      (p i flags : ℕ) (create : Bool)
      → load64 k.memory (slot k p i) ≢ 0
      → s_virt_get_entry_ptr (page_at k p) i create flags k ≡ done (slot k p i) k
  unfolding s_virt_get_entry_ptr
  found_entry_lem p i flags create present =
      let there : load64 k.memory (slot k p i) == 0 ≡ false = ground arith in
      ap
        (λ t.
          (elim t as (λ _. Run ℕ) [
            | false ↦ pure (slot k p i)
            | true ↦ elim (not create) as (λ _. Run ℕ) [
              | true ↦ pure 0
              | false ↦ (create_table (page_at k p) i flags >> pure (slot k p i))
            ]
          ])
            k)
        there

  pub unless_null_lem : (p i : ℕ) (rest : Run ℕ) → unless_null (slot k p i) rest k ≡ rest k
  unless_null_lem p i rest =
      let e : slot k p i == 0 ≡ false = ground (arith, tree.offset_pos) in
      ap (λ t. (elim t as (λ _. Run ℕ) [ true ↦ pure 0 | false ↦ rest ]) k) e

  -- What the walk does at an entry that it reached: it asks for the next one and goes on from there.
  pub ctx_head :
      (create : Bool) (flags addr : ℕ) (big : Bool)
      → pte_of_ctx create flags 0 addr big k
        ≡ and_then
            (s_virt_get_entry_ptr
              (page_at k (k.cr3 / 4096))
              (virt_index addr virt_pml4_index_offset)
              create
              flags
              k)
            (λ e. unless_null e (pte_of_pml4e create flags e addr big))
  unfolding pte_of_ctx
  ctx_head create flags addr big =
      ap
        (λ o. and_then o (λ pml4.
          s_virt_get_entry_ptr pml4 (virt_index addr virt_pml4_index_offset) create flags >>= λ e.
          unless_null e (pte_of_pml4e create flags e addr big)))
        top_level_lem

  pub pml4e_head :
      (create : Bool) (flags p i addr : ℕ) (big : Bool)
      → 2 ≤ level p
      → i < 512
      → pte_of_pml4e create flags (slot k p i) addr big k
        ≡ and_then
            (s_virt_get_entry_ptr
              (page_at k (frame_of (load64 k.memory (slot k p i))))
              (virt_index addr virt_pdpt_index_offset)
              create
              flags
              k)
            (λ e. unless_null e (pte_of_pdpte create flags e addr big))
  unfolding pte_of_pml4e
  pml4e_head create flags p i addr big upper below =
      ap
        (λ o. and_then o (λ pdpt.
          s_virt_get_entry_ptr pdpt (virt_index addr virt_pdpt_index_offset) create flags >>= λ e.
          unless_null e (pte_of_pdpte create flags e addr big)))
        (table_ptr_lem p i upper below)

  pub pdpte_head :
      (create : Bool) (flags p i addr : ℕ) (big : Bool)
      → 2 ≤ level p
      → i < 512
      → pte_of_pdpte create flags (slot k p i) addr big k
        ≡ and_then
            (s_virt_get_entry_ptr
              (page_at k (frame_of (load64 k.memory (slot k p i))))
              (virt_index addr virt_pd_index_offset)
              create
              flags
              k)
            (λ e. unless_null e (pte_of_pde e addr big))
  unfolding pte_of_pdpte
  pdpte_head create flags p i addr big upper below =
      ap
        (λ o. and_then o (λ pd.
          s_virt_get_entry_ptr pd (virt_index addr virt_pd_index_offset) create flags >>= λ e.
          unless_null e (pte_of_pde e addr big)))
        (table_ptr_lem p i upper below)

  pub pde_end :
      (p i addr : ℕ)
      → 2 ≤ level p
      → i < 512
      → bit_and (load64 k.memory (slot k p i)) vf_pd_big_page ≡ 0
      → pte_of_pde (slot k p i) addr false k
        ≡ done
            (slot k
              (frame_of (load64 k.memory (slot k p i)))
              (virt_index addr virt_pt_index_offset))
            k
  unfolding pte_of_pde
  pde_end p i addr upper below small =
      let e : not (bit_and (load64 k.memory (slot k p i)) vf_pd_big_page == 0) ≡ false =
        ground arith in
      let index : ℕ = virt_index addr virt_pt_index_offset in
      ap
        (λ t.
          (elim t as (λ _. Run ℕ) [
            | true ↦ pure (slot k p i)
            | false ↦ (s_virt_entry_ptr_to_table_ptr (slot k p i) >>= λ pt. pure (pt + 8 * index))
          ])
            k)
        e
      ∙ ap (λ o. and_then o (λ pt. pure (pt + 8 * index))) (table_ptr_lem p i upper below)

  -- Behind an entry that was reached the walk goes on.
  pub goes_on_lem :
      (o : Outcome ℕ) (p i : ℕ) (rest : ℕ → Run ℕ)
      → o ≡ done (slot k p i) k
      → and_then o (λ e. unless_null e (rest e)) ≡ rest (slot k p i) k
  goes_on_lem o p i rest e =
      ap (λ o'. and_then o' (λ a. unless_null a (rest a))) e
      ∙ unless_null_lem p i (rest (slot k p i))
