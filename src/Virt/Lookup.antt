-- ===== src/Virt/Lookup.antt =====
-- What the walk of src/mem/virt.c without creation returns, whether or not the tables are there.
use ratos.Prelude.{
  ℕ, suc, ◌/◌, ◌≤◌, ◌<◌, ◌≡◌, ◌≢◌, refl, sym, ap, ◌∙◌, arith, ◌==◌, if◌then◌else◌, Bool-cases, true,
  false, inl, inr, bit_and,
}
use ratos.Memory.{load64}
use ratos.Virt.{
  Kernel, done, Run, pure, read, and_then, ◌>>=◌, vf_pt_present, entry_phys_addr_mask,
  virt_pml4_index_offset, virt_pdpt_index_offset, virt_pd_index_offset, virt_pt_index_offset,
}
use ratos.Virt.Walk.{
  s_virt_get_entry_ptr, unless_null, pte_of_pde, pte_of_pdpte, pte_of_pml4e, pte_of_ctx,
  s_virt_get_pte, virt_index, virt_get_physical_address,
}
use ratos.Virt.Entries.{frame_of, virt_index_lem}
use ratos.Virt.Tables.{page_at, slot, IsTree}
use ratos.Virt.Leaf.{page_of, index, leaf, view, leaf-missing, leaf-there}
use ratos.Virt.Path.{
  virt_index-lt, next_level, no_big_page, found_entry_lem, ctx_head, pml4e_head, pdpte_head,
  pde_end, goes_on_lem,
}
use ratos.Virt.Translate.{translated}

-- The indices of an address are those of its page number.
pub index4 : (addr : ℕ) → virt_index addr virt_pml4_index_offset ≡ index 4 (page_of addr)
index4 addr = omega (arith, virt_index_lem addr virt_pml4_index_offset)

pub index3 : (addr : ℕ) → virt_index addr virt_pdpt_index_offset ≡ index 3 (page_of addr)
index3 addr = omega (arith, virt_index_lem addr virt_pdpt_index_offset)

pub index2 : (addr : ℕ) → virt_index addr virt_pd_index_offset ≡ index 2 (page_of addr)
index2 addr = omega (arith, virt_index_lem addr virt_pd_index_offset)

pub index1 : (addr : ℕ) → virt_index addr virt_pt_index_offset ≡ index 1 (page_of addr)
index1 addr = omega (arith, virt_index_lem addr virt_pt_index_offset)

module _ (level : ℕ → ℕ) (k : Kernel) (tree : IsTree level k) (flags addr : ℕ) where
  missing_entry_lem :
      (p i : ℕ)
      → load64 k.memory (slot k p i) ≡ 0
      → s_virt_get_entry_ptr (page_at k p) i false flags k ≡ done 0 k
  unfolding s_virt_get_entry_ptr
  missing_entry_lem p i missing =
      let nothing : load64 k.memory (slot k p i) == 0 ≡ true = ground arith in
      ap (λ t. (elim t as (λ _. Run ℕ) [ false ↦ pure (slot k p i) | true ↦ pure 0 ]) k) nothing

  -- One step of the walk: from the entry of the page in table `p`, to which the walk went on.
  walk_step :
      (l p i : ℕ) (rest : ℕ → Run ℕ)
      → level p ≡ suc (suc l)
      → i ≡ index (suc (suc l)) (page_of addr)
      → (level (frame_of (load64 k.memory (slot k p i))) ≡ suc l
          → rest (slot k p i) k
            ≡ done (leaf k (suc l) (frame_of (load64 k.memory (slot k p i))) (page_of addr)) k)
      → and_then (s_virt_get_entry_ptr (page_at k p) i false flags k) (λ e. unless_null e (rest e))
        ≡ done (leaf k (suc (suc l)) p (page_of addr)) k
  walk_step l p i rest is_level same onwards =
      let x : ℕ = page_of addr in
      let entry_same : load64 k.memory (slot k p (index (suc (suc l)) x))
          ≡ load64 k.memory (slot k p i) =
        ap (λ (t : ℕ). load64 k.memory (slot k p t)) (sym same) in
      elim (Bool-cases (load64 k.memory (slot k p i) == 0)) [
        | inl z ↦
            let missing : load64 k.memory (slot k p i) ≡ 0 = ground arith in
            ap (λ o. and_then o (λ e. unless_null e (rest e))) (missing_entry_lem p i missing)
            ∙ ap (λ (t : ℕ). done t k) (sym (leaf-missing k l p x (entry_same ∙ missing)))
        | inr ne ↦
            let there : load64 k.memory (slot k p i) ≢ 0 = ground arith in
            goes_on_lem level k tree _ p i rest (found_entry_lem level k tree p i flags false there)
            ∙ onwards (next_level level k tree p i l is_level (omega (arith, same)) there)
            ∙ ap (λ (t : ℕ). done (leaf k (suc l) (frame_of t) x) k) (sym entry_same)
            ∙ ap (λ (t : ℕ). done t k) (sym (leaf-there k l p x (λ z. there (sym entry_same ∙ z))))
      ]

  pde_leaf :
      (p i : ℕ)
      → level p ≡ 2
      → i < 512
      → pte_of_pde (slot k p i) addr false k
        ≡ done (leaf k 1 (frame_of (load64 k.memory (slot k p i))) (page_of addr)) k
  unfolding leaf
  pde_leaf p i second below =
      pde_end level k tree p i addr (omega (arith, second)) below
        (no_big_page level k tree p i (omega (arith, second)) below)
      ∙ ap (λ (t : ℕ). done (slot k (frame_of (load64 k.memory (slot k p i))) t) k) (index1 addr)

  pdpte_leaf :
      (p i : ℕ)
      → 2 ≤ level p
      → i < 512
      → level (frame_of (load64 k.memory (slot k p i))) ≡ 2
      → pte_of_pdpte false flags (slot k p i) addr false k
        ≡ done (leaf k 2 (frame_of (load64 k.memory (slot k p i))) (page_of addr)) k
  pdpte_leaf p i upper below second =
      let q : ℕ = frame_of (load64 k.memory (slot k p i)) in
      let j : ℕ = virt_index addr virt_pd_index_offset in
      pdpte_head level k tree false flags p i addr false upper below
      ∙ walk_step 0 q j (λ e. pte_of_pde e addr false) second (index2 addr)
          (λ _. pde_leaf q j second (omega (arith, index2 addr)))

  pml4e_leaf :
      (p i : ℕ)
      → 2 ≤ level p
      → i < 512
      → level (frame_of (load64 k.memory (slot k p i))) ≡ 3
      → pte_of_pml4e false flags (slot k p i) addr false k
        ≡ done (leaf k 3 (frame_of (load64 k.memory (slot k p i))) (page_of addr)) k
  pml4e_leaf p i upper below third =
      let q : ℕ = frame_of (load64 k.memory (slot k p i)) in
      let j : ℕ = virt_index addr virt_pdpt_index_offset in
      pml4e_head level k tree false flags p i addr false upper below
      ∙ walk_step 1 q j (λ e. pte_of_pdpte false flags e addr false) third (index3 addr)
          (λ second.
            pdpte_leaf q j (omega (arith, third)) (virt_index-lt addr virt_pdpt_index_offset)
              second)

  pub pte_of_ctx-leaf :
      pte_of_ctx false flags 0 addr false k ≡ done (leaf k 4 (k.cr3 / 4096) (page_of addr)) k
  pte_of_ctx-leaf =
      let j : ℕ = virt_index addr virt_pml4_index_offset in
      ctx_head level k tree false flags addr false
      ∙ walk_step 2 (k.cr3 / 4096) j (λ e. pte_of_pml4e false flags e addr false) tree.root
          (index4 addr)
          (λ third.
            pml4e_leaf (k.cr3 / 4096) j (omega (arith, tree.root))
              (virt_index-lt addr virt_pml4_index_offset) third)

module _ (level : ℕ → ℕ) (k : Kernel) (tree : IsTree level k) (addr : ℕ) where
  pub get_pte-leaf : s_virt_get_pte 0 addr false k ≡ done (leaf k 4 (k.cr3 / 4096) (page_of addr)) k
  unfolding s_virt_get_pte
  get_pte-leaf = pte_of_ctx-leaf level k tree 0 addr

  pub get_physical_address-view :
      virt_get_physical_address 0 addr k ≡ done (translated (view k (page_of addr))) k
  unfolding virt_get_physical_address
  get_physical_address-view =
      let s : ℕ = leaf k 4 (k.cr3 / 4096) (page_of addr) in
      let by_entry : Run ℕ = read s >>= λ v. elim (bit_and v vf_pt_present == 0) as (λ _. Run ℕ) [
        | true ↦ pure 0
        | false ↦ pure (bit_and v entry_phys_addr_mask)
      ] in
      ap
        (λ o. and_then o (λ entry. elim (entry == 0) as (λ _. Run ℕ) [
          | true ↦ pure 0
          | false ↦
              (read entry >>= λ v. elim (bit_and v vf_pt_present == 0) as (λ _. Run ℕ) [
                | true ↦ pure 0
                | false ↦ pure (bit_and v entry_phys_addr_mask)
              ])
        ]))
        get_pte-leaf
      ∙ elim (s == 0)
          as (λ t.
            (elim t as (λ _. Run ℕ) [ true ↦ pure 0 | false ↦ by_entry ]) k
            ≡ done (translated (if t then 0 else load64 k.memory s)) k) [
              | true ↦ refl
              | false ↦
                  elim (bit_and (load64 k.memory s) vf_pt_present == 0)
                    as (λ t.
                      (elim t as (λ _. Run ℕ) [
                        | true ↦ pure 0
                        | false ↦ pure (bit_and (load64 k.memory s) entry_phys_addr_mask)
                      ])
                        k
                      ≡ done (if t then 0 else bit_and (load64 k.memory s) entry_phys_addr_mask)
                          k) [ true ↦ refl | false ↦ refl ]
            ]
