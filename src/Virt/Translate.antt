-- ===== src/Virt/Translate.antt =====
-- `virt_get_physical_address` of src/mem/virt.c on the tables that CR3 names, and the creation of the
-- tables of an address.
use ratos.Prelude.{
  ◌<◌, ◌%◌, ℕ, ◌/◌, ◌≡◌, refl, sym, ap, ◌∙◌, ◌⊎◌, inl, inr, arith, bit_and, Bool, true, false, ◌==◌,
  if◌then◌else◌,
}
use ratos.Prelude.Bits.{testbit}
use ratos.Memory.{Memory, load64}
use ratos.Virt.{
  Kernel, Outcome, done, Run, pure, read, and_then, ◌>>=◌, vf_pt_present, entry_phys_addr_mask,
  virt_pml4_index_offset, virt_pdpt_index_offset, virt_pd_index_offset, virt_pt_index_offset,
}
use ratos.Virt.Walk.{
  pte_of_ctx, virt_index, unless_null, pte_of_pml4e, s_virt_get_or_create_pte,
  virt_get_physical_address,
}
use ratos.Virt.Entries.{frame_of}
use ratos.Virt.Tables.{slot, IsTree}
use ratos.Virt.Growth.{with_memory}
use ratos.Virt.Create.{get_entry_ptr-Gets}
use ratos.Virt.Path.{entry4, entry3, entry2, pte, virt_index-lt, ctx_head, goes_on_lem}
use ratos.Virt.Prepare.{Kept, Starved, Starved-at_once, Kept-trans, from_pml4e}
use ratos.Virt.Access.{HasTables, get_pte_lem}

-- The way of an address depends on three entries.
module _ (level' : ℕ → ℕ) (k : Kernel) (m : Memory) (addr : ℕ)
    (tree' : IsTree level' (with_memory k m))
    (e4 : load64 m (entry4 k addr) ≡ load64 k.memory (entry4 k addr))
    (e3 : load64 m (entry3 k addr) ≡ load64 k.memory (entry3 k addr))
    (e2 : load64 m (entry2 k addr) ≡ load64 k.memory (entry2 k addr)) where
  abbrev k' : Kernel
  k' = with_memory k m

  same3 : entry3 k' addr ≡ entry3 k addr
  same3 = ap (λ (t : ℕ). slot k (frame_of t) (virt_index addr virt_pdpt_index_offset)) e4

  same2 : entry2 k' addr ≡ entry2 k addr
  same2 =
      ap (λ (t : ℕ). slot k (frame_of t) (virt_index addr virt_pd_index_offset))
        (ap (load64 m) same3 ∙ e3)

  pub pte_same : pte k' addr ≡ pte k addr
  pte_same =
      ap (λ (t : ℕ). slot k (frame_of t) (virt_index addr virt_pt_index_offset))
        (ap (load64 m) same2 ∙ e2)

  pub same_way : {level : ℕ → ℕ} → HasTables level k addr → HasTables level' k' addr
  same_way has = record {
    tree = tree';
    there4 = λ z. has.there4 (sym e4 ∙ z);
    there3 = λ z. has.there3 (sym (ap (load64 m) same3 ∙ e3) ∙ z);
    there2 = λ z. has.there2 (sym (ap (load64 m) same2 ∙ e2) ∙ z);
  }

-- What `virt_get_physical_address` makes of an entry.
abbrev pub translated : ℕ → ℕ
translated e = if bit_and e vf_pt_present == 0 then 0 else bit_and e entry_phys_addr_mask

pub get_physical_address_lem :
    (level : ℕ → ℕ) (k : Kernel) (addr : ℕ)
    → HasTables level k addr
    → virt_get_physical_address 0 addr k ≡ done (translated (load64 k.memory (pte k addr))) k
unfolding virt_get_physical_address
get_physical_address_lem level k addr has =
    let nonzero : pte k addr == 0 ≡ false = ground (arith, has.tree.offset_pos) in
    let value : ℕ = load64 k.memory (pte k addr) in
    let seen : Bool → Run ℕ = λ t. elim t as (λ _. Run ℕ) [
      | true ↦ pure 0
      | false ↦ pure (bit_and value entry_phys_addr_mask)
    ] in
    ap
      (λ o. and_then o (λ entry. elim (entry == 0) as (λ _. Run ℕ) [
        | true ↦ pure 0
        | false ↦
            (read entry >>= λ v. elim (bit_and v vf_pt_present == 0) as (λ _. Run ℕ) [
              | true ↦ pure 0
              | false ↦ pure (bit_and v entry_phys_addr_mask)
            ])
      ]))
      (get_pte_lem level k addr has)
    ∙ ap
        (λ t.
          (elim t as (λ _. Run ℕ) [
            | true ↦ pure 0
            | false ↦
                (read (pte k addr) >>= λ v. elim (bit_and v vf_pt_present == 0) as (λ _. Run ℕ) [
                  | true ↦ pure 0
                  | false ↦ pure (bit_and v entry_phys_addr_mask)
                ])
          ])
            k)
        nonzero
    ∙ elim (bit_and value vf_pt_present == 0)
        as (λ t. seen t k ≡ done (if t then 0 else bit_and value entry_phys_addr_mask) k) [
          | true ↦ refl
          | false ↦ refl
        ]

-- `s_virt_get_or_create_pte` returned the entry of the address, which has its tables now.
pub record Prepared (level : ℕ → ℕ) (k : Kernel) (addr : ℕ) (o : Outcome ℕ) : Type 0 where
  pub level' : ℕ → ℕ
  pub memory : Memory
  pub has : HasTables level' (with_memory k memory) addr
  pub kept : Kept level k level' memory
  pub returned : o ≡ done (pte (with_memory k memory) addr) (with_memory k memory)

create-Prepared :
    (flags : ℕ)
    → flags < 4096
    → flags % 2 ≡ 1
    → testbit flags 7 ≡ 0
    → (level : ℕ → ℕ) (k : Kernel) (addr : ℕ) → IsTree level k
    → let o = pte_of_ctx true flags 0 addr false k in Starved level k o ⊎ Prepared level k addr o
create-Prepared flags small odd no_big level k addr tree =
    let p : ℕ = k.cr3 / 4096 in
    let i : ℕ = virt_index addr virt_pml4_index_offset in
    let head = ctx_head level k tree true flags addr false in
    elim (get_entry_ptr-Gets level k p i flags tree (omega (arith, tree.root))
      (virt_index-lt addr virt_pml4_index_offset) small odd no_big) [
        | inl (stops, used) ↦ inl (
            Starved-at_once level k _ tree
              (head
                ∙ ap (λ o. and_then o (λ e. unless_null e (pte_of_pml4e true flags e addr false)))
                    stops)
              used)
        | inr r ↦
            let k' : Kernel = with_memory k r.memory in
            let onwards =
              head
              ∙ goes_on_lem r.level' k' r.tree _ p i (λ e. pte_of_pml4e true flags e addr false)
                  r.returned in
            elim (from_pml4e addr flags small odd no_big r.level' k' p i r.tree r.tree.root
              (virt_index-lt addr virt_pml4_index_offset) r.present) [
                | inl f ↦ inl (record {
                  level' = f.level';
                  memory = f.memory;
                  tree = f.tree;
                  kept =
                      Kept-trans addr flags small odd no_big level r.level' f.level' k r.memory
                        f.memory r.extends f.kept;
                  stops = onwards ∙ f.stops;
                  used = f.used;
                })
                | inr f ↦ inr (record {
                  level' = f.level';
                  memory = f.memory;
                  has = record {
                    tree = f.tree;
                    there4 = λ z. r.present (
                        sym (
                          f.kept.entries p i (omega (arith, r.tree.root))
                            (virt_index-lt addr virt_pml4_index_offset) (inr r.present))
                        ∙ z);
                    there3 = f.there3;
                    there2 = f.there2;
                  };
                  kept =
                      Kept-trans addr flags small odd no_big level r.level' f.level' k r.memory
                        f.memory r.extends f.kept;
                  returned = onwards ∙ f.returned;
                })
              ]
      ]

pub get_or_create-Prepared :
    (level : ℕ → ℕ) (k : Kernel) (addr : ℕ) (is_user : Bool)
    → IsTree level k
    → let o = s_virt_get_or_create_pte 0 addr is_user false k in
      Starved level k o ⊎ Prepared level k addr o
unfolding s_virt_get_or_create_pte testbit
get_or_create-Prepared level k addr false tree =
    create-Prepared 3 (omega arith) refl refl level k addr tree
get_or_create-Prepared level k addr true tree =
    create-Prepared 7 (omega arith) refl refl level k addr tree
