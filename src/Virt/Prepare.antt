-- ===== src/Virt/Prepare.antt =====
-- `s_virt_get_or_create_pte` of src/mem/virt.c: the tables that an address needs are there afterwards.
use ratos.Prelude.{
  ℕ, suc, ◌*◌, ◌%◌, ◌<◌, ◌≡◌, ◌≢◌, sym, refl, ap, ◌∙◌, ◌⊎◌, inl, inr, arith, true, false,
}
use ratos.Prelude.Bits.{testbit}
use ratos.Memory.{Memory, load64}
use ratos.Phys.Alloc.{AllUsed}
use ratos.Virt.{
  Kernel, Outcome, done, halted, and_then, virt_pdpt_index_offset, virt_pd_index_offset,
  virt_pt_index_offset,
}
use ratos.Virt.Walk.{virt_index, unless_null, pte_of_pde, pte_of_pdpte, pte_of_pml4e}
use ratos.Virt.Entries.{frame_of}
use ratos.Virt.Tables.{slot, IsTree}
use ratos.Virt.Growth.{with_memory}
use ratos.Virt.Extends.{Extends}
use ratos.Virt.Leaf.{view_from, Unshared}
use ratos.Virt.Create.{get_entry_ptr-Gets}
use ratos.Virt.Path.{
  no_big_page, virt_index-lt, next_level, pml4e_head, pdpte_head, pde_end, goes_on_lem,
}

-- The entry for the address in the table that the entry `e` names.
abbrev pub child : Kernel → (e offset addr : ℕ) → ℕ
child k e offset addr = slot k (frame_of (load64 k.memory e)) (virt_index addr offset)

-- The tables and their entries are still there, and page numbers lead where they led.
pub record Kept (level : ℕ → ℕ) (k : Kernel) (level' : ℕ → ℕ) (m : Memory) : Type 0 where
  pub levels : (r : ℕ) → 0 < level r → level' r ≡ level r
  pub entries :
      (r j : ℕ)
      → 0 < level r
      → j < 512
      → (level r ≡ 1) ⊎ (load64 k.memory (slot k r j) ≢ 0)
      → load64 m (slot k r j) ≡ load64 k.memory (slot k r j)
  pub unshared : Unshared level k → Unshared level' (with_memory k m)
  pub views :
      (l r x : ℕ)
      → level r ≡ suc l
      → view_from (with_memory k m) (suc l) r x ≡ view_from k (suc l) r x

-- All pages are in use.
abbrev pub Exhausted : Kernel → Type 0
Exhausted k = AllUsed k.phys k.memory 0 (k.phys.bitmap_size * 64)

-- The call halted for want of a page, with the tables that it had added by then.
pub record Starved (level : ℕ → ℕ) (k : Kernel) (o : Outcome ℕ) : Type 0 where
  pub level' : ℕ → ℕ
  pub memory : Memory
  pub tree : IsTree level' (with_memory k memory)
  pub kept : Kept level k level' memory
  pub stops : o ≡ halted (with_memory k memory)
  pub used : Exhausted (with_memory k memory)

-- It halted before it added a table.
pub Starved-at_once :
    (level : ℕ → ℕ) (k : Kernel) (o : Outcome ℕ)
    → IsTree level k
    → o ≡ halted k
    → Exhausted k
    → Starved level k o
Starved-at_once level k o tree stops used = record {
  level' = level;
  memory = k.memory;
  tree = tree;
  kept = record {
    levels = λ r h. refl;
    entries = λ r j h below old. refl;
    unshared = λ u. u;
    views = λ l r x e. refl;
  };
  stops = stops;
  used = used;
}

module _ (addr flags : ℕ) (small : flags < 4096) (odd : flags % 2 ≡ 1)
    (no_big : testbit flags 7 ≡ 0) where
  -- From entry `i` of a PDPT at page `p`.
  pub record FromPdpte (level : ℕ → ℕ) (k : Kernel) (p i : ℕ) (o : Outcome ℕ) : Type 0 where
    pub level' : ℕ → ℕ
    pub memory : Memory
    pub tree : IsTree level' (with_memory k memory)
    pub kept : Kept level k level' memory
    pub there2 :
        load64 memory (child (with_memory k memory) (slot k p i) virt_pd_index_offset addr) ≢ 0
    pub returned :
        let k' = with_memory k memory in
        o
        ≡ done
            (child k' (child k' (slot k p i) virt_pd_index_offset addr) virt_pt_index_offset addr)
            k'

  from_pdpte :
      (level : ℕ → ℕ) (k : Kernel) (p i : ℕ)
      → IsTree level k
      → level p ≡ 3
      → i < 512
      → load64 k.memory (slot k p i) ≢ 0
      → ((pte_of_pdpte true flags (slot k p i) addr false k ≡ halted k) × Exhausted k)
        ⊎ FromPdpte level k p i (pte_of_pdpte true flags (slot k p i) addr false k)
  from_pdpte level k p i tree third below present =
      let q : ℕ = frame_of (load64 k.memory (slot k p i)) in
      let j : ℕ = virt_index addr virt_pd_index_offset in
      let second : level q ≡ 2 = next_level level k tree p i 1 third below present in
      let head = pdpte_head level k tree true flags p i addr false (omega (arith, third)) below in
      elim (get_entry_ptr-Gets level k q j flags tree (omega (arith, second))
        (virt_index-lt addr virt_pd_index_offset) small odd no_big) [
          | inl (stops, used) ↦ inl (
            head ∙ ap (λ o. and_then o (λ e. unless_null e (pte_of_pde e addr false))) stops,
            used,
          )
          | inr r ↦ inr (
              let k' : Kernel = with_memory k r.memory in
              let same : load64 r.memory (slot k p i) ≡ load64 k.memory (slot k p i) =
                r.extends.kept p i (omega (arith, third)) below (inr present) in
              let here : child k' (slot k p i) virt_pd_index_offset addr ≡ slot k q j =
                ap (λ t. slot k (frame_of t) j) same in
              record {
                level' = r.level';
                memory = r.memory;
                tree = r.tree;
                kept = record {
                  levels = r.extends.levels;
                  entries = r.extends.kept;
                  unshared = r.extends.unshared;
                  views = r.extends.views;
                };
                there2 = λ z. r.present (ap (load64 r.memory) (sym here) ∙ z);
                returned =
                    head
                    ∙ goes_on_lem r.level' k' r.tree _ q j (λ e. pte_of_pde e addr false) r.returned
                    ∙ pde_end r.level' k' r.tree q j addr
                        (omega (arith, second, r.extends.levels q (omega (arith, second))))
                        (virt_index-lt addr virt_pd_index_offset)
                        (no_big_page r.level' k' r.tree q j
                          (omega (arith, second, r.extends.levels q (omega (arith, second))))
                          (virt_index-lt addr virt_pd_index_offset))
                    ∙ ap (λ t. done (child k' t virt_pt_index_offset addr) k') (sym here);
              })
        ]

  -- From entry `i` of the PML4 at page `p`.
  pub record FromPml4e (level : ℕ → ℕ) (k : Kernel) (p i : ℕ) (o : Outcome ℕ) : Type 0 where
    pub level' : ℕ → ℕ
    pub memory : Memory
    pub tree : IsTree level' (with_memory k memory)
    pub kept : Kept level k level' memory
    pub there3 :
        load64 memory (child (with_memory k memory) (slot k p i) virt_pdpt_index_offset addr) ≢ 0
    pub there2 :
        let k' = with_memory k memory in
        load64 memory
          (child k' (child k' (slot k p i) virt_pdpt_index_offset addr) virt_pd_index_offset addr)
        ≢ 0
    pub returned :
        let k' = with_memory k memory in
        o
        ≡ done
            (child k'
              (child k'
                (child k' (slot k p i) virt_pdpt_index_offset addr)
                virt_pd_index_offset
                addr)
              virt_pt_index_offset
              addr)
            k'

  pub Kept-trans :
      (level level' level'' : ℕ → ℕ) (k : Kernel) (m m' : Memory)
      → Extends level k level' m
      → Kept level' (with_memory k m) level'' m'
      → Kept level k level'' m'
  Kept-trans level level' level'' k m m' e r = record {
    levels = λ p is_table. r.levels p (omega (arith, e.levels p is_table)) ∙ e.levels p is_table;
    entries = λ p j is_table below old.
        let first : load64 m (slot k p j) ≡ load64 k.memory (slot k p j) =
          e.kept p j is_table below old in
        r.entries p j (omega (arith, e.levels p is_table)) below (elim old [
          | inl lowest ↦ inl (e.levels p is_table ∙ lowest)
          | inr there ↦ inr (λ z. there (sym first ∙ z))
        ])
        ∙ first;
    unshared = λ u. r.unshared (e.unshared u);
    views = λ l p x is_level.
        r.views l p x (e.levels p (omega (arith, is_level)) ∙ is_level) ∙ e.views l p x is_level;
  }

  pub from_pml4e :
      (level : ℕ → ℕ) (k : Kernel) (p i : ℕ)
      → IsTree level k
      → level p ≡ 4
      → i < 512
      → load64 k.memory (slot k p i) ≢ 0
      → Starved level k (pte_of_pml4e true flags (slot k p i) addr false k)
        ⊎ FromPml4e level k p i (pte_of_pml4e true flags (slot k p i) addr false k)
  from_pml4e level k p i tree fourth below present =
      let q : ℕ = frame_of (load64 k.memory (slot k p i)) in
      let j : ℕ = virt_index addr virt_pdpt_index_offset in
      let third : level q ≡ 3 = next_level level k tree p i 2 fourth below present in
      let head = pml4e_head level k tree true flags p i addr false (omega (arith, fourth)) below in
      elim (get_entry_ptr-Gets level k q j flags tree (omega (arith, third))
        (virt_index-lt addr virt_pdpt_index_offset) small odd no_big) [
          | inl (stops, used) ↦ inl (
              Starved-at_once level k _ tree
                (head
                  ∙ ap (λ o. and_then o (λ e. unless_null e (pte_of_pdpte true flags e addr false)))
                      stops)
                used)
          | inr r ↦
              let k' : Kernel = with_memory k r.memory in
              let same : load64 r.memory (slot k p i) ≡ load64 k.memory (slot k p i) =
                r.extends.kept p i (omega (arith, fourth)) below (inr present) in
              let third' : r.level' q ≡ 3 = r.extends.levels q (omega (arith, third)) ∙ third in
              let onwards =
                head
                ∙ goes_on_lem r.level' k' r.tree _ q j (λ e. pte_of_pdpte true flags e addr false)
                    r.returned in
              elim (from_pdpte r.level' k' q j r.tree third'
                (virt_index-lt addr virt_pdpt_index_offset) r.present) [
                  | inl (stops, used) ↦ inl (record {
                    level' = r.level';
                    memory = r.memory;
                    tree = r.tree;
                    kept = record {
                      levels = r.extends.levels;
                      entries = r.extends.kept;
                      unshared = r.extends.unshared;
                      views = r.extends.views;
                    };
                    stops = onwards ∙ stops;
                    used = used;
                  })
                  | inr f ↦ inr (
                      let k'' : Kernel = with_memory k f.memory in
                      let kept =
                        Kept-trans level r.level' f.level' k r.memory f.memory r.extends f.kept in
                      let here : child k'' (slot k p i) virt_pdpt_index_offset addr ≡ slot k q j =
                        ap (λ t. slot k (frame_of t) j)
                          (kept.entries p i (omega (arith, fourth)) below (inr present)) in
                      record {
                        level' = f.level';
                        memory = f.memory;
                        tree = f.tree;
                        kept = kept;
                        there3 = λ z. r.present (
                            sym (
                              f.kept.entries q j (omega (arith, third'))
                                (virt_index-lt addr virt_pdpt_index_offset) (inr r.present))
                            ∙ ap (load64 f.memory) (sym here)
                            ∙ z);
                        there2 = λ z. f.there2 (
                            ap (λ t. load64 f.memory (child k'' t virt_pd_index_offset addr))
                              (sym here)
                            ∙ z);
                        returned =
                            onwards
                            ∙ f.returned
                            ∙ ap
                                (λ t.
                                  done
                                    (child k'' (child k'' t virt_pd_index_offset addr)
                                      virt_pt_index_offset addr)
                                    k'')
                                (sym here);
                      })
                ]
        ]
