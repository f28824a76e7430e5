-- ===== src/Virt/Store.antt =====
-- A write to the entry of a page in the tables of src/mem/virt.c changes where that page leads, and no
-- other one.
use ratos.Prelude.{
  ℕ, zero, suc, ◌/◌, ◌^◌, ◌≤◌, ◌<◌, ◌≡◌, ◌≢◌, refl, sym, ap, ap₂, ◌∙◌, ◌⊎◌, inl, inr, arith, ◌==◌,
  if◌then◌else◌, Bool-cases, false,
}
use ratos.Memory.{load64, store64}
use ratos.Memory.Words.{load64-store64_self}
use ratos.Virt.{Kernel}
use ratos.Virt.Entries.{frame_of}
use ratos.Virt.Tables.{slot, IsTree}
use ratos.Virt.Growth.{with_memory}
use ratos.Virt.Leaf.{page_of, index, leaf, content, view, Unshared, leaf-missing, leaf-there}
use ratos.Virt.Path.{entry4, entry3, entry2, table3, table2, table1, pte, next_level}
use ratos.Virt.Access.{HasTables, level1, written_other}
use ratos.Virt.Lookup.{index4, index3, index2, index1}

abbrev Agree : (l x x' : ℕ) → Type 0
Agree l x x' = (i : ℕ) → 0 < i → i ≤ l → index i x ≡ index i x'

module _ (level : ℕ → ℕ) (k : Kernel) (tree : IsTree level k) where
  -- The entry of a page whose tables are there stands in a table of level 1.
  abbrev Stands : (l p x : ℕ) → Type 0
  Stands l p x =
      (leaf k (suc l) p x ≡ 0)
      ⊎ ((t : ℕ) × (level t ≡ 1) × (leaf k (suc l) p x ≡ slot k t (index 1 x)))

  stands : (l p x : ℕ) → level p ≡ suc l → Stands l p x
  unfolding leaf
  stands zero p x is_level = inr (p, is_level, refl)
  stands (suc l) p x is_level =
      let i : ℕ = index (suc (suc l)) x in
      let e : ℕ = load64 k.memory (slot k p i) in
      let onwards = stands l (frame_of e) x in
      elim (Bool-cases (e == 0)) [
        | inl z ↦ inl (leaf-missing k l p x (ground arith))
        | inr ne ↦
            let there : e ≢ 0 = ground arith in
            elim (onwards (next_level level k tree p i l is_level (omega arith) there)) [
              | inl z ↦ inl (leaf-there k l p x there ∙ z)
              | inr (t, lowest, at) ↦ inr (t, lowest, leaf-there k l p x there ∙ at)
            ]
      ]

  -- Two pages with the same entry are the same.
  agree :
      Unshared level k
      → (l p p' x x' : ℕ) → level p ≡ suc l
      → level p' ≡ suc l
      → leaf k (suc l) p x ≢ 0
      → leaf k (suc l) p x ≡ leaf k (suc l) p' x'
      → (p ≡ p') × Agree (suc l) x x'
  unfolding leaf
  agree unshared zero p p' x x' is_level is_level' there same = (
    omega (arith, same),
    λ i pos small. let first : i ≡ 1 = omega arith in rw first (omega (arith, same)),
  )
  agree unshared (suc l) p p' x x' is_level is_level' there same =
      let i : ℕ = index (suc (suc l)) x in
      let i' : ℕ = index (suc (suc l)) x' in
      let e : ℕ = load64 k.memory (slot k p i) in
      let e' : ℕ = load64 k.memory (slot k p' i') in
      let present : e ≢ 0 = λ z. there (leaf-missing k l p x z) in
      let present' : e' ≢ 0 = λ z. there (same ∙ leaf-missing k l p' x' z) in
      let way = leaf-there k l p x present in
      let below =
        agree unshared l (frame_of e) (frame_of e') x x'
          (next_level level k tree p i l is_level (omega arith) present)
          (next_level level k tree p' i' l is_level' (omega arith) present') (λ z. there (way ∙ z))
          (sym way ∙ same ∙ leaf-there k l p' x' present') in
      let both =
        unshared p i p' i' (omega (arith, is_level)) (omega arith) (omega (arith, is_level'))
          (omega arith) present present' below.0 in
      (
        both.0,
        λ j pos small. elim (Bool-cases (j == suc (suc l))) [
          | inl last ↦ let top : j ≡ suc (suc l) = ground arith in rw top both.1
          | inr ne ↦ below.1 j pos (ground arith)
        ],
      )

module _ (level : ℕ → ℕ) (k : Kernel) (addr : ℕ) (has : HasTables level k addr)
    (unshared : Unshared level k) (v : ℕ) where
  abbrev k2 : Kernel
  k2 = with_memory k (store64 k.memory (pte k addr) v)

  abbrev root : ℕ
  root = k.cr3 / 4096

  upper_kept :
      (p j : ℕ)
      → 2 ≤ level p
      → j < 512
      → load64 k2.memory (slot k p j) ≡ load64 k.memory (slot k p j)
  upper_kept p j upper below =
      written_other level k addr has v p j below
        (inl (λ e. absurd (omega (arith, ap level e, level1 level k addr has))))

  pub written-Unshared : Unshared level k2
  written-Unshared p i p' i' upper below upper' below' present present' same =
      let e = upper_kept p i upper below in
      let e' = upper_kept p' i' upper' below' in
      unshared p i p' i' upper below upper' below' (λ z. present (e ∙ z)) (λ z. present' (e' ∙ z))
        (ap frame_of (sym e) ∙ same ∙ ap frame_of e')

  leaf_kept : (l p x : ℕ) → level p ≡ l → leaf k2 l p x ≡ leaf k l p x
  unfolding leaf
  leaf_kept zero p x is_level = refl
  leaf_kept (suc zero) p x is_level = refl
  leaf_kept (suc (suc l)) p x is_level =
      let i : ℕ = index (suc (suc l)) x in
      let e : ℕ = load64 k.memory (slot k p i) in
      let same : load64 k2.memory (slot k p i) ≡ e =
        upper_kept p i (omega (arith, is_level)) (omega arith) in
      let onwards = leaf_kept (suc l) (frame_of e) x in
      elim (Bool-cases (e == 0)) [
        | inl z ↦
            let missing : e ≡ 0 = ground arith in
            leaf-missing k2 l p x (same ∙ missing) ∙ sym (leaf-missing k l p x missing)
        | inr ne ↦
            let there : e ≢ 0 = ground arith in
            leaf-there k2 l p x (λ z. there (sym same ∙ z))
            ∙ ap (λ (t : ℕ). leaf k2 (suc l) (frame_of t) x) same
            ∙ onwards (next_level level k has.tree p i l is_level (omega arith) there)
            ∙ sym (leaf-there k l p x there)
      ]

  pub leaf-pte : leaf k 4 root (page_of addr) ≡ pte k addr
  unfolding leaf
  leaf-pte =
      let x : ℕ = page_of addr in
      let at4 : slot k root (index 4 x) ≡ entry4 k addr = ap (slot k root) (sym (index4 addr)) in
      let at3 : slot k (table3 k addr) (index 3 x) ≡ entry3 k addr =
        ap (slot k (table3 k addr)) (sym (index3 addr)) in
      let at2 : slot k (table2 k addr) (index 2 x) ≡ entry2 k addr =
        ap (slot k (table2 k addr)) (sym (index2 addr)) in
      leaf-there k 2 root x (λ z. has.there4 (ap (load64 k.memory) (sym at4) ∙ z))
      ∙ ap (λ (s : ℕ). leaf k 3 (frame_of (load64 k.memory s)) x) at4
      ∙ leaf-there k 1 (table3 k addr) x (λ z. has.there3 (ap (load64 k.memory) (sym at3) ∙ z))
      ∙ ap (λ (s : ℕ). leaf k 2 (frame_of (load64 k.memory s)) x) at3
      ∙ leaf-there k 0 (table2 k addr) x (λ z. has.there2 (ap (load64 k.memory) (sym at2) ∙ z))
      ∙ ap (λ (s : ℕ). leaf k 1 (frame_of (load64 k.memory s)) x) at2
      ∙ ap (slot k (table1 k addr)) (sym (index1 addr))

  pte_pos : pte k addr ≢ 0
  pte_pos z = absurd (omega (arith, z, has.tree.offset_pos))

  -- The entry of another page is not the one written.
  other_leaf : (x : ℕ) → x < 2 ^ 36 → x ≢ page_of addr → leaf k 4 root x ≢ pte k addr
  other_leaf x below ne same =
      let agreed : Agree 4 x (page_of addr) =
        (agree level k has.tree unshared 3 root root x (page_of addr) has.tree.root has.tree.root
          (λ z. pte_pos (sym same ∙ z)) (same ∙ sym leaf-pte)).1 in
      ne (
        omega (
          arith,
          agreed 4 (omega arith) (omega arith),
          agreed 3 (omega arith) (omega arith),
          agreed 2 (omega arith) (omega arith),
          agreed 1 (omega arith) (omega arith),
        ))

  content_kept :
      (x : ℕ)
      → x < 2 ^ 36
      → x ≢ page_of addr
      → content k2 (leaf k 4 root x) ≡ content k (leaf k 4 root x)
  content_kept x below ne = elim (stands level k has.tree 3 root x has.tree.root) [
    | inl z ↦ ap (content k2) z ∙ sym (ap (content k) z)
    | inr (t, lowest, at) ↦
        let differs : slot k t (index 1 x) ≢ pte k addr = λ e. other_leaf x below ne (at ∙ e) in
        ap (content k2) at
        ∙ ap (λ (y : ℕ). if slot k t (index 1 x) == 0 then 0 else y)
            (written_other level k addr has v t (index 1 x) (omega arith)
              (elim (Bool-cases (t == table1 k addr)) [
                | inr other ↦ inl (ground arith)
                | inl e ↦ inr (λ e'. differs (ap₂ (slot k) (ground arith) e'))
              ]))
        ∙ sym (ap (content k) at)
  ]

  pub view-store :
      (x : ℕ) → v < 2 ^ 64 → x < 2 ^ 36 → view k2 x ≡ (if x == page_of addr then v else view k x)
  view-store x fits below =
      ap (content k2) (leaf_kept 4 root x has.tree.root) ∙ elim (Bool-cases (x == page_of addr)) [
        | inl e ↦
            let here : x ≡ page_of addr = ground arith in
            let nonzero : pte k addr == 0 ≡ false = ground (arith, pte_pos) in
            ap (λ (t : ℕ). content k2 (leaf k 4 root t)) here
            ∙ ap (content k2) leaf-pte
            ∙ ap (λ t. if t then 0 else load64 k2.memory (pte k addr)) nonzero
            ∙ load64-store64_self k.memory (pte k addr) v fits
            ∙ ground arith
        | inr ne ↦ content_kept x below (ground arith) ∙ ground arith
      ]
