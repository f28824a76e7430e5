-- ===== src/Virt/Growth.antt =====
-- A new table of src/mem/virt.c leaves the tables a tree.
use ratos.Prelude.{
  ℕ, ◌+◌, ◌-◌, ◌*◌, ◌/◌, ◌≤◌, ◌<◌, ◌≡◌, ◌≢◌, ap, ap₂, ◌∙◌, ◌⊎◌, inl, inr, arith, bit_and, ◌==◌,
  if◌then◌else◌, Bool-cases,
}
use ratos.Memory.{Memory, load64}
use ratos.Memory.Words.{load64_ext, load64_zero}
use ratos.Virt.{Kernel, vf_pd_big_page}
use ratos.Virt.Entries.{frame_of}
use ratos.Virt.Tables.{slot, IsEntry, IsTree, Created}

abbrev pub with_memory : Kernel → Memory → Kernel
with_memory k m = record k { memory = m }

-- The levels with page `q` as a new table below page `p`.
abbrev pub grown : (level : ℕ → ℕ) → (p q : ℕ) → ℕ → ℕ
grown level p q r = if r == q then level p - 1 else level r

module _ (level : ℕ → ℕ) (k : Kernel) (tree : IsTree level k) (p i v q : ℕ) (m : Memory)
    (c : Created k p i v q m) (upper : 2 ≤ level p) (small : i < 512) where
  pub level-new : level q ≡ 0
  level-new = elim (Bool-cases (level q == 0)) [
    | inl e ↦ ground arith
    | inr e ↦ absurd (ground (arith, tree.used q, c.was_free))
  ]

  pub not_new : (r : ℕ) → 0 < level r → r ≢ q
  not_new r is_table same = absurd (omega (arith, ap level same, level-new))

  pub grown_old : (r : ℕ) → r ≢ q → grown level p q r ≡ level r
  grown_old r ne = ground arith

  grown_new : grown level p q q ≡ level p - 1
  grown_new = ground arith

  -- The page is a table that was there, or the new one.
  pub grown_cases : (r : ℕ) → 0 < grown level p q r → (r ≡ q) ⊎ ((r ≢ q) × (0 < level r))
  grown_cases r pos = elim (Bool-cases (r == q)) [
    | inl e ↦ inl (ground arith)
    | inr ne ↦ inr (ground arith, ground arith)
  ]

  below_new : q < k.phys.bitmap_size * 64
  below_new = c.below

  -- Entry `i` of page `p`, or another one.
  pub slot_cases : (r j : ℕ) → ((r ≡ p) × (j ≡ i)) ⊎ ((r ≢ p) ⊎ (j ≢ i))
  slot_cases r j = elim (Bool-cases (r == p)) [
    | inr ne ↦ inr (inl (ground arith))
    | inl e ↦ elim (Bool-cases (j == i)) [
      | inl e' ↦ inl (ground arith, ground arith)
      | inr ne ↦ inr (inr (ground arith))
    ]
  ]

  -- A table that is not the new one keeps an entry other than the one written.
  pub kept_entry :
      (r j : ℕ)
      → 0 < level r
      → j < 512
      → (r ≢ p) ⊎ (j ≢ i)
      → load64 m (slot k r j) ≡ load64 k.memory (slot k r j)
  kept_entry r j is_table below other =
      let apart = tree.apart r (tree.bounded r is_table) (inl is_table) in
      let differs : r ≢ q = λ same. absurd (omega (arith, ap level same, level-new)) in
      load64_ext m k.memory (slot k r j)
        (λ b lo hi. c.outside b (omega arith) (omega arith) (omega arith))

  pub new_entries : (j : ℕ) → j < 512 → load64 m (slot k q j) ≡ 0
  new_entries j below =
      load64_zero m (slot k q j) (λ b lo hi. c.zeros b (omega arith) (omega arith))

  IsEntry-grown : (l e : ℕ) → 2 ≤ l → IsEntry level l e → IsEntry (grown level p q) l e
  IsEntry-grown l e high (inl z) = inl z
  IsEntry-grown l e high (inr (below, no_big)) = inr (grown_old' ∙ below, no_big)
    where
      grown_old' : grown level p q (frame_of e) + 1 ≡ level (frame_of e) + 1
      grown_old' =
          ap (λ (t : ℕ). t + 1) (grown_old (frame_of e) (not_new (frame_of e) (omega arith)))

  -- The entries of the tables, by where they stand.
  grown-entries :
      frame_of v ≡ q
      → bit_and v vf_pd_big_page ≡ 0
      → (r j : ℕ) → 2 ≤ grown level p q r
      → j < 512
      → IsEntry (grown level p q) (grown level p q r) (load64 m (slot k r j))
  grown-entries frame no_big r j high below = elim (grown_cases r (omega arith)) [
    | inl e ↦ inl (ap (λ (t : ℕ). load64 m (slot k t j)) e ∙ new_entries j below)
    | inr (ne, is_table) ↦
        let same : grown level p q r ≡ level r = grown_old r ne in
        elim (slot_cases r j) [
          | inr other ↦
              rw (same, kept_entry r j is_table below other)
                (IsEntry-grown (level r) (load64 k.memory (slot k r j)) (omega arith)
                  (tree.entries r j (omega arith) below))
          | inl (e, e') ↦
              let value : load64 m (slot k r j) ≡ v =
                ap₂ (λ (x y : ℕ). load64 m (slot k x y)) e e' ∙ c.entry in
              let level_r : level r ≡ level p = ap level e in
              rw (same, value) (inr (rw frame (omega (arith, grown_new)), no_big))
        ]
  ]

  pub grown-IsTree :
      frame_of v ≡ q → bit_and v vf_pd_big_page ≡ 0 → IsTree (grown level p q) (with_memory k m)
  grown-IsTree frame no_big = record {
    offset_pos = tree.offset_pos;
    offset_fits = tree.offset_fits;
    pages_fit = tree.pages_fit;
    reserved = c.pages 0 (omega (arith, c.below)) ∙ ground (arith, tree.reserved);
    root = grown_old (k.cr3 / 4096) (not_new (k.cr3 / 4096) (omega (arith, tree.root))) ∙ tree.root;
    aligned = tree.aligned;
    entries = grown-entries frame no_big;
    bounded = λ r pos. elim (grown_cases r pos) [
      | inl e ↦ omega (arith, c.below)
      | inr (ne, is_table) ↦ tree.bounded r is_table
    ];
    used = λ r pos. elim (grown_cases r pos) [
      | inl e ↦ c.pages r (omega (arith, c.below)) ∙ ground arith
      | inr (ne, is_table) ↦
          c.pages r (tree.bounded r is_table) ∙ ground (arith, tree.used r is_table)
    ];
    apart = λ r below free. elim (Bool-cases (r == q)) [
      | inl e ↦ let e' : r ≡ q = ground arith in rw e' (tree.apart q c.below (inr c.was_free))
      | inr ne ↦ tree.apart r below (ground (arith, c.pages r below))
    ];
  }
