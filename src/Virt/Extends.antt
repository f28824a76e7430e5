-- ===== src/Virt/Extends.antt =====
-- A new table of src/mem/virt.c leaves the entries that were there as they were, and no page number
-- leads elsewhere.
use ratos.Prelude.{
  ℕ, zero, suc, ◌*◌, ◌≤◌, ◌<◌, ◌≡◌, ◌≢◌, refl, sym, ap, ap₂, ◌∙◌, ◌⊎◌, inl, inr, arith, ◌==◌,
  if◌then◌else◌, Bool-cases,
}
use ratos.Memory.{Memory, load64}
use ratos.Phys.Bitmap.{page_bit}
use ratos.Virt.{Kernel}
use ratos.Virt.Entries.{frame_of}
use ratos.Virt.Tables.{slot, IsTree, Created}
use ratos.Virt.Leaf.{
  leaf, index, view_from, Unshared, view_from-missing, view_from-there, view_from-empty,
}
use ratos.Virt.Path.{next_level}
use ratos.Virt.Growth.{
  with_memory, grown, not_new, grown_old, grown_cases, slot_cases, kept_entry, new_entries,
}

-- The tables of `k` are tables of the memory `m`, with the entries that are not missing and with those
-- of the lowest level; at most one page was taken, and every page number leads where it led.
pub record Extends (level : ℕ → ℕ) (k : Kernel) (level' : ℕ → ℕ) (m : Memory) : Type 0 where
  pub levels : (r : ℕ) → 0 < level r → level' r ≡ level r
  pub kept :
      (r j : ℕ)
      → 0 < level r
      → j < 512
      → (level r ≡ 1) ⊎ (load64 k.memory (slot k r j) ≢ 0)
      → load64 m (slot k r j) ≡ load64 k.memory (slot k r j)
  pub unshared : Unshared level k → Unshared level' (with_memory k m)
  pub views :
      (l r x : ℕ)
      → level r ≡ suc l
      → view_from (with_memory k m) (suc l) r x ≡ view_from k (suc l) r x
  pub taken : ℕ
  pub pages :
      (r : ℕ)
      → r < k.phys.bitmap_size * 64
      → r ≢ taken
      → page_bit k.phys m r ≡ page_bit k.phys k.memory r

module _ (level : ℕ → ℕ) (k : Kernel) (tree : IsTree level k) (p i v q : ℕ) (m : Memory)
    (c : Created k p i v q m) (upper : 2 ≤ level p) (small : i < 512) (frame : frame_of v ≡ q)
    (missing : load64 k.memory (slot k p i) ≡ 0) where
  abbrev k' : Kernel
  k' = with_memory k m

  abbrev entry : (r j : ℕ) → ℕ
  entry r j = load64 k.memory (slot k r j)

  -- An entry of the new tables is the one written or was there.
  abbrev Old : (r j : ℕ) → Type 0
  Old r j = (2 ≤ level r) × (load64 m (slot k r j) ≡ entry r j) × (frame_of (entry r j) ≢ q)

  origin :
      (r j : ℕ)
      → 2 ≤ grown level p q r
      → j < 512
      → load64 m (slot k r j) ≢ 0
      → ((r ≡ p) × (j ≡ i)) ⊎ Old r j
  origin r j high below present =
      elim (grown_cases level k tree p i v q m c upper small r (omega arith)) [
        | inl e ↦ absurd (
            present (
              ap (λ (t : ℕ). load64 m (slot k t j)) e
              ∙ new_entries level k tree p i v q m c upper small j below))
        | inr (ne, is_table) ↦ elim (slot_cases level k tree p i v q m c upper small r j) [
          | inl here ↦ inl here
          | inr other ↦
              let same = kept_entry level k tree p i v q m c upper small r j is_table below other in
              let high' : 2 ≤ level r =
                omega (arith, high, grown_old level k tree p i v q m c upper small r ne) in
              inr (
                high',
                same,
                not_new level k tree p i v q m c upper small (frame_of (entry r j))
                    (elim (tree.entries r j high' below) [
                      | inl z ↦ absurd (present (same ∙ z))
                      | inr (below', _) ↦ omega (arith, below', high')
                    ]),
              )
        ]
      ]

  written_frame : (r j : ℕ) → (r ≡ p) × (j ≡ i) → frame_of (load64 m (slot k r j)) ≡ q
  written_frame r j (e, e') =
      ap₂ (λ (x y : ℕ). frame_of (load64 m (slot k x y))) e e' ∙ ap frame_of c.entry ∙ frame

  grown-Unshared : Unshared level k → Unshared (grown level p q) k'
  grown-Unshared u r j r' j' high below high' below' present present' same =
      elim (origin r j high below present) [
        | inl new ↦ elim (origin r' j' high' below' present') [
          | inl new' ↦ (new.0 ∙ sym new'.0, new.1 ∙ sym new'.1)
          | inr (_, kept', ne') ↦
              absurd (ne' (ap frame_of (sym kept') ∙ sym same ∙ written_frame r j new))
        ]
        | inr (upper1, kept, ne) ↦ elim (origin r' j' high' below' present') [
          | inl new' ↦ absurd (ne (ap frame_of (sym kept) ∙ same ∙ written_frame r' j' new'))
          | inr (upper2, kept', ne') ↦
              u r j r' j' upper1 below upper2 below' (λ z. present (kept ∙ z))
                (λ z. present' (kept' ∙ z)) (ap frame_of (sym kept) ∙ same ∙ ap frame_of kept')
        ]
      ]

  -- Where the entry is as it was, and where it is the new one.
  module _ (l r x : ℕ) (e : level r ≡ suc (suc l)) where
    abbrev j : ℕ
    j = index (suc (suc l)) x

    old_way :
        load64 m (slot k r j) ≡ entry r j
        → (level (frame_of (entry r j)) ≡ suc l
            → view_from k' (suc l) (frame_of (entry r j)) x
              ≡ view_from k (suc l) (frame_of (entry r j)) x)
        → view_from k' (suc (suc l)) r x ≡ view_from k (suc (suc l)) r x
    old_way same onwards = elim (Bool-cases (entry r j == 0)) [
      | inl z ↦
          view_from-missing k' l r x (same ∙ ground arith)
          ∙ sym (view_from-missing k l r x (ground arith))
      | inr ne ↦
          let there : entry r j ≢ 0 = ground arith in
          view_from-there k' l r x (λ z. there (sym same ∙ z))
          ∙ ap (λ (t : ℕ). view_from k' (suc l) (frame_of t) x) same
          ∙ onwards (next_level level k tree r j l e (omega arith) there)
          ∙ sym (view_from-there k l r x there)
    ]

    new_way : (r ≡ p) × (j ≡ i) → view_from k' (suc (suc l)) r x ≡ view_from k (suc (suc l)) r x
    new_way (here, here') =
        let value : load64 m (slot k r j) ≡ v =
          ap₂ (λ (s t : ℕ). load64 m (slot k s t)) here here' ∙ c.entry in
        nowhere value ∙ sym (view_from-missing k l r x (ap₂ entry here here' ∙ missing))
      where
        nowhere : load64 m (slot k r j) ≡ v → view_from k' (suc (suc l)) r x ≡ 0
        nowhere value = elim (Bool-cases (v == 0)) [
          | inl z ↦ view_from-missing k' l r x (value ∙ ground arith)
          | inr ne ↦
              let there : v ≢ 0 = ground arith in
              view_from-there k' l r x (λ z. there (sym value ∙ z))
              ∙ ap (λ (t : ℕ). view_from k' (suc l) t x) (ap frame_of value ∙ frame)
              ∙ view_from-empty k' (suc l) q x tree.offset_pos
                  (new_entries level k tree p i v q m c upper small)
        ]

  grown_views : (l r x : ℕ) → level r ≡ l → view_from k' l r x ≡ view_from k l r x
  unfolding leaf
  grown_views zero r x e = refl
  grown_views (suc zero) r x e =
      ap (λ (t : ℕ). if slot k r (index 1 x) == 0 then 0 else t)
        (kept_entry level k tree p i v q m c upper small r (index 1 x) (omega (arith, e))
          (omega arith) (inl (λ same. absurd (omega (arith, upper, ap level same, e)))))
  grown_views (suc (suc l)) r x e =
      let j : ℕ = index (suc (suc l)) x in
      let below : j < 512 = omega arith in
      let onwards = grown_views (suc l) (frame_of (entry r j)) x in
      elim (slot_cases level k tree p i v q m c upper small r j) [
        | inr other ↦
            old_way l r x e
              (kept_entry level k tree p i v q m c upper small r j (omega (arith, e)) below other)
              onwards
        | inl here ↦ new_way l r x e here
      ]

  pub grown-Extends : Extends level k (grown level p q) m
  grown-Extends = record {
    levels = λ r is_table.
        grown_old level k tree p i v q m c upper small r
          (not_new level k tree p i v q m c upper small r is_table);
    kept = λ r j is_table below old. elim (slot_cases level k tree p i v q m c upper small r j) [
      | inr other ↦ kept_entry level k tree p i v q m c upper small r j is_table below other
      | inl (e, e') ↦ absurd (elim old [
        | inl lowest ↦ omega (arith, ap level e)
        | inr there ↦ there (ap₂ (λ (x y : ℕ). load64 k.memory (slot k x y)) e e' ∙ missing)
      ])
    ];
    unshared = grown-Unshared;
    views = λ l. grown_views (suc l);
    taken = q;
    pages = λ r below ne. ground (arith, c.pages r below);
  }
