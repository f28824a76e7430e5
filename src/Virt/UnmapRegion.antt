-- ===== src/Virt/UnmapRegion.antt =====
-- `virt_unmap` of src/mem/virt.c against the address space, over a region of any size.
use ratos.Prelude.{
  ℕ, zero, suc, ◌+◌, ◌*◌, ◌/◌, ◌^◌, ◌≤◌, ◌<◌, ◌≡◌, ◌≢◌, refl, sym, ap, subst, ◌∙◌, inl, inr, arith,
  ◌==◌, if◌then◌else◌, Bool, Bool-cases, true, false, not, u64,
}
use mathlib.Core.List.{Memᴰ}
use ratos.Memory.{load64}
use ratos.Virt.{Kernel, done, Run, pure, and_then, write, ◌>>◌, virt_page_size}
use ratos.Virt.Map.{steps, flush, unmap_page, unmap_loop, virt_unmap}
use ratos.Virt.Leaf.{page_of, leaf}
use ratos.Virt.Lookup.{get_pte-leaf}
use ratos.Virt.Store.{leaf-pte}
use ratos.Virt.Space.{Space, put, unmap_pages, Shows, Shows-ext, tables_there, mapped-Shows}
use ratos.Virt.Unmap.{prepared, unmapped}

-- The translations of the `n` pages from `addr` on that led somewhere were flushed.
abbrev pub Flushed : Space → (addr n : ℕ) → Kernel → Type 0
Flushed s addr n k =
    (i : ℕ) → i < n → s (page_of addr + i) ≢ 0 → Memᴰ (addr + i * virt_page_size) k.flushed

-- To take away an entry that is missing changes nothing.
unchanged : (s : Space) (p x : ℕ) → s p ≡ 0 → s x ≡ put s p 0 x
unchanged s p x nowhere = elim (Bool-cases (x == p)) [
  | inl e ↦ let here : x ≡ p = ground arith in ap s here ∙ nowhere ∙ ground arith
  | inr ne ↦ ground arith
]

-- One round: where the tables are missing, the page leads nowhere already.
unmap_page-Shows :
    (k : Kernel) (t : Space) (a : ℕ)
    → Shows k t
    → (k' : Kernel) × (unmap_page 0 a k ≡ done tt k')
      × Shows k' (put t (page_of a) 0)
      × ((b : ℕ) → Memᴰ b k.flushed → Memᴰ b k'.flushed)
      × (t (page_of a) ≢ 0 → Memᴰ a k'.flushed)
unfolding unmap_page leaf
unmap_page-Shows k t a h =
    let e : ℕ = leaf k 4 (k.cr3 / 4096) (page_of a) in
    let found =
      ap
        (λ o. and_then o (λ entry. elim (not (entry == 0)) as (λ _. Run (Unit {0})) [
          | false ↦ pure tt
          | true ↦ (write entry 0 >> flush 0 a)
        ]))
        (get_pte-leaf h.level k h.tree a) in
    let after : Bool → Run (Unit {0}) =
      λ b. elim b as (λ _. Run (Unit {0})) [ false ↦ pure tt | true ↦ (write e 0 >> flush 0 a) ] in
    elim (Bool-cases (e == 0)) [
      | inl z ↦
          let skip : not (e == 0) ≡ false = ground arith in
          let nowhere : t (page_of a) ≡ 0 =
            sym (h.shows (page_of a) (omega arith))
            ∙ ap (λ b. if b then 0 else load64 k.memory e) z in
          (
            k,
            found ∙ ap (λ b. after b k) skip,
            Shows-ext k t (put t (page_of a) 0) h (λ x below. unchanged t (page_of a) x nowhere),
            λ b among. among,
            λ present. absurd (present nowhere),
          )
      | inr ne ↦
          let there : e ≢ 0 = ground arith in
          let go : not (e == 0) ≡ true = ground arith in
          let has = tables_there k t h a there in
          let r = prepared h.level k a has in
          (
            unmapped k a,
            found
                ∙ ap (λ b. after b k) go
                ∙ ap (λ (x : ℕ). (write x 0 >> flush 0 a) k)
                    (leaf-pte h.level k a has h.unshared 0),
            mapped-Shows k t h a 0 _ (omega arith) r,
            λ b among. Memᴰ.tail among,
            λ present. Memᴰ.head refl,
          )
    ]

module _ (s : Space) (addr n : ℕ) (no_wrap : page_of addr + n ≤ 2 ^ 36)
    (fits : addr + n * 4096 ≤ 2 ^ 64) where
  put-unmap_pages :
      (j x : ℕ)
      → put (unmap_pages s (page_of addr) j) (page_of addr + j) 0 x
        ≡ unmap_pages s (page_of addr) (suc j) x
  unfolding unmap_pages
  put-unmap_pages j x = ground arith

  untouched : (j : ℕ) → unmap_pages s (page_of addr) j (page_of addr + j) ≡ s (page_of addr + j)
  unfolding unmap_pages
  untouched j = ground arith

  unmap_loop-Shows :
      (left j : ℕ) (k : Kernel)
      → j + left ≡ n
      → Shows k (unmap_pages s (page_of addr) j)
      → Flushed s addr j k
      → (k' : Kernel) × (unmap_loop left (j * 4096) 0 addr k ≡ done tt k')
        × Shows k' (unmap_pages s (page_of addr) n)
        × Flushed s addr n k'
  unfolding unmap_loop
  unmap_loop-Shows zero j k all h so_far =
      let last : j ≡ n = omega (arith, all) in
      (k, refl, rw (sym last) h, λ i below. so_far i (omega (arith, all)))
  unmap_loop-Shows (suc left) j k all h so_far =
      let from : ℕ = page_of addr in
      let a : ℕ = u64 (addr + j * 4096) in
      let next : u64 (j * 4096 + 4096) ≡ suc j * 4096 = omega (arith, all) in
      let rest : Run (Unit {0}) = λ k'. unmap_loop left (u64 (j * 4096 + 4096)) 0 addr k' in
      let (k1, ran, shown, kept, flushed) = unmap_page-Shows k (unmap_pages s from j) a h in
      let page : page_of a ≡ from + j = omega (arith, all) in
      let shown' : Shows k1 (unmap_pages s from (suc j)) =
        Shows-ext k1 (put (unmap_pages s from j) (page_of a) 0) (unmap_pages s from (suc j)) shown
          (λ x below.
            ap (λ (t : ℕ). put (unmap_pages s from j) t 0 x) page ∙ put-unmap_pages j x) in
      let here : a ≡ addr + j * 4096 = omega (arith, all) in
      let same : unmap_pages s from j (page_of a) ≡ s (from + j) =
        ap (unmap_pages s from j) page ∙ untouched j in
      let flushed' : Flushed s addr (suc j) k1 = λ i below present. elim (Bool-cases (i == j)) [
        | inl e ↦
            let last : i ≡ j = ground arith in
            let now : a ≡ addr + i * 4096 = omega (arith, here, last) in
            subst (λ (t : ℕ). Memᴰ t k1.flushed) now
              (flushed (λ gone. present (ap (λ (t : ℕ). s (from + t)) last ∙ sym same ∙ gone)))
        | inr ne ↦ kept (addr + i * 4096) (so_far i (ground arith) present)
      ] in
      let (k', returned, result, all_flushed) =
        unmap_loop-Shows left (suc j) k1 (omega (arith, all)) shown' flushed' in
      (
        k',
        ap (λ o. and_then o (λ _. rest)) ran
            ∙ ap (λ (t : ℕ). unmap_loop left t 0 addr k1) next
            ∙ returned,
        result,
        all_flushed,
      )

-- If the tables stand for a space, `virt_unmap` of a region that stays in the 2 ^ 36 pages returns, and
-- the tables stand for the space in which the pages of the region lead nowhere and every other page
-- where it led. The translation of each page of the region that led somewhere is flushed. Tables may be
-- missing in the region.
pub virt_unmap-Shows :
    (k : Kernel) (s : Space) (addr size : ℕ)
    → Shows k s
    → let n = steps virt_page_size size in
      page_of addr + n ≤ 2 ^ 36
      → addr + n * virt_page_size ≤ 2 ^ 64
      → (k' : Kernel) × (virt_unmap 0 addr size k ≡ done tt k')
        × Shows k' (unmap_pages s (page_of addr) n)
        × Flushed s addr n k'
unfolding virt_unmap unmap_pages
virt_unmap-Shows k s addr size h no_wrap fits =
    let n : ℕ = steps virt_page_size size in
    let none : Shows k (unmap_pages s (page_of addr) 0) =
      Shows-ext k s (unmap_pages s (page_of addr) 0) h (λ x below. ground arith) in
    unmap_loop-Shows s addr n no_wrap fits n 0 k (omega arith) none
      (λ i below. absurd (omega (arith, below)))
