-- ===== src/Virt/Anywhere.antt =====
-- `virt_map_anywhere` of src/mem/virt.c against the address space that the tables stand for.
use ratos.Prelude.{
  ℕ, suc, ◌+◌, ◌-◌, ◌*◌, ◌/◌, ◌%◌, ◌^◌, ◌≤◌, ◌<◌, ◌≡◌, ap, subst, ◌∙◌, ◌⊎◌, inl, inr, arith, false,
  u64, Option, none, some,
}
use ratos.Virt.{Kernel, Outcome, done, Run, pure, and_then, ◌>>◌, virt_page_size}
use ratos.Virt.Map.{steps, map_loop}
use ratos.Virt.Contexts.{kernel_limit, virt_map_anywhere}
use ratos.Virt.Leaf.{page_of}
use ratos.Virt.Space.{Space, map_pages, Shows, Shows-ext}
use ratos.Virt.Search.{FirstFit, search_space-FirstFit}
use ratos.Virt.Regions.{Maps, Maps-and_then, map_loop-Maps}

-- Behind the first page of the direct map.
abbrev pub search_start : Kernel → ℕ
search_start k = k.hhdm_offset + virt_page_size

-- What `virt_map_anywhere` does: there is no region of `n` free pages, and it changes nothing and
-- returns 0, or it maps the first one, and returns its address.
abbrev pub Places : Space → Kernel → (n q flags : ℕ) → Outcome ℕ → Type 0
Places s k n q flags o =
    ((o ≡ done 0 k) × FirstFit s kernel_limit n (search_start k) none)
    ⊎ ((a : ℕ) × (2 ^ 64 - 2 ^ 48 ≤ a)
        × FirstFit s kernel_limit n (search_start k) (some a)
        × (a + n * virt_page_size ≤ 2 ^ 64)
        × (a % virt_page_size ≡ 0)
        × ((j : ℕ) → j < n → s (page_of (a + j * virt_page_size)) ≡ 0)
        × Maps a s (page_of a) n q flags o)

-- If the tables stand for a space, with the direct map page-aligned in the upper half:
-- `virt_map_anywhere` of up to 16 pages, with a round of the search for each page of the direct map,
-- takes the first address behind the first page of the direct map from which that many pages lead
-- nowhere. If there is none below its limit, it returns 0 and changes nothing. If there is one, it
-- returns it, and the tables stand for the space with these pages mapped in order; or it halts with all
-- pages of the memory in use.
pub virt_map_anywhere-Places :
    (fuel : ℕ) (k : Kernel) (s : Space) (q size flags : ℕ)
    → Shows k s
    → 2 ^ 64 - 2 ^ 48 ≤ k.hhdm_offset
    → k.hhdm_offset % virt_page_size ≡ 0
    → kernel_limit ≤ k.hhdm_offset + virt_page_size * fuel
    → size ≤ 16 * virt_page_size
    → q + steps virt_page_size size ≤ 2 ^ 52
    → flags < 4096
    → Places s k
        (steps virt_page_size size)
        q
        flags
        (virt_map_anywhere (suc fuel) 0 (q * virt_page_size) size flags k)
unfolding virt_map_anywhere map_pages
virt_map_anywhere-Places fuel k s q size flags h upper aligned enough limited in_range small =
    let n : ℕ = steps virt_page_size size in
    let start : ℕ = u64 (k.hhdm_offset + virt_page_size) in
    let from : start ≡ k.hhdm_offset + virt_page_size =
      omega
        (arith, h.tree.offset_fits, h.tree.bounded (k.cr3 / 4096) (omega (arith, h.tree.root))) in
    let by_result : Option ℕ → Run ℕ = λ r. elim r as (λ _. Run ℕ) [
      | none ↦ pure 0
      | some addr ↦
          (map_loop n 0 0 (q * virt_page_size) addr flags virt_page_size false >> pure addr)
    ] in
    let (r, searched, found) =
      search_space-FirstFit fuel kernel_limit size start k s h (omega arith)
        (omega (arith, limited)) (omega (arith, from)) in
    let fit = subst (λ (t : ℕ). FirstFit s kernel_limit n t r) from found in
    let head = ap (λ o. and_then o by_result) searched in
    elim r
        as (λ r'.
          (virt_map_anywhere (suc fuel) 0 (q * virt_page_size) size flags k ≡ by_result r' k)
          → FirstFit s kernel_limit n (search_start k) r'
          → Places s k n q flags
              (virt_map_anywhere (suc fuel) 0 (q * virt_page_size) size flags k)) [
                | none ↦ λ e fit'. inl (e, fit')
                | some a ↦ λ e (i, place, below, free, earlier).
                    let pages : n ≤ 16 = omega (arith, limited) in
                    let high : 2 ^ 64 - 2 ^ 48 ≤ a = omega (arith, place, upper) in
                    let fits : a + n * 4096 ≤ 2 ^ 64 = omega (arith, below, pages) in
                    let none_yet : Shows k (map_pages s (page_of a) 0 q flags) =
                      Shows-ext k s (map_pages s (page_of a) 0 q flags) h
                        (λ x small'. ground arith) in
                    inr (
                      a,
                      high,
                      (i, place, below, free, earlier),
                      fits,
                      omega (arith, place, aligned),
                      λ j inside.
                          ap (λ (t : ℕ). s (page_of t)) {x = a + j * 4096} {y = u64 (a + j * 4096)}
                            (omega (arith, fits, inside))
                          ∙ free j inside,
                      rw e (
                          Maps-and_then a s (page_of a) n q flags _ (
                            map_loop-Maps s q a flags n small (omega (arith, fits, high)) fits
                              in_range n 0 k (omega arith) none_yet)),
                    )
              ]
      head fit
