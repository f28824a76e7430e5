-- ===== src/Virt/UserRegion.antt =====
-- `virt_map_user` of src/mem/virt.c against the address space, over a region of any size.
use ratos.Prelude.{
  ℕ, zero, suc, ◌+◌, ◌*◌, ◌^◌, ◌≤◌, ◌<◌, ◌≡◌, refl, sym, ap, ◌∙◌, ◌⊎◌, inl, inr, arith, ltb, leb,
  ◌&&◌, if◌then◌else◌, bit_and, bit_or, true, false, u64,
}
use ratos.Memory.{store64}
use ratos.Virt.{
  Kernel, Outcome, done, halted, Run, and_then, write, ◌>>◌, vf_pd_big_page, virt_page_size,
}
use ratos.Virt.Walk.{s_virt_get_or_create_pte}
use ratos.Virt.Map.{steps, is_big, map_user_loop, virt_map_user}
use ratos.Virt.Entries.{bit_or_low}
use ratos.Virt.Growth.{with_memory}
use ratos.Virt.Leaf.{page_of}
use ratos.Virt.Path.{pte}
use ratos.Virt.Prepare.{Exhausted}
use ratos.Virt.Translate.{get_or_create-Prepared}
use ratos.Virt.Space.{Space, put, Shows, Shows-ext, written-Shows, starved-Shows}

-- The `n` pages from number `from` on have all the same entry.
unfoldable pub fill_pages : Space → (from n v : ℕ) → Space
fill_pages s from n v x = if leb from x && ltb x (from + n) then v else s x

-- The call filled `n` pages and returned, or it halted after `j` of them with all pages in use.
abbrev pub Fills : Space → (from n v : ℕ) → Outcome (Unit {0}) → Type 0
Fills s from n v o =
    ((j : ℕ) × (k' : Kernel) × (j < n)
      × (o ≡ halted k')
      × Shows k' (fill_pages s from j v)
      × Exhausted k')
    ⊎ ((k' : Kernel) × (o ≡ done tt k') × Shows k' (fill_pages s from n v))

module _ (s : Space) (q addr flags n : ℕ) (small : flags < 4096)
    (no_wrap : page_of addr + n ≤ 2 ^ 36) (fits : addr + n * 4096 ≤ 2 ^ 64)
    (in_range : q < 2 ^ 52) where
  abbrev from : ℕ
  from = page_of addr

  abbrev v : ℕ
  v = q * 4096 + flags

  -- One more page.
  put-fill_pages :
      (j x : ℕ) → put (fill_pages s from j v) (from + j) v x ≡ fill_pages s from (suc j) v x
  unfolding fill_pages
  put-fill_pages j x = ground arith

  map_user_loop-Fills :
      (left j : ℕ) (k : Kernel)
      → j + left ≡ n
      → Shows k (fill_pages s from j v)
      → Fills s from n v (map_user_loop left (j * 4096) 0 (q * 4096) addr flags 4096 false k)
  unfolding map_user_loop
  map_user_loop-Fills zero j k all h =
      let last : j ≡ n = omega (arith, all) in inr (k, refl, rw (sym last) h)
  map_user_loop-Fills (suc left) j k all h =
      let a : ℕ = addr + j * 4096 in
      let here : u64 (addr + j * 4096) ≡ a = omega (arith, all) in
      let value : bit_or (q * 4096) flags ≡ v = bit_or_low 12 q flags small in
      let next : u64 (j * 4096 + 4096) ≡ suc j * 4096 = omega (arith, all) in
      let rest : Run (Unit {0}) =
        λ k'. map_user_loop left (u64 (j * 4096 + 4096)) 0 (q * 4096) addr flags 4096 false k' in
      let after : Outcome ℕ → Outcome (Unit {0}) =
        λ o. and_then o (λ e. write e (bit_or (q * 4096) flags) >> rest) in
      let head = ap (λ (t : ℕ). after (s_virt_get_or_create_pte 0 t true false k)) here in
      elim (get_or_create-Prepared h.level k a true h.tree) [
        | inl f ↦ inl (
          j,
          with_memory k f.memory,
          omega (arith, all),
          head ∙ ap after f.stops,
          starved-Shows k _ h _ f,
          f.used,
        )
        | inr r ↦
            let page : page_of a ≡ from + j = omega (arith, all) in
            let k1 : Kernel = with_memory k r.memory in
            let k' : Kernel = with_memory k (store64 r.memory (pte k1 a) v) in
            let h' : Shows k' (fill_pages s from (suc j) v) =
              Shows-ext k' (put (fill_pages s from j v) (page_of a) v) (fill_pages s from (suc j) v)
                (written-Shows k (fill_pages s from j v) h a v _ (omega (arith, small)) r)
                (λ x below.
                  ap (λ (t : ℕ). put (fill_pages s from j v) t v x) page ∙ put-fill_pages j x) in
            let went =
              head
              ∙ ap after r.returned
              ∙ ap (λ (t : ℕ). (write (pte k1 a) t >> rest) k1) value
              ∙ ap (λ (t : ℕ). map_user_loop left t 0 (q * 4096) addr flags 4096 false k') next in
            rw went (map_user_loop-Fills left (suc j) k' (omega (arith, all)) h')
      ]

-- If the tables stand for a space, `virt_map_user` of small pages, for a region that stays in the 2 ^ 36
-- pages and with a frame below 2 ^ 52, ends in one of two ways. It returns, and the tables stand for
-- the space in which every page of the region leads to that one frame and every other page where it
-- led. Or it halts, and in the state in which it halts the tables stand for the space with as many pages
-- of the region mapped as it got to, and all pages of the memory are in use.
pub virt_map_user-Fills :
    (k : Kernel) (s : Space) (q addr size flags : ℕ)
    → Shows k s
    → let n = steps virt_page_size size in
      page_of addr + n ≤ 2 ^ 36
      → addr + n * virt_page_size ≤ 2 ^ 64
      → q < 2 ^ 52
      → flags < 4096
      → bit_and flags vf_pd_big_page ≡ 0
      → Fills s
          (page_of addr)
          n
          (q * virt_page_size + flags)
          (virt_map_user 0 (q * virt_page_size) addr size flags k)
unfolding virt_map_user fill_pages
virt_map_user-Fills k s q addr size flags h no_wrap fits in_range small no_big =
    let n : ℕ = steps virt_page_size size in
    let v : ℕ = q * 4096 + flags in
    let not_big : is_big flags ≡ false = ground arith in
    let none : Shows k (fill_pages s (page_of addr) 0 v) =
      Shows-ext k s (fill_pages s (page_of addr) 0 v) h (λ x below. ground arith) in
    rw not_big
      (map_user_loop-Fills s q addr flags n small no_wrap fits in_range n 0 k (omega arith) none)
