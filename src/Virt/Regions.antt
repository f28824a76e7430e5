-- ===== src/Virt/Regions.antt =====
-- `virt_map` and `virt_get_physical_address` of src/mem/virt.c against the address space
-- that the tables stand for, over a region of any size.
use ratos.Prelude.{
  ℕ, zero, suc, ◌+◌, ◌*◌, ◌^◌, ◌≤◌, ◌<◌, ◌≡◌, refl, sym, ap, ◌∙◌, ◌⊎◌, inl, inr, arith, bit_and,
  bit_or, false, u64,
}
use ratos.Virt.{
  Kernel, Outcome, done, halted, Run, pure, and_then, write, ◌>>◌, vf_pd_big_page, virt_page_size,
}
use ratos.Virt.Walk.{s_virt_get_or_create_pte, virt_get_physical_address}
use ratos.Virt.Map.{steps, is_big, flush, map_page, map_loop, virt_map}
use ratos.Virt.Entries.{bit_or_low}
use ratos.Virt.Leaf.{page_of}
use ratos.Virt.Growth.{with_memory}
use ratos.Virt.Prepare.{Exhausted}
use ratos.Virt.Translate.{translated, get_or_create-Prepared}
use ratos.Virt.Mapping.{mapped}
use ratos.Virt.Lookup.{get_physical_address-view}
use ratos.Virt.Space.{Space, put, map_pages, Shows, Shows-ext, mapped-Shows, starved-Shows}

-- If the tables stand for a space, `virt_get_physical_address` gives what the space has for the page of
-- the address: the frame if the entry is present, else 0. It changes nothing.
pub get_physical_address-Shows :
    (k : Kernel) (s : Space) (addr : ℕ)
    → Shows k s
    → virt_get_physical_address 0 addr k ≡ done (translated (s (page_of addr))) k
get_physical_address-Shows k s addr h =
    get_physical_address-view h.level k h.tree addr
    ∙ ap (λ (t : ℕ). done (translated t) k) (h.shows (page_of addr) (omega arith))

-- The call mapped `n` pages and returned `r`, or it halted after `j` of them with all pages in use.
abbrev pub Maps : {A : Type 0} → A → Space → (from n q flags : ℕ) → Outcome A → Type 0
Maps r s from n q flags o =
    ((j : ℕ) × (k' : Kernel) × (j < n)
      × (o ≡ halted k')
      × Shows k' (map_pages s from j q flags)
      × Exhausted k')
    ⊎ ((k' : Kernel) × (o ≡ done r k') × Shows k' (map_pages s from n q flags))

pub Maps-and_then :
    {A : Type 0} (r : A) (s : Space) (from n q flags : ℕ) (o : Outcome (Unit {0}))
    → Maps tt s from n q flags o
    → Maps r s from n q flags (and_then o (λ _. pure r))
Maps-and_then r s from n q flags o (inl (j, k', below, stops, shown, used)) =
    inl (j, k', below, ap (λ o'. and_then o' (λ _. pure r)) stops, shown, used)
Maps-and_then r s from n q flags o (inr (k', returned, shown)) =
    inr (k', ap (λ o'. and_then o' (λ _. pure r)) returned, shown)

module _ (s : Space) (q addr flags n : ℕ) (small : flags < 4096)
    (no_wrap : page_of addr + n ≤ 2 ^ 36) (fits : addr + n * 4096 ≤ 2 ^ 64)
    (in_range : q + n ≤ 2 ^ 52) where
  abbrev from : ℕ
  from = page_of addr

  -- One more page.
  put-map_pages :
      (j x : ℕ)
      → put (map_pages s from j q flags) (from + j) ((q + j) * 4096 + flags) x
        ≡ map_pages s from (suc j) q flags x
  unfolding map_pages
  put-map_pages j x = ground arith

  map_page-cases :
      (j : ℕ) (k : Kernel)
      → j < n
      → map_page 0 (q * 4096) addr (j * 4096) flags false k
        ≡ and_then
            (s_virt_get_or_create_pte 0 (addr + j * 4096) false false k)
            (λ e. write e ((q + j) * 4096 + flags) >> flush 0 (addr + j * 4096))
  unfolding map_page
  map_page-cases j k below =
      let here : u64 (addr + j * 4096) ≡ addr + j * 4096 = omega arith in
      let value : bit_or (u64 (q * 4096 + j * 4096)) flags ≡ (q + j) * 4096 + flags =
        ap (λ t. bit_or t flags) {x = u64 (q * 4096 + j * 4096)} {y = (q + j) * 4096} (omega arith)
        ∙ bit_or_low 12 (q + j) flags small in
      rw (here, value) refl

  pub map_loop-Maps :
      (left j : ℕ) (k : Kernel)
      → j + left ≡ n
      → Shows k (map_pages s from j q flags)
      → Maps tt s from n q flags (map_loop left (j * 4096) 0 (q * 4096) addr flags 4096 false k)
  unfolding map_loop
  map_loop-Maps zero j k all h =
      let last : j ≡ n = omega (arith, all) in inr (k, refl, rw (sym last) h)
  map_loop-Maps (suc left) j k all h =
      let a : ℕ = addr + j * 4096 in
      let v : ℕ = (q + j) * 4096 + flags in
      let next : u64 (j * 4096 + 4096) ≡ suc j * 4096 = omega arith in
      let rest : Run (Unit {0}) =
        λ k'. map_loop left (u64 (j * 4096 + 4096)) 0 (q * 4096) addr flags 4096 false k' in
      let after : Outcome ℕ → Outcome (Unit {0}) =
        λ o. and_then (and_then o (λ e. write e v >> flush 0 a)) (λ _. rest) in
      let head = ap (λ o. and_then o (λ _. rest)) (map_page-cases j k (omega (arith, all))) in
      let onwards = λ (k' : Kernel). map_loop-Maps left (suc j) k' (omega (arith, all)) in
      elim (get_or_create-Prepared h.level k a false h.tree) [
        | inl f ↦ inl (
          j,
          with_memory k f.memory,
          omega (arith, all),
          head ∙ ap after f.stops,
          starved-Shows k _ h _ f,
          f.used,
        )
        | inr r ↦
            let k' : Kernel = mapped k r.memory a v in
            let page : page_of a ≡ from + j = omega (arith, all) in
            let h' : Shows k' (map_pages s from (suc j) q flags) =
              Shows-ext k' (put (map_pages s from j q flags) (page_of a) v)
                (map_pages s from (suc j) q flags)
                (mapped-Shows k (map_pages s from j q flags) h a v _ (omega (arith, all)) r)
                (λ x below.
                  ap (λ (t : ℕ). put (map_pages s from j q flags) t v x) page
                  ∙ put-map_pages j x) in
            rw (head, ap after r.returned, next) (onwards k' h')
      ]

-- If the tables stand for a space, `virt_map` of small pages, for a region that stays in the 2 ^ 36
-- pages and with frames below 2 ^ 52, ends in one of two ways. It returns, and the tables stand for the
-- space in which the pages of the region lead to the frames in order and every other page where it led.
-- Or it halts, and in the state in which it halts the tables stand for the space with as many pages of
-- the region mapped as it got to, and all pages of the memory are in use.
pub virt_map-Maps :
    (k : Kernel) (s : Space) (q addr size flags : ℕ)
    → Shows k s
    → let n = steps virt_page_size size in
      page_of addr + n ≤ 2 ^ 36
      → addr + n * virt_page_size ≤ 2 ^ 64
      → q + n ≤ 2 ^ 52
      → flags < 4096
      → bit_and flags vf_pd_big_page ≡ 0
      → Maps tt s (page_of addr) n q flags (virt_map 0 (q * virt_page_size) addr size flags k)
unfolding virt_map map_pages
virt_map-Maps k s q addr size flags h no_wrap fits in_range small no_big =
    let n : ℕ = steps virt_page_size size in
    let not_big : is_big flags ≡ false = ground arith in
    let none : Shows k (map_pages s (page_of addr) 0 q flags) =
      Shows-ext k s (map_pages s (page_of addr) 0 q flags) h (λ x below. ground arith) in
    rw not_big (map_loop-Maps s q addr flags n small no_wrap fits in_range n 0 k (omega arith) none)
