-- ===== src/Acpi/Lapic.antt =====
-- `lapic_init` of src/acpi/lapic.c against the address space.
use ratos.Prelude.{
  refl, if◌then◌else◌, none, some, ℕ, suc, ◌+◌, ◌-◌, ◌*◌, ◌%◌, ◌^◌, ◌≤◌, ◌<◌, ◌≡◌, ap, ◌∙◌, ◌⊎◌,
  inl, inr, arith, bit_and, Bool, true, false, ◌==◌,
}
use ratos.Virt.{Kernel, Outcome, Run, done, halted, and_then, pure, hcf, virt_page_size}
use ratos.Virt.Contexts.{kernel_limit}
use ratos.Virt.Leaf.{page_of}
use ratos.Virt.Prepare.{Exhausted}
use ratos.Virt.Space.{Space, put, map_pages, Shows, Shows-ext}
use ratos.Virt.Search.{FirstFit}
use ratos.Virt.Anywhere.{search_start, virt_map_anywhere-Places}
use ratos.Acpi.{lapic_init, msr_apic_base_flags_enabled}

-- One page, the first that led nowhere, leads to frame `q`, present, writable, written through and not
-- cached; or nothing changed, since each page leads somewhere.
abbrev pub Placed : Space → Kernel → (q : ℕ) → Kernel → Type 0
Placed s k q k' =
    ((k' ≡ k) × FirstFit s kernel_limit 1 (search_start k) none)
    ⊎ ((a : ℕ) × FirstFit s kernel_limit 1 (search_start k) (some a)
        × Shows k' (put s (page_of a) (q * virt_page_size + 0b11011)))

-- How the call ends: with no memory left it halts and the space is as it was; else, behind the mapping,
-- the flag decides.
abbrev pub Settled : Space → Kernel → (q apic_base_msr : ℕ) → Outcome (Unit {0}) → Type 0
Settled s k q apic_base_msr o =
    ((k' : Kernel) × (o ≡ halted k') × Shows k' s × Exhausted k')
    ⊎ ((k' : Kernel) × Placed s k q k'
        × (o ≡ (
            if bit_and apic_base_msr msr_apic_base_flags_enabled == 0
            then halted k'
            else done tt k')))

module _ (s : Space) (q a : ℕ) where
  no_page : (x : ℕ) → map_pages s (page_of a) 0 q 27 x ≡ s x
  unfolding map_pages
  no_page x = ground arith

  one_page : (x : ℕ) → map_pages s (page_of a) 1 q 27 x ≡ put s (page_of a) (q * 4096 + 27) x
  unfolding map_pages
  one_page x = ground arith

-- If the tables stand for a space, with the direct map page-aligned in the upper half, and the registers
-- of the local APIC are a frame below 2 ^ 52: `lapic_init`, with a round of the search for each page of
-- the direct map, maps the registers at the first page behind the first page of the direct map that
-- led nowhere, present, writable, written through and not cached; it changes nothing if there is no such
-- page below the limit of the search; or it halts with the space as it was and all pages of the memory
-- in use. In the first two cases it then halts if the APIC is disabled, and returns if it is enabled.
pub lapic_init-Settled :
    (fuel : ℕ) (k : Kernel) (s : Space) (q apic_base_msr : ℕ)
    → Shows k s
    → 2 ^ 64 - 2 ^ 48 ≤ k.hhdm_offset
    → k.hhdm_offset % virt_page_size ≡ 0
    → kernel_limit ≤ k.hhdm_offset + virt_page_size * fuel
    → q < 2 ^ 52
    → Settled s k q apic_base_msr (lapic_init (suc fuel) (q * virt_page_size) apic_base_msr k)
unfolding lapic_init
lapic_init-Settled fuel k s q apic_base_msr h upper aligned enough small =
    let flag : ℕ = bit_and apic_base_msr 0x800 in
    let check : Bool → Run (Unit {0}) =
      λ b. elim b as (λ _. Run (Unit {0})) [ true ↦ hcf | false ↦ pure tt ] in
    let finish : Outcome ℕ → Outcome (Unit {0}) = λ o. and_then o (λ _. check (flag == 0)) in
    let decided = λ (k' : Kernel).
      elim (flag == 0) as (λ b. check b k' ≡ (if b then halted k' else done tt k')) [
        | true ↦ refl
        | false ↦ refl
      ] in
    elim (virt_map_anywhere-Places fuel k s q 4096 27 h upper aligned enough (omega arith)
      (omega (arith, small)) (omega arith)) [
        | inl (nothing, full) ↦ inr (k, inl (refl, full), ap finish nothing ∙ decided k)
        | inr (a, _, _, _, _, _, inl (j, k', below, stops, shown, used)) ↦
            let none_yet : j ≡ 0 = omega (arith, below) in
            inl (
              k',
              ap finish stops,
              Shows-ext k' (map_pages s (page_of a) j q 27) s shown (λ x _.
                  ap (λ (t : ℕ). map_pages s (page_of a) t q 27 x) none_yet ∙ no_page s q a x),
              used,
            )
        | inr (a, _, first, _, _, _, inr (k', returned, shown)) ↦ inr (
          k',
          inr (
            a,
            first,
            Shows-ext k' (map_pages s (page_of a) 1 q 27) (put s (page_of a) (q * 4096 + 27)) shown
                (λ x _. one_page s q a x),
          ),
          ap finish returned ∙ decided k',
        )
      ]
