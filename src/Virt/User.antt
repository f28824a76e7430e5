-- ===== src/Virt/User.antt =====
-- `virt_map_user` of src/mem/virt.c for two pages.
use ratos.Prelude.{
  ℕ, ◌+◌, ◌*◌, ◌%◌, ◌^◌, ◌<◌, ◌≡◌, ◌≢◌, sym, ap, ◌∙◌, arith, bit_and, bit_or, true, false, u64,
}
use ratos.Memory.{load64, store64}
use ratos.Virt.{
  Kernel, done, pure, and_then, write, ◌>>=◌, ◌>>◌, vf_pd_big_page, virt_page_size,
  virt_pt_index_offset,
}
use ratos.Virt.Walk.{s_virt_get_or_create_pte, virt_get_physical_address}
use ratos.Virt.Map.{is_big, map_user_loop, virt_map_user}
use ratos.Virt.Entries.{bit_or_low, virt_index_lem}
use ratos.Virt.Growth.{with_memory}
use ratos.Virt.Path.{pte}
use ratos.Virt.Access.{HasTables, get_or_create_pte_lem}
use ratos.Virt.Translate.{translated, get_physical_address_lem}
use ratos.Virt.Mapping.{has2, written_entry, pte2, tables_elsewhere, pte_elsewhere, value_elsewhere}
use ratos.Virt.MapPage.{translated_lem}
use ratos.Virt.Unmap.{prepared}

-- The kernel behind the write of the entry of an address.
abbrev pub written : Kernel → (addr v : ℕ) → Kernel
written k addr v = with_memory k (store64 k.memory (pte k addr) v)

module _ (level : ℕ → ℕ) (k : Kernel) (addr v : ℕ) (has : HasTables level k addr)
    (next : HasTables level k (addr + 4096)) (fits : v < 2 ^ 64) where
  abbrev once : Kernel
  once = written k addr v

  abbrev twice : Kernel
  twice = written once (addr + 4096) v

  next_once : HasTables level once (addr + 4096)
  next_once =
      tables_elsewhere level k addr v has.tree _ (prepared level k addr has) fits (addr + 4096) next

  has_once : HasTables level once addr
  has_once = has2 level k addr v has.tree _ (prepared level k addr has) fits

  pub next_twice : HasTables level twice (addr + 4096)
  next_twice =
      has2 level once (addr + 4096) v next_once.tree _ (prepared level once (addr + 4096) next_once)
        fits

  pub has_twice : HasTables level twice addr
  has_twice =
      tables_elsewhere level once (addr + 4096) v next_once.tree _
        (prepared level once (addr + 4096) next_once) fits addr has_once

  pub next_value : load64 twice.memory (pte twice (addr + 4096)) ≡ v
  next_value =
      written_entry level once (addr + 4096) v next_once.tree _
        (prepared level once (addr + 4096) next_once) fits

  -- The entries of neighbours differ.
  two_entries : pte k addr ≢ pte k (addr + 4096)
  two_entries e = absurd (
      omega (
        arith,
        e,
        virt_index_lem addr virt_pt_index_offset,
        virt_index_lem (addr + 4096) virt_pt_index_offset,
      ))

  pub first_value : load64 twice.memory (pte twice addr) ≡ v
  first_value =
      value_elsewhere level once (addr + 4096) v next_once.tree _
        (prepared level once (addr + 4096) next_once) fits addr has_once
        (λ e. two_entries (
          sym (pte2 level k addr v has.tree _ (prepared level k addr has) fits)
          ∙ e
          ∙ pte_elsewhere level k addr v has.tree _ (prepared level k addr has) fits (addr + 4096)
              next))
      ∙ written_entry level k addr v has.tree _ (prepared level k addr has) fits

  virt_map_user-rounds :
      (phys_addr flags : ℕ)
      → bit_or phys_addr flags ≡ v
      → is_big flags ≡ false
      → addr + 4096 < 2 ^ 64
      → virt_map_user 0 phys_addr addr (2 * virt_page_size) flags k ≡ done tt twice
  unfolding virt_map_user map_user_loop
  virt_map_user-rounds phys_addr flags value small below =
      let here : u64 (addr + 0) ≡ addr = omega arith in
      let there : u64 (addr + 4096) ≡ addr + 4096 = omega arith in
      rw (small, here, value)
        (ap
            (λ o. and_then o (λ e.
              write e v
              >> (s_virt_get_or_create_pte 0 (u64 (addr + 4096)) true false >>= λ e'.
                  write e' v >> pure tt)))
            (get_or_create_pte_lem level k addr has true)
          ∙ ap
              (λ a.
                and_then (s_virt_get_or_create_pte 0 a true false once) (λ e. write e v >> pure tt))
              there
          ∙ ap (λ o. and_then o (λ e. write e v >> pure tt))
              (get_or_create_pte_lem level once (addr + 4096) next_once true))

-- `virt_map_user` of two pages, at addresses that have their tables, maps both to the first physical
-- page.
pub virt_map_user_alias :
    (level : ℕ → ℕ) (k : Kernel) (q addr flags : ℕ)
    → HasTables level k addr
    → HasTables level k (addr + virt_page_size)
    → addr + virt_page_size < 2 ^ 64
    → q < 2 ^ 41
    → flags < 4096
    → flags % 2 ≡ 1
    → bit_and flags vf_pd_big_page ≡ 0
    → (k' : Kernel) × (virt_map_user 0 (q * virt_page_size) addr (2 * virt_page_size) flags k
        ≡ done tt k')
      × (virt_get_physical_address 0 addr k' ≡ done (q * virt_page_size) k')
      × (virt_get_physical_address 0 (addr + virt_page_size) k' ≡ done (q * virt_page_size) k')
virt_map_user_alias level k q addr flags has next below in_range small odd no_big =
    let v : ℕ = q * 4096 + flags in
    let fits : v < 2 ^ 64 = omega arith in
    let k' : Kernel = twice level k addr v has next fits in
    (
      k',
      virt_map_user-rounds level k addr v has next fits (q * 4096) flags
          (bit_or_low 12 q flags small) (ground arith) below,
      get_physical_address_lem level k' addr (has_twice level k addr v has next fits)
          ∙ ap (λ t. done t k')
              (ap translated (first_value level k addr v has next fits)
                ∙ translated_lem q addr flags in_range small odd),
      get_physical_address_lem level k' (addr + 4096) (next_twice level k addr v has next fits)
          ∙ ap (λ t. done t k')
              (ap translated (next_value level k addr v has next fits)
                ∙ translated_lem q addr flags in_range small odd),
    )
