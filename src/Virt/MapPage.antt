-- ===== src/Virt/MapPage.antt =====
-- `virt_map` of src/mem/virt.c for one page.
use ratos.Prelude.{
  ℕ, ◌+◌, ◌*◌, ◌%◌, ◌^◌, ◌≤◌, ◌<◌, ◌≡◌, refl, sym, ap, ◌∙◌, ◌⊎◌, inl, inr, arith, bit_and, bit_or,
  false, ◌==◌, u64,
}
use ratos.Prelude.Bits.{bit_and_mask}
use ratos.Virt.{
  Kernel, Outcome, done, halted, pure, and_then, write, ◌>>◌, vf_pd_big_page, vf_pt_present,
  virt_page_size,
}
use ratos.Virt.Walk.{s_virt_get_or_create_pte}
use ratos.Virt.Map.{steps, is_big, flush, map_page, map_loop, virt_map}
use ratos.Virt.Entries.{table_address, bit_or_low}
use ratos.Virt.Tables.{IsTree}
use ratos.Virt.Growth.{with_memory}
use ratos.Virt.Prepare.{Exhausted}
use ratos.Virt.Translate.{translated, get_physical_address_lem, Prepared, get_or_create-Prepared}
use ratos.Virt.Mapping.{Mapped, mapped, flushed_tables, has2, written_entry, pte2, others2}

module _ (q addr flags : ℕ) (in_range : q < 2 ^ 41) (small : flags < 4096) where
  abbrev v : ℕ
  v = q * 4096 + flags

  pub translated_lem : flags % 2 ≡ 1 → translated v ≡ q * 4096
  translated_lem odd =
      let present : bit_and v vf_pt_present == 0 ≡ false = ground (arith, bit_and_mask 1 v) in
      rw present (table_address v ∙ omega arith)

  -- The one round of `virt_map`.
  virt_map-round :
      (k : Kernel) (size : ℕ)
      → addr < 2 ^ 64
      → 0 < size
      → size ≤ 4096
      → bit_and flags vf_pd_big_page ≡ 0
      → virt_map 0 (q * 4096) addr size flags k
        ≡ and_then
            (and_then
              (s_virt_get_or_create_pte 0 addr false false k)
              (λ e. write e v >> flush 0 addr))
            (λ _. pure tt)
  unfolding virt_map map_loop map_page
  virt_map-round k size fits some_bytes one_page no_big =
      let not_big : is_big flags ≡ false = ground arith in
      let one : steps 4096 size ≡ 1 = omega arith in
      let here : u64 (addr + 0) ≡ addr = omega arith in
      let value : bit_or (u64 (q * 4096 + 0)) flags ≡ v =
        ap (λ t. bit_or t flags) {x = u64 (q * 4096 + 0)} {y = q * 4096} (omega arith)
        ∙ bit_or_low 12 q flags small in
      rw (not_big, one, here, value) refl

  map_page-Mapped :
      (level : ℕ → ℕ) (k : Kernel) (o : Outcome ℕ)
      → IsTree level k
      → flags % 2 ≡ 1
      → Prepared level k addr o
      → Mapped level k
          (q * 4096)
          addr
          (and_then (and_then o (λ e. write e v >> flush 0 addr)) (λ _. pure tt))
  map_page-Mapped level k o tree odd r =
      let fits : v < 2 ^ 64 = omega arith in
      let k' : Kernel = mapped k r.memory addr v in
      let has = flushed_tables r.level' _ addr addr (has2 level k addr v tree o r fits) in
      record {
        level' = r.level';
        kernel = k';
        returned =
            ap (λ o'. and_then (and_then o' (λ e. write e v >> flush 0 addr)) (λ _. pure tt))
              r.returned;
        has = has;
        translates =
            get_physical_address_lem r.level' k' addr has
            ∙ ap (λ t. done t k')
                (ap translated (written_entry level k addr v tree o r fits) ∙ translated_lem odd);
        others = λ addr' has' ne.
            others2 level k addr v tree o r fits addr' has'
              (λ e. ne (e ∙ sym (pte2 level k addr v tree o r fits)));
      }

-- On the tables that CR3 names, if they are a tree without big pages: `virt_map` of at most one page,
-- to a page-aligned address below 2 ^ 53 and with the present flag, returns or halts. It halts only if
-- all pages are in use. If it returns, the tables are a tree, `virt_get_physical_address` gives
-- the physical address for the virtual one, and for each other address that had its tables and does not
-- share the entry the same as before.
pub virt_map-Mapped :
    (level : ℕ → ℕ) (k : Kernel) (q addr size flags : ℕ)
    → IsTree level k
    → q < 2 ^ 41
    → addr < 2 ^ 64
    → 0 < size
    → size ≤ virt_page_size
    → flags < 4096
    → flags % 2 ≡ 1
    → bit_and flags vf_pd_big_page ≡ 0
    → let o = virt_map 0 (q * virt_page_size) addr size flags k in
      ((k' : Kernel) × (o ≡ halted k') × Exhausted k') ⊎ Mapped level k (q * virt_page_size) addr o
virt_map-Mapped level k q addr size flags tree in_range fits some_bytes one_page small odd no_big =
    rw (virt_map-round q addr flags in_range small k size fits some_bytes one_page no_big)
      (elim (get_or_create-Prepared level k addr false tree) [
        | inl f ↦ inl (
          with_memory k f.memory,
          ap
              (λ o.
                and_then (and_then o (λ e. write e (q * 4096 + flags) >> flush 0 addr))
                  (λ _. pure tt))
              f.stops,
          f.used,
        )
        | inr r ↦ inr (map_page-Mapped q addr flags in_range small level k _ tree odd r)
      ])
