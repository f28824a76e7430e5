-- ===== src/Virt/Unmap.antt =====
-- `virt_unmap` of src/mem/virt.c for one page.
use ratos.Prelude.{
  ℕ, ◌+◌, ◌^◌, ◌≤◌, ◌<◌, ◌≡◌, refl, ap, ◌∙◌, arith, Bool, true, false, not, ◌==◌, u64,
}
use ratos.Virt.{Kernel, done, Run, pure, and_then, write, ◌>>◌, virt_page_size}
use ratos.Virt.Walk.{virt_get_physical_address}
use ratos.Virt.Map.{steps, flush, unmap_page, unmap_loop, virt_unmap}
use ratos.Virt.Path.{pte}
use ratos.Virt.Access.{HasTables, get_pte_lem}
use ratos.Virt.Translate.{translated, get_physical_address_lem, Prepared}
use ratos.Virt.Mapping.{SameElsewhere, mapped, flushed_tables, has2, written_entry, others2}

-- Where the tables are there, nothing has to be prepared.
abbrev pub prepared :
    (level : ℕ → ℕ) (k : Kernel) (addr : ℕ)
    → HasTables level k addr
    → Prepared level k addr (done (pte k addr) k)
prepared level k addr has = record {
  level' = level;
  memory = k.memory;
  has = has;
  kept = record {
    levels = λ r pos. refl;
    entries = λ r j pos below old. refl;
    unshared = λ u. u;
    views = λ l r x e. refl;
  };
  returned = refl;
}

-- The kernel behind `virt_unmap`.
abbrev pub unmapped : Kernel → ℕ → Kernel
unmapped k addr = mapped k k.memory addr 0

virt_unmap-round :
    (level : ℕ → ℕ) (k : Kernel) (addr size : ℕ)
    → HasTables level k addr
    → addr < 2 ^ 64
    → 0 < size
    → size ≤ virt_page_size
    → virt_unmap 0 addr size k ≡ done tt (unmapped k addr)
unfolding virt_unmap unmap_loop unmap_page
virt_unmap-round level k addr size has fits some_bytes one_page =
    let one : steps virt_page_size size ≡ 1 = omega arith in
    let here : u64 (addr + 0) ≡ addr = omega arith in
    let there : not (pte k addr == 0) ≡ true = ground (arith, has.tree.offset_pos) in
    let after : Bool → Run (Unit {0}) = λ t. elim t as (λ _. Run (Unit {0})) [
      | false ↦ pure tt
      | true ↦ (write (pte k addr) 0 >> flush 0 addr)
    ] in
    rw one (
      ap (λ a. and_then (unmap_page 0 a k) (λ _. pure tt)) here
      ∙ ap
          (λ o.
            and_then
              (and_then o (λ entry. elim (not (entry == 0)) as (λ _. Run (Unit {0})) [
                | false ↦ pure tt
                | true ↦ (write entry 0 >> flush 0 addr)
              ]))
              (λ _. pure tt))
          (get_pte_lem level k addr has)
      ∙ ap (λ t. and_then (after t k) (λ _. pure tt)) there)

-- `virt_unmap` of at most one page, at an address that has its tables: it returns, the address leads
-- nowhere, and each other address that has its tables and does not share the entry leads where it led.
pub virt_unmap-SameElsewhere :
    (level : ℕ → ℕ) (k : Kernel) (addr size : ℕ)
    → HasTables level k addr
    → addr < 2 ^ 64
    → 0 < size
    → size ≤ virt_page_size
    → let k' = unmapped k addr in
      (virt_unmap 0 addr size k ≡ done tt k')
      × HasTables level k' addr
      × (virt_get_physical_address 0 addr k' ≡ done 0 k')
      × SameElsewhere level k k' (pte k addr)
virt_unmap-SameElsewhere level k addr size has fits some_bytes one_page =
    let r = prepared level k addr has in
    let has' : HasTables level (unmapped k addr) addr =
      flushed_tables level _ addr addr (has2 level k addr 0 has.tree _ r (omega arith)) in
    (
      virt_unmap-round level k addr size has fits some_bytes one_page,
      has',
      get_physical_address_lem level (unmapped k addr) addr has'
          ∙ ap (λ t. done (translated t) (unmapped k addr))
              (written_entry level k addr 0 has.tree _ r (omega arith)),
      others2 level k addr 0 has.tree _ r (omega arith),
    )
