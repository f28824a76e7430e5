-- ===== src/Virt/Contexts.antt =====
-- Allocation of virtual memory and contexts of src/mem/virt.c. The searches take fuel,
-- since their loops end when an address passes the end of the space.
use ratos.Prelude.{
  ℕ, zero, suc, ◌+◌, ◌-◌, ◌*◌, bit_or, Bool, true, false, Option, none, some, ◌==◌, ltb, u64,
}
use ratos.Memory.{load64}
use ratos.Virt.{
  out_of_fuel, Run, pure, done, hcf, write, alloc_page, to_virt, s_virt_to_phys, ctx_phys, ctx_virt,
  ◌>>=◌, ◌>>◌,
}
use ratos.Virt.{
  virt_page_size, virt_entries_per_struct, vf_pt_present, vf_pt_writable, vf_pt_user,
  vf_pd_writable, vf_pd_present,
}
use ratos.Virt.Walk.{s_virt_is_address_mapped}
use ratos.Virt.Map.{steps, map_loop, virt_map, virt_map_user}

-- The inner loops of the three searches: whether the pages from `i` on are all unmapped.
unfoldable pub unmapped_loop : (left i : ℕ) → (ctx addr : ℕ) → Run Bool
unfolding s_virt_is_address_mapped
unmapped_loop zero i ctx addr = pure true
unmapped_loop (suc left) i ctx addr = do
  mapped ← s_virt_is_address_mapped ctx (u64 (addr + i))
  elim mapped [ true ↦ pure false | false ↦ unmapped_loop left (u64 (i + virt_page_size)) ctx addr ]

-- The outer loops from `addr` up to `limit`: the address found.
unfoldable pub search_space : (fuel : ℕ) → (ctx limit size addr : ℕ) → Run (Option ℕ)
unfolding unmapped_loop
search_space zero ctx limit size addr k = out_of_fuel
search_space (suc fuel) ctx limit size addr k =
    (elim (ltb addr limit) as (λ _. Run (Option ℕ)) [
      | false ↦ pure none
      | true ↦ (do
        found ← unmapped_loop (steps virt_page_size size) 0 ctx addr
        elim found [
          | true ↦ pure (some addr)
          | false ↦ search_space fuel ctx limit size (u64 (addr + virt_page_size))
        ])
    ])
      k

-- Both `virt_alloc` and `virt_map_anywhere` search from behind the start of the direct map.
abbrev pub kernel_limit : ℕ
kernel_limit = 0xffffffffffff0000

abbrev pub hhdm_start : Run ℕ
hhdm_start k = done (u64 (k.hhdm_offset + virt_page_size)) k

-- The loop of `virt_alloc` that backs the pages found.
unfoldable pub back_loop : (left i : ℕ) → (ctx addr : ℕ) → Run (Unit {0})
unfolding virt_map
back_loop zero i ctx addr = pure tt
back_loop (suc left) i ctx addr = do
  phys ← alloc_page
  elim (phys == 0) [
    | true ↦ hcf
    | false ↦ (do
      virt_map ctx phys (u64 (addr + i)) virt_page_size (bit_or vf_pt_present vf_pt_writable)
      back_loop left (u64 (i + virt_page_size)) ctx addr)
  ]

unfoldable pub virt_alloc : (fuel ctx size : ℕ) → Run ℕ
unfolding search_space back_loop
virt_alloc fuel ctx size = do
  start ← hhdm_start
  found ← search_space fuel ctx kernel_limit size start
  elim found [
    | none ↦ pure 0
    | some addr ↦ (do back_loop (steps virt_page_size size) 0 ctx addr; pure addr)
  ]

-- The same loop of `virt_user_alloc`.
unfoldable pub back_user_loop : (left i : ℕ) → (ctx addr : ℕ) → Run (Unit {0})
unfolding virt_map_user
back_user_loop zero i ctx addr = pure tt
back_user_loop (suc left) i ctx addr = do
  phys ← alloc_page
  elim (phys == 0) [
    | true ↦ hcf
    | false ↦ (do
      virt_map_user ctx phys (u64 (addr + i)) virt_page_size
          (bit_or (bit_or vf_pt_present vf_pt_user) vf_pt_writable)
      back_user_loop left (u64 (i + virt_page_size)) ctx addr)
  ]

abbrev pub user_start : ℕ
user_start = 0x100000

abbrev pub user_limit : Run ℕ
user_limit k = done k.hhdm_offset k

unfoldable pub virt_user_alloc : (fuel ctx size : ℕ) → Run ℕ
unfolding search_space back_user_loop
virt_user_alloc fuel ctx size = do
  limit ← user_limit
  found ← search_space fuel ctx limit size user_start
  elim found [
    | none ↦ pure 0
    | some addr ↦ (do back_user_loop (steps virt_page_size size) 0 ctx addr; pure addr)
  ]

-- The source has no body here.
unfoldable pub virt_free : (ctx addr size : ℕ) → Run (Unit {0})
virt_free ctx addr size = pure tt

-- The loop that maps the pages found is that of `virt_map` with small pages.
unfoldable pub virt_map_anywhere : (fuel ctx phys_addr size flags : ℕ) → Run ℕ
unfolding search_space map_loop
virt_map_anywhere fuel ctx phys_addr size flags = do
  start ← hhdm_start
  found ← search_space fuel ctx kernel_limit size start
  elim found [
    | none ↦ pure 0
    | some addr ↦ (do
      map_loop (steps virt_page_size size) 0 ctx phys_addr addr flags virt_page_size false
      pure addr)
  ]

-- The entry that `virt_ctx_new` gives the kernel's half.
abbrev pub kernel_entry : Run ℕ
kernel_entry k =
    done (bit_or (bit_or (s_virt_to_phys k k.kernel_pdpt_virt) vf_pd_writable) vf_pd_present) k

unfoldable pub virt_ctx_new : (fuel : ℕ) → Run ℕ
unfolding virt_alloc s_virt_to_phys
virt_ctx_new fuel = do
  ctx ← virt_alloc fuel 0 virt_page_size
  phys ← alloc_page
  write (ctx_phys ctx) phys
  elim (phys == 0) [
    | true ↦ hcf
    | false ↦ (do
      pml4 ← to_virt phys
      write (ctx_virt ctx) pml4
      value ← kernel_entry
      write (pml4 + 8 * (virt_entries_per_struct - 1)) value
      pure ctx)
  ]

unfoldable pub virt_ctx_use : (ctx : ℕ) → Run (Unit {0})
virt_ctx_use ctx k = done tt (record k { cr3 = load64 k.memory (ctx_phys ctx) })
