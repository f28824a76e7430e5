-- ===== src/Virt/Map.antt =====
-- Mapping and unmapping of src/mem/virt.c. A loop over `size` bytes makes `steps step size` rounds, as
-- many as the loop of the source unless its counter wraps.
use ratos.Prelude.{
  ℕ, zero, suc, ◌+◌, ◌-◌, ◌/◌, bit_and, bit_or, Bool, true, false, not, ◌∷◌, ◌==◌, if◌then◌else◌,
  u64,
}
use ratos.Virt.{
  Run, pure, done, write, ◌>>=◌, ◌>>◌, vf_pd_big_page, virt_page_size, virt_page_size_big,
}
use ratos.Virt.Walk.{s_virt_get_pte, s_virt_get_or_create_pte}

abbrev pub steps : (step size : ℕ) → ℕ
steps step size = (size + (step - 1)) / step

-- `!!(flags & VF_PD_BIG_PAGE)` and the step that it selects.
abbrev pub is_big : ℕ → Bool
is_big flags = not (bit_and flags vf_pd_big_page == 0)

abbrev pub step_of : ℕ → ℕ
step_of flags = if is_big flags then virt_page_size_big else virt_page_size

abbrev pub invlpg : ℕ → Run (Unit {0})
invlpg addr k = done tt (record k { flushed = addr ∷ k.flushed })

-- `invlpg` where the context is the current one.
abbrev pub flush : (ctx addr : ℕ) → Run (Unit {0})
flush ctx addr = if ctx == 0 then invlpg addr else pure tt

-- One round of the loop of `virt_map`.
unfoldable pub map_page : (ctx phys_addr virt_addr i flags : ℕ) → Bool → Run (Unit {0})
map_page ctx phys_addr virt_addr i flags is_big_page = do
  entry ← s_virt_get_or_create_pte ctx (u64 (virt_addr + i)) false is_big_page
  write entry (bit_or (u64 (phys_addr + i)) flags)
  flush ctx (u64 (virt_addr + i))

unfoldable pub map_loop :
    (left i : ℕ) → (ctx phys_addr virt_addr flags step : ℕ) → Bool → Run (Unit {0})
unfolding map_page
map_loop zero i ctx phys_addr virt_addr flags step is_big_page = pure tt
map_loop (suc left) i ctx phys_addr virt_addr flags step is_big_page = do
  map_page ctx phys_addr virt_addr i flags is_big_page
  map_loop left (u64 (i + step)) ctx phys_addr virt_addr flags step is_big_page

unfoldable pub virt_map : (ctx phys_addr virt_addr size flags : ℕ) → Run (Unit {0})
unfolding map_loop
virt_map ctx phys_addr virt_addr size flags =
    map_loop (steps (step_of flags) size) 0 ctx phys_addr virt_addr flags (step_of flags)
      (is_big flags)

unfoldable pub map_user_loop :
    (left i : ℕ) → (ctx phys_addr virt_addr flags step : ℕ) → Bool → Run (Unit {0})
map_user_loop zero i ctx phys_addr virt_addr flags step is_big_page = pure tt
map_user_loop (suc left) i ctx phys_addr virt_addr flags step is_big_page = do
  entry ← s_virt_get_or_create_pte ctx (u64 (virt_addr + i)) true is_big_page
  write entry (bit_or phys_addr flags)
  map_user_loop left (u64 (i + step)) ctx phys_addr virt_addr flags step is_big_page

unfoldable pub virt_map_user : (ctx phys_addr virt_addr size flags : ℕ) → Run (Unit {0})
unfolding map_user_loop
virt_map_user ctx phys_addr virt_addr size flags =
    map_user_loop (steps (step_of flags) size) 0 ctx phys_addr virt_addr flags (step_of flags)
      (is_big flags)

-- One round of the loop of `virt_unmap`.
unfoldable pub unmap_page : (ctx curr_virt_addr : ℕ) → Run (Unit {0})
unmap_page ctx curr_virt_addr = do
  entry ← s_virt_get_pte ctx curr_virt_addr false
  elim (not (entry == 0)) [ false ↦ pure tt | true ↦ (do write entry 0; flush ctx curr_virt_addr) ]

unfoldable pub unmap_loop : (left i : ℕ) → (ctx addr : ℕ) → Run (Unit {0})
unfolding unmap_page
unmap_loop zero i ctx addr = pure tt
unmap_loop (suc left) i ctx addr = do
  unmap_page ctx (u64 (addr + i))
  unmap_loop left (u64 (i + virt_page_size)) ctx addr

unfoldable pub virt_unmap : (ctx addr size : ℕ) → Run (Unit {0})
unfolding unmap_loop
virt_unmap ctx addr size = unmap_loop (steps virt_page_size size) 0 ctx addr
