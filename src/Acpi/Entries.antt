-- ===== src/Acpi/Entries.antt =====
-- The walk of src/acpi/acpi.c over the entries of the MADT.
use ratos.Prelude.{
  ℕ, zero, suc, ◌+◌, ◌^◌, ◌≤◌, ◌<◌, ◌≡◌, refl, arith, true, false, ◌==◌, ltb, if◌then◌else◌, u64,
  List, [], ◌∷◌, length, none, some,
}
use ratos.Memory.{Memory}
use ratos.Acpi.{Uacpi, madt_loop}

-- An entry, by what is read of it. `address` counts where it overrides.
pub record Entry : Type 0 where
  pub kind : ℕ
  pub size : ℕ
  pub address : ℕ

module _ (u : Uacpi) (m : Memory) (madt table_length : ℕ) where
  pub record IsEntry (offset : ℕ) (e : Entry) : Type 0 where
    pub kind : u.entry_type m (madt + offset) ≡ e.kind
    pub size : u.entry_length m (madt + offset) ≡ e.size
    pub address : u.override_address m (madt + offset) ≡ e.address

  -- The entries from `offset` on, one behind the other, up to the first that starts behind the table.
  abbrev pub AreEntries : (offset : ℕ) → List Entry → Type 0
  AreEntries offset [] = table_length ≤ offset
  AreEntries offset (e ∷ entries) =
      (offset < table_length)
      × (offset + e.size < 2 ^ 64)
      × IsEntry offset e
      × AreEntries (offset + e.size) entries

  -- The address of the last entry that overrides it.
  unfoldable pub last_override : (address : ℕ) → List Entry → ℕ
  last_override address [] = address
  last_override address (e ∷ entries) =
      last_override (if e.kind == u.override_type then e.address else address) entries

  -- Given a round more than there are entries, the loop ends with the address of the last override,
  -- or with the one from the table's head if there is none.
  pub madt_loop-last_override :
      (entries : List Entry) (fuel offset address : ℕ)
      → length entries < fuel
      → AreEntries offset entries
      → madt_loop u fuel m madt table_length offset address ≡ some (last_override address entries)
  unfolding madt_loop last_override
  madt_loop-last_override entries zero offset address enough are = absurd (omega (arith, enough))
  madt_loop-last_override [] (suc fuel) offset address enough are =
      let over : ltb offset table_length ≡ false = ground (arith, are) in rw over refl
  madt_loop-last_override (e ∷ entries) (suc fuel) offset address enough (inside, fits, is, rest) =
      let within : ltb offset table_length ≡ true = ground (arith, inside) in
      let next : u64 (offset + e.size) ≡ offset + e.size = omega (arith, fits) in
      let address' : ℕ = if e.kind == u.override_type then e.address else address in
      let onwards =
        madt_loop-last_override entries fuel (offset + e.size) address' (omega (arith, enough))
          rest in
      rw (within, is.kind, is.size, is.address, next) onwards

  -- An entry of length 0 inside the table keeps the loop where it is, however long it runs.
  pub madt_loop_stuck :
      (fuel offset address : ℕ)
      → offset < table_length
      → table_length < 2 ^ 64
      → u.entry_length m (madt + offset) ≡ 0
      → madt_loop u fuel m madt table_length offset address ≡ none
  unfolding madt_loop
  madt_loop_stuck zero offset address inside fits empty = refl
  madt_loop_stuck (suc fuel) offset address inside fits empty =
      let within : ltb offset table_length ≡ true = ground arith in
      let same : u64 (offset + 0) ≡ offset = omega arith in
      let address' : ℕ =
        if u.entry_type m (madt + offset) == u.override_type
        then u.override_address m (madt + offset)
        else address in
      rw (within, empty, same) (madt_loop_stuck fuel offset address' inside fits empty)
