-- ===== src/Virt/Leaf.antt =====
-- The tables of src/mem/virt.c as a function from page numbers to entries. Page number `x` stands for
-- the addresses whose bits 12 to 47 are `x`.
use ratos.Prelude.{
  ℕ, zero, suc, ◌-◌, ◌/◌, ◌%◌, ◌^◌, ◌≤◌, ◌<◌, ◌≡◌, ◌≢◌, refl, ap, arith, ◌==◌, if◌then◌else◌, Bool,
  false,
}
use ratos.Memory.{load64}
use ratos.Virt.{Kernel}
use ratos.Virt.Entries.{frame_of}
use ratos.Virt.Tables.{slot}

abbrev pub page_of : ℕ → ℕ
page_of addr = addr / 4096 % 2 ^ 36

-- The index of a page in a table of level `l`.
abbrev pub index : (l x : ℕ) → ℕ
index l x = x / 512 ^ (l - 1) % 512

-- The address of the entry of page `x` below the table `p` of level `l`, 0 if a table is missing.
unfoldable pub leaf : Kernel → (l p x : ℕ) → ℕ
leaf k zero p x = 0
leaf k (suc zero) p x = slot k p (index 1 x)
leaf k (suc (suc l)) p x =
    let e = load64 k.memory (slot k p (index (suc (suc l)) x)) in
    let rest = leaf k (suc l) (frame_of e) x in if e == 0 then 0 else rest

abbrev pub content : Kernel → ℕ → ℕ
content k s = if s == 0 then 0 else load64 k.memory s

-- The entry itself, 0 if a table is missing.
abbrev pub view_from : Kernel → (l p x : ℕ) → ℕ
view_from k l p x = content k (leaf k l p x)

abbrev pub view : Kernel → ℕ → ℕ
view k x = view_from k 4 (k.cr3 / 4096) x

-- No two entries name the same table.
abbrev pub Unshared : (level : ℕ → ℕ) → Kernel → Type 0
Unshared level k =
    (p i p' i' : ℕ)
    → 2 ≤ level p
    → i < 512
    → 2 ≤ level p'
    → i' < 512
    → load64 k.memory (slot k p i) ≢ 0
    → load64 k.memory (slot k p' i') ≢ 0
    → frame_of (load64 k.memory (slot k p i)) ≡ frame_of (load64 k.memory (slot k p' i'))
    → (p ≡ p') × (i ≡ i')

module _ (k : Kernel) (l p x : ℕ) where
  abbrev e : ℕ
  e = load64 k.memory (slot k p (index (suc (suc l)) x))

  pub leaf-missing : e ≡ 0 → leaf k (suc (suc l)) p x ≡ 0
  unfolding leaf
  leaf-missing z = ap (λ (t : ℕ). if t == 0 then 0 else leaf k (suc l) (frame_of e) x) z

  pub leaf-there : e ≢ 0 → leaf k (suc (suc l)) p x ≡ leaf k (suc l) (frame_of e) x
  unfolding leaf
  leaf-there there =
      let nonzero : e == 0 ≡ false = ground arith in
      ap (λ (t : Bool). if t then 0 else leaf k (suc l) (frame_of e) x) nonzero

  pub view_from-missing : e ≡ 0 → view_from k (suc (suc l)) p x ≡ 0
  view_from-missing z = ap (content k) (leaf-missing z)

  pub view_from-there : e ≢ 0 → view_from k (suc (suc l)) p x ≡ view_from k (suc l) (frame_of e) x
  view_from-there there = ap (content k) (leaf-there there)

-- A table without entries leads nowhere.
pub view_from-empty :
    (k : Kernel) (l p x : ℕ)
    → 0 < k.hhdm_offset
    → ((j : ℕ) → j < 512 → load64 k.memory (slot k p j) ≡ 0)
    → view_from k l p x ≡ 0
unfolding leaf
view_from-empty k zero p x pos empty = refl
view_from-empty k (suc zero) p x pos empty = ground (arith, empty (index 1 x) (omega arith))
view_from-empty k (suc (suc l)) p x pos empty =
    ap (content k) (leaf-missing k l p x (empty (index (suc (suc l)) x) (omega arith)))
