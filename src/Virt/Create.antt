-- ===== src/Virt/Create.antt =====
-- `s_virt_get_entry_ptr` of src/mem/virt.c on a tree of tables.
use ratos.Prelude.{
  ℕ, ◌+◌, ◌*◌, ◌%◌, ◌^◌, ◌≤◌, ◌<◌, ◌≡◌, ◌≢◌, refl, ap, ◌∙◌, ◌⊎◌, inl, inr, arith, bit_or, Bool,
  true, false, ◌==◌, u64, Bool-cases,
}
use ratos.Prelude.Bits.{testbit}
use ratos.Memory.{Memory, load64}
use ratos.Phys.{phys_alloc}
use ratos.Phys.Bitmap.{page_bit}
use ratos.Phys.Alloc.{Allocated, AllUsed, phys_alloc-Alloc}
use ratos.Virt.{
  and_then, Kernel, Outcome, done, halted, Run, pure, hcf, to_virt, clear_page, write,
  s_phys_to_virt, vf_pd_present, ◌>>=◌, ◌>>◌,
}
use ratos.Virt.Walk.{create_table, s_virt_get_entry_ptr}
use ratos.Virt.Entries.{frame_of, frame_of-entry, big_page-entry, new_entry_lem}
use ratos.Virt.Tables.{page_at, slot, IsTree, Created, created, created-Created}
use ratos.Virt.Growth.{with_memory, grown, grown-IsTree}
use ratos.Virt.Extends.{Extends, grown-Extends}

-- The call returned the entry `i` of the table at page `p`, which now is there, and kept the tree.
pub record Reached (level : ℕ → ℕ) (k : Kernel) (p i : ℕ) (o : Outcome ℕ) : Type 0 where
  pub level' : ℕ → ℕ
  pub memory : Memory
  pub returned : o ≡ done (slot k p i) (with_memory k memory)
  pub tree : IsTree level' (with_memory k memory)
  pub extends : Extends level k level' memory
  pub present : load64 memory (slot k p i) ≢ 0

-- It halted, with every page in use, or reached the entry.
abbrev pub Gets : (level : ℕ → ℕ) → Kernel → (p i : ℕ) → Outcome ℕ → Type 0
Gets level k p i o =
    ((o ≡ halted k) × AllUsed k.phys k.memory 0 (k.phys.bitmap_size * 64)) ⊎ Reached level k p i o

module _ (level : ℕ → ℕ) (k : Kernel) (tree : IsTree level k) (p i flags : ℕ) where
  abbrev result : ℕ × Memory
  result = phys_alloc k.phys k.memory

  abbrev by_page : Bool → Outcome (Unit {0})
  by_page t =
      (elim t as (λ _. Run (Unit {0})) [
        | true ↦ hcf
        | false ↦ (do
          page ← to_virt result.0
          clear_page page
          write (slot k p i) (bit_or (bit_or result.0 flags) vf_pd_present))
      ])
        (with_memory k result.1)

  create_table-cases : create_table (page_at k p) i flags k ≡ by_page (result.0 == 0)
  unfolding create_table
  create_table-cases = refl

  -- With a page, whose address is `q * 4096`.
  by_page-created :
      (q : ℕ)
      → q < k.phys.bitmap_size * 64
      → result.0 ≡ q * 4096
      → flags < 4096
      → flags % 2 ≡ 1
      → by_page false ≡ done tt (with_memory k (created k p i q (q * 4096 + flags)))
  unfolding s_phys_to_virt
  by_page-created q below e small odd =
      let page : u64 (q * 4096 + k.hhdm_offset) ≡ page_at k q =
        omega (arith, tree.offset_fits, tree.pages_fit) in
      rw (e, page, new_entry_lem q flags small odd) refl

  abbrev by_missing : Bool → Outcome ℕ
  by_missing t =
      (elim t as (λ _. Run ℕ) [
        | false ↦ pure (slot k p i)
        | true ↦ (create_table (page_at k p) i flags >> pure (slot k p i))
      ])
        k

  get_entry_ptr-cases :
      s_virt_get_entry_ptr (page_at k p) i true flags k
      ≡ by_missing (load64 k.memory (slot k p i) == 0)
  unfolding s_virt_get_entry_ptr
  get_entry_ptr-cases = refl

  found_entry : load64 k.memory (slot k p i) ≢ 0 → Reached level k p i (by_missing false)
  found_entry present = record {
    level' = level;
    memory = k.memory;
    returned = refl;
    tree = tree;
    extends = record {
      levels = λ r h. refl;
      kept = λ r j h below old. refl;
      taken = 0;
      pages = λ r h ne. refl;
      unshared = λ u. u;
      views = λ l r x e. refl;
    };
    present = present;
  }

  -- What follows the creation.
  returns_slot :
      (o : Outcome (Unit {0}))
      → create_table (page_at k p) i flags k ≡ o
      → by_missing true ≡ and_then o (λ _. pure (slot k p i))
  returns_slot o e = ap (λ o'. and_then o' (λ _. pure (slot k p i))) e

  module _ (upper : 2 ≤ level p) (below : i < 512) (small : flags < 4096) (odd : flags % 2 ≡ 1)
      (no_big : testbit flags 7 ≡ 0) (missing : load64 k.memory (slot k p i) ≡ 0) where
    fresh_table :
        Allocated k.phys k.memory 0 (k.phys.bitmap_size * 64) result
        → Reached level k p i (by_missing true)
    fresh_table a =
        let q : ℕ = a.page in
        let v : ℕ = q * 4096 + flags in
        let in_range : q < 2 ^ 40 = omega (arith, a.below, tree.pages_fit) in
        let nonzero : q ≢ 0 =
          λ e. absurd (omega (arith, ap (page_bit k.phys k.memory) e, a.was_free, tree.reserved)) in
        let c : Created k p i v q (created k p i q v) =
          created-Created level k tree p i v q (omega arith) below (omega arith) a refl in
        let frame : frame_of v ≡ q = frame_of-entry q flags small in_range in
        let success : result.0 == 0 ≡ false = ground (arith, a.address) in
        record {
          level' = grown level p q;
          memory = created k p i q v;
          returned = returns_slot (done tt (with_memory k (created k p i q v))) (
              create_table-cases
              ∙ ap by_page success
              ∙ by_page-created q a.below a.address small odd);
          tree =
              grown-IsTree level k tree p i v q (created k p i q v) c upper below frame
                (big_page-entry q flags small no_big);
          extends =
              grown-Extends level k tree p i v q (created k p i q v) c upper below frame missing;
          present = λ e. absurd (omega (arith, c.entry));
        }

    pub new_table : Gets level k p i (by_missing true)
    new_table = elim (phys_alloc-Alloc k.phys k.memory (omega (arith, tree.pages_fit))) [
      | inl a ↦ inr (fresh_table a)
      | inr (used, e) ↦
          let failure : result.0 == 0 ≡ true = ground (arith, ap (λ (r : ℕ × Memory). r.0) e) in
          let same : result.1 ≡ k.memory = ap (λ (r : ℕ × Memory). r.1) e in
          inl (
            returns_slot (halted (with_memory k result.1)) (create_table-cases ∙ ap by_page failure)
                ∙ ap (λ m. halted (with_memory k m)) same,
            used,
          )
    ]

-- On a tree, `s_virt_get_entry_ptr` with `create_if_missing` on a table above the lowest level halts
-- with every page in use, or returns the entry, which now is there, and leaves a tree that has all
-- tables and entries that were there.
pub get_entry_ptr-Gets :
    (level : ℕ → ℕ) (k : Kernel) (p i flags : ℕ)
    → IsTree level k
    → 2 ≤ level p
    → i < 512
    → flags < 4096
    → flags % 2 ≡ 1
    → testbit flags 7 ≡ 0
    → Gets level k p i (s_virt_get_entry_ptr (page_at k p) i true flags k)
get_entry_ptr-Gets level k p i flags tree upper below small odd no_big =
    rw (get_entry_ptr-cases level k tree p i flags)
      (elim (Bool-cases (load64 k.memory (slot k p i) == 0)) [
        | inl e ↦
            rw e (new_table level k tree p i flags upper below small odd no_big (ground arith))
        | inr e ↦ rw e (inr (found_entry level k tree p i flags (ground arith)))
      ])
