-- ===== src/Virt/Space.antt =====
-- The address space that the tables of src/mem/virt.c stand for: a function from page numbers, which
-- forgets where the tables are, and which of them are there.
use ratos.Prelude.{
  ℕ, ◌+◌, ◌-◌, ◌*◌, ◌/◌, ◌^◌, ◌<◌, ◌≡◌, ◌≢◌, sym, ap, ◌∙◌, ◌==◌, if◌then◌else◌, ltb, leb, ◌&&◌,
}
use ratos.Memory.{load64, store64}
use ratos.Virt.Prepare.{Starved}
use ratos.Virt.{Kernel, Outcome}
use ratos.Virt.Entries.{frame_of}
use ratos.Virt.Tables.{slot, IsTree}
use ratos.Virt.Growth.{with_memory}
use ratos.Virt.Leaf.{page_of, index, leaf, view, Unshared, leaf-missing, leaf-there}
use ratos.Virt.Path.{entry4, entry3, entry2, table3, table2, pte}
use ratos.Virt.Access.{HasTables, written-IsTree}
use ratos.Virt.Translate.{Prepared}
use ratos.Virt.Mapping.{flushed-IsTree, mapped}
use ratos.Virt.Lookup.{index4, index3, index2}
use ratos.Virt.Store.{view-store, written-Unshared}

abbrev pub Space : Type 0
Space = ℕ → ℕ

abbrev pub put : Space → (x v : ℕ) → Space
put s x v y = if y == x then v else s y

-- The `n` pages from number `from` on lead to the frames from `q` on, or nowhere.
unfoldable pub map_pages : Space → (from n q flags : ℕ) → Space
map_pages s from n q flags x =
    if leb from x && ltb x (from + n) then (q + (x - from)) * 4096 + flags else s x

unfoldable pub unmap_pages : Space → (from n : ℕ) → Space
unmap_pages s from n x = if leb from x && ltb x (from + n) then 0 else s x

-- The tables that CR3 names are a tree in which no table is named twice, and they stand for the space.
pub record Shows (k : Kernel) (s : Space) : Type 0 where
  pub level : ℕ → ℕ
  pub tree : IsTree level k
  pub unshared : Unshared level k
  pub shows : (x : ℕ) → x < 2 ^ 36 → view k x ≡ s x

pub Shows-ext :
    (k : Kernel) (s s' : Space) → Shows k s → ((x : ℕ) → x < 2 ^ 36 → s x ≡ s' x) → Shows k s'
Shows-ext k s s' h same = record {
  level = h.level;
  tree = h.tree;
  unshared = h.unshared;
  shows = λ x below. h.shows x below ∙ same x below;
}

module _ (k : Kernel) (s : Space) (h : Shows k s) where
  -- A page with an entry has its tables.
  pub tables_there :
      (addr : ℕ) → leaf k 4 (k.cr3 / 4096) (page_of addr) ≢ 0 → HasTables h.level k addr
  tables_there addr there =
      let x : ℕ = page_of addr in
      let r : ℕ = k.cr3 / 4096 in
      let at4 : slot k r (index 4 x) ≡ entry4 k addr = ap (slot k r) (sym (index4 addr)) in
      let at3 : slot k (table3 k addr) (index 3 x) ≡ entry3 k addr =
        ap (slot k (table3 k addr)) (sym (index3 addr)) in
      let at2 : slot k (table2 k addr) (index 2 x) ≡ entry2 k addr =
        ap (slot k (table2 k addr)) (sym (index2 addr)) in
      let there4 : load64 k.memory (entry4 k addr) ≢ 0 =
        λ z. there (leaf-missing k 2 r x (ap (load64 k.memory) at4 ∙ z)) in
      let way4 : leaf k 4 r x ≡ leaf k 3 (table3 k addr) x =
        leaf-there k 2 r x (λ z. there4 (ap (load64 k.memory) (sym at4) ∙ z))
        ∙ ap (λ (t : ℕ). leaf k 3 (frame_of (load64 k.memory t)) x) at4 in
      let there3 : load64 k.memory (entry3 k addr) ≢ 0 =
        λ z. there (way4 ∙ leaf-missing k 1 (table3 k addr) x (ap (load64 k.memory) at3 ∙ z)) in
      let way3 : leaf k 3 (table3 k addr) x ≡ leaf k 2 (table2 k addr) x =
        leaf-there k 1 (table3 k addr) x (λ z. there3 (ap (load64 k.memory) (sym at3) ∙ z))
        ∙ ap (λ (t : ℕ). leaf k 2 (frame_of (load64 k.memory t)) x) at3 in
      record {
        tree = h.tree;
        there4 = there4;
        there3 = there3;
        there2 = λ z.
            there (way4 ∙ way3 ∙ leaf-missing k 0 (table2 k addr) x (ap (load64 k.memory) at2 ∙ z));
      }

  -- A call that halted left the space as it was.
  pub starved-Shows : (o : Outcome ℕ) (f : Starved h.level k o) → Shows (with_memory k f.memory) s
  starved-Shows o f = record {
    level = f.level';
    tree = f.tree;
    unshared = f.kept.unshared h.unshared;
    shows = λ x below. f.kept.views 3 (k.cr3 / 4096) x h.tree.root ∙ h.shows x below;
  }

  -- The entry that was prepared is written.
  pub written-Shows :
      (addr v : ℕ) (o : Outcome ℕ)
      → v < 2 ^ 64
      → (r : Prepared h.level k addr o)
      → Shows
          (with_memory k (store64 r.memory (pte (with_memory k r.memory) addr) v))
          (put s (page_of addr) v)
  unfolding leaf
  written-Shows addr v o fits r =
      let k1 : Kernel = with_memory k r.memory in
      let unshared1 = r.kept.unshared h.unshared in
      record {
        level = r.level';
        tree = written-IsTree r.level' k1 addr r.has v;
        unshared = written-Unshared r.level' k1 addr r.has unshared1 v;
        shows = λ x below.
            view-store r.level' k1 addr r.has unshared1 v x fits below
            ∙ ap (λ (t : ℕ). if x == page_of addr then v else t)
                (r.kept.views 3 (k.cr3 / 4096) x h.tree.root ∙ h.shows x below);
      }

  -- And flushed.
  pub mapped-Shows :
      (addr v : ℕ) (o : Outcome ℕ)
      → v < 2 ^ 64
      → (r : Prepared h.level k addr o) → Shows (mapped k r.memory addr v) (put s (page_of addr) v)
  unfolding leaf
  mapped-Shows addr v o fits r =
      let k2 : Kernel = with_memory k (store64 r.memory (pte (with_memory k r.memory) addr) v) in
      let w = written-Shows addr v o fits r in
      record {
        level = w.level;
        tree = flushed-IsTree w.level k2 addr w.tree;
        unshared = w.unshared;
        shows = w.shows;
      }
