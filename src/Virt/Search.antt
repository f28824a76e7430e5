-- ===== src/Virt/Search.antt =====
-- The search of src/mem/virt.c for unmapped pages, against the address space that the tables stand for.
use ratos.Prelude.{
  ℕ, zero, suc, ◌/◌, ◌+◌, ◌*◌, ◌^◌, ◌≤◌, ◌<◌, ◌≡◌, ◌≢◌, refl, ap, subst, ◌∙◌, inl, inr, arith, Bool,
  true, false, not, Option, none, some, ltb, ◌==◌, if◌then◌else◌, u64, Bool-cases,
}
use ratos.Memory.{load64}
use ratos.Virt.{Kernel, Outcome, done, Run, pure, read, and_then, ◌>>=◌, virt_page_size}
use ratos.Virt.Walk.{s_virt_is_address_mapped}
use ratos.Virt.Map.{steps}
use ratos.Virt.Contexts.{unmapped_loop, search_space}
use ratos.Virt.Leaf.{page_of, leaf}
use ratos.Virt.Lookup.{get_pte-leaf}
use ratos.Virt.Space.{Space, Shows}

-- Whether a page is mapped is what the space says.
pub is_address_mapped-Shows :
    (k : Kernel) (s : Space) (addr : ℕ)
    → Shows k s
    → s_virt_is_address_mapped 0 addr k ≡ done (not (s (page_of addr) == 0)) k
unfolding s_virt_is_address_mapped
is_address_mapped-Shows k s addr h =
    let e : ℕ = leaf k 4 (k.cr3 / 4096) (page_of addr) in
    ap
      (λ o. and_then o (λ entry. elim (entry == 0) as (λ _. Run Bool) [
        | true ↦ pure false
        | false ↦ (read entry >>= λ v. pure (not (v == 0)))
      ]))
      (get_pte-leaf h.level k h.tree addr)
    ∙ elim (e == 0)
        as (λ t.
          (elim t as (λ _. Run Bool) [
            | true ↦ pure false
            | false ↦ (read e >>= λ v. pure (not (v == 0)))
          ])
            k
          ≡ done (not ((if t then 0 else load64 k.memory e) == 0)) k) [ true ↦ refl | false ↦ refl ]
    ∙ ap (λ (t : ℕ). done (not (t == 0)) k) (h.shows (page_of addr) (omega arith))

-- The page `j` pages behind `a`, for addresses that wrap.
abbrev pub page_behind : (a j : ℕ) → ℕ
page_behind a j = page_of (u64 (a + j * virt_page_size))

-- The `n` pages from `a` on lead nowhere, or one of them leads somewhere.
abbrev pub Free : Space → (n a : ℕ) → Type 0
Free s n a = (j : ℕ) → j < n → s (page_behind a j) ≡ 0

abbrev pub Blocked : Space → (n a : ℕ) → Type 0
Blocked s n a = (j : ℕ) × (j < n) × (s (page_behind a j) ≢ 0)

-- The first fit: of the addresses a number of pages behind `start` and below `limit`, the first with `n`
-- free pages, or there is none.
abbrev pub FirstFit : Space → (limit n start : ℕ) → Option ℕ → Type 0
FirstFit s limit n start none =
    (i : ℕ) → start + i * virt_page_size < limit → Blocked s n (start + i * virt_page_size)
FirstFit s limit n start (some a) =
    (i : ℕ) × (a ≡ start + i * virt_page_size)
    × (a < limit)
    × Free s n a
    × ((i' : ℕ) → i' < i → Blocked s n (start + i' * virt_page_size))

module _ (k : Kernel) (s : Space) (h : Shows k s) where
  -- What the inner loop finds out about the pages from the `i`th on.
  abbrev Tells : (addr i left : ℕ) → Bool → Type 0
  Tells addr i left true = (j : ℕ) → i ≤ j → j < i + left → s (page_behind addr j) ≡ 0
  Tells addr i left false = (j : ℕ) × (j < i + left) × (s (page_behind addr j) ≢ 0)

  Tells-cons :
      (addr i left : ℕ) (b : Bool)
      → s (page_behind addr i) ≡ 0
      → Tells addr (suc i) left b
      → Tells addr i (suc left) b
  Tells-cons addr i left true here later = λ j from below. elim (Bool-cases (j == i)) [
    | inl e ↦ ap (λ (t : ℕ). s (page_behind addr t)) {x = j} {y = i} (ground arith) ∙ here
    | inr ne ↦ later j (ground arith) (omega (arith, below))
  ]
  Tells-cons addr i left false here (j, below, there) = (j, omega (arith, below), there)

  unmapped_loop-Tells :
      (addr left i : ℕ)
      → (i + left) * virt_page_size < 2 ^ 64
      → (b : Bool) × (unmapped_loop left (i * virt_page_size) 0 addr k ≡ done b k)
        × Tells addr i left b
  unfolding unmapped_loop
  unmapped_loop-Tells addr zero i fits = (true, refl, λ j from below. absurd (omega arith))
  unmapped_loop-Tells addr (suc left) i fits =
      let next : u64 (i * 4096 + 4096) ≡ suc i * 4096 = omega (arith, fits) in
      let rest : Run Bool = unmapped_loop left (u64 (i * 4096 + 4096)) 0 addr in
      let after : Bool → Outcome Bool =
        λ t. (elim t as (λ _. Run Bool) [ true ↦ pure false | false ↦ rest ]) k in
      let value : s_virt_is_address_mapped 0 (u64 (addr + i * 4096)) k
          ≡ done (not (s (page_behind addr i) == 0)) k =
        is_address_mapped-Shows k s (u64 (addr + i * 4096)) h in
      let head =
        ap
          (λ o.
            and_then o
              (λ mapped. elim mapped as (λ _. Run Bool) [ true ↦ pure false | false ↦ rest ]))
          value in
      elim (Bool-cases (s (page_behind addr i) == 0)) [
        | inr there ↦ (false, head ∙ ap (λ t. after (not t)) there, (i, omega arith, ground arith))
        | inl nowhere ↦
            let (b, found, told) = unmapped_loop-Tells addr left (suc i) (omega (arith, fits)) in
            (
              b,
              head
                  ∙ ap (λ t. after (not t)) nowhere
                  ∙ ap (λ (t : ℕ). unmapped_loop left t 0 addr k) next
                  ∙ found,
              Tells-cons addr i left b (ground arith) told,
            )
      ]

  none_later :
      (limit n start : ℕ)
      → Blocked s n start
      → FirstFit s limit n (start + virt_page_size) none
      → FirstFit s limit n start none
  none_later limit n start here later = go
    where
      go : (i : ℕ) → start + i * virt_page_size < limit → Blocked s n (start + i * virt_page_size)
      go zero below = subst (Blocked s n) {x = start} {y = start + 0 * 4096} (omega arith) here
      go (suc i) below =
          subst (Blocked s n) {x = start + 4096 + i * 4096} {y = start + suc i * 4096} (omega arith)
            (later i (omega (arith, below)))

  -- A first fit from one page later on, if the start is blocked.
  FirstFit-later :
      (limit n start : ℕ) (r : Option ℕ)
      → Blocked s n start
      → FirstFit s limit n (start + virt_page_size) r
      → FirstFit s limit n start r
  FirstFit-later limit n start none here later = none_later limit n start here later
  FirstFit-later limit n start (some a) here (i, place, below, free, earlier) =
      (suc i, omega (arith, place), below, free, all_earlier)
    where
      all_earlier : (i' : ℕ) → i' < suc i → Blocked s n (start + i' * virt_page_size)
      all_earlier zero _ = subst (Blocked s n) {x = start} {y = start + 0 * 4096} (omega arith) here
      all_earlier (suc i') below' =
          subst (Blocked s n) {x = start + 4096 + i' * 4096} {y = start + suc i' * 4096}
            (omega arith) (earlier i' (omega (arith, below')))

  module _ (limit size : ℕ) (fits : limit + virt_page_size ≤ 2 ^ 64)
      (small : steps virt_page_size size * virt_page_size < 2 ^ 64) where
    abbrev n : ℕ
    n = steps virt_page_size size

    abbrev Ends : (fuel addr : ℕ) → Type 0
    Ends fuel addr =
        (r : Option ℕ) × (search_space fuel 0 limit size addr k ≡ done r k)
        × FirstFit s limit n addr r

    abbrev by_found : (fuel addr : ℕ) → Bool → Run (Option ℕ)
    by_found fuel addr t = elim t as (λ _. Run (Option ℕ)) [
      | true ↦ pure (some addr)
      | false ↦ search_space fuel 0 limit size (u64 (addr + virt_page_size))
    ]

    abbrev by_limit : (fuel addr : ℕ) → Bool → Outcome (Option ℕ)
    by_limit fuel addr t =
        (elim t as (λ _. Run (Option ℕ)) [
          | false ↦ pure none
          | true ↦ (unmapped_loop n 0 0 addr >>= λ found. by_found fuel addr found)
        ])
          k

    search_over : (fuel addr : ℕ) → ltb addr limit ≡ false → Ends (suc fuel) addr
    unfolding search_space
    search_over fuel addr over =
        (none, ap (by_limit fuel addr) over, λ i below. absurd (ground (arith, over, below)))

    search_below :
        (fuel addr : ℕ)
        → ltb addr limit ≡ true
        → Ends fuel (addr + virt_page_size)
        → (b : Bool) → (unmapped_loop n 0 0 addr k ≡ done b k)
        → Tells addr 0 n b
        → Ends (suc fuel) addr
    unfolding search_space
    search_below fuel addr below rest true found told = (
      some addr,
      ap (by_limit fuel addr) below ∙ ap (λ o. and_then o (by_found fuel addr)) found,
      (
        0,
        omega arith,
        ground arith,
        λ j inside. told j (omega arith) (omega (arith, inside)),
        λ i' none_before. absurd (omega (arith, none_before)),
      ),
    )
    search_below fuel addr below (r, searched, fit) false found (j, inside, there) =
        let step : u64 (addr + virt_page_size) ≡ addr + virt_page_size = ground arith in
        (
          r,
          ap (by_limit fuel addr) below
              ∙ ap (λ o. and_then o (by_found fuel addr)) found
              ∙ ap (λ a. search_space fuel 0 limit size a k) step
              ∙ searched,
          FirstFit-later limit n addr r (j, omega (arith, inside), there) fit,
        )

    search-Ends : (fuel addr : ℕ) → limit ≤ addr + virt_page_size * fuel → Ends (suc fuel) addr
    search-Ends zero addr enough = search_over 0 addr (ground arith)
    search-Ends (suc fuel) addr enough = elim (Bool-cases (ltb addr limit)) [
      | inr over ↦ search_over (suc fuel) addr over
      | inl below ↦
          let (b, found, told) = unmapped_loop-Tells addr n 0 (omega (arith, small)) in
          search_below (suc fuel) addr below
            (search-Ends fuel (addr + virt_page_size) (omega (arith, enough))) b found told
    ]

-- If the tables stand for a space, the search of `virt_alloc` and `virt_map_anywhere`, and that of
-- `virt_user_alloc` on the tables of CR3, for a size that does not wrap, with a round more than there
-- are pages from `addr` up to a limit that no address steps over: it ends, changes nothing and gives the
-- first fit. That is the first address below the limit, of those a number of pages behind `addr`, from
-- which all pages lead nowhere; if it gives none, every such address has a page that leads somewhere.
pub search_space-FirstFit :
    (fuel limit size addr : ℕ) (k : Kernel) (s : Space)
    → Shows k s
    → limit + virt_page_size ≤ 2 ^ 64
    → steps virt_page_size size * virt_page_size < 2 ^ 64
    → limit ≤ addr + virt_page_size * fuel
    → (r : Option ℕ) × (search_space (suc fuel) 0 limit size addr k ≡ done r k)
      × FirstFit s limit (steps virt_page_size size) addr r
search_space-FirstFit fuel limit size addr k s h fits small enough =
    search-Ends k s h limit size fits small fuel addr enough
