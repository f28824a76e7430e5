-- ===== src/Phys/Reuse.antt =====
-- What `phys_alloc` and `phys_free` of src/mem/phys.c do together.
use ratos.Prelude.{ℕ, ◌*◌, ◌^◌, ◌≤◌, ◌<◌, ◌≡◌, ◌≢◌, ap, ◌↔◌, inl, inr, arith}
use native.Mathlib.Decide.{dec_lt}
use ratos.Memory.{Memory}
use ratos.Phys.{Phys, page_size, phys_alloc, phys_free}
use ratos.Phys.Bitmap.{page_bit, free-page_bit}
use ratos.Phys.Alloc.{AllUsed, Alloc, phys_alloc-Alloc}

module _ (ph : Phys) (m : Memory) (fits : ph.bitmap_size * 64 * page_size ≤ 2 ^ 64) where
  -- While page 0 is in use and every bit behind the `8 * s_phys_bitmap_size` bits that the bitmap has is
  -- set, up to the `64 * s_phys_bitmap_size`th at which the search ends, `phys_alloc` returns 0 exactly when
  -- no page of the bitmap is free, and never an address behind the pages of the bitmap.
  pub phys_alloc-eq_zero_iff :
      0 < ph.bitmap_size
      → page_bit ph m 0 ≡ 1
      → AllUsed ph m (ph.bitmap_size * 8) (ph.bitmap_size * 64)
      → (((phys_alloc ph m).0 ≡ 0) ↔ AllUsed ph m 0 (ph.bitmap_size * 8))
        × ((phys_alloc ph m).0 < ph.bitmap_size * 8 * page_size)
  phys_alloc-eq_zero_iff some_entry reserved behind = elim (phys_alloc-Alloc ph m fits) [
    | inl a ↦
        let inside : a.page < ph.bitmap_size * 8 = elim (dec_lt a.page (ph.bitmap_size * 8)) [
          | yes h ↦ h
          | no h ↦ absurd (ground (arith, behind a.page (omega (arith, h)) a.below, a.was_free))
        ] in
        (
          (
            λ e. absurd (ground (arith, zero_page a.page (omega (arith, a.address)), a.was_free)),
            λ used. absurd (ground (arith, used a.page a.from inside, a.was_free)),
          ),
          omega (arith, a.address, inside),
        )
    | inr (used, e) ↦
        let zero_result : (phys_alloc ph m).0 ≡ 0 = ap (λ (r : ℕ × Memory). r.0) e in
        (
          (λ _ q from below. used q from (omega (arith, below)), λ _. zero_result),
          omega (arith, zero_result, some_entry),
        )
  ]
    where
      zero_page : (p : ℕ) → p ≡ 0 → page_bit ph m p ≡ 1
      zero_page p e = rw e reserved

  -- While page 0 is in use, a page that `phys_alloc` returned and `phys_free` gave back leaves the
  -- bitmap as it was.
  pub phys_free-phys_alloc :
      (phys_alloc ph m).0 ≢ 0
      → (p : ℕ)
      → page_bit ph (phys_free ph (phys_alloc ph m).1 (phys_alloc ph m).0) p ≡ page_bit ph m p
  phys_free-phys_alloc success p = elim (phys_alloc-Alloc ph m fits) [
    | inl a ↦ ground (
      arith,
      free-page_bit ph (phys_alloc ph m).1 (phys_alloc ph m).0 p,
      a.marked p,
      a.was_free,
      a.address,
    )
    | inr (used, e) ↦ absurd (success (ap (λ (r : ℕ × Memory). r.0) e))
  ]

  -- Two calls of `phys_alloc` that both succeed return two different pages.
  pub phys_alloc-distinct :
      (phys_alloc ph m).0 ≢ 0
      → (phys_alloc ph (phys_alloc ph m).1).0 ≢ 0
      → (phys_alloc ph (phys_alloc ph m).1).0 ≢ (phys_alloc ph m).0
  phys_alloc-distinct success success' =
      go (phys_alloc-Alloc ph m fits) (phys_alloc-Alloc ph (phys_alloc ph m).1 fits)
    where
      go :
          Alloc ph m 0 (ph.bitmap_size * 64) (phys_alloc ph m)
          → Alloc ph (phys_alloc ph m).1 0 (ph.bitmap_size * 64) (phys_alloc ph (phys_alloc ph m).1)
          → (phys_alloc ph (phys_alloc ph m).1).0 ≢ (phys_alloc ph m).0
      go (inr (used, e)) b = λ _. absurd (success (ap (λ (r : ℕ × Memory). r.0) e))
      go (inl a) (inr (used, e)) = λ _. absurd (success' (ap (λ (r : ℕ × Memory). r.0) e))
      go (inl a) (inl b) = λ same. ground (arith, a.marked b.page, a.address, b.address, b.was_free)

  -- The bitmap holds 8 bits for each byte of `s_phys_bitmap_size`, but `phys_alloc` looks at 64. Once
  -- all pages that the bitmap has bits for are in use, and a bit behind it is clear, `phys_alloc`
  -- returns an address outside the physical address space.
  pub phys_alloc_overrun :
      (p : ℕ)
      → ph.addr_space_size ≤ ph.bitmap_size * 8 * page_size
      → AllUsed ph m 0 (ph.bitmap_size * 8)
      → p < ph.bitmap_size * 64
      → page_bit ph m p ≡ 0
      → ph.addr_space_size ≤ (phys_alloc ph m).0
  phys_alloc_overrun p covers used below clear = elim (phys_alloc-Alloc ph m fits) [
    | inl a ↦ elim (dec_lt a.page (ph.bitmap_size * 8)) [
      | yes h ↦ absurd (ground (arith, used a.page (omega arith) h, a.was_free))
      | no h ↦ omega (arith, a.address)
    ]
    | inr (all, e) ↦ absurd (ground (arith, all p (omega arith) below, clear))
  ]
