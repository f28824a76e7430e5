-- ===== src/Limine/Present.antt =====
-- The checks of src/limine_data.c against its getters.
use ratos.Prelude.{
  ◌≡◌, refl, sym, ap, ◌≢◌, ◌∙◌, ◌↔◌, arith, Bool, true, false, Option, none, some, List, [], ◌∷◌,
}
use ratos.Io.{pure, Io, Device, History, klog, ◌>>◌}
use ratos.Stacktrace.{LimineFile}
use ratos.Limine.{
  Responses, ll_info, list_modules, is_none, lacks, wants, log_modules,
  limine_data_bare_minimum_present, limine_data_wanted_responses_present,
  limine_data_hhdm_get_offset, limine_data_paging_get_mode, limine_data_get_rsdp_virt,
  limine_data_get_flanterm_fb_init_params_response, limine_data_get_framebuffer_response,
  limine_data_get_memmap_response, limine_data_get_module_response,
  limine_data_get_executable_address_response,
}

-- The pointer is not null.
abbrev pub IsThere : {A : Type 0} → Option A → Type 0
IsThere {A} o = (a : A) × (o ≡ some a)

-- The response is there with an entry 0.
abbrev pub HasFirst : {A : Type 0} → Option (List A) → Type 0
HasFirst {A} o = (a : A) × (rest : List A) × (o ≡ some (a ∷ rest))

-- What the getters give once both checks succeeded.
pub record AllPresent (r : Responses) : Type 0 where
  pub framebuffer : HasFirst (limine_data_get_framebuffer_response r)
  pub flanterm : HasFirst (limine_data_get_flanterm_fb_init_params_response r)
  pub hhdm : IsThere (limine_data_hhdm_get_offset r)
  pub memmap : HasFirst (limine_data_get_memmap_response r)
  pub paging_mode : IsThere (limine_data_paging_get_mode r)
  pub modules : HasFirst (limine_data_get_module_response r)
  pub executable_address : IsThere (limine_data_get_executable_address_response r)
  pub rsdp : IsThere (limine_data_get_rsdp_virt r)

is_there : {A : Type 0} → (o : Option A) → is_none o ≡ false → IsThere o
is_there none e = absurd (ground arith)
is_there (some a) e = (a, refl)

has_first : {A : Type 0} → (o : Option (List A)) → lacks o ≡ false → HasFirst o
has_first none e = absurd (ground arith)
has_first (some []) e = absurd (ground arith)
has_first (some (a ∷ rest)) e = (a, rest, refl)

not_none : {A : Type 0} → (o : Option A) → IsThere o → is_none o ≡ false
not_none o (a, e) = ap is_none e

not_lacking : {A : Type 0} → (o : Option (List A)) → HasFirst o → lacks o ≡ false
not_lacking o (a, rest, e) = ap lacks e ∙ ground arith

is_success : Option Bool → Bool
is_success none = false
is_success (some b) = b

no_failure : (o : Option Bool) → is_success o ≡ false → o ≢ some true
unfolding is_success
no_failure o fails e = absurd (ground (arith, sym fails ∙ ap is_success e))

-- A check that succeeds goes on.
wants-passes :
    (missing : Bool) (rest : Io (Option Bool)) (d : Device) (h : History)
    → (wants missing rest d h).0 ≡ some true
    → (missing ≡ false) × ((rest d h).0 ≡ some true)
unfolding klog is_success
wants-passes true rest d h passed = absurd (no_failure (some false) refl passed)
wants-passes false rest d h passed = (refl, passed)

wants-goes_on :
    (missing : Bool) (rest : Io (Option Bool)) (d : Device) (h : History)
    → missing ≡ false
    → (rest d h).0 ≡ some true
    → (wants missing rest d h).0 ≡ some true
wants-goes_on missing rest d h there passed = ap (λ b. (wants b rest d h).0) there ∙ passed

list-passes :
    (o : Option (List LimineFile)) (rest : Io (Option Bool)) (d : Device) (h : History)
    → (list_modules o rest d h).0 ≡ some true
    → (h' : History) × ((rest d h').0 ≡ some true)
unfolding list_modules is_success
list-passes none rest d h passed = absurd (no_failure none refl passed)
list-passes (some l) rest d h passed = (((klog ll_info >> log_modules l) d h).1, passed)

list-goes_on :
    (o : Option (List LimineFile)) (rest : Io (Option Bool)) (d : Device) (h : History)
    → HasFirst o
    → ((h' : History) → (rest d h').0 ≡ some true)
    → (list_modules o rest d h).0 ≡ some true
unfolding list_modules
list-goes_on o rest d h (a, more, e) passed = ap (λ o'. (list_modules o' rest d h).0) e ∙ passed _

-- A check answers if what follows it does.
wants-IsThere :
    (missing : Bool) (rest : Io (Option Bool)) (d : Device) (h : History)
    → (missing ≡ false → IsThere (rest d h).0)
    → IsThere (wants missing rest d h).0
wants-IsThere true rest d h next = (false, refl)
wants-IsThere false rest d h next = next refl

list-IsThere :
    (o : Option (List LimineFile)) (rest : Io (Option Bool)) (d : Device) (h : History)
    → lacks o ≡ false
    → ((h' : History) → IsThere (rest d h').0)
    → IsThere (list_modules o rest d h).0
unfolding list_modules
list-IsThere none rest d h there next = absurd (ground arith)
list-IsThere (some l) rest d h there next = next _

module _ (r : Responses) where
  -- The second check from its last two tests on, and from the lines about the modules on.
  abbrev last_two : Io (Option Bool)
  last_two = wants (is_none r.executable_address) (wants (is_none r.rsdp) (pure (some true)))

  abbrev from_modules : Io (Option Bool)
  from_modules = wants (lacks r.modules) (list_modules r.modules last_two)

  last_two-IsThere : (d : Device) (h : History) → IsThere (last_two d h).0
  last_two-IsThere d h =
      wants-IsThere (is_none r.executable_address) (wants (is_none r.rsdp) (pure (some true))) d h
        (λ _. wants-IsThere (is_none r.rsdp) (pure (some true)) d h (λ _. (true, refl)))

  -- The second check never reads through a null pointer.
  pub wanted-IsThere :
      (d : Device) (h : History) → IsThere (limine_data_wanted_responses_present r d h).0
  unfolding limine_data_wanted_responses_present
  wanted-IsThere d h =
      wants-IsThere (is_none r.hhdm)
        (wants (lacks r.memmap) (wants (is_none r.paging_mode) from_modules)) d h
        (λ _. wants-IsThere (lacks r.memmap) (wants (is_none r.paging_mode) from_modules) d h (λ _.
          wants-IsThere (is_none r.paging_mode) from_modules d h (λ _.
            wants-IsThere (lacks r.modules) (list_modules r.modules last_two) d h
              (λ there. list-IsThere r.modules last_two d h there (λ h'. last_two-IsThere d h')))))

-- The first check is about what the terminal needs.
pub bare_present :
    (r : Responses)
    → limine_data_bare_minimum_present r ≡ true
    → HasFirst (limine_data_get_framebuffer_response r)
      × HasFirst (limine_data_get_flanterm_fb_init_params_response r)
unfolding limine_data_bare_minimum_present limine_data_get_flanterm_fb_init_params_response
    limine_data_get_framebuffer_response
bare_present r bare = (has_first r.framebuffer (ground arith), has_first r.flanterm (ground arith))

module _ (r : Responses) (d : Device) (h : History) where
  forth :
      (limine_data_bare_minimum_present r ≡ true)
        × ((limine_data_wanted_responses_present r d h).0 ≡ some true)
      → (r.base_revision_supported ≡ true) × AllPresent r
  unfolding limine_data_bare_minimum_present limine_data_wanted_responses_present
      limine_data_hhdm_get_offset limine_data_paging_get_mode limine_data_get_rsdp_virt
      limine_data_get_flanterm_fb_init_params_response limine_data_get_framebuffer_response
      limine_data_get_memmap_response limine_data_get_module_response
      limine_data_get_executable_address_response
  forth (bare, wanted) =
      let (hhdm, wanted1) = wants-passes (is_none r.hhdm) _ d h wanted in
      let (memmap, wanted2) = wants-passes (lacks r.memmap) _ d h wanted1 in
      let (paging_mode, wanted3) = wants-passes (is_none r.paging_mode) _ d h wanted2 in
      let (modules, wanted4) = wants-passes (lacks r.modules) _ d h wanted3 in
      let (h', listed) = list-passes r.modules _ d h wanted4 in
      let (executable_address, wanted5) =
        wants-passes (is_none r.executable_address) _ d h' listed in
      let (rsdp, _) = wants-passes (is_none r.rsdp) _ d h' wanted5 in
      (
        ground arith,
        record {
          framebuffer = (bare_present r bare).0;
          flanterm = (bare_present r bare).1;
          hhdm = is_there r.hhdm hhdm;
          memmap = has_first r.memmap memmap;
          paging_mode = is_there r.paging_mode paging_mode;
          modules = has_first r.modules modules;
          executable_address = is_there r.executable_address executable_address;
          rsdp = is_there r.rsdp rsdp;
        },
      )

  back :
      (r.base_revision_supported ≡ true) × AllPresent r
      → (limine_data_bare_minimum_present r ≡ true)
        × ((limine_data_wanted_responses_present r d h).0 ≡ some true)
  unfolding limine_data_bare_minimum_present limine_data_wanted_responses_present
      limine_data_hhdm_get_offset limine_data_paging_get_mode limine_data_get_rsdp_virt
      limine_data_get_flanterm_fb_init_params_response limine_data_get_framebuffer_response
      limine_data_get_memmap_response limine_data_get_module_response
      limine_data_get_executable_address_response
  back (supported, all) = (
    ground (
      arith,
      supported,
      not_lacking r.framebuffer all.framebuffer,
      not_lacking r.flanterm all.flanterm,
    ),
    wants-goes_on _ _ d h (not_none r.hhdm all.hhdm) (
        wants-goes_on _ _ d h (not_lacking r.memmap all.memmap) (
          wants-goes_on _ _ d h (not_none r.paging_mode all.paging_mode) (
            wants-goes_on _ _ d h (not_lacking r.modules all.modules) (
              list-goes_on r.modules _ d h all.modules (λ h'.
                wants-goes_on _ _ d h' (not_none r.executable_address all.executable_address)
                  (wants-goes_on _ _ d h' (not_none r.rsdp all.rsdp) refl)))))),
  )

-- Both checks of the boot loader's answers succeed exactly when the base revision is supported, no
-- getter reads through a null pointer, and the framebuffers, their parameters, the memory map and the
-- modules all have an entry 0.
pub AllPresent-iff :
    (r : Responses) (d : Device) (h : History)
    → ((limine_data_bare_minimum_present r ≡ true)
        × ((limine_data_wanted_responses_present r d h).0 ≡ some true))
      ↔ ((r.base_revision_supported ≡ true) × AllPresent r)
AllPresent-iff r d h = (forth r d h, back r d h)
