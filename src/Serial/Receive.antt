-- ===== src/Serial/Receive.antt =====
-- `serial_read` and the loopback test of src/drv/rs232.c.
use ratos.Prelude.{
  ℕ, zero, suc, ◌+◌, ◌-◌, ◌^◌, ◌≤◌, ◌<◌, ◌≡◌, refl, sym, ap, subst, ◌∙◌, ◌⊎◌, inl, inr, arith,
}
use ratos.Prelude.{
  Bool, true, false, not, ◌==◌, if◌then◌else◌, List, [], ◌∷◌, Bool-cases, u8, u16, bit_and,
}
use ratos.Prelude.Bits.{testbit, testbit-lt, bit_and_pow}
use ratos.Prelude.Int.{ℤ, pos, negsuc}
use ratos.Memory.{Memory, load8, store8}
use ratos.Memory.Words.{load8-store8}
use ratos.Io.{wrote, got, History, Device, Io, pure, inb, ◌>>=◌}
use ratos.Serial.{
  s_com1, s_lsr_data_ready, test_loop, test_bytes, conclude, set_up, serial_init, read_loop,
  serial_read,
}
use ratos.Serial.Transfer.{sent}

-- The values read from a port, the newest first.
abbrev pub received : ℕ → History → List ℕ
received port [] = []
received port (got p v ∷ h) = if p == port then v ∷ received port h else received port h
received port (_ ∷ h) = received port h

-- `serial_read` stored what it read from the data port, in order and from `i` on, and no other byte.
pub record Received (m : Memory) (port buf size i : ℕ) (h : History)
    (result : (ℕ × Memory) × History) : Type 0 where
  pub from : i ≤ result.0.0
  pub bound : result.0.0 ≤ size
  pub stored : sent result.0.1 buf i (result.0.0 - i) (received port h) ≡ received port result.1
  pub outside : (b : ℕ) → (b < buf + i) ⊎ (buf + result.0.0 ≤ b) → load8 result.0.1 b ≡ load8 m b

-- What the line status says, and the history behind a read of it and, with a byte ready, of the byte.
abbrev pub status_of : Device → (port : ℕ) → History → ℕ
status_of d port h = u8 (d h (port + 5))

abbrev pub asked : Device → (port : ℕ) → History → History
asked d port h = got (port + 5) (status_of d port h) ∷ h

abbrev pub answered : Device → (port : ℕ) → History → History
answered d port h = got port (u8 (d (asked d port h) port)) ∷ asked d port h

-- `n` bytes were read, of `left` at most: in front of each the line status said that one is ready. The
-- call ended with all that were wanted, or with the first status that said that none is.
abbrev pub Polled : Device → (port left n : ℕ) → (h end : History) → Type 0
Polled d port zero n h end = (n ≡ 0) × (end ≡ h)
Polled d port (suc left) zero h end = (testbit (status_of d port h) 0 ≡ 0) × (end ≡ asked d port h)
Polled d port (suc left) (suc n) h end =
    (testbit (status_of d port h) 0 ≡ 1) × Polled d port left n (answered d port h) end

module _ (port buf size : ℕ) (d : Device) (fits : port + 8 ≤ 2 ^ 16) where
  -- The events of one round.
  abbrev status : History → ℕ
  status h = u8 (d h (u16 (port + 5)))

  abbrev polled : History → History
  polled h = got (u16 (port + 5)) (status h) ∷ h

  abbrev taken : History → ℕ
  taken h = u8 (d (polled h) (u16 (port + 0)))

  abbrev after : History → History
  after h = got (u16 (port + 0)) (taken h) ∷ polled h

  received-after : (h : History) → received port (after h) ≡ taken h ∷ received port h
  received-after h =
      let e : u16 (port + 0) ≡ port = omega arith in
      let e' : u16 (port + 5) ≡ port + 5 = omega arith in rw (e, e') (ground arith)

  received-polled : (h : History) → received port (polled h) ≡ received port h
  received-polled h = let e' : u16 (port + 5) ≡ port + 5 = omega arith in rw e' (ground arith)

  Received-cons :
      (m : Memory) (i : ℕ) (h : History) (result : (ℕ × Memory) × History)
      → Received (store8 m (buf + i) (taken h)) port buf size (i + 1) (after h) result
      → Received m port buf size i h result
  Received-cons m i h result r = record {
    from = omega (arith, r.from);
    bound = r.bound;
    stored =
        ap (λ n. sent result.0.1 buf i n (received port h)) one_more
        ∙ ap (λ v. sent result.0.1 buf (i + 1) rest (v ∷ received port h)) here
        ∙ ap (sent result.0.1 buf (i + 1) rest) (sym (received-after h))
        ∙ r.stored;
    outside = λ b p. ground (arith, r.outside b, load8-store8 m (buf + i) (taken h) b, r.from);
  }
    where
      rest : ℕ
      rest = result.0.0 - (i + 1)

      one_more : result.0.0 - i ≡ suc rest
      one_more = omega (arith, r.from)

      here : load8 result.0.1 (buf + i) ≡ taken h
      here = ground (arith, r.outside (buf + i), load8-store8 m (buf + i) (taken h) (buf + i))

  read_loop-Received :
      (left i : ℕ) (m : Memory) (h : History)
      → i + left ≡ size
      → Received m port buf size i h (read_loop left m port buf size i d h)
  unfolding read_loop
  read_loop-Received zero i m h e = record {
    from = omega arith;
    bound = omega arith;
    stored = ap (λ n. sent m buf i n (received port h)) {x = size - i} {y = 0} (omega arith);
    outside = λ b p. refl;
  }
  read_loop-Received (suc left) i m h e =
      elim (bit_and (status h) s_lsr_data_ready == 0)
        as (λ t. Received m port buf size i h (
          (elim t as (λ _. Io (ℕ × Memory)) [
            | true ↦ pure (i, m)
            | false ↦ inb (port + 0) >>= λ byte.
                read_loop left (store8 m (buf + i) byte) port buf size (i + 1)
          ])
            d (polled h))) [
              | true ↦ record {
                from = omega arith;
                bound = omega arith;
                stored =
                    ap (λ n. sent m buf i n (received port h)) {x = i - i} {y = 0} (omega arith)
                    ∙ sym (received-polled h);
                outside = λ b p. refl;
              }
              | false ↦ Received-cons m i h _ (
                  read_loop-Received left (i + 1) (store8 m (buf + i) (taken h)) (after h)
                    (omega arith))
            ]

ready_bit : (v : ℕ) → (bit_and v s_lsr_data_ready ≡ testbit v 0)
ready_bit v = bit_and_pow 0 v ∙ omega arith

module _ (port buf size : ℕ) (d : Device) (fits : port + 8 ≤ 2 ^ 16) where
  read_loop-Polled :
      (left i : ℕ) (m : Memory) (h : History)
      → i + left ≡ size
      → let r = read_loop left m port buf size i d h in
        (n : ℕ) × (r.0.0 ≡ i + n) × Polled d port left n h r.1
  unfolding read_loop
  read_loop-Polled zero i m h e = (0, omega arith, (refl, refl))
  read_loop-Polled (suc left) i m h e =
      let data_port : u16 (port + 0) ≡ port = omega arith in
      let status_port : u16 (port + 5) ≡ port + 5 = omega arith in
      let v : ℕ = status port buf size d fits h in
      let same : v ≡ status_of d port h = rw status_port refl in
      let one : polled port buf size d fits h ≡ asked d port h = rw status_port refl in
      let two : after port buf size d fits h ≡ answered d port h =
        rw (status_port, data_port) refl in
      elim (bit_and v s_lsr_data_ready == 0)
          as (λ t.
            (bit_and v s_lsr_data_ready == 0 ≡ t)
            → let r =
                (elim t as (λ _. Io (ℕ × Memory)) [
                  | true ↦ pure (i, m)
                  | false ↦ inb (port + 0) >>= λ byte.
                      read_loop left (store8 m (buf + i) byte) port buf size (i + 1)
                ])
                  d (polled port buf size d fits h) in
              (n : ℕ) × (r.0.0 ≡ i + n) × Polled d port (suc left) n h r.1) [
                | true ↦ λ z.
                    let idle : testbit v 0 ≡ 0 = ground (arith, z, ready_bit v) in
                    (0, omega arith, (ap (λ (t : ℕ). testbit t 0) (sym same) ∙ idle, one))
                | false ↦ λ ne.
                    let ready : testbit v 0 ≡ 1 = ground (arith, ne, ready_bit v, testbit-lt v 0) in
                    let (n, count, polled') =
                      read_loop-Polled left (i + 1)
                        (store8 m (buf + i) (taken port buf size d fits h))
                        (after port buf size d fits h) (omega arith) in
                    (
                      suc n,
                      omega (arith, count),
                      (
                        ap (λ (t : ℕ). testbit t 0) (sym same) ∙ ready,
                        subst
                            (λ h'.
                              Polled d port left n h'
                                (read_loop left (store8 m (buf + i) (taken port buf size d fits h))
                                  port buf size (i + 1) d (after port buf size d fits h)).1)
                            two polled',
                      ),
                    )
              ]
        refl

-- On a port whose registers lie below 2 ^ 16, `serial_read` returns how many bytes it read, at most
-- `size`. In front of each byte it read the line status once, which said that one is ready, and it
-- ended with `size` bytes or with the first status that said that none is. It stored exactly the values
-- that the data port gave, in order from `buf` on, and changed no other byte.
pub serial_read-Received :
    (m : Memory) (port buf size : ℕ) (d : Device) (h : History)
    → port + 8 ≤ 2 ^ 16
    → let r = serial_read m port buf size d h in
      Received m port buf size 0 h r × Polled d port size r.0.0 h r.1
unfolding serial_read
serial_read-Received m port buf size d h fits =
    let r = read_loop size m port buf size 0 d h in
    let (n, count, polled) = read_loop-Polled port buf size d fits size 0 m h (omega arith) in
    (
      read_loop-Received port buf size d fits size 0 m h (omega arith),
      subst (λ (t : ℕ). Polled d port size t h r.1) {x = n} {y = r.0.0} (omega (arith, count))
          polled,
    )

-- In loopback a port gives back what was written to it last.
abbrev pub LoopsBack : Device → Type 0
LoopsBack d = (h : History) (v : ℕ) → v < 256 → d (wrote s_com1 v ∷ h) s_com1 ≡ v

abbrev AllBytes : List ℕ → Type 0
AllBytes [] = Unit
AllBytes (b ∷ bs) = (b < 256) × AllBytes bs

-- One round of the test, by what the port answers.
module _ (d : Device) (b : ℕ) (bs : List ℕ) (h : History) where
  abbrev echo : ℕ
  echo = u8 (d (wrote s_com1 (u8 b) ∷ h) s_com1)

  abbrev echoed : History
  echoed = got s_com1 echo ∷ wrote s_com1 (u8 b) ∷ h

  abbrev by_test : Bool → Bool × History
  by_test t =
      (elim (not t) as (λ _. Io Bool) [ true ↦ pure false | false ↦ test_loop s_com1 bs ]) d echoed

  test_loop-cons : test_loop s_com1 (b ∷ bs) d h ≡ by_test (echo == b)
  unfolding test_loop
  test_loop-cons = refl

  test_loop-hit : (echo == b) ≡ true → test_loop s_com1 (b ∷ bs) d h ≡ test_loop s_com1 bs d echoed
  test_loop-hit e = test_loop-cons ∙ ap by_test e

  test_loop-miss : (echo == b) ≡ false → (test_loop s_com1 (b ∷ bs) d h).0 ≡ false
  test_loop-miss e = ap (λ (r : Bool × History). r.0) (test_loop-cons ∙ ap by_test e)

test_loop-pass :
    (d : Device) (bytes : List ℕ) (h : History)
    → LoopsBack d
    → AllBytes bytes
    → (test_loop s_com1 bytes d h).0 ≡ true
test_loop-pass d [] h loops all = unfold test_loop in refl
test_loop-pass d (b ∷ bs) h loops (small, all) =
    let same : (echo d b bs h == b) ≡ true = ground (arith, loops h (u8 b)) in
    rw (test_loop-hit d b bs h same) (test_loop-pass d bs _ loops all)

-- A port that answers every read alike gives 0x00 or 0xff back wrong.
test_loop-stuck :
    (d : Device) (c : ℕ) (h : History)
    → ((h' : History) → d h' s_com1 ≡ c)
    → (test_loop s_com1 test_bytes d h).0 ≡ false
test_loop-stuck d c h same = elim (Bool-cases (u8 c == 0)) [
  | inr differs ↦ test_loop-miss d 0 rest h (ground (arith, same (wrote s_com1 0 ∷ h)))
  | inl zero_read ↦
      rw (test_loop-hit d 0 rest h (ground (arith, same (wrote s_com1 0 ∷ h))))
        (test_loop-miss d 0xff rest' h' (ground (arith, same (wrote s_com1 0xff ∷ h'))))
]
  where
    rest : List ℕ
    rest = 0xff ∷ 0xa5 ∷ 0x5a ∷ []

    rest' : List ℕ
    rest' = 0xa5 ∷ 0x5a ∷ []

    h' : History
    h' = echoed d 0 rest h

serial_init-LoopsBack :
    (d : Device) (h : History) (baud_rate_divisor : ℕ)
    → LoopsBack d
    → (serial_init s_com1 baud_rate_divisor d h).0 ≡ pos 0
unfolding serial_init conclude
serial_init-LoopsBack d h baud_rate_divisor loops =
    rw (test_loop-pass d test_bytes (set_up s_com1 baud_rate_divisor d h).1 loops (omega arith))

serial_init-missing :
    (d : Device) (c : ℕ) (h : History) (baud_rate_divisor : ℕ)
    → ((h' : History) → d h' s_com1 ≡ c)
    → (serial_init s_com1 baud_rate_divisor d h).0 ≡ negsuc 0
unfolding serial_init conclude
serial_init-missing d c h baud_rate_divisor same =
    rw (test_loop-stuck d c (set_up s_com1 baud_rate_divisor d h).1 same)

-- The port answers every read with the same value, as a missing one does.
abbrev pub Stuck : Device → Type 0
Stuck d = (c : ℕ) × ((h : History) → d h s_com1 ≡ c)

-- What the test is to find out about a port.
abbrev pub verdict : (d : Device) → LoopsBack d ⊎ Stuck d → ℤ
verdict d (inl loops) = pos 0
verdict d (inr stuck) = negsuc 0

-- `serial_init` on COM1 returns 0 if the port loops back, and -1 if it answers every read with the same
-- value, as a missing port does.
pub serial_init-verdict :
    (d : Device) (h : History) (baud_rate_divisor : ℕ) (kind : LoopsBack d ⊎ Stuck d)
    → (serial_init s_com1 baud_rate_divisor d h).0 ≡ verdict d kind
serial_init-verdict d h baud_rate_divisor (inl loops) =
    serial_init-LoopsBack d h baud_rate_divisor loops
serial_init-verdict d h baud_rate_divisor (inr (c, same)) =
    serial_init-missing d c h baud_rate_divisor same
