-- ===== src/Serial/Transfer.antt =====
-- `serial_write` of src/drv/rs232.c.
use ratos.Prelude.{ℕ, zero, suc, ◌+◌, ◌^◌, ◌≤◌, ◌<◌, ◌≡◌, refl, ap, ◌∙◌, ◌⊎◌, inl, inr, arith}
use ratos.Prelude.{Bool, true, false, ◌==◌, if◌then◌else◌, List, [], ◌∷◌, u8, u16}
use ratos.Memory.{Memory, load8}
use ratos.Memory.Words.{load8-lt}
use ratos.Strings.Scan.{IsString}
use ratos.Io.{wrote, got, History, Device}
use ratos.Serial.{goes_on, write_loop, serial_write}

-- The values written to a port, the newest first.
abbrev pub transmitted : ℕ → History → List ℕ
transmitted port [] = []
transmitted port (wrote p v ∷ h) = if p == port then v ∷ transmitted port h else transmitted port h
transmitted port (_ ∷ h) = transmitted port h

-- The bytes of `str` from `i` on put in front of a list, one after the other.
abbrev pub sent : Memory → (str i left : ℕ) → List ℕ → List ℕ
sent m str i zero out = out
sent m str i (suc left) out = sent m str (i + 1) left (load8 m (str + i) ∷ out)

-- The history behind the bytes of `str` from `i` on: for each byte one read of the line status, and then
-- one write of the byte to the transmit register.
abbrev pub exchange : Device → Memory → (port str i left : ℕ) → History → History
exchange d m port str i zero h = h
exchange d m port str i (suc left) h =
    exchange d m port str (i + 1) left
      (wrote port (load8 m (str + i)) ∷ got (port + 5) (u8 (d h (port + 5))) ∷ h)

-- The call ended behind just that exchange. So the transmit register got the bytes in order.
abbrev pub Sent : Device → Memory → (port str i left : ℕ) → History → Bool × History → Type 0
Sent d m port str i left h result =
    (result ≡ (true, exchange d m port str i left h))
    × (transmitted port result.1 ≡ sent m str i left (transmitted port h))

module _ (m : Memory) (port str size : ℕ) (d : Device) (fits : port + 8 ≤ 2 ^ 16) where
  transmitted-exchange :
      (left i : ℕ) (h : History)
      → transmitted port (exchange d m port str i left h) ≡ sent m str i left (transmitted port h)
  transmitted-exchange zero i h = refl
  transmitted-exchange (suc left) i h =
      let event : transmitted port
            (wrote port (load8 m (str + i)) ∷ got (port + 5) (u8 (d h (port + 5))) ∷ h)
          ≡ load8 m (str + i) ∷ transmitted port h =
        ground arith in
      transmitted-exchange left (i + 1) _ ∙ ap (sent m str (i + 1) left) event

  write_loop-exchange :
      (fuel left i : ℕ) (h : History)
      → left < fuel
      → ((j : ℕ) → j < left → goes_on m str size (i + j) ≡ true)
      → goes_on m str size (i + left) ≡ false
      → write_loop fuel m port str size i d h ≡ (true, exchange d m port str i left h)
  unfolding write_loop
  write_loop-exchange zero left i h enough go stop = absurd (omega arith)
  write_loop-exchange (suc fuel) zero i h enough go stop =
      let e : i + 0 ≡ i = omega arith in
      let stop' : goes_on m str size i ≡ false = rw e at stop in rw stop' refl
  write_loop-exchange (suc fuel) (suc left) i h enough go stop =
      let e : i + 0 ≡ i = omega arith in
      let go' : goes_on m str size i ≡ true = rw e at (go 0 (omega arith)) in
      let e' : i + suc left ≡ i + 1 + left = omega arith in
      let data_port : u16 (port + 0) ≡ port = omega arith in
      let status_port : u16 (port + 5) ≡ port + 5 = omega arith in
      let byte : u8 (load8 m (str + i)) ≡ load8 m (str + i) = omega (arith, load8-lt m (str + i)) in
      let onwards =
        write_loop-exchange fuel left (i + 1)
          (wrote port (load8 m (str + i)) ∷ got (port + 5) (u8 (d h (port + 5))) ∷ h) (omega arith)
          (λ j below.
            let e'' : i + suc j ≡ i + 1 + j = omega arith in rw e'' at (go (suc j) (omega arith)))
          (rw e' at stop) in
      rw (go', data_port, status_port, byte) onwards

-- `n` is how many bytes `serial_write` is to send: its size, or for size 0 the length of the string.
abbrev pub ToSend : Memory → (str size n : ℕ) → Type 0
ToSend m str size n = ((0 < size) × (n ≡ size)) ⊎ ((size ≡ 0) × IsString m str n)

goes_on-ToSend :
    (m : Memory) (str size n : ℕ)
    → ToSend m str size n
    → ((j : ℕ) → j < n → goes_on m str size j ≡ true) × (goes_on m str size n ≡ false)
unfolding goes_on
goes_on-ToSend m str size n (inl (some_bytes, e)) = (λ j below. ground arith, ground arith)
goes_on-ToSend m str size n (inr (e, is)) =
    (λ j below. ground (arith, e, is.characters j below), ground (arith, e, is.terminated))

-- Given a round more than there are bytes to send, and a port whose registers lie below 2 ^ 16,
-- `serial_write` ends and transmits them in order: as many as its size says, or for size 0 the characters
-- in front of the terminator. All that it does is to read the line status once and then write the byte,
-- for each byte in turn, whatever the answer is: it never waits for the transmitter.
pub serial_write-Transmits :
    (fuel n : ℕ) (m : Memory) (port str size : ℕ) (d : Device) (h : History)
    → port + 8 ≤ 2 ^ 16
    → ToSend m str size n
    → n < fuel
    → Sent d m port str 0 n h (serial_write fuel m port str size d h)
unfolding serial_write
serial_write-Transmits fuel n m port str size d h fits to_send enough =
    let (go, stop) = goes_on-ToSend m str size n to_send in
    let ended =
      write_loop-exchange m port str size d fits fuel n 0 h enough
        (λ j below. let e : 0 + j ≡ j = omega arith in rw e (go j below))
        (let e : 0 + n ≡ n = omega arith in rw e stop) in
    (
      ended,
      ap (λ (r : Bool × History). transmitted port r.1) ended
          ∙ transmitted-exchange m port str size d fits n 0 h,
    )
