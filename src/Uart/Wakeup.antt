-- ===== src/Uart/Wakeup.antt =====
-- The notifications of the transmit thread of the Uart, over every sequence of operations.
use open_socemu.Base.{
  ℕ, ◌/◌, ◌≡◌, refl, Bool, true, false, not, ◌&&◌, ◌||◌, ◌==◌, ltb, List, [], ◌∷◌, ◌++◌, bit_and,
  nonzero, update, ok, if_both, Ensures, Ensures-ok, Ensures-bind, Ensures-check, assertion, arith,
  if◌then◌else◌,
}
use open_socemu.Base.{fault, tlm_err}
use open_socemu.Uart.{
  Uart, TxPhase, waiting, woken, sending, new, is_empty, size, notify, check_int, tx_enabled,
  tx_start, tx_done, rx_done, reg_rd, reg_wr, write_switch, write_ucon, write_udata,
}
use open_socemu.Uart.Regs.{
  ucon_index, ustat_index, udata_index, urxcon_index, utxcon_index, ubr_index, reg_uart_count,
  txe_bit, ubrmod_mask,
}

-- A waiting thread has nothing to send, and a woken one has.
abbrev pub IsAwake : TxPhase → Bool → Bool → Type 0
IsAwake waiting enabled empty = (enabled && not empty) ≡ false
IsAwake woken enabled empty = empty ≡ false
IsAwake sending enabled empty = Unit {0}

abbrev pub IsLive : Uart → Type 0
IsLive s = IsAwake s.tx_phase (tx_enabled s.reg) (is_empty s.tx_fifo)

notify-IsAwake : (p : TxPhase) (enabled : Bool) → IsAwake (notify p) enabled false
unfolding notify
notify-IsAwake waiting enabled = refl
notify-IsAwake woken enabled = refl
notify-IsAwake sending enabled = tt

-- A thread that is told whenever it has something to send stays awake.
told-IsAwake :
    (p : TxPhase) (enabled before empty : Bool)
    → IsAwake p before empty
    → IsAwake (if enabled && not empty then notify p else p) enabled empty
told-IsAwake p true before false h = notify-IsAwake p true
told-IsAwake waiting true before true h = refl
told-IsAwake woken true before true h = h
told-IsAwake sending true before true h = tt
told-IsAwake waiting false before empty h = refl
told-IsAwake woken false before empty h = h
told-IsAwake sending false before empty h = tt

pushed-IsAwake :
    (p : TxPhase) (enabled : Bool) → IsAwake (if enabled then notify p else p) enabled false
pushed-IsAwake p true = notify-IsAwake p true
pushed-IsAwake waiting false = refl
pushed-IsAwake woken false = refl
pushed-IsAwake sending false = tt

is_empty-push : (fifo : List ℕ) (c : ℕ) → is_empty (fifo ++ (c ∷ [])) ≡ false
unfolding is_empty
is_empty-push [] c = refl
is_empty-push (x ∷ xs) c = refl

check_int-IsLive : (s : Uart) → IsLive s → IsLive (check_int s)
unfolding check_int
check_int-IsLive s h = h

write_ucon-IsLive : (value : ℕ) (s : Uart) → IsLive s → IsLive (write_ucon value s)
unfolding write_ucon tx_enabled
write_ucon-IsLive value s h =
    told-IsAwake s.tx_phase (nonzero (bit_and value txe_bit)) (tx_enabled s.reg)
      (is_empty s.tx_fifo) h

write_udata-IsLive : (value : ℕ) (s : Uart) → IsLive s → IsLive (write_udata value s)
unfolding write_udata
write_udata-IsLive value s h =
    if_both IsLive (ltb (if size s.tx_fifo == 0 then 1 else 0) 32)
      (λ room.
        rw (is_empty-push s.tx_fifo (bit_and value 0xFF))
          (pushed-IsAwake s.tx_phase (tx_enabled s.reg)))
      (λ full. h)

stored-IsLive :
    (index value : ℕ) (s : Uart)
    → (index == ucon_index) ≡ false
    → IsLive s
    → IsLive (record s { reg = update s.reg index value })
unfolding tx_enabled
stored-IsLive index value s n h = let e : (ucon_index == index) ≡ false = ground arith in rw e h

write_switch-IsLive :
    (index value : ℕ) (s : Uart) → IsLive s → Ensures IsLive (write_switch index value s)
unfolding write_switch
write_switch-IsLive index value s h =
    let P = Ensures IsLive in
    if_both P (index == ucon_index) (λ _. write_ucon-IsLive value s h)
      λ n.
        let stored = stored-IsLive index value s n h in
        if_both P (index == ustat_index) (λ _. tt)
          λ _.
            if_both P (index == udata_index) (λ _. write_udata-IsLive value s h)
              λ _.
                if_both P (index == urxcon_index || index == utxcon_index)
                  (λ _. if_both P (ltb 31 value) (λ _. tt) (λ _. stored))
                  λ _.
                    if_both P (index == ubr_index)
                      (λ _. if_both P (bit_and value ubrmod_mask == 0) (λ _. tt) (λ _. stored))
                      (λ _. stored)

reg_wr-IsLive : (offset value : ℕ) (s : Uart) → IsLive s → Ensures IsLive (reg_wr offset value s)
unfolding reg_wr
reg_wr-IsLive offset value s h =
    Ensures-check IsLive (ltb (offset / 4) reg_uart_count) assertion _ λ _.
      Ensures-bind IsLive IsLive (write_switch (offset / 4) value s) _
        (write_switch-IsLive (offset / 4) value s h) check_int-IsLive

reg_rd-IsLive :
    (offset : ℕ) (s : Uart) → IsLive s → Ensures (λ (r : ℕ × Uart). IsLive r.1) (reg_rd offset s)
unfolding reg_rd
reg_rd-IsLive offset s h =
    let F : ℕ × Uart → Type 0 = λ r. IsLive r.1 in
    let P = Ensures F in
    let index = offset / 4 in
    Ensures-check F (ltb index reg_uart_count) assertion _ λ _.
      if_both P (index == udata_index) (λ _. popped s.rx_fifo)
        λ _.
          if_both P (index == urxcon_index) (λ _. h)
            λ _. if_both P (index == utxcon_index) (λ _. h) (λ _. h)
  where
    popped :
        (fifo : List ℕ)
        → Ensures
            (λ (r : ℕ × Uart). IsLive r.1)
            (elim fifo [ [] ↦ ok (0, s) | c ∷ rest ↦ ok (c, record s { rx_fifo = rest }) ])
    popped [] = h
    popped (c ∷ rest) = h

tx_start-IsLive : (s : Uart) → Ensures IsLive (tx_start s)
unfolding tx_start
tx_start-IsLive s = started s.tx_fifo
  where
    started :
        (fifo : List ℕ)
        → Ensures IsLive (elim fifo [
          | [] ↦ fault assertion
          | c ∷ rest ↦
              if bit_and (s.reg ubr_index) ubrmod_mask == 0
              then fault tlm_err
              else ok (record s { tx_fifo = rest; tx_phase = sending })
        ])
    started [] = tt
    started (c ∷ rest) =
        if_both (Ensures IsLive) (bit_and (s.reg ubr_index) ubrmod_mask == 0) (λ _. tt) (λ _. tt)

tx_done-IsLive : (s : Uart) → IsLive (tx_done s)
unfolding tx_done check_int
tx_done-IsLive s = decided (is_empty s.tx_fifo) (tx_enabled s.reg)
  where
    decided :
        (empty enabled : Bool)
        → IsAwake (if not empty && enabled then woken else waiting) enabled empty
    decided true true = refl
    decided true false = refl
    decided false true = refl
    decided false false = refl

rx_done-IsLive : (c : ℕ) (s : Uart) → IsLive s → IsLive (rx_done c s)
unfolding rx_done check_int
rx_done-IsLive c s h = h

-- One operation: a register access, a step of the transmit thread, or a character that was being
-- received when its time is over.
pub data Step : Uart → Uart → Type 0 where
  write : (s t : Uart) (offset value : ℕ) → reg_wr offset value s ≡ ok t → Step s t
  read : (s t : Uart) (offset result : ℕ) → reg_rd offset s ≡ ok (result, t) → Step s t
  transmit : (s t : Uart) → s.tx_phase ≡ woken → tx_start s ≡ ok t → Step s t
  transmitted : (s : Uart) → s.tx_phase ≡ sending → Step s (tx_done s)
  received : (s : Uart) (c : ℕ) → Step s (rx_done c s)

pub data Reach : Uart → Type 0 where
  start : Reach new
  next : {s t : Uart} → Reach s → Step s t → Reach t

Step-IsLive : {s t : Uart} → Step s t → IsLive s → IsLive t
Step-IsLive (write s t offset value e) h = Ensures-ok IsLive (reg_wr-IsLive offset value s h) e
Step-IsLive (read s t offset result e) h =
    Ensures-ok (λ (r : ℕ × Uart). IsLive r.1) (reg_rd-IsLive offset s h) e
Step-IsLive (transmit s t phase e) h = Ensures-ok IsLive (tx_start-IsLive s) e
Step-IsLive (transmitted s phase) h = tx_done-IsLive s
Step-IsLive (received s c) h = rx_done-IsLive c s h

-- In every reachable state, when the transmit thread waits for its event, transmission is off or
-- the transmit queue is empty, so that no byte is left behind by a lost notification; and when
-- the thread has been woken, the queue holds a byte, as its assertion asks for.
pub Reach-IsLive : {s : Uart} → Reach s → IsLive s
unfolding new is_empty tx_enabled
Reach-IsLive start = refl
Reach-IsLive (next r st) = Step-IsLive st (Reach-IsLive r)
