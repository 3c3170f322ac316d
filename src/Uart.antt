-- ===== src/Uart.antt =====
-- The serial port of src/tlm_blocks/Mc13224v/Uart/Uart.h and Uart.cpp.
-- The threads are cut at their waits; how long a character takes is not modelled. An immediate
-- notification of the transmit event wakes the thread if it waits for it, and is lost if not; one
-- after zero time, which the thread makes before it waits, wakes it. A register handler starts at
-- the end of its internal delay.
pub mod Regs
pub mod Wakeup
pub mod Queue
mod Tests
use open_socemu.Base.{
  ℕ, zero, suc, ◌+◌, ◌-◌, ◌/◌, ◌%◌, ◌^◌, Bool, true, false, not, ◌&&◌, ◌||◌, Option, none, some,
  List, [], ◌∷◌, ◌++◌, bit_and, nonzero, sub32, update, ltb, leb, ◌==◌, if◌then◌else◌, ◌≡◌, Result,
  ok, fault, assertion, tlm_err, check, ◌>>=◌, ◌>>◌,
}
use Regs.{
  ucon_index, ustat_index, udata_index, urxcon_index, utxcon_index, ubr_index, reg_uart_count,
  mrxr_bit, mtxr_bit, rxe_bit, txe_bit, ubrmod_mask,
}

-- Where the transmit thread is: in the wait for its event, woken from it, or in the wait for the
-- time of a character.
pub data TxPhase : Type 0 where
  waiting woken sending : TxPhase

pub record Uart : Type 0 where
  pub reg : ℕ → ℕ
  pub tx_fifo : List ℕ
  pub tx_phase : TxPhase
  pub rx_fifo : List ℕ
  pub interrupt : Bool

unfoldable pub new : Uart
new = record { reg = λ _. 0; tx_fifo = []; tx_phase = waiting; rx_fifo = []; interrupt = false }

unfoldable pub size : List ℕ → ℕ
size [] = 0
size (c ∷ cs) = size cs + 1

unfoldable pub is_empty : List ℕ → Bool
is_empty [] = true
is_empty (c ∷ cs) = false

-- `m_tx.event.notify()`
unfoldable pub notify : TxPhase → TxPhase
notify waiting = woken
notify woken = woken
notify sending = sending

-- `32 - fifo.size()` on the 64 bits of `size_t`.
unfoldable pub tx_free : List ℕ → ℕ
tx_free fifo = (32 + 2 ^ 64 - size fifo) % 2 ^ 64

unfoldable pub check_int : Uart → Uart
check_int s =
    let ucon = s.reg ucon_index in
    record s {
      interrupt =
          (nonzero (bit_and ucon mtxr_bit) && leb (s.reg utxcon_index) (tx_free s.tx_fifo))
          || (nonzero (bit_and ucon mrxr_bit) && leb (s.reg urxcon_index) (size s.rx_fifo));
    }

unfoldable pub tx_enabled : (ℕ → ℕ) → Bool
tx_enabled reg = nonzero (bit_and (reg ucon_index) txe_bit)

-- The transmit thread from its wakeup to the wait for the character's time.
unfoldable pub tx_start : Uart → Result Uart
tx_start s = elim s.tx_fifo [
  | [] ↦ fault assertion
  | c ∷ rest ↦
      if bit_and (s.reg ubr_index) ubrmod_mask == 0
      then fault tlm_err
      else ok (record s { tx_fifo = rest; tx_phase = sending })
]

-- From that wait to the next wait for the event.
unfoldable pub tx_done : Uart → Uart
tx_done s =
    let u = check_int s in
    record u { tx_phase = if not (is_empty u.tx_fifo) && tx_enabled u.reg then woken else waiting }

-- The receive thread at a character: whether it goes on to receive it.
unfoldable pub rx_start : Uart → Bool
rx_start s = nonzero (bit_and (s.reg ucon_index) rxe_bit)

-- The receive thread after the time of a character that it goes on to receive.
unfoldable pub rx_done : ℕ → Uart → Uart
rx_done c s = check_int (record s { rx_fifo = s.rx_fifo ++ (c ∷ []) })

unfoldable pub reg_rd : ℕ → Uart → Result (ℕ × Uart)
reg_rd offset s = do
  let index = offset / 4
  check (ltb index reg_uart_count) assertion
  if index == udata_index
      then (elim s.rx_fifo [ [] ↦ ok (0, s) | c ∷ rest ↦ ok (c, record s { rx_fifo = rest }) ])
      else if index == urxcon_index
      then ok (size s.rx_fifo % 2 ^ 32, s)
      else if index == utxcon_index
      then ok (tx_free s.tx_fifo % 2 ^ 32, s)
      else ok (s.reg index, s)

unfoldable pub write_ucon : ℕ → Uart → Uart
write_ucon value s = record s {
  reg = update s.reg ucon_index value;
  tx_phase =
      if nonzero (bit_and value txe_bit) && not (is_empty s.tx_fifo)
      then notify s.tx_phase
      else s.tx_phase;
}

-- The guard `!m_tx.fifo.size() < 32` compares the negation, 0 or 1, with 32.
unfoldable pub write_udata : ℕ → Uart → Uart
write_udata value s =
    if ltb (if size s.tx_fifo == 0 then 1 else 0) 32
    then record s {
      tx_fifo = s.tx_fifo ++ (bit_and value 0xFF ∷ []);
      tx_phase = if tx_enabled s.reg then notify s.tx_phase else s.tx_phase;
    }
    else s

-- The switch of `reg_wr`.
unfoldable pub write_switch : ℕ → ℕ → Uart → Result Uart
write_switch index value s =
    let stored = record s { reg = update s.reg index value } in
    if index == ucon_index
    then ok (write_ucon value s)
    else if index == ustat_index
    then fault tlm_err
    else if index == udata_index
    then ok (write_udata value s)
    else if index == urxcon_index || index == utxcon_index
    then (if ltb 31 value then fault tlm_err else ok stored)
    else if index == ubr_index
    then (if bit_and value ubrmod_mask == 0 then fault tlm_err else ok stored)
    else ok stored

unfoldable pub reg_wr : ℕ → ℕ → Uart → Result Uart
reg_wr offset value s = do
  let index = offset / 4
  check (ltb index reg_uart_count) assertion
  s' ← write_switch index value s
  ok (check_int s')
