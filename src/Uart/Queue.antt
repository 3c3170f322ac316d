-- ===== src/Uart/Queue.antt =====
-- The transmit queue of the Uart.
use open_socemu.Base.{
  ℕ, ◌*◌, ◌≡◌, refl, true, List, [], ◌∷◌, ◌++◌, bit_and, ltb, ◌==◌, ok, Bool-cases, inl, inr,
  if◌then◌else◌,
}
use open_socemu.Uart.{Uart, size, check_int, write_udata, write_switch, reg_wr}
use open_socemu.Uart.Regs.{udata_index}

-- The guard of a write to the data register holds for every queue.
room : (fifo : List ℕ) → ltb (if size fifo == 0 then 1 else 0) 32 ≡ true
room fifo = elim (Bool-cases (size fifo == 0)) [ inl e ↦ rw e refl | inr e ↦ rw e refl ]

-- A write to the data register is accepted, and its low byte is put at the end of the transmit
-- queue, whatever the length of the queue.
pub reg_wr-udata :
    (value : ℕ) (s : Uart)
    → (t : Uart) × (reg_wr (4 * udata_index) value s ≡ ok t)
      × (t.tx_fifo ≡ s.tx_fifo ++ (bit_and value 0xFF ∷ []))
unfolding reg_wr write_switch
reg_wr-udata value s = (
  check_int (write_udata value s),
  refl,
  unfold check_int write_udata in (rw (room s.tx_fifo) refl),
)
