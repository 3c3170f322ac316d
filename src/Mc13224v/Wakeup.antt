-- ===== src/Mc13224v/Wakeup.antt =====
-- A wake-up event from STATUS of the Crm to the lines of the Itc, and its acknowledgement.
use open_socemu.Base.{
  ℕ, ◌*◌, ◌/◌, ◌^◌, ◌<◌, ◌≡◌, ◌∙◌, refl, ap, Bool, true, false, not, ◌&&◌, ◌||◌, ◌==◌, ltb, leb,
  u32, ok, arith, bit_and, update, IsWordArray, inl, inr, Bool-cases, if◌then◌else◌, bit_not,
}
use open_socemu.Base.Search.{any_below, any_below_ext, any_below_complete}
use open_socemu.Base.Bits.{test_bit}
use open_socemu.Base.Masks.{bit_and_low}
use open_socemu.Tlm.{
  Payload, Command, read_command, write_command, ok_response, IsReady, b_trans, b_wr_word,
  b_rd_word, word_sanity,
}
use open_socemu.Peripheral.{slave_b_transport}
use open_socemu.Crm.{Crm, status_index, reg_crm_count, write_switch, clear_bits}
use open_socemu.Crm.Status.{wakes, status_written-bits}
use open_socemu.Itc.{Itc}
use open_socemu.Itc.Regs.{intsrc_index, intenable_index, inttype_index, nimask_index}
use open_socemu.Itc.Pending.{asks_fiq, asks_irq}
use open_socemu.Mc13224v.{Mc13224v, crm_rd, crm_wr, crm_registers}
use open_socemu.Mc13224v.Driven.{
  driven, joined, check_int-driven, with_source, with_source-bit, with_source-IsShown,
}
use open_socemu.Mc13224v.Lines.{IsWired}

-- A word access at an aligned address passes the checks of the transport.
aligned : (k : ℕ) → bit_and (4 * k) 3 ≡ 0
aligned k = bit_and_low 2 (4 * k) ∙ omega arith

-- The transaction of a word access after it.
abbrev answered : Payload → Command → ℕ → ℕ → Payload
answered t command addr word = record t {
  command = command;
  address = addr;
  data_word = word;
  data_length = 4;
  response = ok_response;
}

abbrev status_written : ℕ → Crm → Crm
status_written value c = record c {
  reg =
      update c.reg status_index (bit_and (c.reg status_index) (bit_not (bit_and value clear_bits)));
}

write_status :
    (t : Payload) (value seen : ℕ) (m : Mc13224v)
    → IsReady t
    → IsWired seen m
    → b_wr_word (slave_b_transport crm_registers) t (4 * status_index) value m
      ≡ ok (
        answered t write_command (4 * status_index) value,
        joined (driven (status_written value m.crm) m.slave),
      )
unfolding b_wr_word b_trans word_sanity slave_b_transport crm_registers crm_wr
    open_socemu.Crm.reg_wr write_switch
write_status t value seen m ready g =
    let line = check_int-driven (status_written value m.crm) m.slave g.ready in
    rw (ready.width, ready.no_mask, line) refl

read_register :
    (t : Payload) (k old seen : ℕ) (m : Mc13224v)
    → IsReady t
    → IsWired seen m
    → k < reg_crm_count
    → b_rd_word (slave_b_transport crm_registers) t (4 * k) old m
      ≡ ok (answered t read_command (4 * k) (m.crm.reg k), joined (driven m.crm m.slave))
unfolding b_rd_word b_trans word_sanity slave_b_transport crm_registers crm_rd
    open_socemu.Crm.reg_rd
read_register t k old seen m ready g h =
    let line = check_int-driven m.crm m.slave g.ready in
    let word : u32 (4 * k) ≡ 4 * k = omega arith in
    let index : 4 * k / 4 ≡ k = omega arith in
    let inside : ltb k reg_crm_count ≡ true = ground arith in
    rw (ready.width, ready.no_mask, aligned k, word, index, inside, line) refl

-- Writing a word to STATUS through the socket of a wired Crm is accepted. It clears exactly the
-- bits that are set in the word among the bits 0 to 7 and 9. After it the source 3 of the Itc tells
-- whether an external wake-up event is left, and its other sources are as before.
pub write_status-events :
    (t : Payload) (value seen i : ℕ) (m : Mc13224v)
    → IsReady t
    → IsWired seen m
    → value < 2 ^ 32
    → (t' : Payload) × (m' : Mc13224v) × (b_wr_word
          (slave_b_transport crm_registers)
          t
          (4 * status_index)
          value
          m
        ≡ ok (t', m'))
      × (test_bit (m'.crm.reg status_index) i
          ≡ (test_bit (m.crm.reg status_index) i && not (test_bit value i && (ltb i 8 || i == 9))))
      × (test_bit (m'.slave.owner.reg intsrc_index) i ≡ (
          if i == 3
          then wakes (m'.crm.reg status_index)
          else test_bit (m.slave.owner.reg intsrc_index) i))
write_status-events t value seen i m ready g h = (
  answered t write_command (4 * status_index) value,
  joined (driven (status_written value m.crm) m.slave),
  write_status t value seen m ready g,
  status_written-bits m.crm.reg value i g.words h,
  with_source-bit _ m.slave.owner i g.shown.words,
)

-- What asks for the FIQ is as before when the interrupt 3 is a normal one.
with_source-asks_fiq :
    (level : Bool) (s : Itc) (i : ℕ)
    → IsWordArray s.reg
    → test_bit (s.reg inttype_index) 3 ≡ false
    → asks_fiq (with_source level s).reg i ≡ asks_fiq s.reg i
unfolding with_source open_socemu.Itc.check_int
with_source-asks_fiq level s i w normal = elim (Bool-cases (i == 3)) [
  | inl here ↦
      let same : i ≡ 3 = ground arith in
      ground (arith, normal, ap (test_bit (s.reg inttype_index)) same)
  | inr other ↦ ground (arith, with_source-bit level s i w)
]

with_source-asks_irq :
    (s : Itc)
    → IsWordArray s.reg
    → test_bit (s.reg intenable_index) 3 ≡ true
    → test_bit (s.reg inttype_index) 3 ≡ false
    → (leb 16 (s.reg nimask_index) || ltb (s.reg nimask_index) 3) ≡ true
    → asks_irq (with_source true s).reg 3 ≡ true
unfolding with_source open_socemu.Itc.check_int
with_source-asks_irq s w enabled normal unmasked =
    rw (with_source-bit true s 3 w, enabled, normal, unmasked) refl

-- A read of any register of a wired Crm is accepted. When STATUS holds an external wake-up event,
-- the Itc has enabled the interrupt 3 as a normal one that its mask lets through, and none asks for
-- the FIQ, the read leaves the IRQ line of the Itc high.
pub read_register-wakes :
    (t : Payload) (k old seen : ℕ) (m : Mc13224v)
    → IsReady t
    → IsWired seen m
    → k < reg_crm_count
    → wakes (m.crm.reg status_index) ≡ true
    → test_bit (m.slave.owner.reg intenable_index) 3 ≡ true
    → test_bit (m.slave.owner.reg inttype_index) 3 ≡ false
    → (leb 16 (m.slave.owner.reg nimask_index) || ltb (m.slave.owner.reg nimask_index) 3) ≡ true
    → any_below 32 (asks_fiq m.slave.owner.reg) ≡ false
    → (t' : Payload) × (m' : Mc13224v) × (b_rd_word
          (slave_b_transport crm_registers)
          t
          (4 * k)
          old
          m
        ≡ ok (t', m'))
      × (t'.data_word ≡ m.crm.reg k)
      × (m'.slave.owner.irq ≡ true)
read_register-wakes t k old seen m ready g h event enabled normal unmasked quiet = (
  answered t read_command (4 * k) (m.crm.reg k),
  joined (driven m.crm m.slave),
  read_register t k old seen m ready g h,
  refl,
  raised,
)
  where
    raised : (driven m.crm m.slave).1.owner.irq ≡ true
    raised =
        let s = m.slave.owner in
        let silent =
          any_below_ext 32 _ _ (λ i _. with_source-asks_fiq true s i g.shown.words normal)
          ∙ quiet in
        let asks = with_source-asks_irq s g.shown.words enabled normal unmasked in
        rw event (
          (with_source-IsShown true s g.shown.words).irq_level
          ∙ rw
              (
                silent,
                any_below_complete 32 (asks_irq (with_source true s).reg) 3 (omega arith) asks,
              )
              refl)
