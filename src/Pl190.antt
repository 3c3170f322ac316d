-- ===== src/Pl190.antt =====
-- The interrupt controller of src/tlm_blocks/Arm/PrimeCells/Pl190/Pl190.h.
-- `m_reg` is `reg`, indexed by word; the level last sent on an IntMaster is a Bool. A handler
-- is modelled from the end of its internal delay, before which it touches no state.
pub mod Regs
pub mod Status
pub mod Vector
pub mod Lines
pub mod Sources
mod Tests
use open_socemu.Base.{
  ℕ, zero, suc, ◌+◌, ◌/◌, ◌<◌, ◌^◌, Bool, true, false, ◌&&◌, ◌||◌, bit_and, bit_or, bit_not,
  bit_set, nonzero, raise_bit, drop_bit, update, ltb, leb, ◌==◌, if◌then◌else◌, Result, ok, fault,
  assertion, tlm_err, check, ◌>>=◌, ◌>>◌,
}
use Regs.{
  reg_pl190_irqstatus, reg_pl190_fiqstatus, reg_pl190_rawintr, reg_pl190_intselect,
  reg_pl190_intenable, reg_pl190_intenclear, reg_pl190_softint, reg_pl190_softintclear,
  reg_pl190_vectaddr, reg_pl190_defvectaddr, reg_pl190_vectaddr0, reg_pl190_vectcntl0,
  reg_pl190_periphid0, reg_pl190_periphid1, reg_pl190_periphid2, reg_pl190_periphid3,
  reg_pl190_pcellid0, reg_pl190_pcellid1, reg_pl190_pcellid2, reg_pl190_pcellid3, reg_pl190_count,
}

pub record Pl190 : Type 0 where
  pub reg : ℕ → ℕ
  pub vicintsource : ℕ
  pub irq : Bool
  pub fiq : Bool

abbrev id_regs : ℕ → ℕ
id_regs =
    let r0 = update (λ _. 0) reg_pl190_periphid0 0x90 in
    let r1 = update r0 reg_pl190_periphid1 0x11 in
    let r2 = update r1 reg_pl190_periphid2 0x10 in
    let r3 = update r2 reg_pl190_periphid3 0 in
    let r4 = update r3 reg_pl190_pcellid0 0x0D in
    let r5 = update r4 reg_pl190_pcellid1 0xF0 in
    let r6 = update r5 reg_pl190_pcellid2 0x05 in update r6 reg_pl190_pcellid3 0xB1

-- The constructor. No level has been sent yet, which the lines take for low.
unfoldable pub new : Pl190
new = record { reg = id_regs; vicintsource = 0; irq = false; fiq = false }

-- The test of the vector loop's body: slot i is enabled, and its interrupt is asserted as an IRQ.
unfoldable pub slot_hit : (ℕ → ℕ) → ℕ → Bool
slot_hit reg i =
    bit_set (reg (reg_pl190_vectcntl0 + i)) 5
    && bit_set (reg reg_pl190_irqstatus) (bit_and (reg (reg_pl190_vectcntl0 + i)) 0x1F)

-- The loop over the slots, from slot i with n slots left; its result is i at the loop's end.
unfoldable pub vector_loop : (ℕ → ℕ) → ℕ → ℕ → ℕ
vector_loop reg zero i = i
vector_loop reg (suc n) i =
    let next = vector_loop reg n (i + 1) in if slot_hit reg i then i else next

-- The three status registers.
unfoldable pub update_status : Pl190 → (ℕ → ℕ)
update_status s =
    let r0 = update s.reg reg_pl190_rawintr (bit_or s.vicintsource (s.reg reg_pl190_softint)) in
    let r1 = update r0 reg_pl190_irqstatus (
      bit_and (bit_and (r0 reg_pl190_rawintr) (r0 reg_pl190_intenable))
        (bit_not (r0 reg_pl190_intselect))) in
    update r1 reg_pl190_fiqstatus
      (bit_and (bit_and (r1 reg_pl190_rawintr) (r1 reg_pl190_intenable)) (r1 reg_pl190_intselect))

-- The vector address register, from the status registers.
unfoldable pub update_vector : (ℕ → ℕ) → (ℕ → ℕ)
update_vector reg =
    let i = vector_loop reg 16 0 in
    update reg reg_pl190_vectaddr
      (if ltb i 16 then reg (reg_pl190_vectaddr0 + i) else reg reg_pl190_defvectaddr)

unfoldable pub update_int : Pl190 → Pl190
unfolding update_vector
update_int s =
    let regs = update_vector (update_status s) in
    record s {
      reg = regs;
      fiq = nonzero (regs reg_pl190_fiqstatus);
      irq = nonzero (regs reg_pl190_irqstatus);
    }

unfoldable pub int_set_cb : ℕ → Pl190 → Pl190
int_set_cb i s = update_int (record s { vicintsource = raise_bit s.vicintsource i })

unfoldable pub int_clr_cb : ℕ → Pl190 → Pl190
int_clr_cb i s = update_int (record s { vicintsource = drop_bit s.vicintsource i })

-- The read-only labels of the write switch; the eight identification registers are consecutive.
abbrev pub is_read_only : ℕ → Bool
is_read_only index =
    index == reg_pl190_irqstatus
    || index == reg_pl190_fiqstatus
    || index == reg_pl190_rawintr
    || (leb reg_pl190_periphid0 index && leb index reg_pl190_pcellid3)

-- The switch of `reg_wr`.
unfoldable pub write_switch : (ℕ → ℕ) → ℕ → ℕ → Result (ℕ → ℕ)
write_switch reg index value =
    if index == reg_pl190_intenclear
    then ok (update reg reg_pl190_intenable (bit_and (reg reg_pl190_intenable) (bit_not value)))
    else if index == reg_pl190_softintclear
    then ok (update reg reg_pl190_softint (bit_and (reg reg_pl190_softint) (bit_not value)))
    else if is_read_only index
    then fault tlm_err
    else ok (update reg index value)

unfoldable pub reg_wr : ℕ → ℕ → Pl190 → Result Pl190
reg_wr offset value s = do
  let index = offset / 4
  check (ltb index reg_pl190_count) assertion
  reg' ← write_switch s.reg index value
  ok (update_int (record s { reg = reg' }))

unfoldable pub reg_rd : ℕ → Pl190 → Result ℕ
reg_rd offset s = do
  let index = offset / 4
  check (ltb index reg_pl190_count) assertion
  if index == reg_pl190_intenclear || index == reg_pl190_softintclear
      then fault tlm_err
      else ok (s.reg index)
