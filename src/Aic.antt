-- ===== src/Aic.antt =====
-- The interrupt controller of src/tlm_blocks/At91sam9261/Aic/Aic.h and Aic.cpp.
-- The accessors `aic_imr_get`, `aic_isr_set` and the like are reads and writes of `reg`.
pub mod Regs
pub mod Asks
pub mod Lines
pub mod Vector
mod Tests
use open_socemu.Base.{
  ℕ, ◌+◌, ◌-◌, ◌/◌, ◌^◌, Bool, true, false, not, ◌&&◌, ◌||◌, ◌==◌, ltb, if◌then◌else◌, bit_and,
  bit_or, bit_not, nonzero, bit_set, raise_bit, drop_bit, update, Result, ok, assertion, check,
  ◌>>=◌, ◌>>◌,
}
use open_socemu.Base.Search.{first_hit}
use Regs.{
  aic_svr_index, aic_ivr_index, aic_fvr_index, aic_isr_index, aic_ipr_index, aic_imr_index,
  aic_cisr_index, aic_iecr_index, aic_idcr_index, aic_ffer_index, aic_ffdr_index, aic_ffsr_index,
  reg_aic_count,
}

pub record Aic : Type 0 where
  pub reg : ℕ → ℕ
  pub irq : Bool
  pub fiq : Bool

unfoldable pub new : Aic
new = record { reg = λ _. 0; irq = false; fiq = false }

-- The conditions of the two loops at source i.
unfoldable pub fiq_at : ℕ → ℕ → ℕ → Bool
fiq_at ffsr mask i =
    ((i == 0) && nonzero (bit_and mask 1)) || nonzero (bit_and (bit_and ffsr mask) (2 ^ i))

unfoldable pub irq_at : ℕ → ℕ → ℕ → Bool
irq_at ffsr mask i = nonzero (bit_and (bit_and (bit_not ffsr) mask) (2 ^ i))

-- The FIQ loop visits the sources from 0, and changes the registers at the first that passes.
unfoldable pub generate_fiq : ℕ → (ℕ → ℕ) → ℕ → ℕ
generate_fiq mask reg =
    let i = first_hit (fiq_at (reg aic_ffsr_index) mask) 32 0 in
    let r1 = update reg aic_isr_index i in
    let r2 = update r1 aic_cisr_index (bit_or (r1 aic_cisr_index) 1) in
    if ltb i 32 then update r2 aic_fvr_index (r2 aic_svr_index) else reg

-- The IRQ loop visits the sources from 1.
unfoldable pub generate_irq : ℕ → (ℕ → ℕ) → ℕ → ℕ
generate_irq mask reg =
    let i = first_hit (irq_at (reg aic_ffsr_index) mask) 31 1 in
    let r1 = if bit_set (reg aic_cisr_index) 0 then reg else update reg aic_isr_index i in
    let r2 = update r1 aic_cisr_index (bit_or (r1 aic_cisr_index) 2) in
    if ltb i 32 then update r2 aic_ivr_index (r2 (aic_svr_index + i)) else reg

unfoldable pub check_int : Aic → Aic
check_int s =
    let mask = bit_and (s.reg aic_ipr_index) (s.reg aic_imr_index) in
    let r1 = generate_fiq mask (update s.reg aic_cisr_index 0) in
    let r2 = generate_irq mask r1 in
    record s { reg = r2; fiq = bit_set (r1 aic_cisr_index) 0; irq = bit_set (r2 aic_cisr_index) 1 }

unfoldable pub interrupt_set : ℕ → Aic → Aic
interrupt_set id s =
    check_int (record s { reg = update s.reg aic_ipr_index (raise_bit (s.reg aic_ipr_index) id) })

unfoldable pub interrupt_clr : ℕ → Aic → Aic
interrupt_clr id s =
    check_int (record s { reg = update s.reg aic_ipr_index (drop_bit (s.reg aic_ipr_index) id) })

-- The switch of `reg_wr`.
unfoldable pub write_switch : ℕ → ℕ → (ℕ → ℕ) → ℕ → ℕ
write_switch index value reg =
    let mask = reg aic_imr_index in
    let fast = reg aic_ffsr_index in
    if index == aic_iecr_index
    then update reg aic_imr_index (bit_or mask value)
    else if index == aic_idcr_index
    then update reg aic_imr_index (bit_and mask (bit_not value))
    else if index == aic_imr_index
    then reg
    else if index == aic_ffer_index
    then update reg aic_ffsr_index (bit_or fast value)
    else if index == aic_ffdr_index
    then update reg aic_ffsr_index (bit_and fast (bit_not value))
    else if index == aic_ffsr_index
    then reg
    else update reg index value

unfoldable pub reg_wr : ℕ → ℕ → Aic → Result Aic
reg_wr offset value s = do
  let index = offset / 4
  check (ltb index reg_aic_count) assertion
  ok (check_int (record s { reg = write_switch index value s.reg }))

unfoldable pub reg_rd : ℕ → Aic → Result ℕ
reg_rd offset s = do
  let index = offset / 4
  check (ltb index reg_aic_count) assertion
  ok (s.reg index)
