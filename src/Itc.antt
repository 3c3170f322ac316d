-- ===== src/Itc.antt =====
-- The interrupt controller of src/tlm_blocks/Mc13224v/Itc/Itc.h and Itc.cpp.
-- The accessors `intsrc_get`, `nivector_set` and the like are reads and writes of `reg`.
pub mod Regs
pub mod Pending
pub mod Lines
pub mod Vector
pub mod Sources
mod Tests
use open_socemu.Base.{
  ℕ, zero, suc, ◌+◌, ◌-◌, ◌/◌, ◌^◌, Bool, true, false, not, ◌&&◌, ◌||◌, Option, none, some, bit_and,
  bit_or, bit_not, bit_set, nonzero, raise_bit, drop_bit, update, ltb, ◌==◌, if◌then◌else◌, Result,
  ok, fault, assertion, tlm_err, undefined, check, ◌>>=◌, ◌>>◌,
}
use Regs.{
  nimask_index, intennum_index, intdisnum_index, intenable_index, inttype_index, nivector_index,
  fivector_index, intsrc_index, nipend_index, fipend_index, reg_itc_count,
}

pub record Itc : Type 0 where
  pub reg : ℕ → ℕ
  pub irq : Bool
  pub fiq : Bool

unfoldable pub new : Itc
new = record { reg = λ _. 0; irq = false; fiq = false }

abbrev num_int : ℕ
num_int = 16

unfoldable pub pending_fiq : (ℕ → ℕ) → ℕ
pending_fiq reg = bit_and (bit_and (reg intsrc_index) (reg intenable_index)) (reg inttype_index)

unfoldable pub pending_irq : (ℕ → ℕ) → ℕ
pending_irq reg =
    let enabled =
      bit_and (bit_and (reg intsrc_index) (reg intenable_index)) (bit_not (reg inttype_index)) in
    if ltb (reg nimask_index) num_int
    then bit_and enabled (bit_not (2 ^ (reg nimask_index + 1) - 1))
    else enabled

-- The loop that looks for a pending interrupt from i down to 1; none when it runs to its end.
unfoldable pub highest : ℕ → ℕ → Option ℕ
highest pending zero = none
highest pending (suc i) =
    let lower = highest pending i in if bit_set pending (suc i) then some (suc i) else lower

-- What a vector register becomes: when the loop runs to its end it keeps what it had.
unfoldable pub vector : ℕ → ℕ → ℕ
vector pending old =
    if nonzero pending then (elim (highest pending 10) [ none ↦ old | some i ↦ i ]) else 0xF

unfoldable pub check_int : Itc → Itc
check_int s =
    let fiq = pending_fiq s.reg in
    let irq = pending_irq s.reg in
    let r1 = update s.reg fipend_index fiq in
    let r2 = update r1 nipend_index irq in
    let r3 = update r2 nivector_index (vector irq (r2 nivector_index)) in
    let r4 = update r3 fivector_index (vector fiq (r3 fivector_index)) in
    record s {
      reg = r4;
      fiq = nonzero (r4 fipend_index);
      irq = if nonzero (r4 fipend_index) then false else nonzero (r4 nipend_index);
    }

unfoldable pub interrupt_set : ℕ → Itc → Result Itc
interrupt_set id s = do
  check (ltb id num_int) assertion
  ok (check_int (record s { reg = update s.reg intsrc_index (raise_bit (s.reg intsrc_index) id) }))

unfoldable pub interrupt_clr : ℕ → Itc → Result Itc
interrupt_clr id s = do
  check (ltb id num_int) assertion
  ok (check_int (record s { reg = update s.reg intsrc_index (drop_bit (s.reg intsrc_index) id) }))

abbrev pub is_read_only : ℕ → Bool
is_read_only index =
    index == nivector_index
    || index == fivector_index
    || index == intsrc_index
    || index == nipend_index
    || index == fipend_index

-- The switch of `reg_wr`. A shift of 1 by 32 or more is undefined.
unfoldable pub write_switch : (ℕ → ℕ) → ℕ → ℕ → Result (ℕ → ℕ)
write_switch reg index value =
    let shifted = (λ (r : ℕ → ℕ). (if ltb value 32 then ok r else fault undefined)) in
    if is_read_only index
    then fault tlm_err
    else if index == intennum_index
    then shifted (update reg intenable_index (raise_bit (reg intenable_index) value))
    else if index == intdisnum_index
    then shifted (update reg intenable_index (drop_bit (reg intenable_index) value))
    else ok (update reg index value)

unfoldable pub reg_wr : ℕ → ℕ → Itc → Result Itc
reg_wr offset value s = do
  let index = offset / 4
  check (ltb index reg_itc_count) assertion
  reg' ← write_switch s.reg index value
  ok (check_int (record s { reg = reg' }))

unfoldable pub reg_rd : ℕ → Itc → Result ℕ
reg_rd offset s = do
  let index = offset / 4
  check (ltb index reg_itc_count) assertion
  if index == intennum_index || index == intdisnum_index then fault tlm_err else ok (s.reg index)
