-- ===== src/Itc/Tests.antt =====
-- Runs of the Itc, and its theorems at concrete states.
use open_socemu.Base.{
  ℕ, ◌<◌, ◌≤◌, ◌≡◌, refl, true, false, ◌&&◌, ◌==◌, if◌then◌else◌, ok, fault, tlm_err, assertion,
  undefined, arith, bit_set, IsWordArray, raise_bit,
}
use open_socemu.Base.{ltb}
use open_socemu.Base.Search.{any_below, any_below_none}
use open_socemu.Base.Bits.{test_bit}
use open_socemu.Itc.{
  Itc, new, highest, vector, pending_irq, pending_fiq, check_int, interrupt_set, reg_rd, reg_wr,
  write_switch,
}
use open_socemu.Itc.Regs.{intsrc_index, nivector_index, fivector_index}
use open_socemu.Itc.Pending.{asks_irq, asks_fiq}
use open_socemu.Itc.Lines.{IsShown, start, next, assert_source, Reach-IsShown}

-- Interrupts 3, 7, 8 and 12 are asserted and enabled, 8 as an FIQ, and the last vector is 5.
abbrev busy : Itc
busy = record {
  reg = λ j.
      (if j == 1
        then 16
        else if j == 4
        then 0x1188
        else if j == 12
        then 0x1188
        else if j == 5
        then 0x100
        else if j == 10
        then 5
        else 0);
  irq = false;
  fiq = false;
}

-- Interrupt 12 alone is asserted, and the last vector is 5.
abbrev high_only : Itc
high_only = record {
  reg = λ j.
      (if j == 1
        then 16
        else if j == 4
        then 0x1000
        else if j == 12
        then 0x1000
        else if j == 10
        then 5
        else 0);
  irq = false;
  fiq = false;
}

busy-IsWordArray : IsWordArray busy.reg
busy-IsWordArray j = ground arith

high_only-IsWordArray : IsWordArray high_only.reg
high_only-IsWordArray j = ground arith

busy_runs :
    ((check_int busy).reg nivector_index ≡ 7)
    × ((check_int busy).reg fivector_index ≡ 8)
    × ((check_int busy).irq ≡ false)
    × ((check_int busy).fiq ≡ true)
    × ((check_int new).reg nivector_index ≡ 0xF)
    × (reg_wr 48 1 busy ≡ fault tlm_err)
    × (reg_wr 8 40 busy ≡ fault undefined)
    × (reg_rd 16 busy ≡ ok 0x1188)
    × (interrupt_set 16 busy ≡ fault assertion)
unfolding check_int vector highest pending_irq pending_fiq bit_set reg_wr reg_rd write_switch
    interrupt_set new
busy_runs = (refl, refl, refl, refl, refl, refl, refl, refl, refl)

seven_asks : asks_irq busy.reg 7 ≡ true
unfolding test_bit
seven_asks = refl

above_seven : (j : ℕ) → 7 < j → j ≤ 10 → asks_irq busy.reg j ≡ false
unfolding test_bit any_below
above_seven j lo hi =
    ground (arith, any_below_none 11 (λ i. ltb 7 i && asks_irq busy.reg i) refl j (omega arith))

eight_asks : asks_fiq busy.reg 8 ≡ true
unfolding test_bit
eight_asks = refl

above_eight : (j : ℕ) → 8 < j → j ≤ 10 → asks_fiq busy.reg j ≡ false
unfolding test_bit any_below
above_eight j lo hi =
    ground (arith, any_below_none 11 (λ i. ltb 8 i && asks_fiq busy.reg i) refl j (omega arith))

twelve_asks : asks_irq high_only.reg 12 ≡ true
unfolding test_bit
twelve_asks = refl

to_ten_clear : (j : ℕ) → 0 < j → j ≤ 10 → asks_irq high_only.reg j ≡ false
unfolding test_bit any_below
to_ten_clear j lo hi =
    ground
      (arith, any_below_none 11 (λ i. ltb 0 i && asks_irq high_only.reg i) refl j (omega arith))

abbrev asserted : Itc
asserted = check_int (record new {
  reg = (λ j. (if j == intsrc_index then raise_bit (new.reg intsrc_index) 3 else new.reg j));
})

asserted_runs : interrupt_set 3 new ≡ ok asserted
unfolding interrupt_set
asserted_runs = refl

Reach-IsShown_example : IsShown asserted
Reach-IsShown_example = Reach-IsShown (next start (assert_source new asserted 3 asserted_runs))
