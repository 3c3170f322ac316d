-- ===== src/Aic/Tests.antt =====
-- Runs of the Aic, and its theorems at concrete states.
use open_socemu.Base.{
  ℕ, ◌*◌, ◌≡◌, refl, true, false, ◌==◌, if◌then◌else◌, ok, fault, assertion, arith, bit_set,
  IsWordArray,
}
use open_socemu.Base.Search.{first_hit}
use open_socemu.Aic.{
  Aic, new, fiq_at, irq_at, generate_fiq, generate_irq, check_int, interrupt_set, write_switch,
  reg_wr, reg_rd,
}
use open_socemu.Aic.Regs.{aic_iecr_index}
use open_socemu.Aic.Lines.{IsServed, start, next, write, assert_source, Reach-IsServed}

-- Sources 1 and 3 are pending and enabled; the fast ones are given.
abbrev busy : ℕ → Aic
busy fast = record {
  reg = λ j.
      (if j == 0x43
        then 10
        else if j == 0x44
        then 15
        else if j == 0x52
        then fast
        else if j == 0x20
        then 0x20
        else if j == 0x21
        then 0x21
        else 0);
  irq = false;
  fiq = false;
}

busy_runs :
    ((check_int (busy 0)).irq ≡ true)
    × ((check_int (busy 0)).fiq ≡ false)
    × ((check_int (busy 10)).irq ≡ false)
    × ((check_int (busy 10)).fiq ≡ true)
    × ((check_int (busy 8)).irq ≡ true)
    × (reg_rd 512 (busy 0) ≡ fault assertion)
unfolding check_int generate_fiq generate_irq first_hit fiq_at irq_at bit_set reg_rd
busy_runs = (refl, refl, refl, refl, refl, refl)

busy-IsWordArray : IsWordArray (busy 0).reg
busy-IsWordArray j = ground arith

-- Source 5 is enabled, and asserted.
abbrev enabled : Aic
enabled = check_int (record new { reg = write_switch aic_iecr_index 32 new.reg })

enabled_runs : reg_wr (4 * aic_iecr_index) 32 new ≡ ok enabled
unfolding reg_wr
enabled_runs = refl

Reach-IsServed_example : IsServed (interrupt_set 5 enabled)
Reach-IsServed_example = Reach-IsServed (
    next (next start (write new enabled (4 * aic_iecr_index) 32 (omega arith) enabled_runs))
      (assert_source enabled 5 (omega arith)))
