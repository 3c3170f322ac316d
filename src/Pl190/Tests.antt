-- ===== src/Pl190/Tests.antt =====
-- Runs of the Pl190, and its theorems at concrete states.
use open_socemu.Base.{
  ℕ, zero, suc, ◌+◌, ◌<◌, ◌≡◌, refl, true, false, if◌then◌else◌, ◌==◌, ok, fault, assertion,
  tlm_err, bit_set, arith,
}
use open_socemu.Base.Bits.{test_bit}
use open_socemu.Pl190.{
  Pl190, new, slot_hit, vector_loop, update_status, update_vector, update_int, int_set_cb,
  write_switch, reg_wr, reg_rd,
}
use open_socemu.Pl190.Regs.{reg_pl190_vectaddr, reg_pl190_vectaddr0}
use open_socemu.Pl190.Status.{IsWords}
use open_socemu.Pl190.Vector.{slot_active, update_int-vectaddr}
use open_socemu.Pl190.Lines.{IsSettled, start, next, assert_source, Reach-IsSettled}

-- Interrupts 3 and 9 are enabled, 3 and 4 asserted, and slot 1 is set up for interrupt 3.
abbrev busy : Pl190
busy = record {
  reg = λ j.
      (if j == 4
        then 0x208
        else if j == 129
        then 0x23
        else if j == 65
        then 0x8000
        else if j == 13
        then 0x9000
        else 0);
  vicintsource = 0x18;
  irq = false;
  fiq = false;
}

busy-IsWords : IsWords busy
busy-IsWords = record { regs = λ j. ground arith; sources = omega arith }

busy_runs :
    ((update_int busy).irq ≡ true)
    × ((update_int busy).fiq ≡ false)
    × ((update_int busy).reg reg_pl190_vectaddr ≡ 0x8000)
    × (reg_wr 0 1 busy ≡ fault tlm_err)
    × (reg_wr 4096 1 busy ≡ fault assertion)
    × (reg_rd 16 busy ≡ ok 0x208)
    × (reg_rd 20 busy ≡ fault tlm_err)
unfolding update_int update_vector update_status vector_loop slot_hit bit_set reg_wr reg_rd
    write_switch
busy_runs = (refl, refl, refl, refl, refl, refl, refl)

slot_one_active : slot_active busy 1 ≡ true
unfolding test_bit
slot_one_active = refl

slot_below_idle : (j : ℕ) → j < 1 → slot_active busy j ≡ false
unfolding test_bit
slot_below_idle zero h = refl
slot_below_idle (suc j) h = absurd (omega arith)

update_int-vectaddr_example :
    (update_int busy).reg reg_pl190_vectaddr ≡ busy.reg (reg_pl190_vectaddr0 + 1)
update_int-vectaddr_example =
    update_int-vectaddr busy 1 busy-IsWords (omega arith) slot_one_active slot_below_idle

new_idle : (j : ℕ) → j < 16 → slot_active new j ≡ false
unfolding new test_bit
new_idle j h = ground arith

Reach-IsSettled_example : IsSettled (int_set_cb 3 new)
Reach-IsSettled_example = Reach-IsSettled (next start (assert_source new 3 (omega arith)))
