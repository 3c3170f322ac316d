-- ===== src/Arm32/Tests.antt =====
-- Runs of the instruction set simulator, and its theorems at concrete states.
use open_socemu.Base.{
  ℕ, ◌-◌, ◌*◌, ◌^◌, ◌<◌, ◌≤◌, ◌≡◌, ◌∙◌, ◌⊎◌, refl, true, false, ◌==◌, arith, if◌then◌else◌, Result,
  ok, fault, assertion, undefined,
}
use open_socemu.Base.Bits.{test_bit, test_bit-zero}
use open_socemu.Base.Masks.{test_bit-ones}
use open_socemu.Arm32.{Arm32, base_arch, is_user, raise_illegal}
use open_socemu.Arm32.Alu.{clz, clz_step, sra, sexth2l, sextb2l, sextl2q, add_setq, product_fits}
use open_socemu.Arm32.Psr.{
  test_cc, field_mask, defined_mask, msr_mask, get_cpsr, set_cpsr, set_flags, set_psr,
}
use open_socemu.Arm32.Exec.{Memory, Handler, null, cps_arm, exec_insn, cps, set_pc, bx, advanced}
use open_socemu.Arm32.Decode.{decode_insn, decode_arm}
use open_socemu.Arm32.Conditional.{
  decode_conditional, decode_misc, decode_status, decode_saturating, decode_multiply, accumulate,
  multiply, write_psr,
}
use open_socemu.Arm32.Unconditional.{decode_unconditional, decode_blx, set_param}
use open_socemu.Arm32.Clz.{clz-normal}
use open_socemu.Arm32.Excess.{excess}
use open_socemu.Arm32.Saturate.{decode_saturating-excess}
use open_socemu.Arm32.Conditions.{IsCompared, test_cc-compare}
use open_socemu.Arm32.Guarded.{IsGuarded}
use open_socemu.Arm32.Privilege.{decode_insn-IsGuarded}
use open_socemu.Arm32.Handlers.{exec_insn-IsGuarded}
use open_socemu.Arm32.Faults.{decode_arm-exec}
use open_socemu.Arm32.Status.{IsPsr}
use open_socemu.Arm32.Writes.{IsWhole}
use open_socemu.Arm32.ReadBack.{set_cpsr-get_cpsr}

-- A state in user mode, with three registers and an instruction.
abbrev user_state : ℕ → ℕ → ℕ → ℕ → Arm32
user_state insn r1 r2 r3 = record {
  insn = insn;
  nf = 0;
  zf = 0;
  cf = 0;
  vf = 0;
  qf = 0;
  gef = 0;
  tf = 0;
  mf = 0x10;
  itf = 0;
  raw_cpsr = 0;
  exception = 0;
  regs = λ j. (if j == 1 then r1 else if j == 2 then r2 else if j == 3 then r3 else 0);
  banked_regs = λ _ _. 0;
}

abbrev fresh : Handler
fresh = record { fn = null; params = λ _. 0 }

abbrev no_memory : Memory (Unit {0})
no_memory = record { rd_word = λ a b. ok (a, b); wr_word = λ a v b. ok b }

alu_runs :
    (clz 0 ≡ 32)
    × (clz 1 ≡ 31)
    × (clz 0x80000000 ≡ 0)
    × (sra 0x80000000 31 ≡ 0xFFFFFFFF)
    × (sexth2l 0x18000 ≡ 0xFFFF8000)
    × (sextb2l 0x80 ≡ 0xFFFFFF80)
    × (sextl2q 0x80000000 ≡ 0xFFFFFFFF80000000)
    × (add_setq 0x7FFFFFFF 1 0 ≡ (0x80000000, 1))
    × (product_fits 0x80000000 0xFFFFFFFF ≡ false)
    × (product_fits 0x80000000 1 ≡ true)
unfolding clz clz_step sra sexth2l sextb2l sextl2q add_setq product_fits
alu_runs = (refl, refl, refl, refl, refl, refl, refl, refl, refl, refl)

-- BX, BLX and CLZ of a register, SMULBB and SMLABB, SMLALBB.
abbrev after : ℕ → ℕ → Result (ℕ × ℕ × ℕ × ℕ)
after insn reg = elim (decode_insn base_arch (user_state insn 0x8003 0x20002 0xFFFFFFFF) fresh) [
  | ok (t, h) ↦ ok (t.regs reg, t.regs 15, t.tf, t.regs 14)
  | fault e ↦ fault e
]

decode_runs :
    (after 0xE12FFF11 15 ≡ ok (0x8002, 0x8002, 1, 0))
    × (after 0xE16F4F11 4 ≡ ok (16, 0, 0, 0))
    × (after 0xE1640281 4 ≡ ok (0xFFFF0006, 0, 0, 0))
    × (after 0xE1043281 4 ≡ ok (0xFFFF0005, 0, 0, 0))
    × (after 0xE1443281 3 ≡ ok (0xFFFF0005, 0, 0, 0))
    × (after 0xE1443281 4 ≡ ok (0, 0, 0, 0))
    × (after 0xE1200070 4 ≡ fault assertion)
    × (after 0xFA000000 4 ≡ fault undefined)
unfolding decode_insn decode_arm decode_unconditional decode_blx set_param decode_conditional
    decode_misc bx set_pc clz clz_step decode_multiply multiply product_fits sexth2l accumulate
    add_setq sextl2q test_cc
decode_runs = (refl, refl, refl, refl, refl, refl, refl, refl)

clz-normal_example :
    (clz 65537 < 32) × (2 ^ 31 ≤ 65537 * 2 ^ clz 65537) × (65537 * 2 ^ clz 65537 < 2 ^ 32)
clz-normal_example = clz-normal 65537 (omega arith) (omega arith)

-- QADD r0, r1, r2, whose sum is above the signed words.
abbrev adding : Arm32
adding = user_state 0xE1020051 0x7FFFFFFF 5 0

decode_saturating-excess_example :
    (excess ((decode_saturating 0 adding).regs 0) ≡ 2 ^ 32 - 1)
    × ((decode_saturating 0 adding).qf ≡ 1)
decode_saturating-excess_example =
    decode_saturating-excess 0 adding (λ j. ground arith) (λ doubles. omega arith)

-- The flags of the comparison of 1 with the least signed word.
abbrev compared : Arm32
compared = record (user_state 0 0 0 0) { nf = 1; vf = 1 }

compared-IsCompared : IsCompared 1 0x80000000 compared
compared-IsCompared = record { negative = refl; same = refl; no_borrow = refl; overflow = refl }

test_cc-compare_example :
    (test_cc 0 compared ≡ ok false)
    × (test_cc 2 compared ≡ ok false)
    × (test_cc 8 compared ≡ ok false)
    × (test_cc 10 compared ≡ ok true)
    × (test_cc 12 compared ≡ ok true)
test_cc-compare_example =
    test_cc-compare 1 0x80000000 compared (omega arith) (omega arith) compared-IsCompared

-- MSR CPSR_cxsf, r1 in user mode, with every bit of the register set.
abbrev writing : Arm32
writing = user_state 0xE12FF001 0xFFFFFFFF 0 0

abbrev flagged : Arm32
flagged = record writing { nf = 1; zf = 1; cf = 1; vf = 1; qf = 1 }

writing_runs : decode_insn base_arch writing fresh ≡ ok (flagged, fresh)
unfolding decode_insn decode_arm decode_conditional decode_misc decode_status write_psr msr_mask
    defined_mask field_mask is_user set_psr set_cpsr set_flags
writing_runs = refl

decode_insn-IsGuarded_example : IsGuarded writing flagged
decode_insn-IsGuarded_example =
    decode_insn-IsGuarded base_arch writing flagged fresh fresh refl (omega arith) writing_runs

-- CPS in user mode.
abbrev changing : Handler
changing = record { fn = cps_arm; params = λ k. if k == 0 then 0x1C0 else 0x1C0 }

changing_runs : exec_insn base_arch no_memory changing writing tt ≡ ok (advanced writing, tt)
unfolding exec_insn cps is_user set_pc
changing_runs = refl

exec_insn-IsGuarded_example : IsGuarded writing (advanced writing)
exec_insn-IsGuarded_example =
    exec_insn-IsGuarded base_arch no_memory tt changing writing (advanced writing) tt refl
      changing_runs

-- CLZ with the condition EQ, which does not hold.
abbrev skipped : Arm32
skipped = user_state 0x016F4F11 1 0 0

skipped_runs : decode_arm base_arch skipped fresh ≡ ok (skipped, fresh)
unfolding decode_arm test_cc
skipped_runs = refl

decode_arm-exec_example :
    (exec_insn base_arch no_memory fresh skipped tt ≡ fault undefined)
    ⊎ (exec_insn base_arch no_memory fresh skipped tt ≡ ok (raise_illegal skipped, tt))
decode_arm-exec_example =
    decode_arm-exec base_arch no_memory skipped skipped fresh fresh tt refl (omega arith)
      skipped_runs

writing-IsPsr : IsPsr writing
writing-IsPsr = record {
  nf = omega arith;
  zf = omega arith;
  cf = omega arith;
  vf = omega arith;
  qf = omega arith;
  tf = omega arith;
  gef = omega arith;
  itf = omega arith;
  mf = omega arith;
  raw_cpsr = omega arith;
  apart = λ i c. test_bit-zero i;
}

all_bits-IsWhole : IsWhole 0xFFFFFFFF
all_bits-IsWhole = record {
  nzcv = λ i l h. test_bit-ones 32 i ∙ ground arith;
  it_1_0 = λ i l h. test_bit-ones 32 i ∙ ground arith;
  ge = λ i l h. test_bit-ones 32 i ∙ ground arith;
  it_7_2 = λ i l h. test_bit-ones 32 i ∙ ground arith;
}

-- The negative flag, the GE bits 1000 and the fast interrupt mask.
abbrev restored : Arm32
restored = record writing { nf = 1; gef = 8; raw_cpsr = 0x40 }

restored_runs : set_cpsr 0x80080040 0xFFFFFFFF writing ≡ ok restored
unfolding set_cpsr set_flags
restored_runs = refl

set_cpsr-get_cpsr_example :
    test_bit (get_cpsr restored) 19
    ≡ (if test_bit 0xFFFFFFFF 19 then test_bit 0x80080040 19 else test_bit (get_cpsr writing) 19)
set_cpsr-get_cpsr_example =
    set_cpsr-get_cpsr 0x80080040 0xFFFFFFFF writing restored 19 (omega arith) all_bits-IsWhole
      writing-IsPsr restored_runs (omega arith) (omega arith)
