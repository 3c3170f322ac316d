-- ===== src/Sp805/Expiry.antt =====
-- The expiries of the watchdog, and how software keeps it from its reset.
use open_socemu.Base.{
  ℕ, ◌+◌, ◌*◌, ◌≡◌, refl, ◌∙◌, true, false, ◌&&◌, none, some, bit_set, raise_bit, ok, fault,
  tlm_err, Bool-cases, inl, inr,
}
use open_socemu.Base.{◌⊎◌, Bool, drop_bit, update, ◌^◌, ◌-◌}
use open_socemu.Base.Bits.{test_bit, test_bit-bit_and}
use open_socemu.Base.Masks.{bit_set-test_bit}
use open_socemu.Sp805.{
  Sp805, update_int, reload_counter, trigger, thread_process, write_switch, reg_wr, is_locked,
}
use open_socemu.Sp805.Regs.{
  reg_sp805_wdogload, reg_sp805_wdogcontrol, reg_sp805_wdogintclr, reg_sp805_wdogris,
}

-- The states that a first expiry, a second expiry without a reset, and a clearing write leave.
abbrev once : ℕ → Sp805 → Sp805
once now s = update_int (
    reload_counter now false (record s {
      woken = false;
      inted = true;
      reg = update s.reg reg_sp805_wdogris (raise_bit (s.reg reg_sp805_wdogris) 0);
    }))

abbrev twice : ℕ → Sp805 → Sp805
twice now s = update_int (record (trigger (once now s)) { woken = false })

abbrev kicked : ℕ → Sp805 → Sp805
kicked now s = update_int (
    reload_counter now true
      (record s { reg = update s.reg reg_sp805_wdogris (drop_bit (s.reg reg_sp805_wdogris) 0) }))

-- From a state that has not expired since it was last reset, a first expiry at the time now is
-- accepted and makes the next one due after a load period; if nothing is written in between, the
-- next one resets the system when the reset is enabled, and when it is not it leaves no event
-- pending.
pub thread_process-twice :
    (now : ℕ) (s : Sp805)
    → s.inted ≡ false
    → let later = now + s.ckperiod * s.reg reg_sp805_wdogload in
      (t : Sp805) × (thread_process now s ≡ ok t)
      × (t.event ≡ some later)
      × ((thread_process later (trigger t) ≡ fault tlm_err)
            × (bit_set (s.reg reg_sp805_wdogcontrol) 1 ≡ true)
          ⊎ ((u : Sp805) × (thread_process later (trigger t) ≡ ok u)
              × (u.event ≡ none)
              × (bit_set (s.reg reg_sp805_wdogcontrol) 1 ≡ false)))
unfolding thread_process trigger update_int reload_counter
thread_process-twice now s fresh = (
  once now s,
  rw fresh refl,
  refl,
  elim (Bool-cases (bit_set (s.reg reg_sp805_wdogcontrol) 1)) [
    | inl on ↦ inl (rw on refl, on)
    | inr off ↦ inr (twice now s, rw off refl, refl, off)
  ],
)

and_false : (b : Bool) → (b && false) ≡ false
and_false true = refl
and_false false = refl

cleared_bit : (x : ℕ) → bit_set (drop_bit x 0) 0 ≡ false
unfolding drop_bit test_bit
cleared_bit x =
    bit_set-test_bit (drop_bit x 0) 0 ∙ test_bit-bit_and x (2 ^ 32 - 2) 0 ∙ and_false (test_bit x 0)

-- A write to the clear register of a watchdog that is not locked is accepted: the next expiry is
-- due after a load period and counts as the first again, whatever expired before, and the
-- interrupt line is low.
pub reg_wr-intclr :
    (now value : ℕ) (s : Sp805)
    → is_locked s ≡ false
    → (t : Sp805) × (reg_wr now (4 * reg_sp805_wdogintclr) value s ≡ ok t)
      × (t.event ≡ some (now + s.ckperiod * s.reg reg_sp805_wdogload))
      × (t.inted ≡ false)
      × (t.intsource ≡ false)
unfolding reg_wr write_switch update_int reload_counter
reg_wr-intclr now value s unlocked = (
  kicked now s,
  rw unlocked refl,
  refl,
  refl,
  rw (cleared_bit (s.reg reg_sp805_wdogris)) (and_false (bit_set (s.reg reg_sp805_wdogcontrol) 0)),
)
