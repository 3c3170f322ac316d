-- ===== src/Sp805/Lock.antt =====
-- The lock of the watchdog.
use open_socemu.Base.{
  ℕ, ◌*◌, ◌/◌, ◌≡◌, refl, Bool, true, false, not, ◌==◌, ltb, some, if_both, ok, arith, update,
  Bool-cases, inl, inr, Result, Ensures, Ensures-ok, Ensures-bind, Ensures-check, assertion,
  if◌then◌else◌,
}
use open_socemu.Base.{fault, tlm_err}
use open_socemu.Sp805.{Sp805, update_int, write_switch, reg_wr, reg_rd, is_locked, is_read_only}
use open_socemu.Sp805.Regs.{
  reg_sp805_wdogload, reg_sp805_wdogcontrol, reg_sp805_wdogintclr, reg_sp805_wdogris,
  reg_sp805_wdoglock, reg_sp805_count,
}

-- The second state counts as the first does: same load, control and raw interrupt, same event,
-- same progress.
pub record IsKept (s t : Sp805) : Type 0 where
  pub load : t.reg reg_sp805_wdogload ≡ s.reg reg_sp805_wdogload
  pub control : t.reg reg_sp805_wdogcontrol ≡ s.reg reg_sp805_wdogcontrol
  pub ris : t.reg reg_sp805_wdogris ≡ s.reg reg_sp805_wdogris
  pub event : t.event ≡ s.event
  pub inted : t.inted ≡ s.inted
  pub stopped : t.stopped ≡ s.stopped
  pub starttime : t.starttime ≡ s.starttime

write_other-IsKept :
    (index value : ℕ) (s : Sp805)
    → (index == reg_sp805_wdogload) ≡ false
    → (index == reg_sp805_wdogcontrol) ≡ false
    → is_read_only index ≡ false
    → IsKept s (record s { reg = update s.reg index value })
write_other-IsKept index value s n1 n2 ro =
    let e1 : (reg_sp805_wdogload == index) ≡ false = ground arith in
    let e2 : (reg_sp805_wdogcontrol == index) ≡ false = ground arith in
    let e3 : (reg_sp805_wdogris == index) ≡ false = ground arith in
    record {
      load = rw e1 refl;
      control = rw e2 refl;
      ris = rw e3 refl;
      event = refl;
      inted = refl;
      stopped = refl;
      starttime = refl;
    }

refused :
    (P : Sp805 → Type 0) (b : Bool) (m : Result Sp805)
    → b ≡ true
    → Ensures P (if b then fault tlm_err else m)
refused P b m e = rw e tt

write_switch-IsKept :
    (now index value : ℕ) (s : Sp805)
    → is_locked s ≡ true
    → Ensures (IsKept s) (write_switch now index value s)
unfolding write_switch
write_switch-IsKept now index value s locked =
    let P = Ensures (IsKept s) in
    if_both P (index == reg_sp805_wdogload) (λ _. refused (IsKept s) (is_locked s) _ locked)
      λ n1.
        if_both P (index == reg_sp805_wdogcontrol) (λ _. refused (IsKept s) (is_locked s) _ locked)
          λ n2.
            if_both P (index == reg_sp805_wdogintclr)
              (λ _. refused (IsKept s) (is_locked s) _ locked)
              λ _.
                if_both P (index == reg_sp805_wdoglock)
                  (λ _. record {
                    load = refl;
                    control = refl;
                    ris = refl;
                    event = refl;
                    inted = refl;
                    stopped = refl;
                    starttime = refl;
                  })
                  λ _.
                    if_both P (is_read_only index) (λ _. tt)
                      λ ro. write_other-IsKept index value s n1 n2 ro

update_int-IsKept : (s t : Sp805) → IsKept s t → IsKept s (update_int t)
unfolding update_int
update_int-IsKept s t h = record {
  load = h.load;
  control = h.control;
  ris = h.ris;
  event = h.event;
  inted = h.inted;
  stopped = h.stopped;
  starttime = h.starttime;
}

-- While the watchdog is locked and its lock is in force, a write that is accepted, of any register
-- and any value, leaves the load, the control and the raw interrupt register, the pending event,
-- and the progress of the counter as they were.
pub reg_wr-locked :
    (now offset value : ℕ) (s t : Sp805)
    → s.lock_enabled ≡ true
    → s.locked ≡ true
    → reg_wr now offset value s ≡ ok t
    → IsKept s t
unfolding reg_wr is_locked
reg_wr-locked now offset value s t enabled locked e =
    let both : is_locked s ≡ true = rw (enabled, locked) refl in
    Ensures-ok (IsKept s)
      (Ensures-check (IsKept s) (ltb (offset / 4) reg_sp805_count) assertion _ λ _.
        Ensures-bind (IsKept s) (IsKept s) (write_switch now (offset / 4) value s) _
          (write_switch-IsKept now (offset / 4) value s both) (update_int-IsKept s))
      e

-- A write of the lock register is always accepted; the watchdog is locked after it exactly when
-- the value is not 0x1ACCE551, and a read of the register then returns 1, and otherwise 0.
pub reg_wr-lock :
    (now later value : ℕ) (s : Sp805)
    → (t : Sp805) × (reg_wr now (4 * reg_sp805_wdoglock) value s ≡ ok t)
      × (t.locked ≡ not (value == 0x1ACCE551))
      × (reg_rd later (4 * reg_sp805_wdoglock) t ≡ ok (some (if value == 0x1ACCE551 then 0 else 1)))
unfolding reg_wr write_switch update_int reg_rd
reg_wr-lock now later value s = (
  _,
  refl,
  refl,
  elim (Bool-cases (value == 0x1ACCE551)) [ inl key ↦ rw key refl | inr other ↦ rw other refl ],
)
