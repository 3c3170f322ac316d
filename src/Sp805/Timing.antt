-- ===== src/Sp805/Timing.antt =====
-- When the watchdog's event is due and what its interrupt says, over every sequence of operations.
use open_socemu.Base.{
  ℕ, ◌+◌, ◌*◌, ◌/◌, ◌≡◌, refl, ◌∙◌, ◌⊎◌, inl, inr, true, false, not, ◌&&◌, ◌==◌, ltb, none, some,
  bit_set, raise_bit, update, if_both, ok, Ensures, Ensures-ok, Ensures-bind, Ensures-check,
  assertion, arith,
}
use open_socemu.Base.Masks.{bit_set-test_bit, test_bit-raise_bit}
use open_socemu.Sp805.{
  Sp805, new, update_int, reload_counter, stop_counter, trigger, thread_process, write_control,
  write_switch, reg_wr, is_locked, is_read_only,
}
use open_socemu.Sp805.Regs.{
  reg_sp805_wdogload, reg_sp805_wdogcontrol, reg_sp805_wdogintclr, reg_sp805_wdogris,
  reg_sp805_wdoglock, reg_sp805_count,
}

-- No event is pending, or it is due when the load value has been counted down from the start time; a
-- watchdog that is stopped has one pending only after a first expiry; and after a first expiry the raw
-- interrupt is set.
pub record IsCounting (s : Sp805) : Type 0 where
  pub due :
      (s.event ≡ none) ⊎ (s.event ≡ some (s.starttime + s.ckperiod * s.reg reg_sp805_wdogload))
  pub cancelled : (s.event ≡ none) ⊎ ((s.stopped ≡ false) ⊎ (s.inted ≡ true))
  pub raised : (s.inted ≡ false) ⊎ (bit_set (s.reg reg_sp805_wdogris) 0 ≡ true)

-- And the interrupt line is high exactly when the interrupt is enabled and the raw one is set.
pub record IsArmed (s : Sp805) : Type 0 where
  pub counting : IsCounting s
  pub level :
      s.intsource ≡ (bit_set (s.reg reg_sp805_wdogcontrol) 0 && bit_set (s.reg reg_sp805_wdogris) 0)

update_int-IsArmed : (s : Sp805) → IsCounting s → IsArmed (update_int s)
unfolding update_int
update_int-IsArmed s h = record {
  counting = record { due = h.due; cancelled = h.cancelled; raised = h.raised };
  level = refl;
}

reset-IsCounting : (now : ℕ) (s : Sp805) → IsCounting (reload_counter now true s)
unfolding reload_counter
reset-IsCounting now s = record { due = inr refl; cancelled = inr (inl refl); raised = inl refl }

stop-IsCounting : (now : ℕ) (s : Sp805) → IsCounting s → IsCounting (stop_counter now s)
unfolding stop_counter
stop-IsCounting now s h = record { due = inl refl; cancelled = inl refl; raised = h.raised }

control-IsCounting :
    (s : Sp805) (value : ℕ)
    → IsCounting s
    → IsCounting (record s { reg = update s.reg reg_sp805_wdogcontrol value })
control-IsCounting s value h = record { due = h.due; cancelled = h.cancelled; raised = h.raised }

write_control-IsCounting :
    (now value : ℕ) (s : Sp805) → IsCounting s → IsCounting (write_control now value s)
unfolding write_control
write_control-IsCounting now value s h =
    let prev = s.reg reg_sp805_wdogcontrol in
    let started =
      if_both IsCounting (not (bit_set prev 0) && bit_set value 0) (λ _. reset-IsCounting now s)
        (λ _. h) in
    control-IsCounting _ value (
      if_both IsCounting (bit_set prev 0 && not (bit_set value 0))
        (λ _. stop-IsCounting now _ started) (λ _. started))

write_other-IsCounting :
    (index value : ℕ) (s : Sp805)
    → (index == reg_sp805_wdogload) ≡ false
    → is_read_only index ≡ false
    → IsCounting s
    → IsCounting (record s { reg = update s.reg index value })
write_other-IsCounting index value s n ro h =
    let e1 : (reg_sp805_wdogload == index) ≡ false = ground arith in
    let e2 : (reg_sp805_wdogris == index) ≡ false = ground arith in
    record { due = rw e1 h.due; cancelled = h.cancelled; raised = rw e2 h.raised }

write_switch-IsCounting :
    (now index value : ℕ) (s : Sp805)
    → IsCounting s
    → Ensures IsCounting (write_switch now index value s)
unfolding write_switch
write_switch-IsCounting now index value s h =
    let P = Ensures IsCounting in
    if_both P (index == reg_sp805_wdogload)
      (λ _.
        if_both P (is_locked s) (λ _. tt)
          λ _. if_both P (value == 0) (λ _. tt) (λ _. reset-IsCounting now _))
      λ n.
        if_both P (index == reg_sp805_wdogcontrol)
          (λ _. if_both P (is_locked s) (λ _. tt) (λ _. write_control-IsCounting now value s h))
          λ _.
            if_both P (index == reg_sp805_wdogintclr)
              (λ _. if_both P (is_locked s) (λ _. tt) (λ _. reset-IsCounting now _))
              λ _.
                if_both P (index == reg_sp805_wdoglock)
                  (λ _. record { due = h.due; cancelled = h.cancelled; raised = h.raised })
                  λ _.
                    if_both P (is_read_only index) (λ _. tt)
                      λ ro. write_other-IsCounting index value s n ro h

reg_wr-IsArmed :
    (now offset value : ℕ) (s : Sp805) → IsCounting s → Ensures IsArmed (reg_wr now offset value s)
unfolding reg_wr
reg_wr-IsArmed now offset value s h =
    Ensures-check IsArmed (ltb (offset / 4) reg_sp805_count) assertion _ λ _.
      Ensures-bind IsCounting IsArmed (write_switch now (offset / 4) value s) _
        (write_switch-IsCounting now (offset / 4) value s h) update_int-IsArmed

raised_bit : (x : ℕ) → bit_set (raise_bit x 0) 0 ≡ true
raised_bit x = bit_set-test_bit (raise_bit x 0) 0 ∙ test_bit-raise_bit x 0 0 ∙ ground arith

-- What a first expiry has set before it updates the line.
abbrev expired_once : ℕ → Sp805 → Sp805
expired_once now s = reload_counter now false (record s {
  woken = false;
  inted = true;
  reg = update s.reg reg_sp805_wdogris (raise_bit (s.reg reg_sp805_wdogris) 0);
})

once-IsCounting : (now : ℕ) (s : Sp805) → IsCounting (expired_once now s)
unfolding reload_counter
once-IsCounting now s = record {
  due = inr refl;
  cancelled = inr (inr refl);
  raised = inr (raised_bit (s.reg reg_sp805_wdogris));
}

thread-IsArmed : (now : ℕ) (s : Sp805) → IsCounting s → Ensures IsArmed (thread_process now s)
unfolding thread_process
thread-IsArmed now s h =
    let P = Ensures IsArmed in
    if_both P (not s.inted) (λ first. update_int-IsArmed _ (once-IsCounting now s))
      (λ again.
        if_both P (bit_set (s.reg reg_sp805_wdogcontrol) 1) (λ _. tt)
          (λ _.
            update_int-IsArmed _
              (record { due = h.due; cancelled = h.cancelled; raised = h.raised })))

trigger-IsArmed : (s : Sp805) → IsArmed s → IsArmed (trigger s)
unfolding trigger
trigger-IsArmed s h = record {
  counting = record { due = inl refl; cancelled = inl refl; raised = h.counting.raised };
  level = h.level;
}

-- One step at the time now: the bus writes a register, the event is triggered, or the thread runs
-- after that. Writes can come between the last two.
pub data Step : Sp805 → Sp805 → Type 0 where
  write : (s t : Sp805) (now offset value : ℕ) → reg_wr now offset value s ≡ ok t → Step s t
  expire : (s : Sp805) (now : ℕ) → s.event ≡ some now → Step s (trigger s)
  run : (s t : Sp805) (now : ℕ) → s.woken ≡ true → thread_process now s ≡ ok t → Step s t

pub data Reach : Sp805 → Type 0 where
  start : Reach new
  next : {s t : Sp805} → Reach s → Step s t → Reach t

Step-IsArmed : {s t : Sp805} → Step s t → IsArmed s → IsArmed t
Step-IsArmed (write s t now offset value e) h =
    Ensures-ok IsArmed (reg_wr-IsArmed now offset value s h.counting) e
Step-IsArmed (expire s now due) h = trigger-IsArmed s h
Step-IsArmed (run s t now woken e) h = Ensures-ok IsArmed (thread-IsArmed now s h.counting) e

-- In every state that register writes, triggers of the event and runs of the thread can reach from the
-- constructor's, in any order that lets the thread run only after a trigger: no event is pending, or
-- it is due when the load value has been counted down from the start time; none is pending while the
-- watchdog is stopped, unless it has expired once; after a first expiry the raw interrupt is set; and
-- the interrupt line is high exactly when the interrupt is enabled and the raw one is set.
pub Reach-IsArmed : {s : Sp805} → Reach s → IsArmed s
unfolding new bit_set
Reach-IsArmed start = record {
  counting = record { due = inl refl; cancelled = inl refl; raised = inl refl };
  level = refl;
}
Reach-IsArmed (next r st) = Step-IsArmed st (Reach-IsArmed r)
