-- ===== src/Sp805/Tests.antt =====
-- Runs of the Sp805, and its theorems at concrete states.
use open_socemu.Base.{
  Result, Bool, Option, ℕ, ◌>>=◌, raise_bit, ◌*◌, ◌≡◌, refl, true, false, ◌==◌, none, some, ok,
  fault, tlm_err, if◌then◌else◌, update,
}
use open_socemu.Sp805.{
  Sp805, new, trigger, thread_process, update_int, reload_counter, counted, write_switch, reg_wr,
  reg_rd, is_locked,
}
use open_socemu.Sp805.Regs.{
  reg_sp805_wdogload, reg_sp805_wdogcontrol, reg_sp805_wdogris, reg_sp805_wdoglock,
}
use open_socemu.Sp805.Timing.{IsArmed, Reach, start, next, write, expire, run, Reach-IsArmed}

-- The watchdog is unlocked and runs with its interrupt and its reset enabled, from 50.
abbrev running : Sp805
running = record {
  reg = λ j. (if j == 0 then 50 else if j == 2 then 3 else 0);
  ckperiod = 10;
  lock_enabled = true;
  locked = false;
  event = some 600;
  woken = false;
  inted = false;
  stopped = false;
  starttime = 100;
  intsource = false;
}

running_runs :
    (reg_rd 200 4 running ≡ ok (some 40))
    × (reg_rd 200 12 running ≡ ok none)
    × (reg_rd 200 3072 running ≡ ok (some 0))
    × (reg_wr 200 0 0 running ≡ fault tlm_err)
    × (reg_wr 200 16 0 running ≡ fault tlm_err)
    × (reg_wr 200 0 70 new ≡ fault tlm_err)
unfolding reg_rd reg_wr write_switch counted is_locked new
running_runs = (refl, refl, refl, refl, refl, refl)

running_unlocked : is_locked running ≡ false
unfolding is_locked
running_unlocked = refl

-- The event of the running watchdog is triggered, its interrupt is disabled in the same instant, and
-- then the thread runs: the watchdog is stopped, and its event is pending again.
abbrev raced : Result (Bool × Option ℕ)
raced = do
  t ← reg_wr 600 (4 * reg_sp805_wdogcontrol) 0 (trigger running)
  u ← thread_process 600 t
  ok (u.stopped, u.event)

raced_runs : raced ≡ ok (true, some 1100)
unfolding reg_wr write_switch trigger thread_process update_int reload_counter is_locked
    open_socemu.Sp805.write_control open_socemu.Sp805.stop_counter open_socemu.Base.bit_set
raced_runs = refl

-- The lock register of a locked watchdog is written with another value than the key.
abbrev still_locked : Sp805
still_locked = update_int (record new { locked = true })

still_locked_runs : reg_wr 5 (4 * reg_sp805_wdoglock) 7 new ≡ ok still_locked
unfolding reg_wr write_switch new
still_locked_runs = refl

new_locked : (new.lock_enabled ≡ true) × (new.locked ≡ true)
unfolding new
new_locked = (refl, refl)

-- Unlocked, and then loaded with 30.
abbrev unlocked : Sp805
unlocked = update_int (record new { locked = false })

abbrev loaded : Sp805
loaded =
    update_int
      (reload_counter 40 true (record unlocked { reg = update unlocked.reg reg_sp805_wdogload 30 }))

-- The event is triggered, and the thread runs.
abbrev expired : Sp805
expired = update_int (
    reload_counter 3040 false (record (trigger loaded) {
      woken = false;
      inted = true;
      reg = update loaded.reg reg_sp805_wdogris (raise_bit (loaded.reg reg_sp805_wdogris) 0);
    }))

expired-Reach : Reach expired
unfolding reg_wr write_switch update_int is_locked new trigger thread_process reload_counter
expired-Reach =
    next
      (next
        (next (next start (write new unlocked 5 (4 * reg_sp805_wdoglock) 0x1ACCE551 refl))
          (write unlocked loaded 40 (4 * reg_sp805_wdogload) 30 refl))
        (expire loaded 3040 refl))
      (run (trigger loaded) expired 3040 refl refl)

Reach-IsArmed_example : IsArmed expired
Reach-IsArmed_example = Reach-IsArmed expired-Reach
