-- ===== src/Sp804/Tests.antt =====
-- Runs of the Sp804, and its theorems at concrete states.
use open_socemu.Base.{
  ◌*◌, ◌≡◌, refl, true, false, ◌==◌, if◌then◌else◌, some, ok, fault, tlm_err, assertion, bit_set,
  get_field,
}
use open_socemu.Base.{update}
use open_socemu.Sp804.{
  Sp804, new, enabled, prescale, start_value, start_counter, start_t1_counter, start_t2_counter,
  update_int, t1_thread_process, t2_thread_process,
}
use open_socemu.Sp804.Regs.{
  reg_sp804_timer1_control, reg_sp804_timer1_load, reg_sp804_timer2_control,
}
use open_socemu.Sp804.Access.{
  reg_rd, reg_wr, write_switch, write_t1_control, write_t1_load, is_read_only,
}
use open_socemu.Sp804.Due.{IsTimed}
use open_socemu.Sp804.Timing.{Reach, start, next, write, Reach-IsTimed}
use open_socemu.Sp804.Expiry.{IsPeriodic}

-- Both timers are on, periodic, 32 bits wide, with their interrupts enabled; timer 1 divides its
-- clock by 16.
abbrev running : Sp804
running = record {
  reg = λ j.
      (if j == 0
        then 50
        else if j == 2
        then 0xA6
        else if j == 8
        then 70
        else if j == 10
        then 0xA2
        else 0);
  t1 = record { ckperiod = 10; event = some 900; stopped = true; starttime = 100 };
  t2 = record { ckperiod = 10; event = some 900; stopped = true; starttime = 100 };
  t1int = false;
  t2int = false;
}

running_runs :
    ((t1_thread_process 900 running).t1.event ≡ some 8900)
    × ((t1_thread_process 900 running).t1int ≡ true)
    × ((t2_thread_process 900 running).t2.event ≡ some 1600)
    × ((t2_thread_process 900 running).t2int ≡ false)
    × (reg_wr 200 8 0x82 running ≡ fault tlm_err)
    × (reg_wr 200 4 1 running ≡ fault tlm_err)
    × (reg_rd 200 24 running ≡ ok 50)
    × (reg_rd 200 12 running ≡ fault tlm_err)
    × (reg_rd 200 4096 running ≡ fault assertion)
unfolding t1_thread_process t2_thread_process start_t1_counter start_t2_counter start_counter
    start_value prescale update_int reg_wr reg_rd write_switch write_t1_control enabled is_read_only
    bit_set get_field
running_runs = (refl, refl, refl, refl, refl, refl, refl, refl, refl)

running_periodic1 : IsPeriodic (running.reg reg_sp804_timer1_control)
unfolding bit_set
running_periodic1 = record { on = refl; repeats = refl; reloads = refl }

running_periodic2 : IsPeriodic (running.reg reg_sp804_timer2_control)
unfolding bit_set
running_periodic2 = record { on = refl; repeats = refl; reloads = refl }

-- Timer 1 is set up as a 32-bit periodic timer that counts 5 periods.
abbrev loaded : Sp804
loaded = update_int (write_t1_load 0 5 new)

abbrev turned_on : Sp804
turned_on =
    update_int (
      start_t1_counter 40 (record loaded { reg = update loaded.reg reg_sp804_timer1_control 0xA2 }))

turned_on-Reach : Reach turned_on
unfolding reg_wr write_switch write_t1_control bit_set update_int write_t1_load start_t1_counter new
turned_on-Reach =
    next (next start (write new loaded 0 (4 * reg_sp804_timer1_load) 5 refl))
      (write loaded turned_on 40 (4 * reg_sp804_timer1_control) 0xA2 refl)

Reach-IsTimed_example : IsTimed turned_on
Reach-IsTimed_example = Reach-IsTimed turned_on-Reach
