-- ===== src/Sp804/Expiry.antt =====
-- What an expiry of a periodic timer of the Sp804 does, and the background load.
use open_socemu.Base.{ℕ, ◌+◌, ◌*◌, ◌≡◌, refl, true, false, some, bit_set, ok}
use open_socemu.Sp804.{
  Sp804, prescale, start_value, start_counter, start_t1_counter, start_t2_counter, update_int,
  t1_thread_process, t2_thread_process,
}
use open_socemu.Sp804.Regs.{
  reg_sp804_timer1_control, reg_sp804_timer1_load, reg_sp804_timer1_value, reg_sp804_timer1_ris,
  reg_sp804_timer1_bgload, reg_sp804_timer2_control, reg_sp804_timer2_load, reg_sp804_timer2_value,
  reg_sp804_timer2_ris, reg_sp804_timer2_bgload,
}
use open_socemu.Sp804.Access.{reg_wr, write_switch, write_t1_load}

-- A control register whose timer is on and periodic.
pub record IsPeriodic (control : ℕ) : Type 0 where
  pub on : bit_set control 7 ≡ true
  pub repeats : bit_set control 0 ≡ false
  pub reloads : bit_set control 6 ≡ false

-- When a timer that is on and periodic expires, it is loaded from its load register, its event is
-- due again after that value times the period and the prescaler, its raw status is set, and its
-- background load is over; so for timer 1 and for timer 2.
pub thread-periodic :
    (now : ℕ) (s : Sp804)
    → IsPeriodic (s.reg reg_sp804_timer1_control)
    → IsPeriodic (s.reg reg_sp804_timer2_control)
    → let c1 = s.reg reg_sp804_timer1_control in
      let v1 = start_value c1 (s.reg reg_sp804_timer1_load) in
      let u = t1_thread_process now s in
      let c2 = s.reg reg_sp804_timer2_control in
      let v2 = start_value c2 (s.reg reg_sp804_timer2_load) in
      let v = t2_thread_process now s in
      (u.reg reg_sp804_timer1_value ≡ v1)
      × (u.t1.event ≡ some (now + s.t1.ckperiod * v1 * prescale c1))
      × (u.reg reg_sp804_timer1_ris ≡ 1)
      × (u.reg reg_sp804_timer1_bgload ≡ 0)
      × (v.reg reg_sp804_timer2_value ≡ v2)
      × (v.t2.event ≡ some (now + s.t2.ckperiod * v2 * prescale c2))
      × (v.reg reg_sp804_timer2_ris ≡ 1)
      × (v.reg reg_sp804_timer2_bgload ≡ 0)
unfolding t1_thread_process t2_thread_process start_t1_counter start_t2_counter start_counter
    update_int
thread-periodic now s p1 p2 =
    rw (p1.on, p1.repeats, p1.reloads, p2.on, p2.repeats, p2.reloads)
      (refl, refl, refl, refl, refl, refl, refl, refl)

-- A value v written to the background load of a periodic timer 1, and then a value w written to
-- its load, are both accepted: the running period is that of w, and the period after the expiry
-- is that of v.
pub reg_wr-background :
    (now now' later v w : ℕ) (s : Sp804)
    → IsPeriodic (s.reg reg_sp804_timer1_control)
    → let c = s.reg reg_sp804_timer1_control in
      (s1 : Sp804) × (s2 : Sp804) × (reg_wr now (4 * reg_sp804_timer1_bgload) v s ≡ ok s1)
      × (reg_wr now' (4 * reg_sp804_timer1_load) w s1 ≡ ok s2)
      × (s2.t1.event ≡ some (now' + s.t1.ckperiod * start_value c w * prescale c))
      × ((t1_thread_process later s2).t1.event
          ≡ some (later + s.t1.ckperiod * start_value c v * prescale c))
unfolding t1_thread_process start_t1_counter start_counter update_int reg_wr write_switch
    write_t1_load
reg_wr-background now now' later v w s p =
    (_, _, refl, refl, rw p.on refl, rw (p.on, p.repeats, p.reloads, p.on) refl)
