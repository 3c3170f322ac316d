-- ===== src/Sp804.antt =====
-- The dual timer of src/tlm_blocks/Arm/PrimeCells/Sp804/Sp804.h.
-- A time is a count of nanoseconds; `sc_time_stamp()` is the argument now. A pending
-- `notify(d)` made at time t is the time t + d. The quotient of two times is cut off as by the
-- cast to `uint32_t`, for quotients below 2^32. A handler starts at the end of its internal
-- delay. The code of the two timers differs in the registers and in the counter it names only.
pub mod Regs
pub mod Access
pub mod Due
pub mod Timing
pub mod Lines
pub mod Expiry
mod Tests
use open_socemu.Base.{
  ℕ, zero, suc, ◌+◌, ◌*◌, ◌-◌, ◌/◌, ◌^◌, Bool, true, false, not, ◌&&◌, ◌||◌, Option, none, some,
  bit_and, bit_set, get_field, nonzero, sub32, update, ltb, leb, ◌==◌, if◌then◌else◌, Result, ok,
  fault, assertion, tlm_err, check, ◌>>=◌, ◌>>◌,
}
use Regs.{
  reg_sp804_timer1_load, reg_sp804_timer1_value, reg_sp804_timer1_control, reg_sp804_timer1_intclr,
  reg_sp804_timer1_ris, reg_sp804_timer1_mis, reg_sp804_timer1_bgload, reg_sp804_timer2_load,
  reg_sp804_timer2_value, reg_sp804_timer2_control, reg_sp804_timer2_intclr, reg_sp804_timer2_ris,
  reg_sp804_timer2_mis, reg_sp804_timer2_bgload, reg_sp804_timer_itop, reg_sp804_periphid0,
  reg_sp804_periphid1, reg_sp804_periphid2, reg_sp804_periphid3, reg_sp804_pcellid0,
  reg_sp804_pcellid1, reg_sp804_pcellid2, reg_sp804_pcellid3, reg_sp804_count,
}

-- What the module keeps for one timer beside its registers.
pub record Counter : Type 0 where
  pub ckperiod : ℕ
  pub event : Option ℕ
  pub stopped : Bool
  pub starttime : ℕ

pub record Sp804 : Type 0 where
  pub reg : ℕ → ℕ
  pub t1 : Counter
  pub t2 : Counter
  pub t1int : Bool
  pub t2int : Bool

abbrev id_regs : ℕ → ℕ
id_regs =
    let r1 = update (λ _. 0) reg_sp804_timer1_value 0xFFFFFFFF in
    let r2 = update r1 reg_sp804_timer2_value 0xFFFFFFFF in
    let r3 = update r2 reg_sp804_timer1_control 0x20 in
    let r4 = update r3 reg_sp804_timer2_control 0x20 in
    let r5 = update r4 reg_sp804_timer1_bgload 0 in
    let r6 = update r5 reg_sp804_timer2_bgload 0 in
    let r7 = update r6 reg_sp804_periphid0 0x04 in
    let r8 = update r7 reg_sp804_periphid1 0x18 in
    let r9 = update r8 reg_sp804_periphid2 0x14 in
    let r10 = update r9 reg_sp804_periphid3 0 in
    let r11 = update r10 reg_sp804_pcellid0 0x0D in
    let r12 = update r11 reg_sp804_pcellid1 0xF0 in
    let r13 = update r12 reg_sp804_pcellid2 0x05 in update r13 reg_sp804_pcellid3 0xB1

-- A counter before it is started, with the default period.
abbrev new_counter : Counter
new_counter = record { ckperiod = 100; event = none; stopped = true; starttime = 0 }

unfoldable pub new : Sp804
new = record { reg = id_regs; t1 = new_counter; t2 = new_counter; t1int = false; t2int = false }

unfoldable pub set_t1_clock_period : ℕ → Sp804 → Sp804
set_t1_clock_period period s = record s { t1 = record s.t1 { ckperiod = period } }

unfoldable pub set_t2_clock_period : ℕ → Sp804 → Sp804
set_t2_clock_period period s = record s { t2 = record s.t2 { ckperiod = period } }

unfoldable pub enabled : ℕ → Bool
enabled control = nonzero (bit_and control (2 ^ 5)) && nonzero (bit_and control (2 ^ 7))

-- Both timers take their masked status from timer 1's raw status.
unfoldable pub update_int : Sp804 → Sp804
update_int s =
    let mis1 = if enabled (s.reg reg_sp804_timer1_control) then s.reg reg_sp804_timer1_ris else 0 in
    let r1 = update s.reg reg_sp804_timer1_mis mis1 in
    let mis2 = if enabled (r1 reg_sp804_timer2_control) then r1 reg_sp804_timer1_ris else 0 in
    let r2 = update r1 reg_sp804_timer2_mis mis2 in
    record s {
      reg = r2;
      t1int = nonzero (r2 reg_sp804_timer1_mis);
      t2int = nonzero (r2 reg_sp804_timer2_mis);
    }

-- `1 << (GETF(control, 0xc, 2) * 4)`
unfoldable pub prescale : ℕ → ℕ
prescale control = 2 ^ (get_field control 0xC 2 * 4)

-- What a start makes of the value register.
unfoldable pub start_value : ℕ → ℕ → ℕ
start_value control value = if bit_set control 1 then value else bit_and value 0xFFFF

-- The counter after a start: its event is cancelled, and notified again if the timer is on.
unfoldable pub start_counter : ℕ → ℕ → ℕ → Counter → Counter
start_counter now control value c =
    if bit_set control 7
    then record c {
      event = some (now + c.ckperiod * start_value control value * prescale control);
      starttime = now;
    }
    else record c { event = none }

unfoldable pub start_t1_counter : ℕ → Sp804 → Sp804
start_t1_counter now s =
    let control = s.reg reg_sp804_timer1_control in
    let value = s.reg reg_sp804_timer1_value in
    record s {
      reg =
          (if bit_set control 7
            then update s.reg reg_sp804_timer1_value (start_value control value)
            else s.reg);
      t1 = start_counter now control value s.t1;
    }

unfoldable pub start_t2_counter : ℕ → Sp804 → Sp804
start_t2_counter now s =
    let control = s.reg reg_sp804_timer2_control in
    let value = s.reg reg_sp804_timer2_value in
    record s {
      reg =
          (if bit_set control 7
            then update s.reg reg_sp804_timer2_value (start_value control value)
            else s.reg);
      t2 = start_counter now control value s.t2;
    }

-- The value of a counter that was started with a value: what is left of it now.
unfoldable pub counted : ℕ → ℕ → ℕ → Counter → ℕ
counted now control value c = sub32 value ((now - c.starttime) / (c.ckperiod * prescale control))

unfoldable pub stop_t1_counter : ℕ → Sp804 → Sp804
stop_t1_counter now s =
    let left = counted now (s.reg reg_sp804_timer1_control) (s.reg reg_sp804_timer1_value) s.t1 in
    record s {
      reg = update s.reg reg_sp804_timer1_value left;
      t1 = record s.t1 { event = none; stopped = true };
    }

unfoldable pub stop_t2_counter : ℕ → Sp804 → Sp804
stop_t2_counter now s =
    let left = counted now (s.reg reg_sp804_timer2_control) (s.reg reg_sp804_timer2_value) s.t2 in
    record s {
      reg = update s.reg reg_sp804_timer2_value left;
      t2 = record s.t2 { event = none; stopped = true };
    }

-- One round of the thread of timer 1, at the time of its event, which is spent.
unfoldable pub t1_thread_process : ℕ → Sp804 → Sp804
t1_thread_process now s =
    let r1 = update (update s.reg reg_sp804_timer1_bgload 0) reg_sp804_timer1_ris 1 in
    let u = update_int (record s { reg = r1; t1 = record s.t1 { event = none } }) in
    let control = u.reg reg_sp804_timer1_control in
    let reload = (if bit_set control 6 then 0xFFFFFFFF else u.reg reg_sp804_timer1_load) in
    if bit_set control 0
    then stop_t1_counter now u
    else start_t1_counter now (record u { reg = update u.reg reg_sp804_timer1_value reload })

unfoldable pub t2_thread_process : ℕ → Sp804 → Sp804
t2_thread_process now s =
    let r1 = update (update s.reg reg_sp804_timer2_bgload 0) reg_sp804_timer2_ris 1 in
    let u = update_int (record s { reg = r1; t2 = record s.t2 { event = none } }) in
    let control = u.reg reg_sp804_timer2_control in
    let reload = (if bit_set control 6 then 0xFFFFFFFF else u.reg reg_sp804_timer2_load) in
    if bit_set control 0
    then stop_t2_counter now u
    else start_t2_counter now (record u { reg = update u.reg reg_sp804_timer2_value reload })
