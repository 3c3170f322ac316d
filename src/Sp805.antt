-- ===== src/Sp805.antt =====
-- The watchdog of src/tlm_blocks/Arm/PrimeCells/Sp805/Sp805.h.
-- A time is a count of nanoseconds; `sc_time_stamp()` is the argument now. A pending
-- `notify(d)` made at time t is the time t + d. The quotient of two times is cut off as by the
-- cast to `uint32_t`, for quotients below 2^32. Between the trigger of the event and the run of the
-- thread at the same time, `woken`, other processes can run. A handler starts at the end of its
-- internal delay.
pub mod Regs
pub mod Timing
pub mod Lock
pub mod Expiry
mod Tests
use open_socemu.Base.{
  ℕ, zero, suc, ◌+◌, ◌*◌, ◌-◌, ◌/◌, Bool, true, false, not, ◌&&◌, ◌||◌, Option, none, some, bit_or,
  bit_set, drop_bit, raise_bit, sub32, update, ltb, leb, ◌==◌, if◌then◌else◌, Result, ok, fault,
  assertion, tlm_err, check, ◌>>=◌, ◌>>◌,
}
use Regs.{
  reg_sp805_wdogload, reg_sp805_wdogvalue, reg_sp805_wdogcontrol, reg_sp805_wdogintclr,
  reg_sp805_wdogris, reg_sp805_wdogmis, reg_sp805_wdoglock, reg_sp805_wdogitop, reg_sp805_periphid0,
  reg_sp805_periphid1, reg_sp805_periphid2, reg_sp805_periphid3, reg_sp805_pcellid0,
  reg_sp805_pcellid1, reg_sp805_pcellid2, reg_sp805_pcellid3, reg_sp805_count,
}

pub record Sp805 : Type 0 where
  pub reg : ℕ → ℕ
  pub ckperiod : ℕ
  pub lock_enabled : Bool
  pub locked : Bool
  pub event : Option ℕ
  pub woken : Bool
  pub inted : Bool
  pub stopped : Bool
  pub starttime : ℕ
  pub intsource : Bool

abbrev id_regs : ℕ → ℕ
id_regs =
    let r1 = update (λ _. 0) reg_sp805_wdogload 0xFFFFFFFF in
    let r2 = update r1 reg_sp805_wdogvalue 0xFFFFFFFF in
    let r3 = update r2 reg_sp805_periphid0 0x5 in
    let r4 = update r3 reg_sp805_periphid1 0x18 in
    let r5 = update r4 reg_sp805_periphid2 0x14 in
    let r6 = update r5 reg_sp805_periphid3 0 in
    let r7 = update r6 reg_sp805_pcellid0 0x0D in
    let r8 = update r7 reg_sp805_pcellid1 0xF0 in
    let r9 = update r8 reg_sp805_pcellid2 0x05 in update r9 reg_sp805_pcellid3 0xB1

unfoldable pub new : Sp805
new = record {
  reg = id_regs;
  ckperiod = 100;
  lock_enabled = true;
  locked = true;
  event = none;
  woken = false;
  inted = false;
  stopped = true;
  starttime = 0;
  intsource = false;
}

unfoldable pub set_clock_period : ℕ → Sp805 → Sp805
set_clock_period period s = record s { ckperiod = period }

unfoldable pub set_lock_mode : Bool → Sp805 → Sp805
set_lock_mode enable s = record s { lock_enabled = enable }

unfoldable pub update_int : Sp805 → Sp805
update_int s = record s {
  intsource = bit_set (s.reg reg_sp805_wdogcontrol) 0 && bit_set (s.reg reg_sp805_wdogris) 0;
}

unfoldable pub reload_counter : ℕ → Bool → Sp805 → Sp805
reload_counter now reset s = record s {
  starttime = now;
  inted = if reset then false else s.inted;
  stopped = if reset then false else s.stopped;
  event = some (now + s.ckperiod * s.reg reg_sp805_wdogload);
}

-- What is left of the count.
unfoldable pub counted : ℕ → Sp805 → ℕ
counted now s = sub32 (s.reg reg_sp805_wdogload) ((now - s.starttime) / s.ckperiod)

unfoldable pub stop_counter : ℕ → Sp805 → Sp805
stop_counter now s = record s {
  stopped = true;
  event = none;
  reg = update s.reg reg_sp805_wdogvalue (counted now s);
}

-- The event is triggered at its time: the thread can run, and a cancel comes too late.
unfoldable pub trigger : Sp805 → Sp805
trigger s = record s { event = none; woken = true }

-- One round of the thread after its wait.
unfoldable pub thread_process : ℕ → Sp805 → Result Sp805
thread_process now s =
    let spent = record s { woken = false } in
    if not s.inted
    then (let ris = update s.reg reg_sp805_wdogris (raise_bit (s.reg reg_sp805_wdogris) 0) in
        ok (update_int (reload_counter now false (record spent { inted = true; reg = ris }))))
    else if bit_set (s.reg reg_sp805_wdogcontrol) 1
    then fault tlm_err
    else ok (update_int spent)

-- None is a result that the code leaves uninitialised.
unfoldable pub reg_rd : ℕ → ℕ → Sp805 → Result (Option ℕ)
reg_rd now offset s = do
  let index = offset / 4
  check (ltb index reg_sp805_count) assertion
  if index == reg_sp805_wdogvalue
      then ok (some (if s.stopped then s.reg index else counted now s))
      else if index == reg_sp805_wdogintclr || index == reg_sp805_wdogitop
      then ok none
      else if index == reg_sp805_wdoglock
      then ok (some (if s.locked then 1 else 0))
      else ok (some (s.reg index))

unfoldable pub is_locked : Sp805 → Bool
is_locked s = s.lock_enabled && s.locked

unfoldable pub write_control : ℕ → ℕ → Sp805 → Sp805
write_control now value s =
    let prev = s.reg reg_sp805_wdogcontrol in
    let s1 = (if not (bit_set prev 0) && bit_set value 0 then reload_counter now true s else s) in
    let s2 = (if bit_set prev 0 && not (bit_set value 0) then stop_counter now s1 else s1) in
    record s2 { reg = update s2.reg reg_sp805_wdogcontrol value }

-- The read-only labels of the write switch; the eight identification registers are consecutive.
abbrev pub is_read_only : ℕ → Bool
is_read_only index =
    index == reg_sp805_wdogvalue
    || index == reg_sp805_wdogris
    || index == reg_sp805_wdogmis
    || (leb reg_sp805_periphid0 index && leb index reg_sp805_pcellid3)

-- The switch of `reg_wr`.
unfoldable pub write_switch : ℕ → ℕ → ℕ → Sp805 → Result Sp805
write_switch now index value s =
    if index == reg_sp805_wdogload
    then (if is_locked s
        then fault tlm_err
        else if value == 0
        then fault tlm_err
        else ok
            (reload_counter now true (record s { reg = update s.reg reg_sp805_wdogload value })))
    else if index == reg_sp805_wdogcontrol
    then (if is_locked s then fault tlm_err else ok (write_control now value s))
    else if index == reg_sp805_wdogintclr
    then (if is_locked s
        then fault tlm_err
        else ok (
            reload_counter now true (record s {
              reg = update s.reg reg_sp805_wdogris (drop_bit (s.reg reg_sp805_wdogris) 0);
            })))
    else if index == reg_sp805_wdoglock
    then ok (record s { locked = not (value == 0x1ACCE551) })
    else if is_read_only index
    then fault tlm_err
    else ok (record s { reg = update s.reg index value })

unfoldable pub reg_wr : ℕ → ℕ → ℕ → Sp805 → Result Sp805
reg_wr now offset value s = do
  let index = offset / 4
  check (ltb index reg_sp805_count) assertion
  s' ← write_switch now index value s
  ok (update_int s')
