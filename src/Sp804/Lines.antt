-- ===== src/Sp804/Lines.antt =====
-- The interrupt lines of the Sp804 over every sequence of its operations.
use open_socemu.Base.{
  ℕ, ◌/◌, ◌≡◌, refl, ◌&&◌, ltb, nonzero, bit_set, if_both, Bool-cases, inl, inr, Ensures,
  Ensures-ok, Ensures-check, assertion,
}
use open_socemu.Base.{Ensures-after, update, none}
use open_socemu.Sp804.{
  Sp804, new, enabled, update_int, start_t1_counter, start_t2_counter, stop_t1_counter,
  stop_t2_counter, t1_thread_process, t2_thread_process,
}
use open_socemu.Sp804.Regs.{
  reg_sp804_timer1_control, reg_sp804_timer1_ris, reg_sp804_timer2_control, reg_sp804_count,
  reg_sp804_timer1_bgload, reg_sp804_timer2_bgload, reg_sp804_timer2_ris,
}
use open_socemu.Sp804.Regs.{reg_sp804_timer1_bgload, reg_sp804_timer2_bgload, reg_sp804_timer2_ris}
use open_socemu.Sp804.Access.{reg_wr, write_switch}
use open_socemu.Sp804.Timing.{Step, write, expire1, expire2, Reach, start, next}

-- Each line is high exactly when its timer is on with its interrupt enabled, and the raw status of
-- timer 1 is set.
abbrev pub IsLined : Sp804 → Type 0
IsLined s =
    (s.t1int ≡ (enabled (s.reg reg_sp804_timer1_control) && nonzero (s.reg reg_sp804_timer1_ris)))
    × (s.t2int ≡ (enabled (s.reg reg_sp804_timer2_control) && nonzero (s.reg reg_sp804_timer1_ris)))

update_int-IsLined : (s : Sp804) → IsLined (update_int s)
unfolding update_int
update_int-IsLined s = (
  elim (Bool-cases (enabled (s.reg reg_sp804_timer1_control))) [
    | inl e ↦ rw e refl
    | inr e ↦ rw e refl
  ],
  elim (Bool-cases (enabled (s.reg reg_sp804_timer2_control))) [
    | inl e ↦ rw e refl
    | inr e ↦ rw e refl
  ],
)

start_t1-IsLined : (now : ℕ) (s : Sp804) → IsLined s → IsLined (start_t1_counter now s)
unfolding start_t1_counter
start_t1-IsLined now s h = elim (Bool-cases (bit_set (s.reg reg_sp804_timer1_control) 7)) [
  | inl e ↦ rw e h
  | inr e ↦ rw e h
]

start_t2-IsLined : (now : ℕ) (s : Sp804) → IsLined s → IsLined (start_t2_counter now s)
unfolding start_t2_counter
start_t2-IsLined now s h = elim (Bool-cases (bit_set (s.reg reg_sp804_timer2_control) 7)) [
  | inl e ↦ rw e h
  | inr e ↦ rw e h
]

-- What an expiry has set when it updates the lines.
abbrev raised1 : Sp804 → Sp804
raised1 s = record s {
  reg = update (update s.reg reg_sp804_timer1_bgload 0) reg_sp804_timer1_ris 1;
  t1 = record s.t1 { event = none };
}

abbrev raised2 : Sp804 → Sp804
raised2 s = record s {
  reg = update (update s.reg reg_sp804_timer2_bgload 0) reg_sp804_timer2_ris 1;
  t2 = record s.t2 { event = none };
}

t1_thread-IsLined : (now : ℕ) (s : Sp804) → IsLined (t1_thread_process now s)
unfolding t1_thread_process stop_t1_counter
t1_thread-IsLined now s =
    let lined = update_int-IsLined (raised1 s) in
    if_both IsLined (bit_set ((update_int (raised1 s)).reg reg_sp804_timer1_control) 0)
      (λ one_shot. lined) (λ again. start_t1-IsLined now _ lined)

t2_thread-IsLined : (now : ℕ) (s : Sp804) → IsLined (t2_thread_process now s)
unfolding t2_thread_process stop_t2_counter
t2_thread-IsLined now s =
    let lined = update_int-IsLined (raised2 s) in
    if_both IsLined (bit_set ((update_int (raised2 s)).reg reg_sp804_timer2_control) 0)
      (λ one_shot. lined) (λ again. start_t2-IsLined now _ lined)

reg_wr-IsLined : (now offset value : ℕ) (s : Sp804) → Ensures IsLined (reg_wr now offset value s)
unfolding reg_wr
reg_wr-IsLined now offset value s =
    Ensures-check IsLined (ltb (offset / 4) reg_sp804_count) assertion _ λ _.
      Ensures-after IsLined (write_switch now (offset / 4) value s) _ (λ t. update_int-IsLined t)

Step-IsLined : {s t : Sp804} → Step s t → IsLined t
Step-IsLined (write s t now offset value e) =
    Ensures-ok IsLined (reg_wr-IsLined now offset value s) e
Step-IsLined (expire1 s now e) = t1_thread-IsLined now s
Step-IsLined (expire2 s now e) = t2_thread-IsLined now s

-- In every reachable state the line of timer 1 is high exactly when timer 1 is on with its
-- interrupt enabled and its raw status is set; the line of timer 2 is high exactly when timer 2 is
-- on with its interrupt enabled and the raw status of timer 1, not of timer 2, is set.
pub Reach-IsLined : {s : Sp804} → Reach s → IsLined s
unfolding new enabled
Reach-IsLined start = (refl, refl)
Reach-IsLined (next r st) = Step-IsLined st
