-- ===== src/Sp804/Timing.antt =====
-- When the pending event of a counter of the Sp804 is due, over every sequence of operations.
use open_socemu.Base.{
  ℕ, ◌*◌, ◌/◌, ◌≡◌, refl, inl, inr, false, ◌==◌, ltb, some, bit_and, bit_set, update, if_both, ok,
  Bool-cases, Ensures, Ensures-ok, Ensures-bind, Ensures-check, assertion, arith,
}
use open_socemu.Sp804.{Sp804, new, t1_thread_process, t2_thread_process}
use open_socemu.Sp804.Regs.{
  reg_sp804_timer1_value, reg_sp804_timer1_control, reg_sp804_timer1_load, reg_sp804_timer2_value,
  reg_sp804_timer2_control, reg_sp804_timer1_bgload, reg_sp804_timer2_bgload,
  reg_sp804_timer1_intclr, reg_sp804_timer2_intclr, reg_sp804_timer2_load, reg_sp804_count,
}
use open_socemu.Sp804.Access.{
  reg_rd, reg_wr, write_switch, write_t1_control, write_t2_control, write_t1_load, write_t2_load,
  is_read_only,
}
use open_socemu.Sp804.Due.{
  IsTimed, start_t1-IsTimed, start_t2-IsTimed, stop_t1-IsTimed, stop_t2-IsTimed, update_int-IsTimed,
  t1_thread-IsTimed, t2_thread-IsTimed, IsDue-keep, IsDue-off,
}

write_t1_control-IsTimed :
    (now value : ℕ) (s : Sp804) → IsTimed s → Ensures IsTimed (write_t1_control now value s)
unfolding write_t1_control
write_t1_control-IsTimed now value s ((due, still), other) =
    let prev = s.reg reg_sp804_timer1_control in
    let P = Ensures IsTimed in
    if_both P (bit_set prev 7)
      (λ was.
        if_both P (bit_set value 7)
          (λ on.
            if_both P (bit_and prev 0x4F == bit_and value 0x4F)
              (λ same. ((IsDue-keep prev value _ s.t1 same on due, still), other)) (λ changed. tt))
          (λ off. stop_t1-IsTimed now _ other))
      (λ was_not.
        if_both P (bit_set value 7)
          (λ on.
            if_both P (bit_and value 0xC == 0xC) (λ bad. tt)
              (λ fine. start_t1-IsTimed now _ still other))
          (λ off. ((IsDue-off prev value _ s.t1 was_not due, still), other)))

write_t2_control-IsTimed :
    (now value : ℕ) (s : Sp804) → IsTimed s → Ensures IsTimed (write_t2_control now value s)
unfolding write_t2_control
write_t2_control-IsTimed now value s (other, (due, still)) =
    let prev = s.reg reg_sp804_timer2_control in
    let P = Ensures IsTimed in
    if_both P (bit_set prev 7)
      (λ was.
        if_both P (bit_set value 7)
          (λ on.
            if_both P (bit_and prev 0x4F == bit_and value 0x4F)
              (λ same. (other, (IsDue-keep prev value _ s.t2 same on due, still))) (λ changed. tt))
          (λ off. stop_t2-IsTimed now _ other))
      (λ was_not.
        if_both P (bit_set value 7)
          (λ on.
            if_both P (bit_and value 0xC == 0xC) (λ bad. tt)
              (λ fine. start_t2-IsTimed now _ other still))
          (λ off. (other, (IsDue-off prev value _ s.t2 was_not due, still))))

-- A load register is no register that a due time is read from.
write_t1_load-IsTimed :
    (now value : ℕ) (s : Sp804) → IsTimed s → IsTimed (write_t1_load now value s)
unfolding write_t1_load
write_t1_load-IsTimed now value s ((due, still), other) =
    elim (Bool-cases (s.reg reg_sp804_timer1_bgload == 0)) [
      | inl fresh ↦ rw fresh (start_t1-IsTimed now _ still other)
      | inr set ↦ rw set (start_t1-IsTimed now _ still other)
    ]

write_t2_load-IsTimed :
    (now value : ℕ) (s : Sp804) → IsTimed s → IsTimed (write_t2_load now value s)
unfolding write_t2_load
write_t2_load-IsTimed now value s (other, (due, still)) =
    elim (Bool-cases (s.reg reg_sp804_timer2_bgload == 0)) [
      | inl fresh ↦ rw fresh (start_t2-IsTimed now _ other still)
      | inr set ↦ rw set (start_t2-IsTimed now _ other still)
    ]

-- A write of a register that has no case of its own.
write_other-IsTimed :
    (index value : ℕ) (s : Sp804)
    → (index == reg_sp804_timer1_control) ≡ false
    → (index == reg_sp804_timer2_control) ≡ false
    → is_read_only index ≡ false
    → IsTimed s
    → IsTimed (record s { reg = update s.reg index value })
unfolding is_read_only
write_other-IsTimed index value s n1 n2 ro ((due1, still1), (due2, still2)) =
    let e1 : (reg_sp804_timer1_control == index) ≡ false = ground arith in
    let e2 : (reg_sp804_timer2_control == index) ≡ false = ground arith in
    let e3 : (reg_sp804_timer1_value == index) ≡ false = ground arith in
    let e4 : (reg_sp804_timer2_value == index) ≡ false = ground arith in
    rw (e1, e2, e3, e4) ((due1, still1), (due2, still2))

write_switch-IsTimed :
    (now index value : ℕ) (s : Sp804) → IsTimed s → Ensures IsTimed (write_switch now index value s)
unfolding write_switch
write_switch-IsTimed now index value s h =
    let P = Ensures IsTimed in
    if_both P (index == reg_sp804_timer1_control) (λ a. write_t1_control-IsTimed now value s h)
      λ n1.
        if_both P (index == reg_sp804_timer2_control) (λ a. write_t2_control-IsTimed now value s h)
          λ n2.
            if_both P (index == reg_sp804_timer1_intclr) (λ a. h)
              λ _.
                if_both P (index == reg_sp804_timer2_intclr) (λ a. h)
                  λ _.
                    if_both P (index == reg_sp804_timer1_load)
                      (λ a. write_t1_load-IsTimed now value s h)
                      λ _.
                        if_both P (index == reg_sp804_timer2_load)
                          (λ a. write_t2_load-IsTimed now value s h)
                          λ _.
                            if_both P (index == reg_sp804_timer1_bgload) (λ a. h)
                              λ _.
                                if_both P (index == reg_sp804_timer2_bgload) (λ a. h)
                                  λ _.
                                    if_both P (is_read_only index) (λ a. tt)
                                      λ ro. write_other-IsTimed index value s n1 n2 ro h

reg_wr-IsTimed :
    (now offset value : ℕ) (s : Sp804) → IsTimed s → Ensures IsTimed (reg_wr now offset value s)
unfolding reg_wr
reg_wr-IsTimed now offset value s h =
    let index = offset / 4 in
    Ensures-check IsTimed (ltb index reg_sp804_count) assertion _ λ _.
      Ensures-bind IsTimed IsTimed (write_switch now index value s) _
        (write_switch-IsTimed now index value s h) (λ t timed. update_int-IsTimed t timed)

-- One operation at the time now: the bus writes a register, or a thread is woken by its event.
pub data Step : Sp804 → Sp804 → Type 0 where
  write : (s t : Sp804) (now offset value : ℕ) → reg_wr now offset value s ≡ ok t → Step s t
  expire1 : (s : Sp804) (now : ℕ) → s.t1.event ≡ some now → Step s (t1_thread_process now s)
  expire2 : (s : Sp804) (now : ℕ) → s.t2.event ≡ some now → Step s (t2_thread_process now s)

pub data Reach : Sp804 → Type 0 where
  start : Reach new
  next : {s t : Sp804} → Reach s → Step s t → Reach t

Step-IsTimed : {s t : Sp804} → Step s t → IsTimed s → IsTimed t
Step-IsTimed (write s t now offset value e) h =
    Ensures-ok IsTimed (reg_wr-IsTimed now offset value s h) e
Step-IsTimed (expire1 s now e) h = t1_thread-IsTimed now s h
Step-IsTimed (expire2 s now e) h = t2_thread-IsTimed now s h

-- In every state that register writes and expiries can reach from the constructor's, a timer has
-- no event pending, or it is on and its event is due when the value that it was started with has
-- been counted down at its clock period times its prescaler; and both are marked as stopped.
pub Reach-IsTimed : {s : Sp804} → Reach s → IsTimed s
unfolding new
Reach-IsTimed start = ((inl refl, refl), (inl refl, refl))
Reach-IsTimed (next r st) = Step-IsTimed st (Reach-IsTimed r)

-- In every reachable state, and at every time, a read of a timer's value register is accepted and
-- returns the register as it is stored, whether the timer counts or not.
pub reg_rd-value_frozen :
    {s : Sp804} (now : ℕ)
    → Reach s
    → (reg_rd now (4 * reg_sp804_timer1_value) s ≡ ok (s.reg reg_sp804_timer1_value))
      × (reg_rd now (4 * reg_sp804_timer2_value) s ≡ ok (s.reg reg_sp804_timer2_value))
unfolding reg_rd
reg_rd-value_frozen now r =
    let ((due1, still1), (due2, still2)) = Reach-IsTimed r in (rw still1 refl, rw still2 refl)
