-- ===== src/Sp804/Access.antt =====
-- The register accesses of src/tlm_blocks/Arm/PrimeCells/Sp804/Sp804.h.
use open_socemu.Base.{
  ℕ, ◌/◌, Bool, ◌&&◌, ◌||◌, bit_and, bit_set, update, ltb, leb, ◌==◌, if◌then◌else◌, Result, ok,
  fault, assertion, tlm_err, check, ◌>>=◌, ◌>>◌,
}
use open_socemu.Sp804.{
  Sp804, counted, start_t1_counter, start_t2_counter, stop_t1_counter, stop_t2_counter, update_int,
}
use open_socemu.Sp804.Regs.{
  reg_sp804_timer1_load, reg_sp804_timer1_value, reg_sp804_timer1_control, reg_sp804_timer1_intclr,
  reg_sp804_timer1_ris, reg_sp804_timer1_mis, reg_sp804_timer1_bgload, reg_sp804_timer2_load,
  reg_sp804_timer2_value, reg_sp804_timer2_control, reg_sp804_timer2_intclr, reg_sp804_timer2_ris,
  reg_sp804_timer2_mis, reg_sp804_timer2_bgload, reg_sp804_timer_itop, reg_sp804_periphid0,
  reg_sp804_pcellid3, reg_sp804_count,
}

unfoldable pub reg_rd : ℕ → ℕ → Sp804 → Result ℕ
reg_rd now offset s = do
  let index = offset / 4
  check (ltb index reg_sp804_count) assertion
  if index == reg_sp804_timer1_value
      then ok (
          if s.t1.stopped
          then s.reg index
          else counted now (s.reg reg_sp804_timer1_control) (s.reg reg_sp804_timer1_value) s.t1)
      else if index == reg_sp804_timer2_value
      then ok (
          if s.t2.stopped
          then s.reg index
          else counted now (s.reg reg_sp804_timer2_control) (s.reg reg_sp804_timer2_value) s.t2)
      else if index == reg_sp804_timer1_bgload
      then ok (s.reg reg_sp804_timer1_load)
      else if index == reg_sp804_timer2_bgload
      then ok (s.reg reg_sp804_timer2_load)
      else if index == reg_sp804_timer1_intclr
          || index == reg_sp804_timer2_intclr
          || index == reg_sp804_timer_itop
      then fault tlm_err
      else ok (s.reg index)

unfoldable pub write_t1_control : ℕ → ℕ → Sp804 → Result Sp804
write_t1_control now value s =
    let prev = s.reg reg_sp804_timer1_control in
    let s1 = record s { reg = update s.reg reg_sp804_timer1_control value } in
    if bit_set prev 7
    then (if bit_set value 7
        then (if bit_and prev 0x4F == bit_and value 0x4F then ok s1 else fault tlm_err)
        else ok (stop_t1_counter now s1))
    else if bit_set value 7
    then (if bit_and value 0xC == 0xC then fault tlm_err else ok (start_t1_counter now s1))
    else ok s1

unfoldable pub write_t2_control : ℕ → ℕ → Sp804 → Result Sp804
write_t2_control now value s =
    let prev = s.reg reg_sp804_timer2_control in
    let s1 = record s { reg = update s.reg reg_sp804_timer2_control value } in
    if bit_set prev 7
    then (if bit_set value 7
        then (if bit_and prev 0x4F == bit_and value 0x4F then ok s1 else fault tlm_err)
        else ok (stop_t2_counter now s1))
    else if bit_set value 7
    then (if bit_and value 0xC == 0xC then fault tlm_err else ok (start_t2_counter now s1))
    else ok s1

unfoldable pub write_t1_load : ℕ → ℕ → Sp804 → Sp804
write_t1_load now value s =
    let regs =
      (if s.reg reg_sp804_timer1_bgload == 0
        then update s.reg reg_sp804_timer1_load value
        else s.reg) in
    start_t1_counter now (record s { reg = update regs reg_sp804_timer1_value value })

unfoldable pub write_t2_load : ℕ → ℕ → Sp804 → Sp804
write_t2_load now value s =
    let regs =
      (if s.reg reg_sp804_timer2_bgload == 0
        then update s.reg reg_sp804_timer2_load value
        else s.reg) in
    start_t2_counter now (record s { reg = update regs reg_sp804_timer2_value value })

-- The read-only labels of the write switch; the eight identification registers are consecutive.
unfoldable pub is_read_only : ℕ → Bool
is_read_only index =
    index == reg_sp804_timer1_value
    || index == reg_sp804_timer2_value
    || index == reg_sp804_timer1_ris
    || index == reg_sp804_timer2_ris
    || index == reg_sp804_timer1_mis
    || index == reg_sp804_timer2_mis
    || (leb reg_sp804_periphid0 index && leb index reg_sp804_pcellid3)

-- The switch of `reg_wr`.
unfoldable pub write_switch : ℕ → ℕ → ℕ → Sp804 → Result Sp804
write_switch now index value s =
    if index == reg_sp804_timer1_control
    then write_t1_control now value s
    else if index == reg_sp804_timer2_control
    then write_t2_control now value s
    else if index == reg_sp804_timer1_intclr
    then ok (record s { reg = update s.reg reg_sp804_timer1_ris 0 })
    else if index == reg_sp804_timer2_intclr
    then ok (record s { reg = update s.reg reg_sp804_timer2_ris 0 })
    else if index == reg_sp804_timer1_load
    then ok (write_t1_load now value s)
    else if index == reg_sp804_timer2_load
    then ok (write_t2_load now value s)
    else if index == reg_sp804_timer1_bgload
    then ok (record s {
      reg = update (update s.reg reg_sp804_timer1_bgload 1) reg_sp804_timer1_load value;
    })
    else if index == reg_sp804_timer2_bgload
    then ok (record s {
      reg = update (update s.reg reg_sp804_timer2_bgload 1) reg_sp804_timer2_load value;
    })
    else if is_read_only index
    then fault tlm_err
    else ok (record s { reg = update s.reg index value })

unfoldable pub reg_wr : ℕ → ℕ → ℕ → Sp804 → Result Sp804
reg_wr now offset value s = do
  let index = offset / 4
  check (ltb index reg_sp804_count) assertion
  s' ← write_switch now index value s
  ok (update_int s')
