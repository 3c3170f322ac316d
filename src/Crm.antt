-- ===== src/Crm.antt =====
-- The clock and reset module of src/tlm_blocks/Mc13224v/Crm/Crm.h and Crm.cpp. The master socket of
-- its interrupt leads to a block of type S, whose transport is the argument master_socket.
-- A handler starts at the end of its internal delay.
pub mod Status
mod Tests
use open_socemu.Base.{
  ℕ, ◌/◌, Bool, ◌||◌, bit_and, bit_or, bit_not, get_field, nonzero, update, ltb, ◌==◌,
  if◌then◌else◌, Result, ok, fault, assertion, tlm_err, check, ◌>>=◌, ◌>>◌,
}
use open_socemu.Tlm.{Transport}
use open_socemu.IntLine.{IntMaster, set, clear}

abbrev pub status_index : ℕ
status_index = 6

abbrev mod_status_index : ℕ
mod_status_index = 7

abbrev wu_count_index : ℕ
wu_count_index = 8

abbrev cal_count_index : ℕ
cal_count_index = 0xE

abbrev pub reg_crm_count : ℕ
reg_crm_count = 21

pub record Crm : Type 0 where
  pub reg : ℕ → ℕ
  pub interrupt : IntMaster

unfoldable pub new : Crm
new = record { reg = λ _. 0; interrupt = open_socemu.IntLine.new }

unfoldable pub set_status : ℕ → Crm → Crm
set_status status c = record c { reg = update c.reg status_index status }

unfoldable pub ext_wu_evt_getf : (ℕ → ℕ) → ℕ
ext_wu_evt_getf reg = get_field (reg status_index) 0xF0 4

unfoldable pub check_int {ℓ} : {S : Type ℓ} → Transport S → Crm → S → Result (Crm × S)
check_int master_socket c s = do
  (interrupt, s') ←
      if nonzero (ext_wu_evt_getf c.reg)
      then set master_socket c.interrupt s
      else clear master_socket c.interrupt s
  ok (record c { interrupt = interrupt }, s')

unfoldable pub reg_rd {ℓ} : {S : Type ℓ} → Transport S → ℕ → Crm → S → Result (ℕ × Crm × S)
reg_rd master_socket offset c s = do
  let index = offset / 4
  check (ltb index reg_crm_count) assertion
  (c', s') ← check_int master_socket c s
  ok (c.reg index, c', s')

-- The bits of STATUS that a write of 1 clears: CAL_DONE_BIT, EXT_WU_EVT_MASK, RTC_WU_EVT_BIT,
-- DOZE_WU_EVT_BIT, HIB_WU_EVT_BIT and SLEEP_SYNC_BIT.
abbrev pub clear_bits : ℕ
clear_bits = bit_or (bit_or (bit_or (bit_or (bit_or 0x200 0xF0) 8) 4) 2) 1

-- The read-only labels of the write switch.
abbrev pub is_read_only : ℕ → Bool
is_read_only index =
    index == mod_status_index || index == wu_count_index || index == cal_count_index

-- The switch of `reg_wr`.
unfoldable pub write_switch : (ℕ → ℕ) → ℕ → ℕ → Result (ℕ → ℕ)
write_switch reg index value =
    if is_read_only index
    then fault tlm_err
    else if index == status_index
    then ok (update reg index (bit_and (reg index) (bit_not (bit_and value clear_bits))))
    else ok (update reg index value)

unfoldable pub reg_wr {ℓ} : {S : Type ℓ} → Transport S → ℕ → ℕ → Crm → S → Result (Crm × S)
reg_wr master_socket offset value c s = do
  let index = offset / 4
  check (ltb index reg_crm_count) assertion
  reg' ← write_switch c.reg index value
  check_int master_socket (record c { reg = reg' }) s
