-- ===== src/Spi.antt =====
-- The interface to a serial flash of src/tlm_blocks/Mc13224v/Spi/Spi.h and Spi.cpp, which only tells
-- its identity. The accessors of register fields are written out. How long an access takes is not
-- modelled: its event is pending from the start, and the thread may run then.
pub mod Regs
pub mod Identity
mod Tests
use open_socemu.Base.{
  ℕ, ◌+◌, ◌-◌, ◌/◌, Bool, true, false, not, ◌||◌, ◌==◌, ltb, leb, if◌then◌else◌, Option, none, some,
  bit_and, bit_or, bit_not, bit_set, nonzero, shr, raise_bit, drop_bit, update, Result, ok, fault,
  assertion, tlm_err, undefined, check, ◌>>=◌, ◌>>◌,
}
use Regs.{
  spi_tx_data_index, spi_rx_data_index, spi_clk_ctrl_index, spi_setup_index, spi_status_index,
  reg_spi_count, spi_start_bit, spi_overflow_bit, spi_int_bit,
}

-- `active` and `event` are those of the structure m_flash.
pub record Spi : Type 0 where
  pub reg : ℕ → ℕ
  pub active : Bool
  pub event : Bool
  pub interrupt : Bool

abbrev pub new : Spi
new = record { reg = λ _. 0; active = false; event = false; interrupt = false }

abbrev pub sck_count : Spi → ℕ
sck_count s = shr (bit_and (s.reg spi_clk_ctrl_index) 0xFF00) 8

abbrev pub data_length : Spi → ℕ
data_length s = bit_and (s.reg spi_clk_ctrl_index) 0x7F

abbrev pub ss_setup : Spi → ℕ
ss_setup s = bit_and (s.reg spi_setup_index) 3

unfoldable pub check_int : Spi → Spi
check_int s = record s { interrupt = bit_set (s.reg spi_status_index) 0 }

abbrev pub set_reg : ℕ → ℕ → Spi → Spi
set_reg index value s = record s { reg = update s.reg index value }

abbrev pub is_read_id : ℕ → Bool
is_read_id opcode = opcode == 0x90 || opcode == 0xAB

-- `31-bitcount`; none when it is negative.
unfoldable pub places : Spi → Option ℕ
places s =
    if ltb (31 + data_length s) (sck_count s) then none else some (31 + data_length s - sck_count s)

-- The identity, moved by a number of places. A shift by 32 or more is undefined.
unfoldable pub identity : Option ℕ → Spi → Result Spi
identity none s = fault undefined
identity (some k) s =
    check (ltb k 32) undefined >> ok (set_reg spi_rx_data_index (shr 0xBF02BF02 k) s)

-- One round of the thread, at its event, which is spent.
unfoldable pub thread_flash : Spi → Result Spi
thread_flash s = do
  let t = record s { active = false; event = false }
  u ←
      (if is_read_id (shr (t.reg spi_tx_data_index) 24)
        then check (data_length t == 32) tlm_err >> identity (places t) t
        else ok t)
  ok (check_int (set_reg spi_status_index (raise_bit (u.reg spi_status_index) 0) u))

-- A start: the checks, and the notification of the event.
unfoldable pub start_access : Spi → Result Spi
start_access s = do
  check (not s.active) tlm_err
  check (ss_setup s == 1 || ss_setup s == 2) tlm_err
  check (leb (data_length s) (sck_count s + 1)) tlm_err
  ok (record (set_reg spi_status_index (drop_bit (s.reg spi_status_index) 0) s) {
    active = true;
    event = true;
  })

-- The switch of `reg_wr`.
unfoldable pub write_switch : ℕ → ℕ → Spi → Result Spi
write_switch index value s =
    if index == spi_rx_data_index
    then fault tlm_err
    else if index == spi_clk_ctrl_index
    then (let t = set_reg index (bit_and value (bit_not spi_start_bit)) s in
        if nonzero (bit_and value spi_start_bit) then start_access t else ok t)
    else if index == spi_status_index
    then (let clear = bit_and value (bit_or spi_int_bit spi_overflow_bit) in
        ok (set_reg index (bit_and (s.reg index) (bit_not clear)) s))
    else ok (set_reg index value s)

unfoldable pub reg_wr : ℕ → ℕ → Spi → Result Spi
reg_wr offset value s = do
  let index = offset / 4
  check (ltb index reg_spi_count) assertion
  t ← write_switch index value s
  ok (check_int t)

unfoldable pub reg_rd : ℕ → Spi → Result ℕ
reg_rd offset s = do
  let index = offset / 4
  check (ltb index reg_spi_count) assertion
  ok (s.reg index)
