-- ===== src/Spif.antt =====
-- The interface to the serial flash of src/tlm_blocks/Mc13224v/Spif/Spif.h and Spif.cpp.
-- The accessors of register fields (`spif_sck_count_getf` and the like) are written out. How long an
-- access takes is not modelled: its event is pending from the start, and the thread may run then.
pub mod Regs
pub mod Interrupts
pub mod Reading
mod Tests
use open_socemu.Base.{
  ℕ, ◌+◌, ◌-◌, ◌*◌, ◌/◌, ◌%◌, ◌^◌, Bool, true, false, not, ◌&&◌, ◌||◌, ◌==◌, ltb, leb,
  if◌then◌else◌, Option, none, some, bit_and, bit_or, bit_not, bit_set, get_field, nonzero, shr,
  u32, raise_bit, drop_bit, update, Result, ok, fault, assertion, tlm_err, undefined, check, ◌>>=◌,
  ◌>>◌,
}
use Regs.{
  spif_tx_data_index, spif_rx_data_index, spif_clk_ctrl_index, spif_setup_index, spif_status_index,
  reg_spif_count, spif_start_bit, spif_overflow_bit, spif_int_bit,
}

-- `flash` is the structure m_flash, with the pending event.
pub record Flash : Type 0 where
  pub size : ℕ
  pub contents : ℕ → ℕ
  pub active : Bool
  pub opcode : ℕ
  pub event : Bool
  pub curaddr : ℕ

pub record Spif : Type 0 where
  pub reg : ℕ → ℕ
  pub flash : Flash
  pub interrupt : Bool

unfoldable pub new : (ℕ → ℕ) → ℕ → Spif
new flashdata flashsize = record {
  reg = λ _. 0;
  flash = record {
    size = flashsize;
    contents = flashdata;
    active = false;
    opcode = 0;
    event = false;
    curaddr = 0;
  };
  interrupt = false;
}

abbrev pub sck_count : Spif → ℕ
sck_count s = shr (bit_and (s.reg spif_clk_ctrl_index) 0xFF00) 8

abbrev pub data_length : Spif → ℕ
data_length s = bit_and (s.reg spif_clk_ctrl_index) 0x7F

abbrev pub ss_setup : Spif → ℕ
ss_setup s = bit_and (s.reg spif_setup_index) 3

unfoldable pub check_int : Spif → Spif
check_int s = record s { interrupt = bit_set (s.reg spif_status_index) 0 }

abbrev pub set_reg : ℕ → ℕ → Spif → Spif
set_reg index value s = record s { reg = update s.reg index value }

abbrev pub is_read_id : ℕ → Bool
is_read_id opcode = opcode == 0x90 || opcode == 0xAB

-- The opcode of a new command, with the checks of its length and address.
unfoldable pub receive : Spif → Result Flash
receive s = do
  let tx = s.reg spif_tx_data_index
  let opcode = shr tx 24 % 2 ^ 8
  let flash = record s.flash { opcode = opcode }
  if is_read_id opcode
      then check (data_length s == 32) tlm_err >> ok flash
      else if opcode == 0x03
      then (do
        let address = bit_and tx 0x00FFFFFF
        check (data_length s == 32) tlm_err
        check (bit_and address 3 == 0) tlm_err
        ok (record flash { curaddr = address }))
      else ok flash

-- The number of bits after the ones sent; none when it is negative.
unfoldable pub extra_bits : Spif → Option ℕ
extra_bits s =
    let clocks = sck_count s + 1 in
    if ltb clocks (data_length s) then none else some (clocks - data_length s)

-- `htonl(U32(m_flash.data[m_flash.curaddr]))`: four bytes, the one at the address first.
unfoldable pub flash_word : Flash → ℕ
flash_word f =
    let byte = (λ (k : ℕ). f.contents k % 2 ^ 8) in
    byte f.curaddr * 2 ^ 24
    + byte (f.curaddr + 1) * 2 ^ 16
    + byte (f.curaddr + 2) * 2 ^ 8
    + byte (f.curaddr + 3)

-- What the flash answers to a number of bits: its identity, or the word at its address. A shift by
-- 32 or more is undefined, and so is a read outside of the flash.
unfoldable pub respond_id : Flash → Option ℕ → Spif → Result Spif
respond_id f none s = fault undefined
respond_id f (some n) s =
    check (ltb 0 n) undefined
    >> ok (record (set_reg spif_rx_data_index (shr 0xBF02BF02 (32 - n)) s) { flash = f })

unfoldable pub respond_word : Flash → Option ℕ → Spif → Result Spif
respond_word f none s = fault undefined
respond_word f (some n) s =
    let word = if n == 0 then 0 else shr (flash_word f) (32 - n) in
    check (n == 0 || leb (f.curaddr + 4) f.size) undefined
    >> ok (record (set_reg spif_rx_data_index word s) {
      flash = record f { curaddr = u32 (f.curaddr + n / 8) };
    })

unfoldable pub respond : Flash → Option ℕ → Spif → Result Spif
respond f bits s =
    if is_read_id f.opcode
    then respond_id f bits s
    else if f.opcode == 0x03
    then respond_word f bits s
    else ok (record s { flash = f })

-- The end of an access.
unfoldable pub finish : Spif → Spif
finish s =
    let f = record s.flash {
      active = false;
      opcode = if ltb (ss_setup s) 2 then 0 else s.flash.opcode;
    } in
    check_int
      (record (set_reg spif_status_index (raise_bit (s.reg spif_status_index) 0) s) { flash = f })

-- One round of the thread, at its event, which is spent.
unfoldable pub thread_flash : Spif → Result Spif
thread_flash s = do
  let first = s.flash.opcode == 0
  f ← (if first then receive s else ok s.flash)
  let bits = if first then extra_bits s else some (sck_count s + 1)
  check (elim bits [ none ↦ true | some n ↦ leb n 32 ]) tlm_err
  t ← respond (record f { event = false }) bits s
  ok (finish t)

-- A start: the checks, and the notification of the event.
unfoldable pub start_access : Spif → Result Spif
start_access s = do
  check (not s.flash.active) tlm_err
  check (ss_setup s == 1 || ss_setup s == 2) tlm_err
  check (leb (data_length s) (sck_count s + 1)) tlm_err
  ok (record (set_reg spif_status_index (drop_bit (s.reg spif_status_index) 0) s) {
    flash = record s.flash { active = true; event = true };
  })

-- The switch of `reg_wr`.
unfoldable pub write_switch : ℕ → ℕ → Spif → Result Spif
write_switch index value s =
    if index == spif_rx_data_index
    then fault tlm_err
    else if index == spif_clk_ctrl_index
    then (let t = set_reg index (bit_and value (bit_not spif_start_bit)) s in
        if nonzero (bit_and value spif_start_bit) then start_access t else ok t)
    else if index == spif_setup_index
    then (let t = set_reg index value s in
        ok (if ss_setup t == 3 then record t { flash = record t.flash { opcode = 0 } } else t))
    else if index == spif_status_index
    then (let clear = bit_and value (bit_or spif_int_bit spif_overflow_bit) in
        ok (set_reg index (bit_and (s.reg index) (bit_not clear)) s))
    else ok (set_reg index value s)

unfoldable pub reg_wr : ℕ → ℕ → Spif → Result Spif
reg_wr offset value s = do
  let index = offset / 4
  check (ltb index reg_spif_count) assertion
  t ← write_switch index value s
  ok (check_int t)

unfoldable pub reg_rd : ℕ → Spif → Result ℕ
reg_rd offset s = do
  let index = offset / 4
  check (ltb index reg_spif_count) assertion
  ok (s.reg index)
