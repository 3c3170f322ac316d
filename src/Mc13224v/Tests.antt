-- ===== src/Mc13224v/Tests.antt =====
-- Runs of the Crm with the Itc, and the theorems at concrete states.
use open_socemu.Base.{
  ℕ, ◌*◌, ◌^◌, ◌<◌, ◌≡◌, refl, Bool, true, false, not, ◌&&◌, ◌||◌, ◌==◌, ltb, ok, arith, update,
  if◌then◌else◌,
}
use open_socemu.Base.Bits.{test_bit}
use open_socemu.Tlm.{
  Payload, IsReady, write_command, ok_response, b_wr_word, b_rd_word, word_sanity,
}
use open_socemu.Peripheral.{slave_b_transport}
use open_socemu.BusSlave.{put_bytes, put_byte, slave_dbg_transport, count}
use open_socemu.Crm.{status_index}
use open_socemu.Crm.Status.{wakes}
use open_socemu.Itc.{check_int}
use open_socemu.Itc.Regs.{intsrc_index, intenable_index}
use open_socemu.Mc13224v.{
  Mc13224v, new, crm_registers, itc_registers, crm_dbg_write, itc_wr, on_itc,
}
use open_socemu.Mc13224v.Lines.{Reach, start, access_itc, debug_crm, IsWired, Reach-IsWired}
use open_socemu.Mc13224v.Wakeup.{write_status-events, read_register-wakes}

abbrev idle : Payload
idle = open_socemu.IntLine.new.master_b_pl

abbrev idle-IsReady : IsReady idle
unfolding open_socemu.IntLine.new
idle-IsReady = record { width = refl; no_mask = refl }

-- The processor enables the interrupt 3.
abbrev enable : Payload
enable = record idle { command = write_command; address = 16; data_word = 8; data_length = 4 }

abbrev enabled : Mc13224v
enabled = record (new true) {
  slave = record ((new true).slave) {
    owner = check_int (record ((new true).slave.owner) {
      reg = update (new true).slave.owner.reg intenable_index 8;
    });
  };
}

-- A debugger then sets an external wake-up event in STATUS.
abbrev event : ℕ → ℕ
event k = if k == 0 then 0x13 else 0

abbrev woken : Mc13224v
woken = record enabled { crm = record (enabled.crm) { reg = put_bytes 4 24 event enabled.crm.reg } }

enabled_runs :
    slave_b_transport itc_registers enable (new true)
    ≡ ok (record enable { response = ok_response }, enabled)
unfolding slave_b_transport itc_registers itc_wr on_itc open_socemu.Itc.reg_wr
    open_socemu.Itc.write_switch word_sanity open_socemu.IntLine.new
enabled_runs = refl

woken_runs : crm_dbg_write 4 24 event enabled ≡ ok (4, woken)
unfolding crm_dbg_write slave_dbg_transport count
woken_runs = refl

woken-Reach : Reach woken 0
unfolding open_socemu.IntLine.new
woken-Reach =
    debug_crm 4 24 4 event (access_itc enable _ (start true) (omega arith) enabled_runs) woken_runs

-- The event waits in STATUS, and the line does not tell of it.
stale_runs :
    (woken.crm.reg status_index ≡ 0x13)
    × (woken.slave.state ≡ false)
    × (test_bit (woken.slave.owner.reg intsrc_index) 3 ≡ false)
unfolding new put_bytes put_byte open_socemu.Base.Fields.insert test_bit check_int
    open_socemu.Crm.new open_socemu.Crm.set_status open_socemu.Itc.new
stale_runs = (refl, refl, refl)

Reach-IsWired_example : IsWired 0 woken
Reach-IsWired_example = Reach-IsWired woken-Reach

write_status-events_example :
    (t' : Payload) × (m' : Mc13224v) × (b_wr_word
        (slave_b_transport crm_registers)
        idle
        (4 * status_index)
        0x12
        woken
      ≡ ok (t', m'))
    × (test_bit (m'.crm.reg status_index) 4
        ≡ (test_bit (woken.crm.reg status_index) 4 && not (test_bit 0x12 4 && (ltb 4 8 || 4 == 9))))
    × (test_bit (m'.slave.owner.reg intsrc_index) 4 ≡ (
        if 4 == 3
        then wakes (m'.crm.reg status_index)
        else test_bit (woken.slave.owner.reg intsrc_index) 4))
write_status-events_example =
    write_status-events idle 0x12 0 4 woken idle-IsReady (Reach-IsWired woken-Reach) (omega arith)

read_register-wakes_example :
    (t' : Payload) × (m' : Mc13224v) × (b_rd_word
        (slave_b_transport crm_registers)
        idle
        (4 * 6)
        0
        woken
      ≡ ok (t', m'))
    × (t'.data_word ≡ woken.crm.reg 6)
    × (m'.slave.owner.irq ≡ true)
unfolding new put_bytes put_byte open_socemu.Base.Fields.insert test_bit check_int
    open_socemu.Crm.new open_socemu.Crm.set_status open_socemu.Itc.new
    open_socemu.Base.Search.any_below
read_register-wakes_example =
    read_register-wakes idle 6 0 0 woken idle-IsReady (Reach-IsWired woken-Reach) (omega arith) refl
      refl refl refl refl
