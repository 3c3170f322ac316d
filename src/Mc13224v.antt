-- ===== src/Mc13224v.antt =====
-- The clock and reset module and the interrupt controller of the Mc13224v as
-- src/tlm_blocks/Mc13224v/Mc13224v.cpp connects them: the Crm drives the slave 3 of the Itc, and both
-- stand behind their sockets. The other slaves of the Itc call its methods with their own number.
pub mod Driven
pub mod Sources
pub mod Lines
pub mod Wakeup
mod Tests
use open_socemu.Base.{ℕ, ◌*◌, Bool, true, false, if◌then◌else◌, Result, ok, ◌>>=◌}
use open_socemu.Tlm.{Payload, Transport}
use open_socemu.IntLine.{IntSlave}
use open_socemu.Peripheral.{Registers}
use open_socemu.Crm.{Crm, reg_crm_count}
use open_socemu.Itc.{Itc, interrupt_set, interrupt_clr}
use open_socemu.BusSlave.{BusSlave, write_command, slave_dbg_transport}

pub record Mc13224v : Type 0 where
  pub crm : Crm
  pub slave : IntSlave Itc

-- After the constructor, and when the SRAM was preloaded.
unfoldable pub new : Bool → Mc13224v
new preloaded = record {
  crm = if preloaded then open_socemu.Crm.set_status 3 open_socemu.Crm.new else open_socemu.Crm.new;
  slave = record { owner = open_socemu.Itc.new; state = false };
}

-- The slave 3 of the Itc.
unfoldable pub int_slave : Transport (IntSlave Itc)
int_slave t s = open_socemu.IntLine.slave_b_transport (interrupt_set 3) (interrupt_clr 3) t s

unfoldable pub crm_rd : ℕ → Mc13224v → Result (ℕ × Mc13224v)
crm_rd offset m = do
  (value, crm, slave) ← open_socemu.Crm.reg_rd int_slave offset m.crm m.slave
  ok (value, record { crm = crm; slave = slave })

unfoldable pub crm_wr : ℕ → ℕ → Mc13224v → Result Mc13224v
crm_wr offset value m = do
  (crm, slave) ← open_socemu.Crm.reg_wr int_slave offset value m.crm m.slave
  ok (record { crm = crm; slave = slave })

-- What the owner of the slave 3 becomes by another path.
unfoldable pub on_itc : (Itc → Result Itc) → Mc13224v → Result Mc13224v
on_itc f m = do itc ← f m.slave.owner; ok (record m { slave = record (m.slave) { owner = itc } })

unfoldable pub itc_rd : ℕ → Mc13224v → Result (ℕ × Mc13224v)
itc_rd offset m = do value ← open_socemu.Itc.reg_rd offset m.slave.owner; ok (value, m)

unfoldable pub itc_wr : ℕ → ℕ → Mc13224v → Result Mc13224v
itc_wr offset value m = on_itc (open_socemu.Itc.reg_wr offset value) m

unfoldable pub crm_registers : Registers Mc13224v
crm_registers = record { reg_rd = crm_rd; reg_wr = crm_wr }

unfoldable pub itc_registers : Registers Mc13224v
itc_registers = record { reg_rd = itc_rd; reg_wr = itc_wr }

-- The debug transport of the Crm, for a write: that of its base class.
unfoldable pub crm_dbg_write : ℕ → ℕ → (ℕ → ℕ) → Mc13224v → Result (ℕ × Mc13224v)
crm_dbg_write length addr bytes m = do
  (n, bytes', s) ←
      slave_dbg_transport write_command length addr bytes
        (record { words = m.crm.reg; size = 4 * reg_crm_count })
  ok (n, record m { crm = record (m.crm) { reg = s.words } })
