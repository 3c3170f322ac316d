-- ===== src/Crm/Tests.antt =====
-- Runs of the Crm with an interrupt that leads to a flag.
use open_socemu.Base.{ℕ, Bool, ◌≡◌, refl, true, false, Result, ok, fault, assertion, tlm_err, ◌>>=◌}
use open_socemu.IntLine.{IntSlave, slave_b_transport}
use open_socemu.Tlm.{Transport}
use open_socemu.Crm.{Crm, new, set_status, reg_rd, reg_wr, status_index}

abbrev flag : Transport (IntSlave Bool)
flag = slave_b_transport (λ _. ok true) (λ _. ok false)

-- The value read, the flag and STATUS after a read of the status.
abbrev read_status : ℕ → Result (ℕ × Bool × ℕ)
read_status status = do
  (value, c, s) ← reg_rd flag 24 (set_status status new) (record { owner = false; state = false })
  ok (value, s.owner, c.reg status_index)

abbrev write_to : ℕ → ℕ → ℕ → Result (Bool × ℕ)
write_to offset status value = do
  (c, s) ←
      reg_wr flag offset value (set_status status new) (record { owner = false; state = false })
  ok (s.owner, c.reg status_index)

crm_runs :
    (read_status 0x43 ≡ ok (0x43, true, 0x43))
    × (read_status 0x603 ≡ ok (0x603, false, 0x603))
    × (write_to 24 0x453 0x412 ≡ ok (true, 0x441))
    × (write_to 24 0x453 0xFFFFFFFF ≡ ok (false, 0x400))
    × (write_to 28 0 1 ≡ fault tlm_err)
    × (write_to 84 0 1 ≡ fault assertion)
unfolding reg_rd reg_wr set_status new open_socemu.Crm.write_switch open_socemu.Crm.check_int
    open_socemu.Crm.ext_wu_evt_getf open_socemu.Base.get_field open_socemu.IntLine.set
    open_socemu.IntLine.clear slave_b_transport open_socemu.IntLine.new open_socemu.Tlm.int_set
    open_socemu.Tlm.int_clr open_socemu.Tlm.b_wr_word open_socemu.Tlm.b_trans
    open_socemu.Tlm.word_sanity
crm_runs = (refl, refl, refl, refl, refl, refl)
