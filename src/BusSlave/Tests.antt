-- ===== src/BusSlave/Tests.antt =====
-- Runs of the slave with memory, and its theorems at concrete accesses.
use open_socemu.Base.{
  ℕ, ◌+◌, ◌*◌, ◌<◌, ◌%◌, ◌^◌, ◌≡◌, refl, inl, inr, ok, fault, assertion, report_fatal, arith,
}
use open_socemu.Base.Fields.{extract, insert}
use open_socemu.BusSlave.{
  BusSlave, read_command, write_command, length_mask, lanes, slave_b_transport, slave_dbg_transport,
  count, put_bytes, put_byte,
}
use open_socemu.BusSlave.Access.{IsAccess, slave_b_transport-write_read}
use open_socemu.BusSlave.Debug.{slave_dbg_transport-write_read}

abbrev rom : BusSlave
rom = record { words = λ _. 0x12345678; size = 16 }

rom_runs :
    (slave_b_transport read_command 2 6 0 rom ≡ ok (0x1234, rom))
    × (slave_b_transport read_command 1 5 0 rom ≡ ok (0x56, rom))
    × (slave_b_transport read_command 2 7 0 rom ≡ fault report_fatal)
    × (slave_b_transport read_command 3 4 0 rom ≡ fault report_fatal)
    × (slave_b_transport read_command 4 16 0 rom ≡ fault assertion)
    × (slave_b_transport read_command 0 4 0 rom ≡ fault assertion)
    × (insert 0x12345678 0xFF 8 0x1AB ≡ 0x1234AB78)
unfolding slave_b_transport lanes length_mask extract insert
rom_runs = (refl, refl, refl, refl, refl, refl, refl)

half-IsAccess : IsAccess 2 6 16
half-IsAccess = record { width = inr (inl refl); bound = omega arith; within = omega arith }

byte-IsAccess : IsAccess 1 5 16
byte-IsAccess = record { width = inl refl; bound = omega arith; within = omega arith }

slave_b_transport-write_read_example :
    (t : BusSlave) × (slave_b_transport write_command 2 6 0x1BEEF rom ≡ ok (0x1BEEF, t))
    × (slave_b_transport read_command 2 6 0 t ≡ ok (0x1BEEF % 2 ^ (8 * 2), t))
slave_b_transport-write_read_example = slave_b_transport-write_read 2 6 0x1BEEF 0 rom half-IsAccess

rom_half : slave_b_transport read_command 2 6 0 rom ≡ ok (0x1234, rom)
unfolding slave_b_transport lanes length_mask extract
rom_half = refl

abbrev bytes : ℕ → ℕ
bytes k = 0xA0 + k

-- A debug access past the end is cut, and one that starts there is refused.
debug_runs :
    (t : BusSlave) × (slave_dbg_transport write_command 20 14 bytes rom ≡ ok (2, bytes, t))
    × (slave_b_transport read_command 4 12 0 t ≡ ok (0xA1A05678, t))
    × (slave_dbg_transport write_command 1 16 bytes rom ≡ fault assertion)
unfolding slave_dbg_transport count put_bytes put_byte slave_b_transport lanes length_mask extract
    insert
debug_runs = (record rom { words = put_bytes 2 14 bytes rom.words }, refl, refl, refl)

slave_dbg_transport-write_read_example :
    (t : BusSlave) × (n : ℕ) × (seen : ℕ → ℕ) × (slave_dbg_transport write_command 20 6 bytes rom
      ≡ ok (n, bytes, t))
    × (slave_dbg_transport read_command 20 6 (λ k. 0) t ≡ ok (n, seen, t))
    × (3 < n)
    × (seen 3 ≡ 0xA3)
    × (slave_b_transport read_command 1 9 0 t ≡ ok (0xA3, t))
slave_dbg_transport-write_read_example =
    slave_dbg_transport-write_read 20 6 3 0 bytes (λ k. 0) rom (omega arith) (omega arith)
      (omega arith)
