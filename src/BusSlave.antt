-- ===== src/BusSlave.antt =====
-- The blocking and the debug transport of a slave with memory, src/tlm_blocks/Generic/BusSlave/BusSlave.h.
-- `m_data` is `words`, indexed by word, and `m_size` the size in bytes. The transport starts at the
-- end of its internal delay, and its transaction has passed TLM_TRANS_SANITY.
pub mod Access
pub mod Debug
mod Tests
use open_socemu.Base.{
  ℕ, zero, suc, ◌+◌, ◌-◌, ◌*◌, ◌/◌, ◌%◌, Bool, bit_and, update, ltb, leb, ◌==◌, if◌then◌else◌,
  Result, ok, fault, assertion, report_fatal, check, ◌>>=◌, ◌>>◌,
}
use open_socemu.Base.Fields.{extract, insert}

pub record BusSlave : Type 0 where
  pub words : ℕ → ℕ
  pub size : ℕ

pub data Command : Type 0 where
  read_command write_command : Command

-- The length as a mask.
unfoldable pub length_mask : ℕ → Result ℕ
length_mask length =
    if length == 1
    then ok 0xFF
    else if length == 2
    then ok 0xFFFF
    else if length == 4
    then ok 0xFFFFFFFF
    else fault report_fatal

-- The checks of an access: its mask and its shift.
unfoldable pub lanes : ℕ → ℕ → ℕ → Result (ℕ × ℕ)
lanes length addr size = do
  check (leb length 4) assertion
  check (ltb 0 length) assertion
  check (ltb (addr / 4) (size / 4)) assertion
  check (leb length (4 - bit_and addr 3)) report_fatal
  mask ← length_mask length
  ok (mask, bit_and addr 3 * 8)

-- The word behind the data pointer after the transport, and the slave.
unfoldable pub slave_b_transport : Command → ℕ → ℕ → ℕ → BusSlave → Result (ℕ × BusSlave)
slave_b_transport command length addr ptr s = do
  (mask, shift) ← lanes length addr s.size
  let index = addr / 4
  elim command [
    | read_command ↦ ok (extract (s.words index) mask shift, s)
    | write_command ↦
        ok (ptr, record s { words = update s.words index (insert (s.words index) mask shift ptr) })
  ]

-- `memcpy` from and to the bytes of the words, the low byte of a word first.
unfoldable pub get_byte : (ℕ → ℕ) → ℕ → ℕ
get_byte words a = extract (words (a / 4)) 0xFF (a % 4 * 8)

unfoldable pub put_byte : ℕ → ℕ → (ℕ → ℕ) → (ℕ → ℕ)
put_byte a value words = update words (a / 4) (insert (words (a / 4)) 0xFF (a % 4 * 8) value)

unfoldable pub put_bytes : ℕ → ℕ → (ℕ → ℕ) → (ℕ → ℕ) → (ℕ → ℕ)
put_bytes zero a bytes words = words
put_bytes (suc n) a bytes words = put_byte (a + n) (bytes n) (put_bytes n a bytes words)

-- The number of bytes copied, which is returned.
unfoldable pub count : ℕ → ℕ → ℕ → ℕ
count length addr size = if leb (addr + length) size then length else size - addr

-- The count, the bytes behind the data pointer after the transport, and the slave.
unfoldable pub slave_dbg_transport :
    Command → ℕ → ℕ → (ℕ → ℕ) → BusSlave → Result (ℕ × (ℕ → ℕ) × BusSlave)
slave_dbg_transport command length addr bytes s = do
  let n = count length addr s.size
  check (ltb addr s.size) assertion
  elim command [
    | read_command ↦ ok (n, (λ k. (if ltb k n then get_byte s.words (addr + k) else bytes k)), s)
    | write_command ↦ ok (n, bytes, record s { words = put_bytes n addr bytes s.words })
  ]
