-- ===== src/CpuBase/Memory.antt =====
-- The memory of a processor, written and read by commands of the debugger.
use mathlib.Core.List.{append-nil}
use open_socemu.Base.{
  ℕ, zero, suc, ◌+◌, ◌*◌, ◌^◌, ◌<◌, ◌≤◌, ◌≡◌, refl, ap, ◌∙◌, true, List, [], ◌∷◌, leb, ltb, ◌==◌,
  some, ok, arith,
}
use open_socemu.Base.Lists.{length}
use open_socemu.BusSlave.{slave_dbg_transport, put_bytes, count}
use open_socemu.BusSlave.Debug.{get_byte-put_bytes}
use open_socemu.Gdb.{Server, put_packet}
use open_socemu.Gdb.Hex.{memtohex, hextomem}
use open_socemu.Gdb.Commands
use open_socemu.Gdb.Commands.{
  field, skip_char, handle_packet, dispatch, write_memory, read_memory, put_memory, reply_ok,
}
use open_socemu.Gdb.Digits.{
  AreBytes, AreNibbles, numeral, value_after, field-numeral, hextomem-memtohex,
}
use open_socemu.CpuBase.{CpuBase, callbacks, from_array, to_array, gdb_rd_mem, gdb_wr_mem}

to_array-lt : (mem : List ℕ) (k : ℕ) → AreBytes mem → to_array mem k < 256
unfolding to_array
to_array-lt [] k h = omega arith
to_array-lt (c ∷ mem) zero (hc, hmem) = hc
to_array-lt (c ∷ mem) (suc k) (hc, hmem) = to_array-lt mem k hmem

from_array-to_array :
    (mem : List ℕ) (bytes : ℕ → ℕ)
    → ((k : ℕ) → k < length mem → bytes k ≡ to_array mem k)
    → from_array (length mem) bytes ≡ mem
unfolding from_array to_array
from_array-to_array [] bytes h = refl
from_array-to_array (c ∷ mem) bytes h = rw (h 0 (omega arith)) (
    rw
      (from_array-to_array mem (λ k. bytes (k + 1))
        (λ k lt. ap bytes (omega arith) ∙ h (suc k) (omega arith)))
      refl)

-- The memory after a write that fits.
abbrev pub stored : ℕ → List ℕ → CpuBase → CpuBase
stored addr mem c = record c {
  memory = record c.memory { words = put_bytes (length mem) addr (to_array mem) c.memory.words };
}

gdb_wr_mem-stored :
    (addr : ℕ) (mem : List ℕ) (c : CpuBase)
    → addr < c.memory.size
    → addr + length mem ≤ c.memory.size
    → gdb_wr_mem addr mem c ≡ ok (some (length mem), stored addr mem c)
unfolding gdb_wr_mem slave_dbg_transport count
gdb_wr_mem-stored addr mem c inside fits =
    let start : ltb addr c.memory.size ≡ true = ground arith in
    let whole : leb (addr + length mem) c.memory.size ≡ true = ground arith in
    rw start (rw whole refl)

gdb_rd_mem-stored :
    (addr : ℕ) (mem : List ℕ) (c : CpuBase)
    → AreBytes mem
    → addr < c.memory.size
    → addr + length mem ≤ c.memory.size
    → gdb_rd_mem addr (length mem) (stored addr mem c) ≡ ok (some mem)
unfolding gdb_rd_mem slave_dbg_transport count
gdb_rd_mem-stored addr mem c bytes inside fits =
    let start : ltb addr c.memory.size ≡ true = ground arith in
    let whole : leb (addr + length mem) c.memory.size ≡ true = ground arith in
    rw start (
      rw whole (
        ap (λ l. ok (some l))
          (from_array-to_array mem _ (λ k lt.
            let below : ltb k (length mem) ≡ true = ground arith in
            rw below (
              get_byte-put_bytes (length mem) addr k (to_array mem) c.memory.words lt
              ∙ omega (arith, to_array-lt mem k bytes))))))

whole_memory : (mem : List ℕ) → AreBytes mem → hextomem (memtohex mem) (length mem) ≡ ok mem
whole_memory mem h = rw (append-nil (memtohex mem)) at (hextomem-memtohex mem [] h)

-- The commands to write bytes at an address, and to read them. The numbers are given by their digits,
-- of which there can be leading zeros.
unfoldable pub write_command_of : List ℕ → List ℕ → List ℕ → List ℕ
write_command_of address len mem = b'M' ∷ numeral address (b',' ∷ numeral len (b':' ∷ memtohex mem))

unfoldable pub read_command_of : List ℕ → List ℕ → List ℕ
read_command_of address len = b'm' ∷ numeral address (b',' ∷ numeral len [])

-- A command to write bytes into the memory behind the processor, at an address and in a number that
-- fit, is answered with OK; it changes the processor, and no other part of the server than the
-- connection. A command to read as many bytes there, which any server gets that is on that processor,
-- is answered with the digits of the bytes that were written. The digits of the bytes, with a zero
-- behind them, have to fit in 4096 bytes.
pub handle_packet-write_read :
    (a l : ℕ) (address len mem : List ℕ) (s t : Server CpuBase)
    → AreNibbles (a ∷ address)
    → AreNibbles (l ∷ len)
    → AreBytes mem
    → value_after 0 (l ∷ len) ≡ length mem
    → length mem < 2048
    → value_after 0 (a ∷ address) < s.cpu.memory.size
    → value_after 0 (a ∷ address) + length mem ≤ s.cpu.memory.size
    → s.cpu.memory.size < 2 ^ 32
    → (c : CpuBase) × (handle_packet callbacks (write_command_of (a ∷ address) (l ∷ len) mem) s
        ≡ ok (put_packet reply_ok (record s { cpu = c })))
      × (handle_packet callbacks (read_command_of (a ∷ address) (l ∷ len)) (record t { cpu = c })
          ≡ ok (put_packet (memtohex mem) (record t { cpu = c })))
unfolding handle_packet dispatch write_command_of read_command_of write_memory read_memory
    put_memory Commands.gdb_wr_mem Commands.gdb_rd_mem callbacks
handle_packet-write_read a l address len mem s t ha hl bytes count_is short inside fits size =
    let addr = value_after 0 (a ∷ address) in
    let read_address =
      field-numeral b',' a address (b',' ∷ numeral (l ∷ len) []) ha refl refl (omega arith) in
    let write_address =
      field-numeral b',' a address (b',' ∷ numeral (l ∷ len) (b':' ∷ memtohex mem)) ha refl refl
        (omega arith) in
    let read_length = field-numeral 0 l len [] hl refl tt (omega arith) in
    let write_length = field-numeral b':' l len (b':' ∷ memtohex mem) hl refl refl (omega arith) in
    let room : leb (length mem) 4096 ≡ true = ground arith in
    let room_for_digits : leb (2 * length mem + 1) 4096 ≡ true = ground arith in
    let all_read : (length mem == length mem) ≡ true = ground arith in
    (
      stored addr mem s.cpu,
      rw write_address (
          rw write_length (
            rw count_is (
              rw room (
                rw (whole_memory mem bytes)
                  (rw (gdb_wr_mem-stored addr mem s.cpu inside fits) (rw all_read refl)))))),
      rw read_address (
          rw read_length (
            rw count_is (
              rw room (
                rw (gdb_rd_mem-stored addr mem s.cpu bytes inside fits) (
                  rw read_address
                    (rw read_length (rw count_is (rw all_read (rw room_for_digits refl))))))))),
    )
