-- ===== src/Gdb/Tests.antt =====
-- Runs of the server, and its theorems at concrete packets.
use open_socemu.Base.{
  ℕ, ◌*◌, ◌≡◌, refl, true, false, ◌||◌, ◌==◌, List, [], ◌∷◌, ◌++◌, if◌then◌else◌, none, ok, fault,
  undefined, ◌>>=◌, arith, bit_or,
}
use open_socemu.Gdb.{
  Server, GdbCb, Arrival, byte, pause, new, ds_idle, ds_getline, checksum, packet, put_buffer,
  put_packet, await_ack, tohex,
}
use open_socemu.Gdb.Hex.{fromhex, memtohex, hextomem}
use open_socemu.Gdb.Numbers.{strto, skip_space, sign, skip_prefix, digits}
use open_socemu.Gdb.Commands.{handle_packet, until_nul, dispatch, resume_at}
use open_socemu.Gdb.Decode.{read_byte, read_byte_in, read_bytes, begin_packet, get_line, end_packet}
use open_socemu.Gdb.Session.{handlesig, before_exec_insn}
use open_socemu.Gdb.Framing.{taken, read_bytes-packet, read_bytes-corrupted}
use open_socemu.Gdb.Bounds.{IsHeard, read_bytes-IsHeard}
use open_socemu.Gdb.Resume.{burst, resumed}
use open_socemu.Gdb.Breakpoints.{breakpoint_command, breakpoint_set_and_removed}

-- A processor that is its program counter.
abbrev counter : GdbCb ℕ
counter = record {
  gdb_set_pc_cb = λ pc c. pc;
  gdb_rd_reg_cb = λ c. c ∷ [];
  gdb_wr_reg_cb = λ mem c. c;
  gdb_rd_mem_cb = λ addr len c. ok none;
  gdb_wr_mem_cb = λ addr mem c. ok (none, c);
}

abbrev heard : Server ℕ
heard = record (new 0x12) { connected = true }

-- "c" and "g".
abbrev continue : List ℕ
continue = b'c' ∷ b'1' ∷ b'f' ∷ []

abbrev registers : List ℕ
registers = b'g' ∷ []

strto_runs :
    (strto 0x100000000 (b' ' ∷ b'0' ∷ b'x' ∷ b'1' ∷ b'F' ∷ b',' ∷ []) ≡ (31, b',' ∷ []))
    × (strto 0x100000000 (b'0' ∷ b'x' ∷ b',' ∷ []) ≡ (0, b'x' ∷ b',' ∷ []))
    × (strto 256 (b'-' ∷ b'1' ∷ []) ≡ (255, []))
    × (strto 256 (b'1' ∷ b'0' ∷ b'0' ∷ []) ≡ (255, []))
    × (strto 256 (b'-' ∷ b',' ∷ []) ≡ (0, b'-' ∷ b',' ∷ []))
unfolding strto skip_space sign skip_prefix digits
strto_runs = (refl, refl, refl, refl, refl)

hextomem_runs :
    (hextomem (b'1' ∷ b'f' ∷ b'A' ∷ b'0' ∷ []) 2 ≡ ok (0x1F ∷ 0xA0 ∷ []))
    × (hextomem (b'1' ∷ b'f' ∷ b'A' ∷ []) 2 ≡ fault undefined)
    × (memtohex (0x1F ∷ 0xA0 ∷ []) ≡ b'1' ∷ b'f' ∷ b'a' ∷ b'0' ∷ [])
unfolding hextomem memtohex
hextomem_runs = (refl, refl, refl)

-- Single step at an address, from the bytes of the packet.
step_runs :
    read_bytes counter (packet continue) heard
    ≡ ok (record heard {
      run = true;
      line_buf = continue;
      line_csum = 0xFA;
      sent = b'+' ∷ [];
      cpu = 0x1F;
    })
unfolding read_bytes read_byte read_byte_in begin_packet get_line end_packet packet checksum
    handle_packet until_nul dispatch resume_at strto skip_space sign skip_prefix digits put_buffer
    new
step_runs = refl

read_bytes-packet_example : read_bytes counter (packet registers) heard ≡ (
    handle_packet counter registers (taken counter registers heard) >>= λ t.
    ok (record t { state = ds_idle }))
unfolding new until_nul
read_bytes-packet_example = read_bytes-packet counter registers heard (refl, tt) (omega arith) refl

read_bytes-corrupted_example :
    read_bytes counter (b'$' ∷ (registers ++ (b'#' ∷ b'6' ∷ b'8' ∷ []))) heard
    ≡ ok (
        put_buffer (b'-' ∷ []) (record heard {
          state = ds_idle;
          line_buf = registers;
          line_csum = bit_or (fromhex b'6' * 16) (fromhex b'8');
        }))
unfolding new checksum
read_bytes-corrupted_example =
    read_bytes-corrupted counter registers b'6' b'8' heard (refl, tt) (omega arith) refl
      (omega arith)

read_bytes-IsHeard_example :
    IsHeard heard (record heard { line_buf = b'q' ∷ []; state = ds_getline })
unfolding new read_bytes read_byte read_byte_in begin_packet get_line
read_bytes-IsHeard_example =
    read_bytes-IsHeard counter (b'x' ∷ b'$' ∷ b'q' ∷ []) heard (omega arith)

-- A stop, two reads that find nothing, and "s1f"; the debugger stays connected.
abbrev stopped : Server ℕ
stopped = record heard {
  brkpts = λ a. a == 0x12;
  arrivals = byte b'+' ∷ pause ∷ pause ∷ burst (packet (b's' ∷ b'1' ∷ b'f' ∷ [])) (pause ∷ []);
}

-- The program counter after it is the address.
resumed_run : (resumed counter true (b'1' ∷ b'f' ∷ []) [] [] stopped).cpu ≡ 0x1F
unfolding resume_at strto skip_space sign skip_prefix digits new
resumed_run = refl

breakpoint_set_and_removed_example :
    (t : Server ℕ) × (u : Server ℕ) × (handle_packet counter
        (breakpoint_command b'Z' 0 (1 ∷ 15 ∷ []) (b'4' ∷ []))
        heard
      ≡ ok t)
    × (handle_packet counter (breakpoint_command b'z' 0 (1 ∷ 15 ∷ []) (b'4' ∷ [])) t ≡ ok u)
    × (before_exec_insn counter none 0x1F t ≡ handlesig counter true t)
    × (t.brkpts 0x20 ≡ (0x20 == 0x1F || false))
    × (u.brkpts 0x20 ≡ (if 0x20 == 0x1F then false else false))
unfolding new open_socemu.Gdb.Digits.value_after
breakpoint_set_and_removed_example =
    breakpoint_set_and_removed counter 0 1 (15 ∷ []) (b'4' ∷ []) (omega arith) (omega arith)
      (omega arith) 0x20 none heard refl
