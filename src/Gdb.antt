-- ===== src/Gdb.antt =====
-- The server of src/utils/GdbServerNone/GdbServerTcp.h for a remote debugger, and its base
-- GdbServerNone.h: the state, and the packets that it sends.
-- `char` is signed, as on x86. A connection is the list of what arrives on it and of what is sent;
-- it is closed behind the last arrival. A send on an open connection takes all bytes. The loop of
-- `put_buffer` that repeats a partial send, and the flags of the file descriptor, are left out.
pub mod Hex
pub mod Numbers
pub mod Commands
pub mod Decode
pub mod Session
pub mod Framing
pub mod Kept
pub mod Bounds
pub mod Retry
pub mod Digits
pub mod Ends
pub mod Resume
pub mod Breakpoints
mod Tests
use open_socemu.Base.{
  ℕ, zero, suc, ◌+◌, ◌-◌, ◌/◌, ◌%◌, Bool, true, false, List, [], ◌∷◌, ◌++◌, bit_and, ltb, leb, ◌==◌,
  if◌then◌else◌, Option, none, some, Result,
}

-- What a read of the connection meets: a byte, or nothing there yet (EAGAIN).
pub data Arrival : Type 0 where
  byte : ℕ → Arrival
  pause : Arrival

pub data DecodeState : Type 0 where
  ds_idle ds_getline ds_chksum1 ds_chksum2 : DecodeState

-- The callbacks into the processor, with its state: no bytes stand for the answer -1 to a read, and
-- no count for the answer -1 to a write.
pub record GdbCb (Cpu : Type 0) : Type 0 where
  pub gdb_set_pc_cb : ℕ → Cpu → Cpu
  pub gdb_rd_reg_cb : Cpu → List ℕ
  pub gdb_wr_reg_cb : List ℕ → Cpu → Cpu
  pub gdb_rd_mem_cb : ℕ → ℕ → Cpu → Result (Option (List ℕ))
  pub gdb_wr_mem_cb : ℕ → List ℕ → Cpu → Result (Option ℕ × Cpu)

-- `connected` is whether `clientfd` is a connection. The sets are their membership tests, and
-- `line_buf` is its first `line_buf_index` bytes.
pub record Server (Cpu : Type 0) : Type 0 where
  pub connected : Bool
  pub state : DecodeState
  pub run : Bool
  pub singlestep : Bool
  pub line_buf : List ℕ
  pub line_csum : ℕ
  pub brkpts : ℕ → Bool
  pub wtcpts : ℕ → Bool
  pub arrivals : List Arrival
  pub sent : List ℕ
  pub cpu : Cpu

-- After `start`.
unfoldable pub new : {Cpu : Type 0} → Cpu → Server Cpu
new cpu = record {
  connected = false;
  state = ds_idle;
  run = false;
  singlestep = false;
  line_buf = [];
  line_csum = 0;
  brkpts = λ a. false;
  wtcpts = λ a. false;
  arrivals = [];
  sent = [];
  cpu = cpu;
}

abbrev pub set_singlestep : {Cpu : Type 0} → Bool → Server Cpu → Server Cpu
set_singlestep single s = record s { singlestep = single }

abbrev pub tohex : ℕ → ℕ
tohex v = if ltb v 10 then v + b'0' else v - 10 + b'a'

-- The sum of the bytes, as the loops over `csum` make it.
unfoldable pub checksum : List ℕ → ℕ
checksum [] = 0
checksum (c ∷ buf) = c + checksum buf

-- `last_packet`.
unfoldable pub packet : List ℕ → List ℕ
packet buf =
    let csum = checksum buf in
    b'$' ∷ (buf ++ (b'#' ∷ tohex (csum / 16 % 16) ∷ tohex (csum % 16) ∷ []))

unfoldable pub put_buffer : {Cpu : Type 0} → List ℕ → Server Cpu → Server Cpu
put_buffer buf s = if s.connected then record s { sent = s.sent ++ buf } else s

-- The wait for the answer to a packet that was sent: it is sent again for each byte that is not a
-- plus. A byte that is negative as a `char` counts as an error of `get_char`, as the end does.
unfoldable pub await_ack : List ℕ → List Arrival → List ℕ → List Arrival × List ℕ
await_ack again [] sent = ([], sent)
await_ack again (pause ∷ arrivals) sent = await_ack again arrivals sent
await_ack again (byte c ∷ arrivals) sent =
    let retry = await_ack again arrivals (sent ++ again) in
    if leb 128 c then (arrivals, sent) else if c == b'+' then (arrivals, sent) else retry

unfoldable pub put_packet : {Cpu : Type 0} → List ℕ → Server Cpu → Server Cpu
put_packet buf s =
    if s.connected
    then (let (arrivals, sent) = await_ack (packet buf) s.arrivals (s.sent ++ packet buf) in
        record s { arrivals = arrivals; sent = sent })
    else s
