-- ===== src/Gdb/Decode.antt =====
-- The bytes that arrive, one by one: `read_byte`.
use open_socemu.Base.{
  ℕ, ◌*◌, ◌%◌, List, [], ◌∷◌, ◌++◌, leb, ◌==◌, bit_or, if◌then◌else◌, Result, ok, ◌>>=◌,
}
use open_socemu.Base.Lists.{length}
use open_socemu.Gdb.{
  Server, GdbCb, DecodeState, ds_idle, ds_getline, ds_chksum1, ds_chksum2, checksum, put_buffer,
}
use open_socemu.Gdb.Hex.{fromhex}
use open_socemu.Gdb.Commands.{handle_packet, until_nul}

module _ {Cpu : Type 0} where
  unfoldable pub get_line : ℕ → Server Cpu → Server Cpu
  get_line ch s =
      if ch == b'#'
      then record s { state = ds_chksum1 }
      else if leb 4095 (length s.line_buf)
      then record s { state = ds_idle }
      else record s { line_buf = s.line_buf ++ ch ∷ [] }

  unfoldable pub begin_packet : ℕ → Server Cpu → Server Cpu
  begin_packet ch s = if ch == b'$' then record s { line_buf = []; state = ds_getline } else s

  -- The second digit of the checksum: the packet is refused, or taken and handled.
  unfoldable pub end_packet : GdbCb Cpu → ℕ → Server Cpu → Result (Server Cpu)
  end_packet cb ch s = do
    let t = record s { line_csum = bit_or s.line_csum (fromhex ch) }
    if t.line_csum == checksum t.line_buf % 256
        then (do
          u ← handle_packet cb (until_nul t.line_buf) (put_buffer (b'+' ∷ []) t)
          ok (record u { state = ds_idle }))
        else ok (record (put_buffer (b'-' ∷ []) t) { state = ds_idle })

  unfoldable pub read_byte_in : DecodeState → GdbCb Cpu → ℕ → Server Cpu → Result (Server Cpu)
  read_byte_in ds_idle cb ch s = ok (begin_packet ch s)
  read_byte_in ds_getline cb ch s = ok (get_line ch s)
  read_byte_in ds_chksum1 cb ch s =
      ok (record s { line_csum = fromhex ch * 16; state = ds_chksum2 })
  read_byte_in ds_chksum2 cb ch s = end_packet cb ch s

  unfoldable pub read_byte : GdbCb Cpu → ℕ → Server Cpu → Result (Server Cpu)
  read_byte cb ch s = read_byte_in s.state cb ch s

  -- The bytes of one read.
  unfoldable pub read_bytes : GdbCb Cpu → List ℕ → Server Cpu → Result (Server Cpu)
  read_bytes cb [] s = ok s
  read_bytes cb (ch ∷ buf) s = read_byte cb ch s >>= read_bytes cb buf
