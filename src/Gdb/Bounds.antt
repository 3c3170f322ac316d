-- ===== src/Gdb/Bounds.antt =====
-- The bound of the buffer of received bytes, and what a read of bytes leaves alone.
use open_socemu.Base.{
  ℕ, ◌%◌, ◌≤◌, ◌≡◌, refl, ◌∙◌, List, [], ◌∷◌, leb, ◌==◌, if_both, arith, Ensures, Ensures-bind,
  Ensures-weaken, bit_or,
}
use open_socemu.Base.Lists.{length, length-append}
use open_socemu.Gdb.{
  Server, GdbCb, DecodeState, ds_idle, ds_getline, ds_chksum1, ds_chksum2, checksum, put_buffer,
}
use open_socemu.Gdb.Hex.{fromhex}
use open_socemu.Gdb.Commands.{handle_packet, until_nul}
use open_socemu.Gdb.Decode.{get_line, begin_packet, end_packet, read_byte_in, read_byte, read_bytes}
use open_socemu.Gdb.Kept.{IsKept, put_buffer-IsKept, handle_packet-IsKept}

-- The received bytes leave room for the zero behind them in the 4096 bytes of `line_buf`; a server
-- that hears bytes keeps its connection, and adds no arrivals.
pub record IsHeard {Cpu : Type 0} (s t : Server Cpu) : Type 0 where
  pub room : length t.line_buf ≤ 4095
  pub connected : t.connected ≡ s.connected
  pub fewer : length t.arrivals ≤ length s.arrivals

module _ {Cpu : Type 0} where
  begin_packet-IsHeard :
      (ch : ℕ) (s : Server Cpu) → length s.line_buf ≤ 4095 → IsHeard s (begin_packet ch s)
  unfolding begin_packet
  begin_packet-IsHeard ch s h =
      if_both (IsHeard s) (ch == b'$')
        (λ _. record { room = omega arith; connected = refl; fewer = omega arith })
        (λ _. record { room = h; connected = refl; fewer = omega arith })

  get_line-IsHeard :
      (ch : ℕ) (s : Server Cpu) → length s.line_buf ≤ 4095 → IsHeard s (get_line ch s)
  unfolding get_line
  get_line-IsHeard ch s h =
      if_both (IsHeard s) (ch == b'#')
        (λ _. record { room = h; connected = refl; fewer = omega arith })
        λ _.
          if_both (IsHeard s) (leb 4095 (length s.line_buf))
            (λ _. record { room = h; connected = refl; fewer = omega arith })
            (λ below. record {
              room = ground (arith, length-append s.line_buf (ch ∷ []));
              connected = refl;
              fewer = omega arith;
            })

  module _ (cb : GdbCb Cpu) where
    end_packet-IsHeard :
        (ch : ℕ) (s : Server Cpu)
        → length s.line_buf ≤ 4095
        → Ensures (IsHeard s) (end_packet cb ch s)
    unfolding end_packet
    end_packet-IsHeard ch s h =
        let t : Server Cpu = record s { line_csum = bit_or s.line_csum (fromhex ch) } in
        let plus = put_buffer (b'+' ∷ []) t in
        let minus = put_buffer (b'-' ∷ []) t in
        let p = put_buffer-IsKept (b'+' ∷ []) t in
        let m = put_buffer-IsKept (b'-' ∷ []) t in
        if_both (Ensures (IsHeard s)) (t.line_csum == checksum t.line_buf % 256)
          (λ _.
            Ensures-bind (IsKept plus) (IsHeard s) (handle_packet cb (until_nul t.line_buf) plus) _
              (handle_packet-IsKept cb (until_nul t.line_buf) plus)
              (λ u k. record {
                room = rw (k.line_buf ∙ p.line_buf) h;
                connected = k.connected ∙ p.connected;
                fewer = omega (arith, k.fewer, p.fewer);
              }))
          (λ _. record { room = rw m.line_buf h; connected = m.connected; fewer = m.fewer })

    read_byte_in-IsHeard :
        (state : DecodeState) (ch : ℕ) (s : Server Cpu)
        → length s.line_buf ≤ 4095
        → Ensures (IsHeard s) (read_byte_in state cb ch s)
    unfolding read_byte_in
    read_byte_in-IsHeard ds_idle ch s h = begin_packet-IsHeard ch s h
    read_byte_in-IsHeard ds_getline ch s h = get_line-IsHeard ch s h
    read_byte_in-IsHeard ds_chksum1 ch s h = record {
      room = h;
      connected = refl;
      fewer = omega arith;
    }
    read_byte_in-IsHeard ds_chksum2 ch s h = end_packet-IsHeard ch s h

    -- Whatever bytes are read, and whatever the commands among them do: a server with at most 4095
    -- received bytes has at most 4095 after them, its connection is as it was, and none is added to
    -- what is still to arrive.
    pub read_bytes-IsHeard :
        (buf : List ℕ) (s : Server Cpu)
        → length s.line_buf ≤ 4095
        → Ensures (IsHeard s) (read_bytes cb buf s)
    unfolding read_bytes read_byte
    read_bytes-IsHeard [] s h = record { room = h; connected = refl; fewer = omega arith }
    read_bytes-IsHeard (ch ∷ buf) s h =
        Ensures-bind (IsHeard s) (IsHeard s) (read_byte_in s.state cb ch s) _
          (read_byte_in-IsHeard s.state ch s h)
          (λ t k.
            Ensures-weaken (IsHeard t) (IsHeard s) (read_bytes cb buf t)
              (read_bytes-IsHeard buf t k.room)
              (λ u l. record {
                room = l.room;
                connected = l.connected ∙ k.connected;
                fewer = omega (arith, k.fewer, l.fewer);
              }))
