-- ===== src/Gdb/Kept.antt =====
-- What the commands of the debugger leave alone.
use open_socemu.Base.{
  ℕ, ◌+◌, ◌*◌, ◌/◌, ◌^◌, ◌≤◌, ◌≡◌, refl, ◌∙◌, Bool, true, false, ◌||◌, List, [], ◌∷◌, ◌++◌, leb,
  ◌==◌, if◌then◌else◌, if_both, Option, none, some, ok, assertion, undefined, ◌>>◌, check, arith,
  Ensures, Ensures-bind, Ensures-check, Ensures-after,
}
use open_socemu.Base.Lists.{length}
use open_socemu.Gdb.{Server, GdbCb, Arrival, byte, pause, put_buffer, put_packet, await_ack, packet}
use open_socemu.Gdb.Hex.{memtohex, hextomem}
use open_socemu.Gdb.Commands.{
  field, resume_at, gdb_rd_mem, gdb_wr_mem, put_memory, write_registers, read_memory, write_memory,
  breakpoint, dispatch, handle_packet, reply_ok, reply_e14, reply_e22, reply_sigtrap, set_insert,
  set_erase,
}
use open_socemu.Gdb.Numbers.{strto}

-- What a command leaves alone. It can take arrivals, and adds none.
pub record IsKept {Cpu : Type 0} (s t : Server Cpu) : Type 0 where
  pub connected : t.connected ≡ s.connected
  pub line_buf : t.line_buf ≡ s.line_buf
  pub fewer : length t.arrivals ≤ length s.arrivals

pub length-await_ack :
    (again : List ℕ) (arrivals : List Arrival) (sent : List ℕ)
    → length (await_ack again arrivals sent).0 ≤ length arrivals
unfolding await_ack
length-await_ack again [] sent = omega arith
length-await_ack again (pause ∷ arrivals) sent = omega (arith, length-await_ack again arrivals sent)
length-await_ack again (byte c ∷ arrivals) sent =
    ground (arith, length-await_ack again arrivals (sent ++ again))

module _ {Cpu : Type 0} where
  IsKept-refl : (s : Server Cpu) → IsKept s s
  IsKept-refl s = record { connected = refl; line_buf = refl; fewer = omega arith }

  IsKept-trans : (s t u : Server Cpu) → IsKept s t → IsKept t u → IsKept s u
  IsKept-trans s t u h k = record {
    connected = k.connected ∙ h.connected;
    line_buf = k.line_buf ∙ h.line_buf;
    fewer = omega (arith, h.fewer, k.fewer);
  }

  pub put_packet-IsKept : (buf : List ℕ) (s : Server Cpu) → IsKept s (put_packet buf s)
  unfolding put_packet
  put_packet-IsKept buf s =
      if_both (IsKept s) s.connected
        (λ _. record {
          connected = refl;
          line_buf = refl;
          fewer = length-await_ack (packet buf) s.arrivals (s.sent ++ packet buf);
        })
        (λ _. IsKept-refl s)

  pub put_buffer-IsKept : (buf : List ℕ) (s : Server Cpu) → IsKept s (put_buffer buf s)
  unfolding put_buffer
  put_buffer-IsKept buf s =
      if_both (IsKept s) s.connected
        (λ _. record { connected = refl; line_buf = refl; fewer = omega arith })
        (λ _. IsKept-refl s)

  module _ (cb : GdbCb Cpu) where
    -- A reply after a change of the processor or the sets.
    put_packet-after : (buf : List ℕ) (s t : Server Cpu) → IsKept s t → IsKept s (put_packet buf t)
    put_packet-after buf s t h = IsKept-trans s t (put_packet buf t) h (put_packet-IsKept buf t)

    put_memory-IsKept : (mem : List ℕ) (s : Server Cpu) → Ensures (IsKept s) (put_memory cb mem s)
    unfolding put_memory
    put_memory-IsKept mem s =
        Ensures-check (IsKept s) (leb (2 * length mem + 1) 4096) undefined _
          (λ _. put_packet-IsKept (memtohex mem) s)

    write_registers-IsKept :
        (p : List ℕ) (s : Server Cpu) → Ensures (IsKept s) (write_registers cb p s)
    unfolding write_registers
    write_registers-IsKept p s = Ensures-after (IsKept s) (hextomem p (length p / 2)) _ λ mem.
        put_packet-after reply_ok s _
          (record { connected = refl; line_buf = refl; fewer = omega arith })

    read_memory-IsKept : (p : List ℕ) (s : Server Cpu) → Ensures (IsKept s) (read_memory cb p s)
    unfolding read_memory
    read_memory-IsKept p s =
        Ensures-after (IsKept s) (gdb_rd_mem cb (field b',' p).0 (field 0 (field b',' p).1).0 s) _
          answered
      where
        answered :
            (answer : Option (List ℕ))
            → Ensures (IsKept s) (elim answer [
              | none ↦ ok (put_packet reply_e14 s)
              | some mem ↦ put_memory cb mem s
            ])
        answered none = put_packet-IsKept reply_e14 s
        answered (some mem) = put_memory-IsKept mem s

    -- A write changes the processor only.
    gdb_wr_mem-IsKept :
        (addr : ℕ) (mem : List ℕ) (s : Server Cpu)
        → Ensures (λ (done : Bool × Server Cpu). IsKept s done.1) (gdb_wr_mem cb addr mem s)
    unfolding gdb_wr_mem
    gdb_wr_mem-IsKept addr mem s =
        Ensures-after (λ (done : Bool × Server Cpu). IsKept s done.1)
          (cb.gdb_wr_mem_cb addr mem s.cpu) _ answered
      where
        answered :
            (answer : Option ℕ × Cpu)
            → Ensures
                (λ (done : Bool × Server Cpu). IsKept s done.1)
                (elim answer.0 [
                  | none ↦ ok (false, record s { cpu = answer.1 })
                  | some num_bytes ↦
                      check (num_bytes == length mem) assertion
                      >> ok (true, record s { cpu = answer.1 })
                ])
        answered (none, cpu) = record { connected = refl; line_buf = refl; fewer = omega arith }
        answered (some num_bytes, cpu) =
            Ensures-check (λ (done : Bool × Server Cpu). IsKept s done.1) (num_bytes == length mem)
              assertion _ (λ _. record { connected = refl; line_buf = refl; fewer = omega arith })

    write_memory-IsKept : (p : List ℕ) (s : Server Cpu) → Ensures (IsKept s) (write_memory cb p s)
    unfolding write_memory
    write_memory-IsKept p s =
        let addr = (field b',' p).0 in
        let len = (field b':' (field b',' p).1).0 in
        Ensures-check (IsKept s) (leb len 4096) undefined _ λ _.
          Ensures-after (IsKept s) (hextomem (field b':' (field b',' p).1).1 len) _ λ mem.
            Ensures-bind (λ (done : Bool × Server Cpu). IsKept s done.1) (IsKept s)
              (gdb_wr_mem cb addr mem s) _ (gdb_wr_mem-IsKept addr mem s)
              (λ (done, t) h. put_packet-after (if done then reply_ok else reply_e14) s t h)

    breakpoint-IsKept :
        (change : ℕ → (ℕ → Bool) → (ℕ → Bool)) (p : List ℕ) (s : Server Cpu)
        → IsKept s (breakpoint cb change p s)
    unfolding breakpoint
    breakpoint-IsKept change p s =
        let type = (strto (2 ^ 32) p).0 in
        if_both (IsKept s) (type == 0 || type == 1)
          (λ _.
            put_packet-after reply_ok s _
              (record { connected = refl; line_buf = refl; fewer = omega arith }))
          λ _.
            if_both (IsKept s) (type == 2)
              (λ _.
                put_packet-after reply_ok s _
                  (record { connected = refl; line_buf = refl; fewer = omega arith }))
              (λ _. put_packet-IsKept reply_e22 s)

    resume_at-IsKept : (p : List ℕ) (s : Server Cpu) → IsKept s (resume_at cb p s)
    unfolding resume_at
    resume_at-IsKept [] s = IsKept-refl s
    resume_at-IsKept (c ∷ p) s = record { connected = refl; line_buf = refl; fewer = omega arith }

    dispatch-IsKept :
        (ch : ℕ) (p : List ℕ) (s : Server Cpu) → Ensures (IsKept s) (dispatch cb ch p s)
    unfolding dispatch
    dispatch-IsKept ch p s =
        let K = Ensures (IsKept s) in
        let h = resume_at-IsKept p s in
        if_both K (ch == b'?') (λ _. put_packet-IsKept reply_sigtrap s)
          λ _.
            if_both K (ch == b'c')
              (λ _. record { connected = h.connected; line_buf = h.line_buf; fewer = h.fewer })
              λ _.
                if_both K (ch == b's')
                  (λ _. record { connected = h.connected; line_buf = h.line_buf; fewer = h.fewer })
                  λ _.
                    if_both K (ch == b'g') (λ _. put_memory-IsKept (cb.gdb_rd_reg_cb s.cpu) s)
                      λ _.
                        if_both K (ch == b'G') (λ _. write_registers-IsKept p s)
                          λ _.
                            if_both K (ch == b'm') (λ _. read_memory-IsKept p s)
                              λ _.
                                if_both K (ch == b'M') (λ _. write_memory-IsKept p s)
                                  λ _.
                                    if_both K (ch == b'Z') (λ _. breakpoint-IsKept set_insert p s)
                                      λ _.
                                        if_both K (ch == b'z')
                                          (λ _. breakpoint-IsKept set_erase p s)
                                          (λ _. put_packet-IsKept [] s)

    pub handle_packet-IsKept :
        (p : List ℕ) (s : Server Cpu) → Ensures (IsKept s) (handle_packet cb p s)
    unfolding handle_packet
    handle_packet-IsKept [] s = dispatch-IsKept 0 [] s
    handle_packet-IsKept (ch ∷ p) s = dispatch-IsKept ch p s
