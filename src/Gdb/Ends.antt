-- ===== src/Gdb/Ends.antt =====
-- The fuel of the loop that hears the debugger is enough for every connection of the model, which is
-- closed behind its last arrival.
use open_socemu.Base.{
  ℕ, zero, suc, ◌+◌, ◌<◌, ◌≤◌, ◌≡◌, refl, Bool, true, false, List, [], ◌∷◌, if_both, ◌>>=◌, arith,
  Ensures, Ensures-bind, Bool-cases, inl, inr,
}
use open_socemu.Base.Lists.{length}
use open_socemu.Gdb.{Server, GdbCb, Arrival, byte, pause, set_singlestep}
use open_socemu.Gdb.Commands.{reply_sigtrap}
use open_socemu.Gdb.Decode.{read_bytes}
use open_socemu.Gdb.Session.{
  Reading, again, chunk, closed, take_bytes, read_arrivals, read_connection, disconnect, serve,
  handlesig,
}
use open_socemu.Gdb.Kept.{put_packet-IsKept}
use open_socemu.Gdb.Bounds.{IsHeard, read_bytes-IsHeard}

-- A read takes at least one arrival, or finds the end.
abbrev Shorter : ℕ → Reading → Type 0
Shorter n (again arrivals) = length arrivals < n
Shorter n (chunk buf arrivals) = length arrivals < n
Shorter n closed = Unit

length-take_bytes :
    (n : ℕ) (arrivals : List Arrival) → length (take_bytes n arrivals).1 ≤ length arrivals
unfolding take_bytes
length-take_bytes zero arrivals = omega arith
length-take_bytes (suc n) [] = omega arith
length-take_bytes (suc n) (pause ∷ arrivals) = omega arith
length-take_bytes (suc n) (byte c ∷ arrivals) = omega (arith, length-take_bytes n arrivals)

read_arrivals-Shorter :
    (arrivals : List Arrival) → Shorter (length arrivals) (read_arrivals arrivals)
unfolding read_arrivals
read_arrivals-Shorter [] = tt
read_arrivals-Shorter (pause ∷ arrivals) = omega arith
read_arrivals-Shorter (byte c ∷ arrivals) = omega (arith, length-take_bytes 255 arrivals)

module _ {Cpu : Type 0} (cb : GdbCb Cpu) where
  abbrev pub Runs : Server Cpu → Type 0
  Runs s = (s.run ≡ true) × (length s.line_buf ≤ 4095)

  read_connection-Shorter : (s : Server Cpu) → Shorter (length s.arrivals) (read_connection s)
  unfolding read_connection
  read_connection-Shorter s =
      if_both (Shorter (length s.arrivals)) s.connected (λ _. read_arrivals-Shorter s.arrivals)
        (λ _. tt)

  -- A server that runs leaves the loop.
  serve-running : (fuel : ℕ) (s : Server Cpu) → Runs s → Ensures Runs (serve fuel cb s)
  unfolding serve
  serve-running zero s h = h
  serve-running (suc fuel) s (runs, room) = rw runs (refl, room)

  -- A round of the loop, when the rounds after it end.
  round :
      (fuel : ℕ) (s : Server Cpu)
      → ((t : Server Cpu)
          → length t.line_buf ≤ 4095
          → length t.arrivals + 1 < fuel
          → Ensures Runs (serve fuel cb t))
      → length s.line_buf ≤ 4095
      → length s.arrivals < fuel
      → (r : Reading) → Shorter (length s.arrivals) r
      → Ensures Runs (elim r [
        | again arrivals ↦ serve fuel cb (record s { arrivals = arrivals })
        | chunk buf arrivals ↦ (do
          t ← read_bytes cb buf (record s { arrivals = arrivals })
          serve fuel cb t)
        | closed ↦ serve fuel cb (disconnect s)
      ])
  unfolding disconnect
  round fuel s ih room enough (again arrivals) h =
      ih (record s { arrivals = arrivals }) room (omega arith)
  round fuel s ih room enough (chunk buf arrivals) h =
      let t : Server Cpu = record s { arrivals = arrivals } in
      Ensures-bind (IsHeard t) Runs (read_bytes cb buf t) _ (read_bytes-IsHeard cb buf t room)
        (λ u k. ih u k.room (omega (arith, k.fewer)))
  round fuel s ih room enough closed h = serve-running fuel (disconnect s) (refl, room)

  serve-Runs :
      (fuel : ℕ) (s : Server Cpu)
      → length s.line_buf ≤ 4095
      → length s.arrivals + 1 < fuel
      → Ensures Runs (serve fuel cb s)
  unfolding serve
  serve-Runs zero s room enough = absurd (omega arith)
  serve-Runs (suc fuel) s room enough = elim (Bool-cases s.run) [
    | inl runs ↦ rw runs (refl, room)
    | inr stopped ↦ rw stopped (
        round fuel (record s { run = false }) (serve-Runs fuel) room (omega arith)
          (read_connection (record s { run = false }))
          (read_connection-Shorter (record s { run = false })))
  ]

  -- With as many rounds as the arrivals of the connection and two more, the loop leaves with a program
  -- that runs, where no command ends the simulation.
  handlesig-Runs :
      (trap : Bool) (s : Server Cpu) → length s.line_buf ≤ 4095 → Ensures Runs (handlesig cb trap s)
  unfolding handlesig
  handlesig-Runs true s room =
      let k = put_packet-IsKept reply_sigtrap (set_singlestep false s) in
      serve-Runs _ _ (rw k.line_buf room) (omega arith)
  handlesig-Runs false s room = serve-Runs _ _ room (omega arith)
