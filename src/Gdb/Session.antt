-- ===== src/Gdb/Session.antt =====
-- The server between two instructions: `handlesig`, `checkctrlc` and `before_exec_insn`. A connection
-- is a finite list of arrivals and is closed behind the last. One that stays open and silent for ever,
-- on which the read of the loop waits for ever, is not modelled.
use open_socemu.Base.{
  ℕ, zero, suc, Bool, true, false, ◌||◌, List, [], ◌∷◌, ◌==◌, if◌then◌else◌, Option, none, some,
  Result, ok, ◌>>=◌,
}
use open_socemu.Base.Lists.{length}
use open_socemu.Gdb.{Server, GdbCb, Arrival, byte, pause, ds_idle, put_packet, set_singlestep}
use open_socemu.Gdb.Commands.{reply_sigtrap}
use open_socemu.Gdb.Decode.{read_bytes}

-- The bytes that a read of at most so many takes, and what arrives after them.
unfoldable pub take_bytes : ℕ → List Arrival → List ℕ × List Arrival
take_bytes zero arrivals = ([], arrivals)
take_bytes (suc n) [] = ([], [])
take_bytes (suc n) (pause ∷ arrivals) = ([], pause ∷ arrivals)
take_bytes (suc n) (byte c ∷ arrivals) = let (buf, rest) = take_bytes n arrivals in (c ∷ buf, rest)

-- How a read of the connection ends: with nothing there, with bytes, or with the end.
pub data Reading : Type 0 where
  again : List Arrival → Reading
  chunk : List ℕ → List Arrival → Reading
  closed : Reading

unfoldable pub read_arrivals : List Arrival → Reading
read_arrivals [] = closed
read_arrivals (pause ∷ arrivals) = again arrivals
read_arrivals (byte c ∷ arrivals) =
    let (buf, rest) = take_bytes 255 arrivals in chunk (c ∷ buf) rest

module _ {Cpu : Type 0} where
  unfoldable pub read_connection : Server Cpu → Reading
  read_connection s = if s.connected then read_arrivals s.arrivals else closed

  -- A closed connection: the program runs on, and a new one can be accepted.
  unfoldable pub disconnect : Server Cpu → Server Cpu
  disconnect s = set_singlestep false (record s { connected = false; run = true })

  -- The loop of `handlesig`, on fuel: each round takes an arrival, or finds the connection closed.
  unfoldable pub serve : ℕ → GdbCb Cpu → Server Cpu → Result (Server Cpu)
  serve zero cb s = ok s
  serve (suc fuel) cb s = elim s.run [
    | true ↦ ok s
    | false ↦ (elim (read_connection s) [
      | again arrivals ↦ serve fuel cb (record s { arrivals = arrivals })
      | chunk buf arrivals ↦ (do
        t ← read_bytes cb buf (record s { arrivals = arrivals })
        serve fuel cb t)
      | closed ↦ serve fuel cb (disconnect s)
    ])
  ]

  unfoldable pub handlesig : GdbCb Cpu → Bool → Server Cpu → Result (Server Cpu)
  handlesig cb trap s =
      let t = set_singlestep false s in
      let u = if trap then put_packet reply_sigtrap t else t in
      serve (suc (suc (length u.arrivals))) cb (record u { state = ds_idle; run = false })

  -- Whether a read finds one byte and that is Ctrl-C. What the read finds is lost.
  unfoldable pub checkctrlc : Server Cpu → Bool × Server Cpu
  checkctrlc s = elim (read_connection s) [
    | again arrivals ↦ (false, record s { arrivals = arrivals })
    | chunk buf arrivals ↦
        (elim buf [ c ∷ [] ↦ c == 3 | _ ↦ false ], record s { arrivals = arrivals })
    | closed ↦ (false, s)
  ]

  -- The test after which the debugger is told of a stop, in the order of its parts.
  unfoldable pub must_stop : ℕ → Server Cpu → Bool × Server Cpu
  must_stop pc s = if s.singlestep || s.brkpts pc then (true, s) else checkctrlc s

  unfoldable pub stop_or_run : GdbCb Cpu → ℕ → Server Cpu → Result (Server Cpu)
  stop_or_run cb pc s = let (stop, t) = must_stop pc s in if stop then handlesig cb true t else ok t

  -- A server without a connection accepts one that waits, and hears the debugger first.
  unfoldable pub accept : GdbCb Cpu → Option (List Arrival) → ℕ → Server Cpu → Result (Server Cpu)
  accept cb none pc s = ok s
  accept cb (some arrivals) pc s = do
    t ← handlesig cb false (record s { connected = true; arrivals = arrivals })
    stop_or_run cb pc t

  -- `waiting` is the connection that `accept` finds. The result of the source is always true.
  unfoldable pub before_exec_insn :
      GdbCb Cpu → Option (List Arrival) → ℕ → Server Cpu → Result (Server Cpu)
  before_exec_insn cb waiting pc s =
      if s.connected then stop_or_run cb pc s else accept cb waiting pc s
