-- ===== src/CpuBase/Breaks.antt =====
-- The thread of the base processor under its server, up to a breakpoint.
use open_socemu.Base.{
  ℕ, zero, suc, ◌+◌, ◌*◌, ◌^◌, ◌<◌, ◌≡◌, refl, ap, ◌∙◌, true, false, List, ◌∷◌, update, u32, Option,
  none, some, ok, ◌>>=◌, bind_assoc, arith,
}
use open_socemu.Gdb.{Server, Arrival, pause}
use open_socemu.Gdb.Session.{
  before_exec_insn, stop_or_run, must_stop, checkctrlc, read_connection, read_arrivals, handlesig,
}
use open_socemu.CpuBase.{CpuBase, callbacks, exec_at, thread_round, thread_rounds}
use open_socemu.CpuBase.Fake.{Handler, fake_hdlr, exec_insn, server_methods}

-- Reads that find nothing there, and what arrives after them.
unfoldable pub silence : ℕ → List Arrival → List Arrival
silence zero arrivals = arrivals
silence (suc n) arrivals = pause ∷ silence n arrivals

-- The server of a program that runs at an address while its debugger is silent.
abbrev pub running : Server CpuBase → ℕ → List Arrival → Server CpuBase
running s pc arrivals = record s {
  connected = true;
  singlestep = false;
  arrivals = arrivals;
  cpu = record s.cpu { pc = pc };
}

module _ (s : Server CpuBase) where
  silent_check :
      (pc : ℕ) (arrivals : List Arrival)
      → s.brkpts pc ≡ false
      → before_exec_insn callbacks none pc (running s pc (pause ∷ arrivals))
        ≡ ok (running s pc arrivals)
  unfolding before_exec_insn stop_or_run must_stop checkctrlc read_connection read_arrivals
  silent_check pc arrivals free = rw free refl

  exec_at-fake :
      (found : Option Handler) (insncache : ℕ → Option Handler) (t : Server CpuBase)
      → (after : ℕ → Option Handler) × (exec_at server_methods found insncache t
          ≡ ok (after, record t { cpu = record t.cpu { pc = u32 (t.cpu.pc + 4) } }))
  unfolding exec_at exec_insn
  exec_at-fake none insncache t = (update insncache t.cpu.pc (some fake_hdlr), refl)
  exec_at-fake (some fake_hdlr) insncache t = (insncache, refl)

  silent_round :
      (insncache : ℕ → Option Handler) (pc : ℕ) (arrivals : List Arrival)
      → s.brkpts pc ≡ false
      → (after : ℕ → Option Handler) × (thread_round server_methods
            (insncache, running s pc (pause ∷ arrivals))
          ≡ ok (after, running s (u32 (pc + 4)) arrivals))
  unfolding thread_round
  silent_round insncache pc arrivals free =
      let (after, e) = exec_at-fake (insncache pc) insncache (running s pc arrivals) in
      (after, rw (silent_check pc arrivals free) e)

  silent_rounds :
      (n : ℕ) (insncache : ℕ → Option Handler) (pc : ℕ) (arrivals : List Arrival)
      → pc < 2 ^ 32
      → ((k : ℕ) → k < n → s.brkpts (u32 (pc + 4 * k)) ≡ false)
      → (after : ℕ → Option Handler) × (thread_rounds server_methods n
            (insncache, running s pc (silence n arrivals))
          ≡ ok (after, running s (u32 (pc + 4 * n)) arrivals))
  unfolding thread_rounds silence
  silent_rounds zero insncache pc arrivals word free =
      (insncache, ap (λ p. ok (insncache, running s p arrivals)) (omega arith))
  silent_rounds (suc n) insncache pc arrivals word free =
      let here : s.brkpts pc ≡ false =
        ap s.brkpts {x = pc} {y = u32 (pc + 4 * 0)} (omega arith) ∙ free 0 (omega arith) in
      let (one, e) = silent_round insncache pc (silence n arrivals) here in
      let ahead : (k : ℕ) → k < n → s.brkpts (u32 (u32 (pc + 4) + 4 * k)) ≡ false = λ k lt.
        ap s.brkpts {x = u32 (u32 (pc + 4) + 4 * k)} {y = u32 (pc + 4 * suc k)} (omega arith)
        ∙ free (suc k) (omega arith) in
      let (after, f) = silent_rounds n one (u32 (pc + 4)) arrivals (omega arith) ahead in
      (after, rw e (f ∙ ap (λ p. ok (after, running s p arrivals)) (omega arith)))

  -- A program of the base processor runs at an address under a connected server whose debugger is
  -- silent, and no breakpoint is at this address or the next ones, before one that is n instructions
  -- ahead. Then n rounds of the thread execute n instructions and send nothing, and the round after them
  -- first tells the debugger of a stop at the breakpoint, whatever arrives there.
  pub thread_rounds-breakpoint :
      (n : ℕ) (insncache : ℕ → Option Handler) (pc : ℕ) (arrivals : List Arrival)
      → pc < 2 ^ 32
      → ((k : ℕ) → k < n → s.brkpts (u32 (pc + 4 * k)) ≡ false)
      → s.brkpts (u32 (pc + 4 * n)) ≡ true
      → (after : ℕ → Option Handler) × (thread_rounds server_methods n
            (insncache, running s pc (silence n arrivals))
          ≡ ok (after, running s (u32 (pc + 4 * n)) arrivals))
        × (thread_round server_methods (after, running s (u32 (pc + 4 * n)) arrivals) ≡ (
            handlesig callbacks true (running s (u32 (pc + 4 * n)) arrivals) >>= λ t.
            exec_at server_methods (after t.cpu.pc) after t))
  unfolding thread_round before_exec_insn stop_or_run must_stop
  thread_rounds-breakpoint n insncache pc arrivals word free set =
      let (after, e) = silent_rounds n insncache pc arrivals word free in
      (
        after,
        e,
        rw set (bind_assoc (handlesig callbacks true (running s (u32 (pc + 4 * n)) arrivals)) _ _),
      )
