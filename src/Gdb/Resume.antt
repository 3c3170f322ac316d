-- ===== src/Gdb/Resume.antt =====
-- The commands that let the program run again, from the stop to the end of the loop.
use open_socemu.Base.{ℕ, zero, suc, ◌%◌, ◌≡◌, Bool, true, false, List, [], ◌∷◌, ◌++◌, ◌==◌}
use open_socemu.Base.Lists.{All}
use open_socemu.Gdb.{Server, GdbCb, Arrival, byte, pause, ds_idle, ds_chksum2, checksum}
use open_socemu.Gdb.Commands.{resume_at}

-- Bytes that arrive at once, and then something else.
abbrev pub burst : List ℕ → List Arrival → List Arrival
burst [] rest = rest
burst (c ∷ buf) rest = byte c ∷ burst buf rest

-- So many times that a read finds nothing.
abbrev pub quiet : ℕ → List Arrival → List Arrival
quiet zero rest = rest
quiet (suc n) rest = pause ∷ quiet n rest

abbrev pub IsText : List ℕ → Type 0
IsText p = All (λ c. (c == 0) ≡ false) p

-- Continue, or step.
abbrev pub resume : Bool → ℕ
resume true = b's'
resume false = b'c'

module _ {Cpu : Type 0} (cb : GdbCb Cpu) where
  abbrev hearing : List Arrival → Server Cpu → Server Cpu
  hearing arrivals s = record s { connected = true; run = false; arrivals = arrivals }

  -- The server after the command, and what it has sent.
  abbrev pub resumed : Bool → List ℕ → List ℕ → List Arrival → Server Cpu → Server Cpu
  resumed single p sent rest s = record s {
    connected = true;
    run = true;
    singlestep = single;
    state = ds_idle;
    line_buf = resume single ∷ p;
    line_csum = checksum (resume single ∷ p) % 256;
    arrivals = rest;
    sent = sent;
    cpu = (resume_at cb p s).cpu;
  }

  abbrev answered : List ℕ → Server Cpu → Server Cpu
  answered p s = record s {
    sent = s.sent ++ b'+' ∷ [];
    line_buf = p;
    line_csum = checksum p % 256;
    state = ds_chksum2;
  }
