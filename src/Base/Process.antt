-- ===== src/Base/Process.antt =====
-- Where the process of an initiator stands between the points at which SystemC may switch:
-- outside the call, in `wait(event)`, notified but not yet resumed, and inside the forwarded
-- transaction. An immediate notification makes a waiting process ready, and is lost otherwise.
use mathlib.Core.Bool.{Bool, true, false}

pub data Phase : Type 0 where
  idle waiting ready forwarding : Phase

abbrev pub notify : Phase → Phase
notify idle = idle
notify waiting = ready
notify ready = ready
notify forwarding = forwarding

-- The process is queued for the bus.
abbrev pub queued : Phase → Bool
queued idle = false
queued waiting = true
queued ready = true
queued forwarding = false

-- The process has the bus, or has been handed it.
abbrev pub holding : Phase → Bool
holding idle = false
holding waiting = false
holding ready = true
holding forwarding = true
