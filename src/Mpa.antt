-- ===== src/Mpa.antt =====
-- The multi port arbiter of src/tlm_blocks/Generic/Mpa/Mpa.h, for n initiators.
-- `bus_s_b_transport` is cut where it waits and where it forwards: `enter`, `resume`, `finish`.
-- What the forwarded transaction does to its payload is the target's.
pub mod Invariant
pub mod Safety
mod Tests
use open_socemu.Base.{ℕ, ◌<◌, Bool, true, false, not, update, ltb, if◌then◌else◌, ◌≡◌}
use open_socemu.Base.Search.{any_below, first_hit}
use open_socemu.Base.Process.{Phase, idle, waiting, ready, forwarding, notify}

pub record Mpa : Type 0 where
  pub phase : ℕ → Phase
  pub is_pending : ℕ → Bool
  pub one_pending : Bool
  pub free : Bool

unfoldable pub new : Mpa
new = record { phase = λ _. idle; is_pending = λ _. false; one_pending = false; free = true }

-- Up to the wait, or to the forwarded transaction.
unfoldable pub enter : ℕ → Mpa → Mpa
enter id s =
    if not s.free
    then record s {
      phase = update s.phase id waiting;
      is_pending = update s.is_pending id true;
      one_pending = true;
    }
    else record s { phase = update s.phase id forwarding; free = false }

-- From the wait to the forwarded transaction.
unfoldable pub resume : ℕ → ℕ → Mpa → Mpa
resume n id s =
    let pending = update s.is_pending id false in
    record {
      phase = update s.phase id forwarding;
      is_pending = pending;
      one_pending = any_below n pending;
      free = false;
    }

-- The loop that schedules the pending request of the highest priority.
unfoldable pub schedule : ℕ → (ℕ → Bool) → (ℕ → Phase) → (ℕ → Phase)
schedule n pending phase =
    let i = first_hit pending n 0 in if ltb i n then update phase i (notify (phase i)) else phase

-- After the forwarded transaction.
unfoldable pub finish : ℕ → ℕ → Mpa → Mpa
finish n id s =
    let left = update s.phase id idle in
    if s.one_pending
    then record s { phase = schedule n s.is_pending left }
    else record s { phase = left; free = true }

-- One step of the arbiter: any initiator that is not in a call makes one, any that has been
-- notified is resumed, any forwarded transaction returns.
pub data Step (n : ℕ) : Mpa → Mpa → Type 0 where
  request : (s : Mpa) (i : ℕ) → i < n → s.phase i ≡ idle → Step n s (enter i s)
  wake : (s : Mpa) (i : ℕ) → i < n → s.phase i ≡ ready → Step n s (resume n i s)
  complete : (s : Mpa) (i : ℕ) → i < n → s.phase i ≡ forwarding → Step n s (finish n i s)

pub data Reach (n : ℕ) : Mpa → Type 0 where
  start : Reach n new
  next : {s t : Mpa} → Reach n s → Step n s t → Reach n t
