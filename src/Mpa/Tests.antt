-- ===== src/Mpa/Tests.antt =====
-- Runs of the Mpa, and its theorems at concrete schedules.
use open_socemu.Base.{ℕ, ◌<◌, ◌≡◌, refl, true, arith}
use open_socemu.Base.Search.{any_below, first_hit}
use open_socemu.Base.Process.{waiting, ready, forwarding, holding}
use open_socemu.Mpa.{Mpa, new, enter, resume, schedule, finish, Reach, start, next, request}
use open_socemu.Mpa.Safety.{forwarding_unique, waiting_served}

-- Initiator 1 has the bus; 2 and 0 ask for it.
abbrev contended : Mpa
contended = enter 0 (enter 2 (enter 1 new))

contended-Reach : Reach 3 contended
unfolding new enter
contended-Reach =
    next
      (next (next start (request new 1 (omega arith) refl))
        (request (enter 1 new) 2 (omega arith) refl))
      (request (enter 2 (enter 1 new)) 0 (omega arith) refl)

handed_on :
    ((finish 3 1 contended).phase 0 ≡ ready)
    × ((finish 3 1 contended).phase 2 ≡ waiting)
    × ((resume 3 0 (finish 3 1 contended)).one_pending ≡ true)
    × ((finish 3 1 (enter 1 new)).free ≡ true)
unfolding new enter resume schedule finish first_hit any_below
handed_on = (refl, refl, refl, refl)

in_transaction : contended.phase 1 ≡ forwarding
unfolding new enter
in_transaction = refl

waits_at : contended.phase 2 ≡ waiting
unfolding new enter
waits_at = refl

forwarding_unique_example : ◌≡◌ {A = ℕ} 1 1
forwarding_unique_example =
    forwarding_unique 1 1 contended-Reach (omega arith) (omega arith) in_transaction in_transaction

waiting_served_example : (j : ℕ) × (j < 3) × (holding (contended.phase j) ≡ true)
waiting_served_example = waiting_served 2 contended-Reach (omega arith) waits_at
