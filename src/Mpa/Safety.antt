-- ===== src/Mpa/Safety.antt =====
-- What the Mpa promises its initiators.
use open_socemu.Base.{ℕ, ◌<◌, ◌≤◌, ◌≡◌, inl, inr, true, false, arith, Bool-cases}
use open_socemu.Base.Search.{any_below_complete, first_hit, first_hit_sound, first_hit_least}
use open_socemu.Base.Process.{waiting, ready, forwarding, queued, holding}
use open_socemu.Mpa.{Mpa, schedule, finish, Reach}
use open_socemu.Mpa.Invariant.{scheduled, Reach-IsFair}

-- In every reachable state of an arbiter with n initiators, at most one of them is inside a
-- forwarded transaction.
pub forwarding_unique :
    {n : ℕ} {s : Mpa} (i j : ℕ)
    → Reach n s
    → i < n
    → j < n
    → s.phase i ≡ forwarding
    → s.phase j ≡ forwarding
    → i ≡ j
forwarding_unique i j r hi hj in_i in_j =
    (Reach-IsFair r).unique i j hi hj (ground arith) (ground arith)

-- In every reachable state in which an initiator waits for the bus, some initiator is inside a
-- forwarded transaction or has been notified, so that a step which moves the bus on is enabled.
pub waiting_served :
    {n : ℕ} {s : Mpa} (i : ℕ)
    → Reach n s
    → i < n
    → s.phase i ≡ waiting
    → (j : ℕ) × (j < n) × (holding (s.phase j) ≡ true)
waiting_served {n} {s} i r hi waits = elim (Bool-cases s.free) [
  | inl free ↦ ground (arith, (Reach-IsFair r).rest free i hi)
  | inr busy ↦ (Reach-IsFair r).busy busy
]

-- When a transaction returns in a reachable state in which initiator k waits, the initiator that
-- is notified has the lowest index of all that are queued: its index is at most k, and no
-- initiator below it is queued.
pub finish_priority :
    {n : ℕ} {s : Mpa} (i k : ℕ)
    → Reach n s
    → i < n
    → k < n
    → s.phase i ≡ forwarding
    → s.phase k ≡ waiting
    → (m : ℕ) × (m ≤ k)
      × ((finish n i s).phase m ≡ ready)
      × ((j : ℕ) → j < m → queued (s.phase j) ≡ false)
unfolding finish schedule
finish_priority {n} {s} i k r hi hk here waits =
    let v = Reach-IsFair r in
    let pends : s.is_pending k ≡ true = ground (arith, v.flags k hk) in
    let some_pending = any_below_complete n s.is_pending k hk pends in
    let (below, pending) = first_hit_sound s.is_pending n some_pending in
    let m = first_hit s.is_pending n 0 in
    let (other, was_waiting) = scheduled n s i hi v here m below pending in
    (
      m,
      first_hit_least s.is_pending n k hk pends,
      ground (arith, v.any),
      λ j h. elim (Bool-cases (s.is_pending j)) [
        | inl p ↦ ground (arith, first_hit_least s.is_pending n j)
        | inr p ↦ ground (arith, v.flags j)
      ],
    )
