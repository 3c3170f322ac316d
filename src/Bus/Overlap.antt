-- ===== src/Bus/Overlap.antt =====
-- The arbitration of the bus between the return of a transaction and the resumption of the
-- initiator that is notified.
use open_socemu.Base.{ℕ, ◌<◌, ◌≡◌, refl, ◌≢◌, true, false, some, update, ok, arith}
use open_socemu.Base.Search.{any_below_complete, first_hit, first_hit_sound}
use open_socemu.Base.Process.{idle, waiting, forwarding}
use open_socemu.Bus.{
  Bus, decode_address, enter, resume, finish, IsQuiet, request, wake, complete, Reach, start, next,
}

abbrev granted : ℕ → Bus → Bus
granted i s = record s { phase = update s.phase i forwarding; free = false }

abbrev delayed : ℕ → Bus → Bus
delayed j s = record s {
  phase = update s.phase j waiting;
  is_pending = update s.is_pending j true;
  one_pending = true;
}

module _ (n m i address : ℕ) (s : Bus) (route : ℕ × ℕ) (below : i < n)
    (decoded : decode_address m address s ≡ some route) where
  enter_free : s.free ≡ true → enter n m i address s ≡ ok (some route, granted i s)
  unfolding enter
  enter_free free = ground arith

  enter_busy : s.free ≡ false → enter n m i address s ≡ ok (some route, delayed i s)
  unfolding enter
  enter_busy busy = ground arith

-- From every quiet configuration of the bus that decodes some address, and for every two
-- different initiators, the bus can reach a state in which both are inside a forwarded
-- transaction at once.
pub forwarding_together :
    (n m i j address : ℕ) (route : ℕ × ℕ) (s : Bus)
    → i < n
    → j < n
    → i ≢ j
    → IsQuiet s
    → decode_address m address s ≡ some route
    → (t : Bus) × Reach n m s t × (t.phase i ≡ forwarding) × (t.phase j ≡ forwarding)
unfolding decode_address finish resume
forwarding_together n m i j address route s hi hj distinct quiet decoded =
    let s1 = granted i s in
    let s2 = delayed j s1 in
    let s3 = finish n i s2 in
    let s4 = granted i s3 in
    let s5 = resume n j s4 in
    let some_pending = any_below_complete n s2.is_pending j hj (ground arith) in
    let (below, pending) = first_hit_sound s2.is_pending n some_pending in
    let k = first_hit s2.is_pending n 0 in
    let only : k ≡ j = ground (arith, quiet.none_pending k) in
    let at_i : s.phase i ≡ idle = quiet.idle_all i in
    let at_j : s.phase j ≡ idle = quiet.idle_all j in
    let r1 : Reach n m s s1 = next start (
      request s s1 i address route at_i
        (enter_free n m i address s route hi decoded quiet.is_free)) in
    let r2 : Reach n m s s2 = next r1 (
      request s1 s2 j address route (ground arith)
        (enter_busy n m j address s1 route hj decoded refl)) in
    let r3 : Reach n m s s3 = next r2 (complete s2 i hi (ground arith)) in
    let r4 : Reach n m s s4 = next r3 (
      request s3 s4 i address route (ground arith)
        (enter_free n m i address s3 route hi decoded refl)) in
    let r5 : Reach n m s s5 = next r4 (wake s4 j hj (ground arith)) in
    (s5, r5, ground arith, ground arith)
