-- ===== src/Mpa/Invariant.antt =====
-- Who has the bus, and whom the flags of the Mpa record.
use open_socemu.Base.{ℕ, ◌<◌, ◌≡◌, refl, sym, ◌∙◌, ◌≢◌, inl, inr, true, false, arith, Bool-cases}
use open_socemu.Base.Search.{
  any_below, any_below_complete, any_below_none, any_below-false, first_hit, first_hit_sound,
}
use open_socemu.Base.Process.{idle, waiting, ready, forwarding, queued, holding}
use open_socemu.Mpa.{
  Mpa, new, enter, resume, schedule, finish, Step, request, wake, complete, Reach, start, next,
}

pub record IsFair (n : ℕ) (s : Mpa) : Type 0 where
  pub flags : (i : ℕ) → i < n → s.is_pending i ≡ queued (s.phase i)
  pub any : s.one_pending ≡ any_below n s.is_pending
  pub unique :
      (i j : ℕ) → i < n → j < n → holding (s.phase i) ≡ true → holding (s.phase j) ≡ true → i ≡ j
  pub busy : s.free ≡ false → (i : ℕ) × (i < n) × (holding (s.phase i) ≡ true)
  pub rest : s.free ≡ true → (i : ℕ) → i < n → s.phase i ≡ idle

module _ (n : ℕ) (s : Mpa) (i : ℕ) (small : i < n) (v : IsFair n s) where
  enter_free-IsFair : s.phase i ≡ idle → s.free ≡ true → IsFair n (enter i s)
  unfolding enter
  enter_free-IsFair here free = rw free (record {
    flags = λ j h. ground (arith, v.flags j h, v.flags i small);
    any = v.any;
    unique = λ a b ha hb. ground (arith, v.rest free a ha, v.rest free b hb);
    busy = λ _. (i, small, ground arith);
    rest = λ e. cc;
  })

  enter_busy-IsFair : s.phase i ≡ idle → s.free ≡ false → IsFair n (enter i s)
  unfolding enter
  enter_busy-IsFair here busy = rw busy (record {
    flags = λ j h. ground (arith, v.flags j h);
    any = sym (any_below_complete n _ i small (ground arith));
    unique = λ a b ha hb. ground (arith, v.unique a b ha hb);
    busy = λ _. (let (k, below, holds) = v.busy busy in (k, below, ground arith));
    rest = λ e. cc;
  })

  resume-IsFair : s.phase i ≡ ready → IsFair n (resume n i s)
  unfolding resume
  resume-IsFair here = record {
    flags = λ j h. ground (arith, v.flags j h);
    any = refl;
    unique = λ a b ha hb.
        ground (arith, v.unique a b ha hb, v.unique a i ha small, v.unique i b small hb);
    busy = λ _. (i, small, ground arith);
    rest = λ e. cc;
  }

  -- The owner that finishes is the only holder, so the one that is scheduled was waiting.
  pub scheduled :
      s.phase i ≡ forwarding
      → (k : ℕ) → k < n
      → s.is_pending k ≡ true
      → (k ≢ i) × (s.phase k ≡ waiting)
  scheduled here k below pending = (
    λ e. ground (arith, v.flags k below),
    ground (arith, v.flags k below, v.unique k i below small),
  )

  finish_handover-IsFair : s.phase i ≡ forwarding → s.one_pending ≡ true → IsFair n (finish n i s)
  unfolding finish schedule
  finish_handover-IsFair here some_pending =
      let (below, pending) = first_hit_sound s.is_pending n (sym v.any ∙ some_pending) in
      let k = first_hit s.is_pending n 0 in
      let (other, waits) = scheduled here k below pending in
      rw some_pending (record {
        flags = λ j h. ground (arith, v.flags j h);
        any = sym some_pending ∙ v.any;
        unique = λ a b ha hb. ground (arith, v.unique a i ha small, v.unique b i hb small);
        busy = λ _. (k, below, ground arith);
        rest = λ e. ground (arith, v.rest e i small);
      })

  finish_free-IsFair : s.phase i ≡ forwarding → s.one_pending ≡ false → IsFair n (finish n i s)
  unfolding finish
  finish_free-IsFair here none_pending =
      let clear : (j : ℕ) → j < n → s.is_pending j ≡ false =
        any_below_none n s.is_pending (sym v.any ∙ none_pending) in
      rw none_pending (record {
        flags = λ j h. ground (arith, v.flags j h, clear j h);
        any = sym none_pending ∙ v.any;
        unique = λ a b ha hb. ground (arith, v.unique a i ha small, v.unique b i hb small);
        busy = λ e. cc;
        rest = λ _ j h. ground (arith, v.flags j h, clear j h, v.unique j i h small);
      })

pub Step-IsFair : {n : ℕ} {s t : Mpa} → Step n s t → IsFair n s → IsFair n t
Step-IsFair (request s i h here) v = elim (Bool-cases s.free) [
  | inl free ↦ enter_free-IsFair _ s i h v here free
  | inr busy ↦ enter_busy-IsFair _ s i h v here busy
]
Step-IsFair (wake s i h here) v = resume-IsFair _ s i h v here
Step-IsFair (complete s i h here) v = elim (Bool-cases s.one_pending) [
  | inl some_pending ↦ finish_handover-IsFair _ s i h v here some_pending
  | inr none_pending ↦ finish_free-IsFair _ s i h v here none_pending
]

new-IsFair : (n : ℕ) → IsFair n new
unfolding new
new-IsFair n = record {
  flags = λ j h. refl;
  any = sym (any_below-false n);
  unique = λ a b ha hb. ground arith;
  busy = λ e. cc;
  rest = λ e j h. refl;
}

pub Reach-IsFair : {n : ℕ} {s : Mpa} → Reach n s → IsFair n s
Reach-IsFair {n} start = new-IsFair n
Reach-IsFair (next r st) = Step-IsFair st (Reach-IsFair r)
