-- ===== src/Bus.antt =====
-- The bus of src/tlm_blocks/Top/Bus/Bus.h, for n initiators and m targets.
-- `b_transport` is cut where it waits and where it forwards: `enter`, `resume`, `finish`.
-- What the forwarded transaction does to its payload is the target's.
pub mod Decode
pub mod Overlap
pub mod Direct
mod Tests
use open_socemu.Base.{
  ℕ, ◌+◌, ◌-◌, ◌*◌, ◌%◌, ◌^◌, ◌<◌, Bool, true, false, not, Option, none, some, bit_and, bit_xor,
  nonzero, update, ltb, ◌==◌, if◌then◌else◌, ◌≡◌, Result, fault, ok, report_fatal, check, ◌>>=◌,
  ◌>>◌,
}
use open_socemu.Base.Search.{any_below, first_hit}
use open_socemu.Base.Process.{Phase, idle, waiting, ready, forwarding, notify}

pub record Bus : Type 0 where
  pub base : ℕ → ℕ
  pub mask : ℕ → ℕ
  pub phase : ℕ → Phase
  pub is_pending : ℕ → Bool
  pub one_pending : Bool
  pub free : Bool

-- The constructor: every range is the one address 0xFFFFFFFFFFFFFFFF.
unfoldable pub new : Bus
new = record {
  base = λ _. 2 ^ 64 - 1;
  mask = λ _. 2 ^ 64 - 1;
  phase = λ _. idle;
  is_pending = λ _. false;
  one_pending = false;
  free = true;
}

abbrev pub conflicts : Bus → ℕ → ℕ → Bool
conflicts s base i = bit_and base (s.mask i) == s.base i

-- `set_range` returns true on an error, and then changes nothing. (`u64_temp - 1` wraps at 0.)
unfoldable pub set_range : ℕ → ℕ → ℕ → ℕ → Bus → Bool × Bus
set_range m id base mask s =
    if ltb id m
    then (let u64_temp = bit_xor mask (mask * 2 % 2 ^ 64) in
        if nonzero (bit_and u64_temp ((u64_temp + 2 ^ 64 - 1) % 2 ^ 64))
        then (true, s)
        else if not (bit_and base mask == base)
        then (true, s)
        else if any_below m (conflicts s base)
        then (true, s)
        else (false, record s { base = update s.base id base; mask = update s.mask id mask }))
    else (true, s)

-- `decode_address`: the target and the address inside it, or none for a target number of m.
unfoldable pub decode_address : ℕ → ℕ → Bus → Option (ℕ × ℕ)
decode_address m address s =
    let i = first_hit (conflicts s address) m 0 in
    if ltb i m then some (i, bit_and address (2 ^ 64 - 1 - s.mask i)) else none

unfoldable pub compose_address : ℕ → ℕ → Bus → ℕ
compose_address target address s = (address + s.base target) % 2 ^ 64

-- Up to the wait, or to the forwarded transaction. The answer is the routed target and address;
-- none is TLM_ADDRESS_ERROR_RESPONSE.
unfoldable pub enter : ℕ → ℕ → ℕ → ℕ → Bus → Result (Option (ℕ × ℕ) × Bus)
enter n m id address s = do
  check (ltb id n) report_fatal
  elim (decode_address m address s) [
    | none ↦ ok (none, s)
    | some route ↦ ok (
      some route,
      if not s.free
          then record s {
            phase = update s.phase id waiting;
            is_pending = update s.is_pending id true;
            one_pending = true;
          }
          else record s { phase = update s.phase id forwarding; free = false },
    )
  ]

-- From the wait to the forwarded transaction.
unfoldable pub resume : ℕ → ℕ → Bus → Bus
resume n id s =
    let pending = update s.is_pending id false in
    record s {
      phase = update s.phase id forwarding;
      is_pending = pending;
      one_pending = any_below n pending;
      free = false;
    }

-- After the forwarded transaction: the bus is marked free, then the first pending initiator is
-- notified.
unfoldable pub finish : ℕ → ℕ → Bus → Bus
finish n id s =
    let left = update s.phase id idle in
    let i = first_hit s.is_pending n 0 in
    record s {
      free = true;
      phase =
          if s.one_pending then if ltb i n then update left i (notify (left i)) else left else left;
    }

-- No initiator is in a call.
pub record IsQuiet (s : Bus) : Type 0 where
  pub idle_all : (i : ℕ) → s.phase i ≡ idle
  pub none_pending : (i : ℕ) → s.is_pending i ≡ false
  pub flag_clear : s.one_pending ≡ false
  pub is_free : s.free ≡ true

pub data Step (n m : ℕ) : Bus → Bus → Type 0 where
  request :
      (s t : Bus) (i address : ℕ) (route : ℕ × ℕ)
      → s.phase i ≡ idle
      → enter n m i address s ≡ ok (some route, t)
      → Step n m s t
  wake : (s : Bus) (i : ℕ) → i < n → s.phase i ≡ ready → Step n m s (resume n i s)
  complete : (s : Bus) (i : ℕ) → i < n → s.phase i ≡ forwarding → Step n m s (finish n i s)

pub data Reach (n m : ℕ) (s : Bus) : Bus → Type 0 where
  start : Reach n m s s
  next : {t u : Bus} → Reach n m s t → Step n m t u → Reach n m s u
