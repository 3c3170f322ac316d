-- ===== src/Bus/Tests.antt =====
-- Runs of the bus, and its theorems at concrete configurations.
use open_socemu.Base.{
  ℕ, ◌+◌, Bool, Result, ok, [], ◌∷◌, ◌^◌, ◌-◌, ◌≡◌, refl, true, false, some, none, arith,
}
use open_socemu.Base.Search.{any_below, first_hit}
use open_socemu.Bus.{Bus, new, set_range, decode_address, compose_address, IsQuiet}
use open_socemu.Bus.Direct.{composed, get_direct_mem_ptr, transport_dbg, invalidate_direct_mem_ptr}
use open_socemu.Bus.Direct.Window.{get_direct_mem_ptr-window}

-- Target 0 has the 4 KB from 0x10000.
abbrev mapped : Bus
mapped = (set_range 2 0 0x10000 (2 ^ 64 - 2 ^ 12) new).1

ranges_run :
    (decode_address 2 0x10234 mapped ≡ some (0, 0x234))
    × (decode_address 2 0x20000 mapped ≡ none)
    × ((set_range 2 1 0x10800 (2 ^ 64 - 2 ^ 8) mapped).0 ≡ true)
    × ((set_range 2 1 0x10001 (2 ^ 64 - 2 ^ 8) mapped).0 ≡ true)
unfolding new set_range decode_address any_below first_hit
ranges_run = (refl, refl, refl, refl)

-- The range from 0 to 0x1FFFF holds the range of target 0, and is accepted.
enclosing_accepted : (set_range 2 1 0 (2 ^ 64 - 2 ^ 17) mapped).0 ≡ false
unfolding new set_range any_below
enclosing_accepted = refl

decodes : decode_address 2 0x10234 mapped ≡ some (0, 0x234)
decodes = ranges_run.0

set_range_accepts : set_range 2 0 0x10000 (2 ^ 64 - 2 ^ 12) new ≡ (false, mapped)
unfolding new set_range any_below
set_range_accepts = refl

mapped-IsQuiet : IsQuiet mapped
unfolding new set_range any_below
mapped-IsQuiet = record {
  idle_all = λ i. refl;
  none_pending = λ i. refl;
  flag_clear = refl;
  is_free = refl;
}

-- Every target grants the 256 bytes from 0x200.
abbrev grants : ℕ → ℕ → Bool × ℕ × ℕ
grants target inner = (true, 0x200, 0x2FF)

-- The count is the target's number and one, and the target's state is the address it saw.
abbrev counts : ℕ → ℕ → ℕ → Result (ℕ × ℕ)
counts target inner t = ok (target + 1, inner)

direct_runs :
    (get_direct_mem_ptr grants 2 0x10234 (0, 0) mapped ≡ (true, (0x10200, 0x102FF)))
    × (get_direct_mem_ptr grants 2 0x20000 (5, 6) mapped ≡ (false, (5, 6)))
    × (transport_dbg counts 2 0x10234 mapped 9 ≡ ok (1, 0x234, 0x234))
    × (transport_dbg counts 2 0x20000 mapped 9 ≡ ok (0, 0x20000, 9))
    × (invalidate_direct_mem_ptr 2 0 0x10 0x1F mapped
        ≡ (0, 0x10010, 0x1001F) ∷ (1, 0x10010, 0x1001F) ∷ [])
unfolding new set_range decode_address any_below first_hit get_direct_mem_ptr composed
    compose_address transport_dbg invalidate_direct_mem_ptr
direct_runs = (refl, refl, refl, refl, refl)

get_direct_mem_ptr-window_example :
    (low : ℕ) × (high : ℕ) × (get_direct_mem_ptr grants 2 0x10234 (0, 0) mapped
      ≡ (true, (low, high)))
    × (low + (0x234 - 0x200) ≡ 0x10234)
    × (0x10234 + (0x2FF - 0x234) ≡ high)
unfolding new set_range any_below
get_direct_mem_ptr-window_example =
    get_direct_mem_ptr-window grants 2 0x10234 0 0x234 0x200 0x2FF true (0, 0) mapped (omega arith)
      (omega arith) decodes refl (omega arith) (omega arith) (omega arith)
