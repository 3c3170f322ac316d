-- ===== src/Bus/Direct/Window.antt =====
-- The window of direct memory access that an initiator of the bus gets.
use open_socemu.Base.{ap, none, false, ℕ, ◌+◌, ◌-◌, ◌^◌, ◌<◌, ◌≤◌, ◌≡◌, ◌∙◌, Bool, some, arith}
use open_socemu.Bus.{Bus, decode_address, compose_address}
use open_socemu.Bus.Decode.{compose-decode}
use open_socemu.Bus.Direct.{composed, get_direct_mem_ptr}

-- An address below 2 ^ 64 that decodes to a target with a 64-bit mask, whose answer is a window that
-- holds the inner address and whose end does not pass 2 ^ 64 above the target's base: the window that
-- the initiator gets holds its address, as far from both ends as the inner address is from those of
-- the target's window, and has the target's status.
pub get_direct_mem_ptr-window :
    (targets : ℕ → ℕ → Bool × ℕ × ℕ) (m address i inner first last : ℕ) (status : Bool)
    (window : ℕ × ℕ) (s : Bus)
    → address < 2 ^ 64
    → s.mask i < 2 ^ 64
    → decode_address m address s ≡ some (i, inner)
    → targets i inner ≡ (status, first, last)
    → first ≤ inner
    → inner ≤ last
    → last + s.base i < 2 ^ 64
    → (low : ℕ) × (high : ℕ) × (get_direct_mem_ptr targets m address window s
        ≡ (status, (low, high)))
      × (low + (inner - first) ≡ address)
      × (address + (last - inner) ≡ high)
unfolding get_direct_mem_ptr composed compose_address
get_direct_mem_ptr-window targets m address i inner first last status window s ha hm route grant lo
      hi fits =
    let whole = compose-decode m address i inner s ha hm route in
    (
      compose_address i first s,
      compose_address i last s,
      granted,
      omega (arith, whole),
      omega (arith, whole),
    )
  where
    granted :
        get_direct_mem_ptr targets m address window s
        ≡ (status, (compose_address i first s, compose_address i last s))
    granted =
        ap
          (λ found. elim found as (λ _. Bool × (ℕ × ℕ)) [
            | none ↦ (false, window)
            | some (target, inner') ↦ composed target s (targets target inner')
          ])
          route
        ∙ ap (composed i s) grant
