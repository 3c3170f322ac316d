-- ===== src/Bus/Direct.antt =====
-- The debug transport and the direct memory calls of src/tlm_blocks/Top/Bus/Bus.h, which do not wait.
-- What a target answers is a parameter; a target leaves the address of the transaction alone.
pub mod Window
use open_socemu.Base.{ℕ, zero, suc, Bool, false, List, [], ◌∷◌, ◌++◌, none, some, Result, ok, ◌>>=◌}
use open_socemu.Bus.{Bus, decode_address, compose_address}

-- The count, and the address that is left in the transaction.
unfoldable pub transport_dbg {ℓ} :
    {T : Type ℓ} → (ℕ → ℕ → T → Result (ℕ × T)) → ℕ → ℕ → Bus → T → Result (ℕ × ℕ × T)
transport_dbg targets m address s t = elim (decode_address m address s) [
  | none ↦ ok (0, address, t)
  | some (target, inner) ↦ targets target inner t >>= λ (n, t'). ok (n, inner, t')
]

-- The window of a target in the address space of the bus.
unfoldable pub composed : ℕ → Bus → Bool × ℕ × ℕ → Bool × (ℕ × ℕ)
composed target s (status, first, last) =
    (status, (compose_address target first s, compose_address target last s))

-- The status, the first and the last address of the window, which is left alone when the address has
-- no target. The masked address is left in the transaction.
unfoldable pub get_direct_mem_ptr : (ℕ → ℕ → Bool × ℕ × ℕ) → ℕ → ℕ → ℕ × ℕ → Bus → Bool × (ℕ × ℕ)
get_direct_mem_ptr targets m address window s = elim (decode_address m address s) [
  | none ↦ (false, window)
  | some (target, inner) ↦ composed target s (targets target inner)
]

-- The calls of the initiators, in order, each with the window.
unfoldable pub invalidate_direct_mem_ptr : ℕ → ℕ → ℕ → ℕ → Bus → List (ℕ × ℕ × ℕ)
invalidate_direct_mem_ptr zero id start_range end_range s = []
invalidate_direct_mem_ptr (suc n) id start_range end_range s =
    invalidate_direct_mem_ptr n id start_range end_range s
    ++ ((n, compose_address id start_range s, compose_address id end_range s) ∷ [])
