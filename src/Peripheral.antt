-- ===== src/Peripheral.antt =====
-- A register block behind its socket, src/tlm_blocks/Generic/Peripheral/Peripheral.h: the transport
-- over the two virtual methods, and the methods that the template has itself. A
-- method starts at the end of its internal delay.
pub mod Words
pub mod Keeps
pub mod Plain
mod Tests
use open_socemu.Base.{
  ℕ, ◌/◌, u32, update, ltb, if◌then◌else◌, Result, ok, assertion, check, ◌>>=◌, ◌>>◌,
}
use open_socemu.Tlm.{Payload, Transport, is_read, ok_response, word_sanity}

-- The virtual methods, for the block of type S. They take `uint32_t` offsets.
pub record Registers {ℓ} (S : Type ℓ) : Type ℓ where
  pub reg_rd : ℕ → S → Result (ℕ × S)
  pub reg_wr : ℕ → ℕ → S → Result S

unfoldable pub slave_b_transport {ℓ} : {S : Type ℓ} → Registers S → Transport S
slave_b_transport r t s = do
  word_sanity t
  if is_read t.command
      then (r.reg_rd (u32 t.address) s >>= λ (value, s').
          ok (record t { data_word = value; response = ok_response }, s'))
      else (r.reg_wr (u32 t.address) t.data_word s >>= λ s'.
          ok (record t { response = ok_response }, s'))

-- The template's own methods, and its registers after the constructor.
unfoldable pub reg_rd : ℕ → ℕ → (ℕ → ℕ) → Result (ℕ × (ℕ → ℕ))
reg_rd reg_count offset reg = do
  let index = offset / 4
  check (ltb index reg_count) assertion
  ok (reg index, reg)

unfoldable pub reg_wr : ℕ → ℕ → ℕ → (ℕ → ℕ) → Result (ℕ → ℕ)
reg_wr reg_count offset value reg = do
  let index = offset / 4
  check (ltb index reg_count) assertion
  ok (update reg index value)

unfoldable pub cleared : ℕ → ℕ
cleared index = 0

unfoldable pub registers : ℕ → Registers (ℕ → ℕ)
registers reg_count = record { reg_rd = reg_rd reg_count; reg_wr = reg_wr reg_count }
