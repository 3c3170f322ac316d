-- ===== src/IntOr.antt =====
-- The gate of interrupt lines of src/tlm_blocks/Generic/IntOr/IntOr.h.
-- The level last sent on the master socket is the Bool `line`; a transaction carries 1 for an
-- asserted line and another value for a deasserted one, and has passed TLM_INT_SANITY.
pub mod Levels
mod Tests
use open_socemu.Base.{
  ℕ, ◌+◌, Bool, true, false, nonzero, raise_bit, drop_bit, ltb, ◌==◌, if◌then◌else◌, Result, ok,
  fault, assertion, check, ◌>>=◌, ◌>>◌,
}

pub record IntOr : Type 0 where
  pub or : ℕ
  pub master_num : ℕ
  pub line : Bool

-- No level has been sent yet, which the line takes for low.
unfoldable pub new : IntOr
new = record { or = 0; master_num = 0; line = false }

unfoldable pub add : IntOr → Result IntOr
add s = do check (ltb s.master_num 32) assertion; ok (record s { master_num = s.master_num + 1 })

unfoldable pub int_s_b_transport : ℕ → ℕ → IntOr → Result IntOr
int_s_b_transport id value s = do
  check (ltb id s.master_num) assertion
  let or = if value == 1 then raise_bit s.or id else drop_bit s.or id
  ok (record s { or = or; line = nonzero or })
