-- ===== src/Base/Word.antt =====
-- The C operators on `uint32_t`, and the macros BIT_SET and GETF of src/utils/utils.h.
use Prim.Native.Nat.{ℕ, ◌-◌, ◌+◌, ◌*◌, ◌/◌, ◌%◌, ◌^◌, bit_and, bit_or}
use mathlib.Core.Bool.{Bool, not}
use open_socemu.Base.Tests.{◌==◌}

abbrev pub u32 : ℕ → ℕ
u32 n = n % 2 ^ 32

-- `~v` on a `uint32_t`.
abbrev pub bit_not : ℕ → ℕ
bit_not v = 2 ^ 32 - 1 - v

-- `a - b` on `uint32_t` operands.
abbrev pub sub32 : ℕ → ℕ → ℕ
sub32 a b = (a + 2 ^ 32 - b) % 2 ^ 32

-- `v << p`, at a position below 32.
abbrev pub shl : ℕ → ℕ → ℕ
shl v p = (v * 2 ^ p) % 2 ^ 32

-- `v >> p`.
abbrev pub shr : ℕ → ℕ → ℕ
shr v p = v / 2 ^ p

-- A value taken as a C condition.
abbrev pub nonzero : ℕ → Bool
nonzero v = not (v == 0)

-- BIT_SET(r, p)
unfoldable pub bit_set : ℕ → ℕ → Bool
bit_set r p = nonzero (bit_and r (2 ^ p))

-- GETF(r, m, p)
unfoldable pub get_field : ℕ → ℕ → ℕ → ℕ
get_field r m p = shr (bit_and r m) p

-- `r |= 1 << p` and `r &= ~(1 << p)`
unfoldable pub raise_bit : ℕ → ℕ → ℕ
raise_bit r p = bit_or r (2 ^ p)

unfoldable pub drop_bit : ℕ → ℕ → ℕ
drop_bit r p = bit_and r (bit_not (2 ^ p))
