-- ===== src/Arm32/Status.antt =====
-- CPSR of the simulator bit by bit: what a read returns, and what a masked write changes.
use open_socemu.Base.{
  ℕ, zero, suc, ◌+◌, ◌-◌, ◌^◌, ◌<◌, ◌≡◌, ap, ◌∙◌, Bool, true, false, ◌&&◌, ◌||◌, ◌==◌, leb, ltb,
  arith, if◌then◌else◌, bit_and, shl,
}
use open_socemu.Base.Bits.{
  test_bit, test_bit-bit_and, test_bit-bit_or, test_bit-zero, test_bit_of_lt, test_bit-pow,
}
use open_socemu.Base.Masks.{test_bit-ones, test_bit-mod, bit_and_low}
use open_socemu.Base.Shifts.{test_bit-shl}
use open_socemu.Arm32.{Arm32}
use open_socemu.Arm32.Psr.{get_cpsr}

-- The positions of the bits that have fields of their own.
abbrev pub cached : ℕ → Bool
cached i = leb i 5 || ((leb 10 i && leb i 19) || (leb 25 i && leb i 31))

-- The fields are within their widths, and the rest of CPSR holds none of their bits.
pub record IsPsr (s : Arm32) : Type 0 where
  pub nf : s.nf < 2
  pub zf : s.zf < 2
  pub cf : s.cf < 2
  pub vf : s.vf < 2
  pub qf : s.qf < 2
  pub tf : s.tf < 2
  pub gef : s.gef < 16
  pub itf : s.itf < 256
  pub mf : s.mf < 32
  pub raw_cpsr : s.raw_cpsr < 2 ^ 32
  pub apart : (i : ℕ) → cached i ≡ true → test_bit s.raw_cpsr i ≡ false

-- Bit i of CPSR, by the fields.
abbrev pub cpsr_bit : Arm32 → ℕ → Bool
cpsr_bit s i =
    if i == 31
    then s.nf == 1
    else if i == 30
    then s.zf == 1
    else if i == 29
    then s.cf == 1
    else if i == 28
    then s.vf == 1
    else if i == 27
    then s.qf == 1
    else if leb 25 i
    then test_bit s.itf (i - 25)
    else if leb 20 i
    then test_bit s.raw_cpsr i
    else if leb 16 i
    then test_bit s.gef (i - 16)
    else if leb 10 i
    then test_bit s.itf (i - 8)
    else if leb 6 i
    then test_bit s.raw_cpsr i
    else if i == 5
    then s.tf == 1
    else test_bit s.mf i

test_bit_small : (x : ℕ) (j : ℕ) → x < 2 → test_bit x j ≡ ((j == 0) && (x == 1))
test_bit_small zero j h = test_bit-zero j ∙ ground arith
test_bit_small (suc zero) j h = test_bit-pow 0 j ∙ ground arith
test_bit_small (suc (suc x)) j h = absurd (omega arith)

pub flag_bit : (x p i : ℕ) → x < 2 → i < 32 → test_bit (shl x p) i ≡ ((i == p) && (x == 1))
flag_bit x p i h k = ground (arith, test_bit-shl x p i, test_bit_small x (i - p) h)

pub field_bit :
    (w x p i : ℕ)
    → x < 2 ^ w
    → i < 32
    → test_bit (shl x p) i ≡ ((leb p i && ltb i (p + w)) && test_bit x (i - p))
field_bit w x p i h k = ground (arith, test_bit-shl x p i, test_bit_of_lt w x (i - p) h)

-- The low two bits of the IT state.
it_low :
    (x i : ℕ)
    → i < 32
    → test_bit (shl (bit_and x 3) 25) i ≡ ((leb 25 i && ltb i 27) && test_bit x (i - 25))
it_low x i k =
    test_bit-shl (bit_and x 3) 25 i
    ∙ ground (arith, ap (λ y. test_bit y (i - 25)) (bit_and_low 2 x), test_bit-mod 2 x (i - 25))

pub it_mask : (j : ℕ) → j < 32 → test_bit 0xfc j ≡ (leb 2 j && ltb j 8)
it_mask j h = field_bit 6 63 2 j (omega arith) h ∙ ground (arith, test_bit-ones 6 (j - 2))

it_high :
    (x i : ℕ)
    → i < 32
    → test_bit (shl (bit_and x 0xfc) 8) i ≡ ((leb 10 i && ltb i 16) && test_bit x (i - 8))
it_high x i k =
    test_bit-shl (bit_and x 0xfc) 8 i
    ∙ ground (arith, test_bit-bit_and x 0xfc (i - 8), it_mask (i - 8) (omega arith))

pub get_cpsr-bits : (s : Arm32) (i : ℕ) → IsPsr s → i < 32 → test_bit (get_cpsr s) i ≡ cpsr_bit s i
unfolding get_cpsr
get_cpsr-bits s i h k =
    rw
      (
        test_bit-bit_or,
        test_bit-bit_or,
        test_bit-bit_or,
        test_bit-bit_or,
        test_bit-bit_or,
        test_bit-bit_or,
        test_bit-bit_or,
        test_bit-bit_or,
        test_bit-bit_or,
        test_bit-bit_or,
        flag_bit s.nf 31 i h.nf k,
        flag_bit s.zf 30 i h.zf k,
        flag_bit s.cf 29 i h.cf k,
        flag_bit s.vf 28 i h.vf k,
        flag_bit s.qf 27 i h.qf k,
        flag_bit s.tf 5 i h.tf k,
        it_low s.itf i k,
        field_bit 4 s.gef 16 i h.gef k,
        it_high s.itf i k,
      )
      (ground (arith, h.apart i, test_bit_of_lt 5 s.mf i h.mf))
