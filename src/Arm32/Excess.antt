-- ===== src/Arm32/Excess.antt =====
-- The signed value of a 32-bit word of the simulator, in excess form: 2 to the 31 more than it, so
-- that the order of signed words is the order of these numbers. The sign tests by this order.
use open_socemu.Base.{
  ℕ, ◌+◌, ◌-◌, ◌/◌, ◌%◌, ◌^◌, ◌<◌, ◌≡◌, refl, sym, ◌∙◌, Bool, true, false, not, leb, ltb, bit_xor,
  bit_not, arith, if◌then◌else◌, Bool-cases, inl, inr,
}
use mathlib.Core.Bool.{xor}
use open_socemu.Base.Xor.{nonzero-top, bit_xor-lt, test_bit-bit_xor, test_bit_top}
use open_socemu.Arm32.{signbit}
use open_socemu.Arm32.Alu.{sign_set, saturated, sra}

abbrev pub excess : ℕ → ℕ
excess x = (x + 2 ^ 31) % 2 ^ 32

-- The result of a saturating operation, for a value in excess form which is cut at 0 already.
abbrev pub clamp : ℕ → ℕ
clamp v = if ltb v (2 ^ 32) then v else 2 ^ 32 - 1

xor-cases : (x y : Bool) → xor x y ≡ (if x then not y else y)
unfolding xor
xor-cases true true = refl
xor-cases true false = refl
xor-cases false true = refl
xor-cases false false = refl

-- The sign of an exclusive or says whether the signs differ.
pub sign_set-bit_xor :
    (a b : ℕ)
    → a < 2 ^ 32
    → b < 2 ^ 32
    → sign_set (bit_xor a b) ≡ (if leb signbit a then ltb b signbit else leb signbit b)
sign_set-bit_xor a b ha hb =
    nonzero-top (bit_xor a b) (bit_xor-lt 32 a b ha hb)
    ∙ sym (test_bit_top (bit_xor a b) (bit_xor-lt 32 a b ha hb))
    ∙ test_bit-bit_xor a b 31
    ∙ rw (test_bit_top a ha, test_bit_top b hb)
        (xor-cases (leb signbit a) (leb signbit b) ∙ ground arith)

pub saturated-excess :
    (a : ℕ) → a < 2 ^ 32 → excess (saturated a) ≡ (if ltb a signbit then 2 ^ 32 - 1 else 0)
unfolding saturated sra
saturated-excess a ha = elim (Bool-cases (ltb a signbit)) [
  | inl plus ↦ (let gone : a / 2 ^ 31 ≡ 0 = ground arith in rw (plus, gone) refl)
  | inr minus ↦ (let gone : bit_not a / 2 ^ 31 ≡ 0 = ground arith in rw (minus, gone) refl)
]
