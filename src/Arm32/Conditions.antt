-- ===== src/Arm32/Conditions.antt =====
-- The condition codes of the simulator, by what they say of two compared words.
use open_socemu.Base.{
  ℕ, zero, suc, ◌+◌, ◌*◌, ◌^◌, ◌<◌, ◌≡◌, refl, ap, Bool, not, leb, ltb, ◌==◌, sub32, arith, ok,
}
use open_socemu.Arm32.{Arm32, signbit}
use open_socemu.Arm32.Psr.{test_cc, truth}
use open_socemu.Arm32.Excess.{excess}
use open_socemu.Arm32.Saturate.{difference_fits}

-- Each of the even conditions below 14 and the odd one after it are decided, for every flags, and
-- are opposite.
pub test_cc-opposite :
    (k : ℕ) (s : Arm32)
    → k < 7
    → (b : Bool) × (test_cc (2 * k) s ≡ ok b) × (test_cc (2 * k + 1) s ≡ ok (not b))
unfolding test_cc
test_cc-opposite zero s h = (_, refl, refl)
test_cc-opposite (suc zero) s h = (_, refl, refl)
test_cc-opposite (suc (suc zero)) s h = (_, refl, refl)
test_cc-opposite (suc (suc (suc zero))) s h = (_, refl, refl)
test_cc-opposite (suc (suc (suc (suc zero)))) s h = (_, refl, ap ok (ground arith))
test_cc-opposite (suc (suc (suc (suc (suc zero))))) s h = (_, refl, refl)
test_cc-opposite (suc (suc (suc (suc (suc (suc zero)))))) s h = (_, refl, ap ok (ground arith))
test_cc-opposite (suc (suc (suc (suc (suc (suc (suc k))))))) s h = absurd (omega arith)

-- The flags say how the words a and b compare: those of the difference a - b.
pub record IsCompared (a b : ℕ) (s : Arm32) : Type 0 where
  pub negative : s.nf ≡ truth (leb signbit (sub32 a b))
  pub same : s.zf ≡ truth (a == b)
  pub no_borrow : s.cf ≡ truth (leb b a)
  pub overflow : s.vf ≡ truth (not (difference_fits (excess a) (excess b)))

-- With the flags of the comparison of two words, the conditions EQ, CS, HI, GE and GT hold exactly
-- when the first word is equal to the second, at least it and above it as unsigned numbers, and at
-- least it and above it as signed ones.
pub test_cc-compare :
    (a b : ℕ) (s : Arm32)
    → a < 2 ^ 32
    → b < 2 ^ 32
    → IsCompared a b s
    → (test_cc 0 s ≡ ok (a == b))
      × (test_cc 2 s ≡ ok (leb b a))
      × (test_cc 8 s ≡ ok (ltb b a))
      × (test_cc 10 s ≡ ok (leb (excess b) (excess a)))
      × (test_cc 12 s ≡ ok (ltb (excess b) (excess a)))
unfolding test_cc
test_cc-compare a b s ha hb h = (
  ap ok (ground (arith, h.same)),
  ap ok (ground (arith, h.no_borrow)),
  ap ok (ground (arith, h.same, h.no_borrow)),
  ap ok (ground (arith, h.negative, h.overflow)),
  ap ok (ground (arith, h.same, h.negative, h.overflow)),
)
