-- ===== src/Base/Xor.antt =====
-- The bits of an exclusive or, and the top bit of a 32-bit word.
use Prim.Native.Nat.{
  ℕ, zero, suc, ◌+◌, ◌*◌, ◌/◌, ◌%◌, ◌^◌, ◌≤◌, ◌<◌, bit_xor, bit_and, digits, differ,
  bit_xor-bitwise,
}
use native.Mathlib.Nat.{le_refl}
use native.Mathlib.Omega.{arith}
use mathlib.Core.Path.{◌≡◌, refl, sym, ◌∙◌}
use mathlib.Core.Bool.{Bool, true, false, xor}
use open_socemu.Base.Tests.{leb, ◌==◌}
use open_socemu.Base.Word.{nonzero, bit_set}
use open_socemu.Base.Masks.{bit_set-test_bit}
use open_socemu.Base.Shifts.{test_bit-shr}
use open_socemu.Base.Bits.{test_bit, test_bit-zero, test_bit_high, test_bit_of_lt, lt_pow_of_bits}

differ_digit : (a b : ℕ) → a < 2 → b < 2 → differ a b < 2
differ_digit zero zero ha hb = omega arith
differ_digit zero (suc b) ha hb = omega arith
differ_digit (suc zero) zero ha hb = omega arith
differ_digit (suc zero) (suc zero) ha hb = omega arith
differ_digit (suc (suc a)) b ha hb = absurd (omega arith)
differ_digit (suc zero) (suc (suc b)) ha hb = absurd (omega arith)

xor-false : (c : Bool) → c ≡ xor false c
unfolding xor
xor-false true = refl
xor-false false = refl

low_digit :
    (q a b : ℕ)
    → test_bit (q * 2 + differ (a % 2) (b % 2)) zero ≡ xor (test_bit a zero) (test_bit b zero)
unfolding test_bit xor
low_digit q a b = by_digits (a % 2) (b % 2) (omega arith) (omega arith)
  where
    by_digits : (x y : ℕ) → x < 2 → y < 2 → ((q * 2 + differ x y) % 2 == 1) ≡ xor (x == 1) (y == 1)
    by_digits zero zero hx hy = ground arith
    by_digits zero (suc zero) hx hy = ground arith
    by_digits (suc zero) zero hx hy = ground arith
    by_digits (suc zero) (suc zero) hx hy = ground arith
    by_digits (suc (suc x)) y hx hy = absurd (omega arith)
    by_digits zero (suc (suc y)) hx hy = absurd (omega arith)
    by_digits (suc zero) (suc (suc y)) hx hy = absurd (omega arith)

differing_bits :
    (n a b i : ℕ)
    → a ≤ n
    → test_bit (digits (λ y. y) differ n a b) i ≡ xor (test_bit a i) (test_bit b i)
differing_bits zero zero b i h = rw test_bit-zero (xor-false (test_bit b i))
differing_bits zero (suc a) b i h = absurd (omega arith)
differing_bits (suc n) zero b i h = rw test_bit-zero (xor-false (test_bit b i))
differing_bits (suc n) (suc a) b zero h =
    low_digit (digits (λ y. y) differ n (suc a / 2) (b / 2)) (suc a) b
differing_bits (suc n) (suc a) b (suc i) h =
    let digit : differ (suc a % 2) (b % 2) < 2 =
      differ_digit (suc a % 2) (b % 2) (omega arith) (omega arith) in
    test_bit_high _ _ i digit
    ∙ differing_bits n (suc a / 2) (b / 2) i (omega arith)
    ∙ (unfold test_bit in refl)

pub test_bit-bit_xor : (a b i : ℕ) → test_bit (bit_xor a b) i ≡ xor (test_bit a i) (test_bit b i)
test_bit-bit_xor a b i = rw bit_xor-bitwise (differing_bits a a b i (le_refl a))

-- A word at or above 2 to the 31 is one with the top bit.
pub test_bit_top : (x : ℕ) → x < 2 ^ 32 → test_bit x 31 ≡ leb (2 ^ 31) x
unfolding test_bit
test_bit_top x hx =
    let moved : test_bit (x / 2 ^ 31) 0 ≡ test_bit x 31 = test_bit-shr x 31 0 in
    sym moved ∙ ground arith

-- The code's test of the sign bit.
pub nonzero-top : (x : ℕ) → x < 2 ^ 32 → nonzero (bit_and x (2 ^ 31)) ≡ leb (2 ^ 31) x
unfolding bit_set
nonzero-top x hx = bit_set-test_bit x 31 ∙ test_bit_top x hx

pub bit_xor-lt : (k a b : ℕ) → a < 2 ^ k → b < 2 ^ k → bit_xor a b < 2 ^ k
unfolding xor
bit_xor-lt k a b ha hb =
    lt_pow_of_bits k _
      λ i h. test_bit-bit_xor a b i ∙ rw (test_bit_of_lt k a i ha h, test_bit_of_lt k b i hb h) refl
