-- ===== src/Base/Bits.antt =====
-- Laws of the bit operations, bit by bit, at every value and position. `test_bit` is the
-- description of bit i by halving; the code's BIT_SET tests are equal to it.
use Prim.Native.Nat.{
  ℕ, zero, suc, ◌+◌, ◌-◌, ◌*◌, ◌/◌, ◌%◌, ◌^◌, ◌≤◌, ◌<◌, min, max, bit_and, bit_or, digits,
  bit_and-bitwise, bit_or-bitwise,
}
use native.Mathlib.Nat.{le_refl, pow-suc}
use native.Mathlib.Omega.{arith}
use mathlib.Core.Path.{◌≡◌, refl, sym, ap, ◌∙◌}
use mathlib.Core.Bool.{Bool, false, not, ◌&&◌, ◌||◌}
use open_socemu.Base.Tests.{◌==◌}

-- Bit i of x.
unfoldable pub test_bit : ℕ → ℕ → Bool
test_bit x zero = x % 2 == 1
test_bit x (suc i) = test_bit (x / 2) i

pub test_bit-zero : (i : ℕ) → test_bit 0 i ≡ false
unfolding test_bit
test_bit-zero zero = refl
test_bit-zero (suc i) = test_bit-zero i

-- Bits of a number in the form of its quotient and remainder by 2.
test_bit_low : (q r : ℕ) → r < 2 → test_bit (q * 2 + r) zero ≡ (r == 1)
unfolding test_bit
test_bit_low q r h = ground arith

pub test_bit_high : (q r i : ℕ) → r < 2 → test_bit (q * 2 + r) (suc i) ≡ test_bit q i
unfolding test_bit
test_bit_high q r i h = ap (λ x. test_bit x i) (omega arith)

pub test_bit_digit : (q r : ℕ) → r < 2 → test_bit (q * 2 + r) zero ≡ test_bit r zero
unfolding test_bit
test_bit_digit q r h = ground arith

test_bit-and_digits :
    (n a b i : ℕ) → a ≤ n → test_bit (digits (λ y. 0) min n a b) i ≡ (test_bit a i && test_bit b i)
test_bit-and_digits zero zero b i h = rw test_bit-zero
test_bit-and_digits zero (suc a) b i h = absurd (omega arith)
test_bit-and_digits (suc n) zero b i h = rw test_bit-zero
test_bit-and_digits (suc n) (suc a) b zero h =
    test_bit_low _ _ (omega arith) ∙ (unfold test_bit in ground arith)
test_bit-and_digits (suc n) (suc a) b (suc i) h =
    test_bit_high _ _ i (omega arith)
    ∙ test_bit-and_digits n (suc a / 2) (b / 2) i (omega arith)
    ∙ (unfold test_bit in refl)

test_bit-or_digits :
    (n a b i : ℕ) → a ≤ n → test_bit (digits (λ y. y) max n a b) i ≡ (test_bit a i || test_bit b i)
test_bit-or_digits zero zero b i h = rw test_bit-zero
test_bit-or_digits zero (suc a) b i h = absurd (omega arith)
test_bit-or_digits (suc n) zero b i h = rw test_bit-zero
test_bit-or_digits (suc n) (suc a) b zero h =
    test_bit_low _ _ (omega arith) ∙ (unfold test_bit in ground arith)
test_bit-or_digits (suc n) (suc a) b (suc i) h =
    test_bit_high _ _ i (omega arith)
    ∙ test_bit-or_digits n (suc a / 2) (b / 2) i (omega arith)
    ∙ (unfold test_bit in refl)

pub test_bit-bit_and : (a b i : ℕ) → test_bit (bit_and a b) i ≡ (test_bit a i && test_bit b i)
test_bit-bit_and a b i = rw bit_and-bitwise (test_bit-and_digits a a b i (le_refl a))

pub test_bit-bit_or : (a b i : ℕ) → test_bit (bit_or a b) i ≡ (test_bit a i || test_bit b i)
test_bit-bit_or a b i = rw bit_or-bitwise (test_bit-or_digits a a b i (le_refl a))

-- Two numbers with the same bits are equal.
eq_of_bits_below : (n a b : ℕ) → a ≤ n → b ≤ n → ((i : ℕ) → test_bit a i ≡ test_bit b i) → a ≡ b
unfolding test_bit
eq_of_bits_below zero a b ha hb same = omega arith
eq_of_bits_below (suc n) a b ha hb same = ground (
  arith,
  same 0,
  eq_of_bits_below n (a / 2) (b / 2) (omega arith) (omega arith) (λ i. same (suc i)),
)

pub eq_of_bits : (a b : ℕ) → ((i : ℕ) → test_bit a i ≡ test_bit b i) → a ≡ b
eq_of_bits a b same = eq_of_bits_below (a + b) a b (omega arith) (omega arith) same

-- A power of two has one bit.
pub test_bit-pow : (p i : ℕ) → test_bit (2 ^ p) i ≡ (i == p)
unfolding test_bit
test_bit-pow zero zero = refl
test_bit-pow zero (suc i) = test_bit-zero i ∙ ground arith
test_bit-pow (suc p) zero = rw pow-suc (ground arith)
test_bit-pow (suc p) (suc i) = ap (λ x. test_bit x i) (half_pow p) ∙ test_bit-pow p i ∙ ground arith
  where
    half_pow : (k : ℕ) → 2 ^ suc k / 2 ≡ 2 ^ k
    half_pow k = rw pow-suc (omega arith)

-- The complement below a width.
pub test_bit-complement :
    (k x i : ℕ) → x < 2 ^ k → i < k → test_bit (2 ^ k - 1 - x) i ≡ not (test_bit x i)
unfolding test_bit
test_bit-complement zero x i hx hi = absurd (omega arith)
test_bit-complement (suc k) x zero hx hi = ground (arith, pow-suc 2 k)
test_bit-complement (suc k) x (suc i) hx hi =
    ap (λ y. test_bit y i) (halved k x hx)
    ∙ test_bit-complement k (x / 2) i (omega (arith, pow-suc 2 k)) (omega arith)
  where
    halved : (k x : ℕ) → x < 2 ^ suc k → (2 ^ suc k - 1 - x) / 2 ≡ 2 ^ k - 1 - x / 2
    halved k x h = omega (arith, pow-suc 2 k)

-- No bit at or above the width.
pub test_bit_of_lt : (k x i : ℕ) → x < 2 ^ k → k ≤ i → test_bit x i ≡ false
unfolding test_bit
test_bit_of_lt zero x i hx hi = ap (λ y. test_bit y i) (omega arith) ∙ test_bit-zero i
test_bit_of_lt (suc k) x zero hx hi = absurd (omega arith)
test_bit_of_lt (suc k) x (suc i) hx hi =
    test_bit_of_lt k (x / 2) i (omega (arith, pow-suc 2 k)) (omega arith)

pub lt_pow_of_bits : (k x : ℕ) → ((i : ℕ) → k ≤ i → test_bit x i ≡ false) → x < 2 ^ k
unfolding test_bit
lt_pow_of_bits zero x none_set =
    ground (arith, eq_of_bits x 0 (λ i. none_set i (omega arith) ∙ sym (test_bit-zero i)))
lt_pow_of_bits (suc k) x none_set =
    omega (arith, pow-suc 2 k, lt_pow_of_bits k (x / 2) (λ i h. none_set (suc i) (omega arith)))
