-- ===== src/Base/Masks.antt =====
-- The code's bit tests and masks, by the bits of the words.
use Prim.Native.Nat.{ℕ, zero, suc, ◌+◌, ◌-◌, ◌*◌, ◌%◌, ◌/◌, ◌^◌, ◌<◌, bit_and, bit_or}
use native.Mathlib.Nat.{one-le-pow, pow-suc}
use native.Mathlib.Omega.{arith}
use mathlib.Core.Path.{◌≡◌, refl, sym, ap, ◌∙◌}
use mathlib.Core.Logic.{inl, inr}
use mathlib.Core.Bool.{true, false, not, ◌&&◌, ◌||◌}
use open_socemu.Base.Tests.{◌==◌, ltb, Bool-cases}
use open_socemu.Base.Search.{any_below, any_below_sound, any_below_none}
use open_socemu.Base.Word.{bit_not, nonzero, bit_set, raise_bit, drop_bit}
use open_socemu.Base.Bits.{
  test_bit, test_bit-zero, test_bit-bit_and, test_bit-bit_or, test_bit-pow, eq_of_bits,
  test_bit-complement, test_bit_of_lt, lt_pow_of_bits, test_bit_high, test_bit_digit,
}

masked_bit : (r p i : ℕ) → test_bit (bit_and r (2 ^ p)) i ≡ (test_bit r i && (i == p))
masked_bit r p i = rw (test_bit-bit_and, test_bit-pow)

pub nonzero_of_test_bit : (x i : ℕ) → test_bit x i ≡ true → nonzero x ≡ true
nonzero_of_test_bit zero i h = ground (arith, test_bit-zero i)
nonzero_of_test_bit (suc x) i h = ground arith

-- A word is zero exactly when it has no bit below its width.
pub zero_of_bits : (x : ℕ) → ((i : ℕ) → test_bit x i ≡ false) → x ≡ 0
zero_of_bits x clear = eq_of_bits x 0 (λ i. clear i ∙ sym (test_bit-zero i))

-- BIT_SET is the test of one bit.
pub bit_set-test_bit : (r p : ℕ) → bit_set r p ≡ test_bit r p
unfolding bit_set
bit_set-test_bit r p = elim (Bool-cases (test_bit r p)) [
  | inl e ↦ nonzero_of_test_bit _ p (masked_bit r p p ∙ ground arith) ∙ sym e
  | inr e ↦ ground (arith, zero_of_bits (bit_and r (2 ^ p)) (λ i. ground (arith, masked_bit r p i)))
]

pub test_bit-raise_bit : (r p i : ℕ) → test_bit (raise_bit r p) i ≡ (test_bit r i || (i == p))
unfolding raise_bit
test_bit-raise_bit r p i = rw (test_bit-bit_or, test_bit-pow)

-- The bits at and above position k of a number below 2 ^ k are clear, so a word stays a word.
pub bit_and-lt : (k a b : ℕ) → a < 2 ^ k → bit_and a b < 2 ^ k
bit_and-lt k a b ha =
    lt_pow_of_bits k _ (λ i h. ground (arith, test_bit-bit_and a b i, test_bit_of_lt k a i ha h))

pub bit_and-lt_right : (k a b : ℕ) → b < 2 ^ k → bit_and a b < 2 ^ k
bit_and-lt_right k a b hb =
    lt_pow_of_bits k _ (λ i h. ground (arith, test_bit-bit_and a b i, test_bit_of_lt k b i hb h))

pub bit_or-lt : (k a b : ℕ) → a < 2 ^ k → b < 2 ^ k → bit_or a b < 2 ^ k
bit_or-lt k a b ha hb = lt_pow_of_bits k _ λ i h.
    ground (arith, test_bit-bit_or a b i, test_bit_of_lt k a i ha h, test_bit_of_lt k b i hb h)

pub pow-lt-word : (p : ℕ) → p < 32 → 2 ^ p < 2 ^ 32
pow-lt-word p h = lt_pow_of_bits 32 _ (λ i k. ground (arith, test_bit-pow p i))

pub test_bit-bit_not : (x i : ℕ) → x < 2 ^ 32 → i < 32 → test_bit (bit_not x) i ≡ not (test_bit x i)
test_bit-bit_not x i hx hi = test_bit-complement 32 x i hx hi

-- `a & ~b` keeps the bits of a word that b lacks.
pub test_bit-and_not :
    (a b i : ℕ)
    → a < 2 ^ 32
    → b < 2 ^ 32
    → test_bit (bit_and a (bit_not b)) i ≡ (test_bit a i && not (test_bit b i))
test_bit-and_not a b i ha hb = elim (Bool-cases (ltb i 32)) [
  | inl small ↦ rw (test_bit-bit_and, test_bit-bit_not b i hb (ground arith)) refl
  | inr large ↦
      ground (arith, test_bit-bit_and a (bit_not b) i, test_bit_of_lt 32 a i ha (ground arith))
]

pub test_bit-drop_bit :
    (r p i : ℕ) → r < 2 ^ 32 → p < 32 → test_bit (drop_bit r p) i ≡ (test_bit r i && not (i == p))
unfolding drop_bit
test_bit-drop_bit r p i hr hp =
    test_bit-and_not r (2 ^ p) i hr (pow-lt-word p hp) ∙ rw test_bit-pow refl

pub raise_bit-lt : (r p : ℕ) → r < 2 ^ 32 → p < 32 → raise_bit r p < 2 ^ 32
unfolding raise_bit
raise_bit-lt r p hr hp = bit_or-lt 32 r (2 ^ p) hr (pow-lt-word p hp)

pub drop_bit-lt : (r p : ℕ) → r < 2 ^ 32 → drop_bit r p < 2 ^ 32
unfolding drop_bit
drop_bit-lt r p hr = bit_and-lt 32 r (bit_not (2 ^ p)) hr

low_bits : (k q r i : ℕ) → r < 2 ^ k → i < k → test_bit (q * 2 ^ k + r) i ≡ test_bit r i
unfolding test_bit
low_bits zero q r i hr hi = absurd (omega arith)
low_bits (suc k) q r zero hr hi = rw pow-suc (ground arith)
low_bits (suc k) q r (suc i) hr hi =
    ap (λ x. test_bit x i) (halved (2 ^ k) q r)
    ∙ low_bits k q (r / 2) i (omega (arith, pow-suc 2 k)) (omega arith)
  where
    halved : (m q r : ℕ) → (q * 2 ^ suc k + r) / 2 ≡ q * 2 ^ k + r / 2
    halved m q r = omega (arith, ap (λ (t : ℕ). q * t) (pow-suc 2 k))

pub test_bit-mod : (k x i : ℕ) → test_bit (x % 2 ^ k) i ≡ (test_bit x i && ltb i k)
test_bit-mod k x i =
    let whole : x ≡ x / 2 ^ k * 2 ^ k + x % 2 ^ k = omega arith in
    ground (
      arith,
      one-le-pow k 2,
      ap (λ y. test_bit y i) whole,
      low_bits k (x / 2 ^ k) (x % 2 ^ k) i,
      test_bit_of_lt k (x % 2 ^ k) i,
    )

pub test_bit-ones : (k i : ℕ) → test_bit (2 ^ k - 1) i ≡ ltb i k
test_bit-ones k i = ground (
  arith,
  one-le-pow k 2,
  test_bit-zero i,
  test_bit-complement k 0 i,
  test_bit_of_lt k (2 ^ k - 1) i,
)

-- The mask of the low k bits is the remainder by 2 ^ k.
pub bit_and_low : (k x : ℕ) → bit_and x (2 ^ k - 1) ≡ x % 2 ^ k
bit_and_low k x = eq_of_bits _ _ (λ i. rw (test_bit-bit_and, test_bit-ones, test_bit-mod) refl)

-- A word is nonzero exactly when one of its 32 bits is set.
pub nonzero-any_below : (x : ℕ) → x < 2 ^ 32 → nonzero x ≡ any_below 32 (test_bit x)
nonzero-any_below x hx = elim (Bool-cases (any_below 32 (test_bit x))) [
  | inl e ↦
      (let (i, hi, b) = any_below_sound 32 (test_bit x) e in nonzero_of_test_bit x i b) ∙ sym e
  | inr e ↦ ground (
    arith,
    zero_of_bits x λ i. elim (Bool-cases (ltb i 32)) [
      | inl small ↦ any_below_none 32 (test_bit x) e i (ground arith)
      | inr large ↦ test_bit_of_lt 32 x i hx (ground arith)
    ],
  )
]

bit_and-halves : (a b : ℕ) → bit_and a b ≡ bit_and (a / 2) (b / 2) * 2 + bit_and (a % 2) (b % 2)
unfolding test_bit
bit_and-halves a b = eq_of_bits _ _ digit
  where
    low_small : bit_and (a % 2) (b % 2) < 2
    low_small = bit_and-lt 1 (a % 2) (b % 2) (omega arith)

    low_bit : (x : ℕ) → test_bit (x % 2) zero ≡ test_bit x zero
    low_bit x = ground arith

    digit :
        (i : ℕ)
        → test_bit (bit_and a b) i
          ≡ test_bit (bit_and (a / 2) (b / 2) * 2 + bit_and (a % 2) (b % 2)) i
    digit zero =
        test_bit-bit_and a b zero
        ∙ ground (arith, low_bit a, low_bit b)
        ∙ sym (test_bit-bit_and (a % 2) (b % 2) zero)
        ∙ sym (test_bit_digit _ _ low_small)
    digit (suc i) =
        test_bit-bit_and a b (suc i)
        ∙ sym (test_bit-bit_and (a / 2) (b / 2) i)
        ∙ sym (test_bit_high _ _ i low_small)

bit_and_digit : (a m : ℕ) → a < 2 → m < 2 → bit_and a m + bit_and a (1 - m) ≡ a
bit_and_digit zero zero ha hm = refl
bit_and_digit zero (suc zero) ha hm = refl
bit_and_digit (suc zero) zero ha hm = refl
bit_and_digit (suc zero) (suc zero) ha hm = refl
bit_and_digit (suc (suc a)) m ha hm = absurd (omega arith)
bit_and_digit zero (suc (suc m)) ha hm = absurd (omega arith)
bit_and_digit (suc zero) (suc (suc m)) ha hm = absurd (omega arith)

-- The parts of a number under a mask and under its complement make up the number.
pub bit_and-split :
    (k a m : ℕ) → a < 2 ^ k → m < 2 ^ k → bit_and a m + bit_and a (2 ^ k - 1 - m) ≡ a
bit_and-split zero a m ha hm =
    let none_left : a ≡ 0 = omega arith in
    let no_mask : m ≡ 0 = omega arith in rw (none_left, no_mask) refl
bit_and-split (suc k) a m ha hm =
    let bound = pow-suc 2 k in
    let rest = bit_and-split k (a / 2) (m / 2) (omega arith) (omega arith) in
    let low = bit_and_digit (a % 2) (m % 2) (omega arith) (omega arith) in
    let high_half : (2 ^ suc k - 1 - m) / 2 ≡ 2 ^ k - 1 - m / 2 = omega arith in
    let low_half : (2 ^ suc k - 1 - m) % 2 ≡ 1 - m % 2 = omega arith in
    rw (bit_and-halves a m, bit_and-halves a (2 ^ suc k - 1 - m), high_half, low_half) (omega arith)
