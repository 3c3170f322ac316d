-- ===== src/Base/Shifts.antt =====
-- The bits of shifted numbers.
use Prim.Native.Nat.{ℕ, zero, suc, ◌+◌, ◌-◌, ◌*◌, ◌/◌, ◌^◌}
use native.Mathlib.Omega.{arith}
use native.Mathlib.Nat.{pow-suc, div-div-eq-div-mul}
use mathlib.Core.Path.{◌≡◌, sym, ap, ◌∙◌}
use mathlib.Core.Bool.{◌&&◌}
use open_socemu.Base.Tests.{leb, ltb}
use open_socemu.Base.Word.{shl}
use open_socemu.Base.Bits.{test_bit}
use open_socemu.Base.Masks.{test_bit-mod}

pub test_bit-shr : (x k i : ℕ) → test_bit (x / 2 ^ k) i ≡ test_bit x (i + k)
unfolding test_bit
test_bit-shr x zero i =
    let whole : x / 2 ^ 0 ≡ x = omega arith in
    let here : i ≡ i + 0 = omega arith in ap (λ y. test_bit y i) whole ∙ ap (test_bit x) here
test_bit-shr x (suc k) i =
    ap (λ y. test_bit y i) (halved x k)
    ∙ test_bit-shr (x / 2) k i
    ∙ sym (ap (test_bit x) (plus_suc i k))
  where
    plus_suc : (a b : ℕ) → a + suc b ≡ suc (a + b)
    plus_suc a b = omega arith

    pow_twice : (k : ℕ) → 2 ^ suc k ≡ 2 * 2 ^ k
    pow_twice k = rw pow-suc (omega arith)

    halved : (x k : ℕ) → x / 2 ^ suc k ≡ x / 2 / 2 ^ k
    halved x k = ap (λ y. x / y) (pow_twice k) ∙ sym (div-div-eq-div-mul x 2 (2 ^ k))

doubled : (x k : ℕ) → x * 2 ^ suc k ≡ x * 2 ^ k * 2
doubled x k = omega (arith, ap (λ (t : ℕ). x * t) (pow-suc 2 k))

half_double : (x k : ℕ) → x * 2 ^ suc k / 2 ≡ x * 2 ^ k
half_double x k = omega (arith, doubled x k)

pub test_bit-mul : (x k i : ℕ) → test_bit (x * 2 ^ k) i ≡ (leb k i && test_bit x (i - k))
unfolding test_bit
test_bit-mul x zero i =
    let one : x * 2 ^ 0 ≡ x = omega arith in
    let whole : test_bit (x * 2 ^ 0) i ≡ test_bit x i = ap (λ y. test_bit y i) one in
    let here : i - 0 ≡ i = omega arith in
    let same : test_bit x (i - 0) ≡ test_bit x i = ap (test_bit x) here in
    ground (arith, whole, same)
test_bit-mul x (suc k) zero = ground (arith, doubled x k)
test_bit-mul x (suc k) (suc i) =
    let less : suc i - suc k ≡ i - k = omega arith in
    let down : test_bit x (suc i - suc k) ≡ test_bit x (i - k) = ap (test_bit x) less in
    ap (λ y. test_bit y i) (half_double x k) ∙ test_bit-mul x k i ∙ ground (arith, down)

pub test_bit-shl :
    (x k i : ℕ) → test_bit (shl x k) i ≡ ((leb k i && test_bit x (i - k)) && ltb i 32)
test_bit-shl x k i = test_bit-mod 32 (x * 2 ^ k) i ∙ ap (λ b. b && ltb i 32) (test_bit-mul x k i)
