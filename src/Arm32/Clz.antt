-- ===== src/Arm32/Clz.antt =====
-- What the count of leading zeros of the simulator counts.
use native.Mathlib.Nat.{pow-suc}
use open_socemu.Base.{
  ℕ, zero, suc, ◌+◌, ◌-◌, ◌*◌, ◌^◌, ◌≤◌, ◌<◌, ◌≡◌, refl, sym, ap, ◌∙◌, ltb, ◌==◌, Bool-cases, inl,
  inr, shl, arith, if◌then◌else◌,
}
use open_socemu.Arm32.Alu.{clz, clz_step}

pow-add : (x r k : ℕ) → x * 2 ^ (r + k) ≡ x * 2 ^ r * 2 ^ k
pow-add x r zero = let same : r + 0 ≡ r = omega arith in ap (λ e. x * 2 ^ e) same ∙ omega arith
pow-add x r (suc k) =
    let next : r + suc k ≡ suc (r + k) = omega arith in
    ap (λ e. x * 2 ^ e) next
    ∙ omega (
      arith,
      pow-add x r k,
      ap (λ (t : ℕ). x * t) (pow-suc 2 (r + k)),
      ap (λ (t : ℕ). x * 2 ^ r * t) (pow-suc 2 k),
    )

-- After the steps that move a word by b places in all, the value is x times 2 to the count, and its
-- bit b or a higher one is set.
record IsNormed (x b : ℕ) (rv : ℕ × ℕ) : Type 0 where
  scaled : x * 2 ^ rv.0 ≡ rv.1
  word : rv.1 < 2 ^ 32
  high : 2 ^ b ≤ rv.1
  count : rv.0 ≤ b

-- A step by k places, where a value below its bound and not below 2 to the b stays a word.
clz_step-IsNormed :
    (x b k : ℕ) (rv : ℕ × ℕ)
    → ((v : ℕ) → v < 2 ^ (32 - k) → 2 ^ b ≤ v → (v * 2 ^ k < 2 ^ 32) × (2 ^ (b + k) ≤ v * 2 ^ k))
    → b + k ≡ 32 - k
    → IsNormed x b rv
    → IsNormed x (b + k) (clz_step k rv)
unfolding clz_step
clz_step-IsNormed x b k (r, v) moves width h = elim (Bool-cases (ltb v (2 ^ (32 - k)))) [
  | inl small ↦
      (let (fits, moved) = moves v (ground arith) h.high in
        let whole : shl v k ≡ v * 2 ^ k = omega arith in
        rw small (record {
          scaled = pow-add x r k ∙ ap (λ (t : ℕ). t * 2 ^ k) h.scaled ∙ sym whole;
          word = rw whole fits;
          high = rw whole moved;
          count = omega (arith, h.count);
        }))
  | inr large ↦ rw large (record {
    scaled = h.scaled;
    word = h.word;
    high = rw width (ground arith);
    count = omega (arith, h.count);
  })
]

normal_count :
    (x : ℕ) (rv : ℕ × ℕ)
    → IsNormed x 31 rv
    → (let c = if rv.1 == 0 then 32 else rv.0 in
        (c < 32) × (2 ^ 31 ≤ x * 2 ^ c) × (x * 2 ^ c < 2 ^ 32))
normal_count x (r, v) h =
    let count : (if v == 0 then 32 else r) ≡ r = ground (arith, h.high) in
    rw (count, h.scaled) (omega (arith, h.count), h.high, h.word)

-- For a word that is not zero, `clz` returns the number of places below 32 by which the word can be
-- shifted left without loss so that its top bit is set.
pub clz-normal :
    (x : ℕ)
    → 0 < x
    → x < 2 ^ 32
    → (clz x < 32) × (2 ^ 31 ≤ x * 2 ^ clz x) × (x * 2 ^ clz x < 2 ^ 32)
unfolding clz
clz-normal x positive hx =
    let start : IsNormed x 0 (0, x) = record {
      scaled = omega arith;
      word = hx;
      high = omega arith;
      count = omega arith;
    } in
    let h1 = clz_step-IsNormed x 0 16 _ (λ v a b. (omega arith, omega arith)) refl start in
    let h2 = clz_step-IsNormed x 16 8 _ (λ v a b. (omega arith, omega arith)) refl h1 in
    let h3 = clz_step-IsNormed x 24 4 _ (λ v a b. (omega arith, omega arith)) refl h2 in
    let h4 = clz_step-IsNormed x 28 2 _ (λ v a b. (omega arith, omega arith)) refl h3 in
    let h5 = clz_step-IsNormed x 30 1 _ (λ v a b. (omega arith, omega arith)) refl h4 in
    normal_count x _ h5
