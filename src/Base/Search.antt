-- ===== src/Base/Search.antt =====
-- Bounded search: some index below n passes a test.
use Prim.Native.Nat.{ℕ, zero, suc, ◌+◌, ◌<◌, ◌≤◌}
use native.Mathlib.Omega.{arith}
use mathlib.Core.Path.{◌≡◌, refl, ap, ◌∙◌}
use mathlib.Core.Logic.{inl, inr}
use mathlib.Core.Bool.{Bool, true, false, ◌&&◌, ◌||◌}
use open_socemu.Base.Tests.{if◌then◌else◌, ltb, leb, ◌==◌, Bool-cases}

unfoldable pub any_below : ℕ → (ℕ → Bool) → Bool
any_below zero p = false
any_below (suc n) p = p n || any_below n p

pub any_below_sound :
    (n : ℕ) (p : ℕ → Bool) → any_below n p ≡ true → (i : ℕ) × (i < n) × (p i ≡ true)
unfolding any_below
any_below_sound zero p e = cc
any_below_sound (suc n) p e = elim (Bool-cases (p n)) [
  | inl hit ↦ (n, omega arith, hit)
  | inr miss ↦
      (let rest : any_below n p ≡ true = ground arith in
        let (i, below, hit) = any_below_sound n p rest in (i, omega arith, hit))
]

pub any_below_complete : (n : ℕ) (p : ℕ → Bool) (i : ℕ) → i < n → p i ≡ true → any_below n p ≡ true
unfolding any_below
any_below_complete zero p i h e = absurd (omega arith)
any_below_complete (suc n) p i h e = elim (Bool-cases (i == n)) [
  | inl last ↦ (let at : p n ≡ true = ap p (ground arith) ∙ e in ground arith)
  | inr below ↦ ground (arith, any_below_complete n p i (ground arith) e)
]

pub any_below_none : (n : ℕ) (p : ℕ → Bool) → any_below n p ≡ false → (i : ℕ) → i < n → p i ≡ false
any_below_none n p e i h = elim (Bool-cases (p i)) [
  | inl hit ↦ ground (arith, any_below_complete n p i h hit)
  | inr miss ↦ miss
]

-- The search looks at the indices below n only.
pub any_below_ext :
    (n : ℕ) (p q : ℕ → Bool) → ((i : ℕ) → i < n → p i ≡ q i) → any_below n p ≡ any_below n q
unfolding any_below
any_below_ext zero p q same = refl
any_below_ext (suc n) p q same =
    ground (arith, same n (omega arith), any_below_ext n p q (λ i h. same i (omega arith)))

-- The loop `for (j = i; j < i + n; j++) if (p(j)) break;`: the index at which it ends.
unfoldable pub first_hit : (ℕ → Bool) → ℕ → ℕ → ℕ
first_hit p zero i = i
first_hit p (suc n) i = let rest = first_hit p n (suc i) in if p i then i else rest

pub first_hit_from :
    (p : ℕ → Bool) (n i k : ℕ)
    → i ≤ k
    → k < i + n
    → p k ≡ true
    → (i ≤ first_hit p n i) × (first_hit p n i ≤ k) × (p (first_hit p n i) ≡ true)
unfolding first_hit
first_hit_from p zero i k h l e = absurd (omega arith)
first_hit_from p (suc n) i k h l e = elim (Bool-cases (p i)) [
  | inl hit ↦ rw hit (omega arith, h, hit)
  | inr miss ↦ elim (Bool-cases (k == i)) [
    | inl same ↦ (let at : p i ≡ true = ap p (ground arith) ∙ e in cc)
    | inr other ↦ rw miss (
        let (lo, hi, hit) = first_hit_from p n (suc i) k (ground arith) (omega arith) e in
        (omega arith, hi, hit))
  ]
]

-- Where some index below n passes, the loop from 0 ends at the lowest one.
pub first_hit_sound :
    (p : ℕ → Bool) (n : ℕ)
    → any_below n p ≡ true
    → (first_hit p n 0 < n) × (p (first_hit p n 0) ≡ true)
first_hit_sound p n e =
    let (k, below, hit) = any_below_sound n p e in
    let (lo, hi, first) = first_hit_from p n 0 k (omega arith) (omega arith) hit in
    (omega arith, first)

pub first_hit_least : (p : ℕ → Bool) (n k : ℕ) → k < n → p k ≡ true → first_hit p n 0 ≤ k
first_hit_least p n k below hit = (first_hit_from p n 0 k (omega arith) (omega arith) hit).1

pub any_below-false : (n : ℕ) → any_below n (λ _. false) ≡ false
unfolding any_below
any_below-false zero = refl
any_below-false (suc n) = any_below-false n

-- A loop that ends before its bound ends at a hit.
pub first_hit_stop : (p : ℕ → Bool) (n i : ℕ) → first_hit p n i < i + n → p (first_hit p n i) ≡ true
unfolding first_hit
first_hit_stop p zero i h = absurd (omega arith)
first_hit_stop p (suc n) i h = elim (Bool-cases (p i)) [
  | inl hit ↦ rw hit hit
  | inr miss ↦ rw miss (first_hit_stop p n (suc i) (ground arith))
]

first_hit-ge : (p : ℕ → Bool) (n i : ℕ) → i ≤ first_hit p n i
unfolding first_hit
first_hit-ge p zero i = omega arith
first_hit-ge p (suc n) i = elim (Bool-cases (p i)) [
  | inl hit ↦ rw hit (omega arith)
  | inr miss ↦ rw miss (omega (arith, first_hit-ge p n (suc i)))
]

-- A loop ends before its bound exactly when some index that it visits passes.
pub first_hit-any :
    (p : ℕ → Bool) (n i : ℕ)
    → ltb (first_hit p n i) (i + n) ≡ any_below (i + n) (λ j. leb i j && p j)
first_hit-any p n i = elim (Bool-cases (any_below (i + n) (λ j. leb i j && p j))) [
  | inl e ↦
      (let (k, below, hit) = any_below_sound (i + n) (λ j. leb i j && p j) e in
        let (lo, hi, at) = first_hit_from p n i k (ground arith) below (ground arith) in
        ground arith)
  | inr e ↦ elim (Bool-cases (ltb (first_hit p n i) (i + n))) [
    | inl stopped ↦
        (let at = first_hit_stop p n i (ground arith) in
          let visited = first_hit-ge p n i in
          let none =
            any_below_none (i + n) (λ j. leb i j && p j) e (first_hit p n i) (ground arith) in
          ground arith)
    | inr over ↦ rw (over, e) refl
  ]
]
