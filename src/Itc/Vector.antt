-- ===== src/Itc/Vector.antt =====
-- The vector registers of the Itc.
use open_socemu.Base.{
  ℕ, zero, suc, ◌<◌, ◌≤◌, ◌≡◌, refl, ◌∙◌, true, false, none, some, bit_set, arith, Bool-cases, inl,
  inr, IsWordArray, ◌==◌, ap,
}
use open_socemu.Base.Bits.{test_bit}
use open_socemu.Base.Masks.{bit_set-test_bit, nonzero_of_test_bit}
use open_socemu.Itc.{Itc, highest, vector, check_int, pending_fiq, pending_irq}
use open_socemu.Itc.Regs.{nivector_index, fivector_index}
use open_socemu.Itc.Pending.{asks_fiq, asks_irq, pending_fiq-bits, pending_irq-bits}

-- The loop ends at the highest set bit.
highest-found :
    (pending n k : ℕ)
    → 0 < k
    → k ≤ n
    → test_bit pending k ≡ true
    → ((j : ℕ) → k < j → j ≤ n → test_bit pending j ≡ false)
    → highest pending n ≡ some k
unfolding highest
highest-found pending zero k pos le hit above = absurd (omega arith)
highest-found pending (suc n) k pos le hit above = elim (Bool-cases (k == suc n)) [
  | inl last ↦
      (let e : bit_set pending (suc n) ≡ true =
          bit_set-test_bit pending (suc n) ∙ ap (test_bit pending) (ground arith) ∙ hit in
        rw e (ground arith))
  | inr below ↦
      (let e : bit_set pending (suc n) ≡ false =
          bit_set-test_bit pending (suc n) ∙ above (suc n) (ground arith) (omega arith) in
        rw e
          (highest-found pending n k pos (ground arith) hit (λ j lo hi. above j lo (omega arith))))
]

highest-none :
    (pending n : ℕ)
    → ((j : ℕ) → 0 < j → j ≤ n → test_bit pending j ≡ false)
    → highest pending n ≡ none
unfolding highest
highest-none pending zero clear = refl
highest-none pending (suc n) clear =
    let e : bit_set pending (suc n) ≡ false =
      bit_set-test_bit pending (suc n) ∙ clear (suc n) (omega arith) (omega arith) in
    rw e (highest-none pending n (λ j lo hi. clear j lo (omega arith)))

-- What a vector register becomes with a pending register whose bits are those of asks.
vector-highest :
    (pending old k : ℕ)
    → 0 < k
    → k ≤ 10
    → test_bit pending k ≡ true
    → ((j : ℕ) → k < j → j ≤ 10 → test_bit pending j ≡ false)
    → vector pending old ≡ k
unfolding vector
vector-highest pending old k pos le hit above =
    rw (nonzero_of_test_bit pending k hit, highest-found pending 10 k pos le hit above) refl

vector-kept :
    (pending old k : ℕ)
    → test_bit pending k ≡ true
    → ((j : ℕ) → 0 < j → j ≤ 10 → test_bit pending j ≡ false)
    → vector pending old ≡ old
unfolding vector
vector-kept pending old k hit clear =
    rw (nonzero_of_test_bit pending k hit, highest-none pending 10 clear) refl

-- When interrupt k of 1 to 10 asks for the IRQ, and none of the higher ones up to 10 does,
-- NIVECTOR becomes k. The registers are words.
pub check_int-nivector :
    (s : Itc) (k : ℕ)
    → IsWordArray s.reg
    → 0 < k
    → k ≤ 10
    → asks_irq s.reg k ≡ true
    → ((j : ℕ) → k < j → j ≤ 10 → asks_irq s.reg j ≡ false)
    → (check_int s).reg nivector_index ≡ k
unfolding check_int
check_int-nivector s k w pos le hit above =
    vector-highest (pending_irq s.reg) _ k pos le (pending_irq-bits s.reg k w (omega arith) ∙ hit)
      (λ j lo hi. pending_irq-bits s.reg j w (omega arith) ∙ above j lo hi)

-- When interrupt k of 1 to 10 asks for the FIQ, and none of the higher ones up to 10 does,
-- FIVECTOR becomes k.
pub check_int-fivector :
    (s : Itc) (k : ℕ)
    → 0 < k
    → k ≤ 10
    → asks_fiq s.reg k ≡ true
    → ((j : ℕ) → k < j → j ≤ 10 → asks_fiq s.reg j ≡ false)
    → (check_int s).reg fivector_index ≡ k
unfolding check_int
check_int-fivector s k pos le hit above =
    vector-highest (pending_fiq s.reg) _ k pos le (pending_fiq-bits s.reg k ∙ hit)
      (λ j lo hi. pending_fiq-bits s.reg j ∙ above j lo hi)

-- When interrupt 0, or one from 11 on, asks for the IRQ, and none of 1 to 10 does, NIVECTOR is
-- left as it was, whatever interrupt it names. The registers are words.
pub check_int-stale :
    (s : Itc) (k : ℕ)
    → IsWordArray s.reg
    → k < 32
    → asks_irq s.reg k ≡ true
    → ((j : ℕ) → 0 < j → j ≤ 10 → asks_irq s.reg j ≡ false)
    → (check_int s).reg nivector_index ≡ s.reg nivector_index
unfolding check_int
check_int-stale s k w hk hit clear =
    vector-kept (pending_irq s.reg) _ k (pending_irq-bits s.reg k w hk ∙ hit)
      (λ j lo hi. pending_irq-bits s.reg j w (omega arith) ∙ clear j lo hi)
