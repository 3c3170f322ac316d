-- ===== src/Aic/Vector.antt =====
-- The status and vector registers of the Aic.
use open_socemu.Base.{
  ℕ, ◌+◌, ◌<◌, ◌≤◌, ◌≡◌, refl, ◌∙◌, Bool, true, false, ltb, leb, ◌==◌, Bool-cases, inl, inr,
  bit_set, arith, IsWordArray, update,
}
use open_socemu.Base.Search.{first_hit, first_hit_from, first_hit-any, any_below, any_below_ext}
use open_socemu.Aic.{Aic, fiq_at, irq_at, generate_fiq, generate_irq, check_int}
use open_socemu.Aic.Regs.{
  aic_svr_index, aic_ivr_index, aic_fvr_index, aic_isr_index, aic_cisr_index, aic_ffsr_index,
}
use open_socemu.Aic.Asks.{asks_fiq, asks_irq, pending, fiq_at-asks, irq_at-asks}

-- A loop ends at the index that passes when none before it does.
first_hit-lowest :
    (p : ℕ → Bool) (n i k : ℕ)
    → i ≤ k
    → k < i + n
    → p k ≡ true
    → ((j : ℕ) → i ≤ j → j < k → p j ≡ false)
    → first_hit p n i ≡ k
first_hit-lowest p n i k lo hi hit before =
    let (from, to, at) = first_hit_from p n i k lo hi hit in
    elim (Bool-cases (ltb (first_hit p n i) k)) [
      | inl earlier ↦ ground (arith, before (first_hit p n i) from)
      | inr here ↦ ground arith
    ]

lowest_fiq :
    (reg : ℕ → ℕ) (k : ℕ)
    → k < 32
    → asks_fiq reg k ≡ true
    → ((j : ℕ) → j < k → asks_fiq reg j ≡ false)
    → first_hit (fiq_at (reg aic_ffsr_index) (pending reg)) 32 0 ≡ k
lowest_fiq reg k h hit before =
    first_hit-lowest _ 32 0 k (omega arith) h (fiq_at-asks reg k ∙ hit)
      (λ j lo hi. fiq_at-asks reg j ∙ before j hi)

lowest_irq :
    (reg : ℕ → ℕ) (k : ℕ)
    → IsWordArray reg
    → k < 32
    → asks_irq reg k ≡ true
    → ((j : ℕ) → j < k → asks_irq reg j ≡ false)
    → first_hit (irq_at (reg aic_ffsr_index) (pending reg)) 31 1 ≡ k
lowest_irq reg k w h hit before =
    first_hit-lowest _ 31 1 k (ground arith) h (ground (arith, irq_at-asks reg k w h))
      (λ j lo hi. ground (arith, irq_at-asks reg j w (omega arith), before j hi))

-- Where the FIQ is raised the IRQ loop leaves the source number and the FIQ vector.
generate_irq-raised :
    (mask : ℕ) (reg : ℕ → ℕ)
    → bit_set (reg aic_cisr_index) 0 ≡ true
    → (generate_irq mask reg aic_isr_index ≡ reg aic_isr_index)
      × (generate_irq mask reg aic_fvr_index ≡ reg aic_fvr_index)
unfolding generate_irq
generate_irq-raised mask reg raised =
    elim (Bool-cases (ltb (first_hit (irq_at (reg aic_ffsr_index) mask) 31 1) 32)) [
      | inl e ↦ rw (e, raised) (refl, refl)
      | inr e ↦ rw e (refl, refl)
    ]

-- When source k asks for the FIQ and no lower one does, the source number is k, whatever asks for
-- the IRQ, and the FIQ vector is the vector of source 0.
pub check_int-fast :
    (s : Aic) (k : ℕ)
    → k < 32
    → asks_fiq s.reg k ≡ true
    → ((j : ℕ) → j < k → asks_fiq s.reg j ≡ false)
    → ((check_int s).reg aic_isr_index ≡ k)
      × ((check_int s).reg aic_fvr_index ≡ s.reg aic_svr_index)
unfolding check_int generate_fiq bit_set
check_int-fast s k h hit before =
    let small : ltb k 32 ≡ true = ground arith in
    rw (lowest_fiq s.reg k h hit before, small) (generate_irq-raised (pending s.reg) _ refl)

-- The registers before the IRQ loop, when no source asks for the FIQ.
generate_fiq-none :
    (reg : ℕ → ℕ)
    → any_below 32 (asks_fiq reg) ≡ false
    → generate_fiq (pending reg) (update reg aic_cisr_index 0) ≡ update reg aic_cisr_index 0
unfolding generate_fiq
generate_fiq-none reg quiet =
    let over : ltb (first_hit (fiq_at (reg aic_ffsr_index) (pending reg)) 32 0) 32 ≡ false =
      first_hit-any (fiq_at (reg aic_ffsr_index) (pending reg)) 32 0
      ∙ any_below_ext 32 _ (asks_fiq reg) (λ i h. ground (arith, fiq_at-asks reg i))
      ∙ quiet in
    rw over refl

-- When source k asks for the IRQ, no lower one does, and none asks for the FIQ, the source number is
-- k and the IRQ vector is the vector of source k. The registers are words.
pub check_int-normal :
    (s : Aic) (k : ℕ)
    → IsWordArray s.reg
    → k < 32
    → any_below 32 (asks_fiq s.reg) ≡ false
    → asks_irq s.reg k ≡ true
    → ((j : ℕ) → j < k → asks_irq s.reg j ≡ false)
    → ((check_int s).reg aic_isr_index ≡ k)
      × ((check_int s).reg aic_ivr_index ≡ s.reg (aic_svr_index + k))
unfolding check_int generate_irq bit_set
check_int-normal s k w h quiet hit before =
    let small : ltb k 32 ≡ true = ground arith in
    let svr : (n : ℕ) → k < 32 → leb 64 n ≡ true → (32 + k == n) ≡ false = λ n a b. ground arith in
    rw (generate_fiq-none s.reg quiet, lowest_irq s.reg k w h hit before, small)
      (refl, rw (svr 69 h refl, svr 66 h refl) refl)
