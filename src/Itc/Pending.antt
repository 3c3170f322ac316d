-- ===== src/Itc/Pending.antt =====
-- The pending interrupts of the Itc, bit by bit.
use open_socemu.Base.{
  ℕ, ◌+◌, ◌-◌, ◌^◌, ◌<◌, ◌≡◌, refl, ◌∙◌, Bool, not, ◌&&◌, ◌||◌, ap, ltb, leb, bit_and, bit_not,
  arith, Bool-cases, inl, inr, IsWordArray,
}
use open_socemu.Base.Bits.{test_bit, test_bit-bit_and}
use open_socemu.Base.Masks.{test_bit-bit_not, test_bit-ones, pow-lt-word, bit_and-lt}
use open_socemu.Itc.{pending_fiq, pending_irq}
use open_socemu.Itc.Regs.{nimask_index, intenable_index, inttype_index, intsrc_index}

-- Interrupt i is asserted and enabled, and its type is FIQ.
abbrev pub asks_fiq : (ℕ → ℕ) → ℕ → Bool
asks_fiq reg i =
    (test_bit (reg intsrc_index) i && test_bit (reg intenable_index) i)
    && test_bit (reg inttype_index) i

-- It is asserted and enabled, its type is IRQ, and no normal interrupt mask of at least i is set.
abbrev pub asks_irq : (ℕ → ℕ) → ℕ → Bool
asks_irq reg i =
    ((test_bit (reg intsrc_index) i && test_bit (reg intenable_index) i)
      && not (test_bit (reg inttype_index) i))
    && (leb 16 (reg nimask_index) || ltb (reg nimask_index) i)

pub pending_fiq-bits : (reg : ℕ → ℕ) (i : ℕ) → test_bit (pending_fiq reg) i ≡ asks_fiq reg i
unfolding pending_fiq
pending_fiq-bits reg i = simp test_bit-bit_and refl

enabled-bits :
    (reg : ℕ → ℕ) (i : ℕ)
    → IsWordArray reg
    → i < 32
    → test_bit
        (bit_and (bit_and (reg intsrc_index) (reg intenable_index)) (bit_not (reg inttype_index)))
        i
      ≡ ((test_bit (reg intsrc_index) i && test_bit (reg intenable_index) i)
          && not (test_bit (reg inttype_index) i))
enabled-bits reg i w hi =
    simp test_bit-bit_and (rw (test_bit-bit_not (reg inttype_index) i (w inttype_index) hi) refl)

mask-bits : (k i : ℕ) → k < 32 → i < 32 → test_bit (bit_not (2 ^ k - 1)) i ≡ not (ltb i k)
mask-bits k i hk hi =
    test_bit-bit_not (2 ^ k - 1) i (omega (arith, pow-lt-word k hk)) hi ∙ ap not (test_bit-ones k i)

pub pending_irq-bits :
    (reg : ℕ → ℕ) (i : ℕ) → IsWordArray reg → i < 32 → test_bit (pending_irq reg) i ≡ asks_irq reg i
unfolding pending_irq
pending_irq-bits reg i w hi = elim (Bool-cases (ltb (reg nimask_index) 16)) [
  | inl masked ↦ rw masked (
      let above = mask-bits (reg nimask_index + 1) i (ground arith) hi in
      test_bit-bit_and _ _ i ∙ ground (arith, enabled-bits reg i w hi, above))
  | inr unmasked ↦ rw unmasked (ground (arith, enabled-bits reg i w hi))
]

pub pending_fiq-lt : (reg : ℕ → ℕ) → IsWordArray reg → pending_fiq reg < 2 ^ 32
unfolding pending_fiq
pending_fiq-lt reg w = bit_and-lt 32 _ _ (bit_and-lt 32 _ _ (w intsrc_index))

pub pending_irq-lt : (reg : ℕ → ℕ) → IsWordArray reg → pending_irq reg < 2 ^ 32
unfolding pending_irq
pending_irq-lt reg w =
    let enabled =
      bit_and-lt 32 _ (bit_not (reg inttype_index))
        (bit_and-lt 32 _ (reg intenable_index) (w intsrc_index)) in
    elim (Bool-cases (ltb (reg nimask_index) 16)) [
      | inl e ↦ rw e (bit_and-lt 32 _ _ enabled)
      | inr e ↦ rw e enabled
    ]
