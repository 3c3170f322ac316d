-- ===== src/Aic/Asks.antt =====
-- Which sources of the Aic ask for a line, and what its loops show of them.
use open_socemu.Base.{
  ℕ, ◌<◌, ◌≡◌, refl, ap, ◌∙◌, Bool, true, false, not, ◌&&◌, ◌||◌, ltb, leb, ◌==◌, Bool-cases, inl,
  inr, bit_set, bit_and, bit_or, bit_not, arith, IsWordArray, update,
}
use open_socemu.Base.Search.{first_hit}
use open_socemu.Base.Bits.{test_bit, test_bit-bit_and, test_bit-bit_or}
use open_socemu.Base.Masks.{bit_set-test_bit, test_bit-bit_not}
use open_socemu.Aic.{fiq_at, irq_at, generate_fiq, generate_irq}
use open_socemu.Aic.Regs.{aic_ipr_index, aic_imr_index, aic_ffsr_index, aic_cisr_index}

-- Source i is pending and enabled.
abbrev pub asks : (ℕ → ℕ) → ℕ → Bool
asks reg i = test_bit (reg aic_ipr_index) i && test_bit (reg aic_imr_index) i

-- It asks for the FIQ: source 0, and the ones that are forced to be fast.
abbrev pub asks_fiq : (ℕ → ℕ) → ℕ → Bool
asks_fiq reg i = asks reg i && ((i == 0) || test_bit (reg aic_ffsr_index) i)

abbrev pub asks_irq : (ℕ → ℕ) → ℕ → Bool
asks_irq reg i = leb 1 i && (asks reg i && not (test_bit (reg aic_ffsr_index) i))

-- The word that the loops look at.
abbrev pub pending : (ℕ → ℕ) → ℕ
pending reg = bit_and (reg aic_ipr_index) (reg aic_imr_index)

pub fiq_at-asks :
    (reg : ℕ → ℕ) (i : ℕ) → fiq_at (reg aic_ffsr_index) (pending reg) i ≡ asks_fiq reg i
unfolding fiq_at bit_set
fiq_at-asks reg i = ground (
  arith,
  bit_set-test_bit (pending reg) 0,
  bit_set-test_bit (bit_and (reg aic_ffsr_index) (pending reg)) i,
  test_bit-bit_and (reg aic_ffsr_index) (pending reg) i,
  test_bit-bit_and (reg aic_ipr_index) (reg aic_imr_index) i,
  test_bit-bit_and (reg aic_ipr_index) (reg aic_imr_index) 0,
  at (reg aic_ipr_index),
  at (reg aic_imr_index),
)
  where
    at : (x : ℕ) → i ≡ 0 → test_bit x i ≡ test_bit x 0
    at x e = ap (test_bit x) e

pub irq_at-asks :
    (reg : ℕ → ℕ) (i : ℕ)
    → IsWordArray reg
    → i < 32
    → (leb 1 i && irq_at (reg aic_ffsr_index) (pending reg) i) ≡ asks_irq reg i
unfolding irq_at bit_set
irq_at-asks reg i w h = ground (
  arith,
  bit_set-test_bit (bit_and (bit_not (reg aic_ffsr_index)) (pending reg)) i,
  test_bit-bit_and (bit_not (reg aic_ffsr_index)) (pending reg) i,
  test_bit-bit_not (reg aic_ffsr_index) i (w aic_ffsr_index) h,
  test_bit-bit_and (reg aic_ipr_index) (reg aic_imr_index) i,
)

pub fiq_shown :
    (mask : ℕ) (reg : ℕ → ℕ)
    → bit_set (generate_fiq mask (update reg aic_cisr_index 0) aic_cisr_index) 0
      ≡ ltb (first_hit (fiq_at (reg aic_ffsr_index) mask) 32 0) 32
unfolding generate_fiq bit_set
fiq_shown mask reg =
    elim (Bool-cases (ltb (first_hit (fiq_at (reg aic_ffsr_index) mask) 32 0) 32)) [
      | inl e ↦ rw e refl
      | inr e ↦ rw e refl
    ]

-- CISR before the IRQ loop holds at most the bit of the FIQ.
pub fiq_only :
    (mask : ℕ) (reg : ℕ → ℕ)
    → bit_set (generate_fiq mask (update reg aic_cisr_index 0) aic_cisr_index) 1 ≡ false
unfolding generate_fiq bit_set
fiq_only mask reg = elim (Bool-cases (ltb (first_hit (fiq_at (reg aic_ffsr_index) mask) 32 0) 32)) [
  | inl e ↦ rw e refl
  | inr e ↦ rw e refl
]

pub irq_shown :
    (mask : ℕ) (reg : ℕ → ℕ)
    → bit_set (reg aic_cisr_index) 1 ≡ false
    → bit_set (generate_irq mask reg aic_cisr_index) 1
      ≡ ltb (first_hit (irq_at (reg aic_ffsr_index) mask) 31 1) 32
unfolding generate_irq test_bit
irq_shown mask reg h =
    elim (Bool-cases (ltb (first_hit (irq_at (reg aic_ffsr_index) mask) 31 1) 32)) [
      | inl e ↦ elim (Bool-cases (bit_set (reg aic_cisr_index) 0)) [
        | inl f ↦ rw (e, f) raised
        | inr f ↦ rw (e, f) raised
      ]
      | inr e ↦ rw e h
    ]
  where
    or_true : (b : Bool) → (b || true) ≡ true
    or_true b = ground arith

    raised : bit_set (bit_or (reg aic_cisr_index) 2) 1 ≡ true
    raised =
        bit_set-test_bit (bit_or (reg aic_cisr_index) 2) 1
        ∙ test_bit-bit_or (reg aic_cisr_index) 2 1
        ∙ or_true (test_bit (reg aic_cisr_index) 1)

-- The registers that say which interrupts ask are as they were.
abbrev pub IsSame : (ℕ → ℕ) → (ℕ → ℕ) → Type 0
IsSame r q =
    (q aic_ipr_index ≡ r aic_ipr_index)
    × (q aic_imr_index ≡ r aic_imr_index)
    × (q aic_ffsr_index ≡ r aic_ffsr_index)

pub generate_fiq-IsSame :
    (mask : ℕ) (reg : ℕ → ℕ) → IsSame reg (generate_fiq mask (update reg aic_cisr_index 0))
unfolding generate_fiq
generate_fiq-IsSame mask reg =
    elim (Bool-cases (ltb (first_hit (fiq_at (reg aic_ffsr_index) mask) 32 0) 32)) [
      | inl e ↦ rw e (refl, refl, refl)
      | inr e ↦ rw e (refl, refl, refl)
    ]

pub generate_irq-IsSame : (mask : ℕ) (reg : ℕ → ℕ) → IsSame reg (generate_irq mask reg)
unfolding generate_irq
generate_irq-IsSame mask reg =
    elim (Bool-cases (ltb (first_hit (irq_at (reg aic_ffsr_index) mask) 31 1) 32)) [
      | inl e ↦ elim (Bool-cases (bit_set (reg aic_cisr_index) 0)) [
        | inl f ↦ rw (e, f) (refl, refl, refl)
        | inr f ↦ rw (e, f) (refl, refl, refl)
      ]
      | inr e ↦ rw e (refl, refl, refl)
    ]
