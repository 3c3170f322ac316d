-- ===== src/Pl190/Vector.antt =====
-- The vector address of the Pl190, and the slots.
use open_socemu.Base.{
  ℕ, zero, suc, ◌+◌, ◌%◌, ◌<◌, ◌≤◌, ◌≡◌, refl, sym, ◌∙◌, ap, Bool, true, false, not, ◌&&◌, arith,
}
use native.Mathlib.Nat.{add-zero}
use open_socemu.Base.Bits.{test_bit}
use open_socemu.Base.Masks.{bit_set-test_bit, bit_and_low}
use open_socemu.Pl190.{Pl190, slot_hit, vector_loop, update_status, update_int}
use open_socemu.Pl190.Regs.{
  reg_pl190_vectaddr, reg_pl190_defvectaddr, reg_pl190_vectaddr0, reg_pl190_vectcntl0,
}
use open_socemu.Pl190.Status.{IsWords, requested, selected, update_status-bits}

-- Slot k is enabled, and the interrupt that it names is requested as an IRQ.
abbrev pub slot_active : Pl190 → ℕ → Bool
slot_active s k =
    let control = s.reg (reg_pl190_vectcntl0 + k) in
    test_bit control 5 && (requested s (control % 32) && not (selected s (control % 32)))

-- The loop stops at the first hit.
vector_loop_first :
    (reg : ℕ → ℕ) (n i d : ℕ)
    → d < n
    → slot_hit reg (i + d) ≡ true
    → ((j : ℕ) → j < d → slot_hit reg (i + j) ≡ false)
    → vector_loop reg n i ≡ i + d
unfolding vector_loop
vector_loop_first reg zero i d hd hit before = absurd (omega arith)
vector_loop_first reg (suc n) i zero hd hit before =
    let first = ap (slot_hit reg) (add-zero i) in ground arith
vector_loop_first reg (suc n) i (suc d) hd hit before =
    let skipped : slot_hit reg i ≡ false =
      sym (ap (slot_hit reg) (add-zero i)) ∙ before 0 (omega arith) in
    rw skipped (
      vector_loop_first reg n (i + 1) d (omega arith) (ap (slot_hit reg) (omega arith) ∙ hit)
        (λ j hj. ap (slot_hit reg) (omega arith) ∙ before (suc j) (omega arith))
      ∙ omega arith)

vector_loop_none :
    (reg : ℕ → ℕ) (n i : ℕ)
    → ((j : ℕ) → j < n → slot_hit reg (i + j) ≡ false)
    → vector_loop reg n i ≡ i + n
unfolding vector_loop
vector_loop_none reg zero i before = omega arith
vector_loop_none reg (suc n) i before =
    let skipped : slot_hit reg i ≡ false =
      sym (ap (slot_hit reg) (add-zero i)) ∙ before 0 (omega arith) in
    rw skipped (
      vector_loop_none reg n (i + 1)
        (λ j hj. ap (slot_hit reg) (omega arith) ∙ before (suc j) (omega arith))
      ∙ omega arith)

-- The status update leaves every register from 3 on.
update_status_above : (s : Pl190) (j : ℕ) → 3 ≤ j → update_status s j ≡ s.reg j
unfolding update_status
update_status_above s j h = ground arith

slot_hit-update_status :
    (s : Pl190) (k : ℕ) → IsWords s → slot_hit (update_status s) k ≡ slot_active s k
unfolding slot_hit
slot_hit-update_status s k w =
    let control = s.reg (reg_pl190_vectcntl0 + k) in
    rw
      (
        update_status_above s (reg_pl190_vectcntl0 + k) (omega arith),
        bit_set-test_bit,
        bit_set-test_bit,
        bit_and_low 5 control,
        (update_status-bits s (control % 32) w (omega arith)).0,
      )
      refl

-- The vector address after `update_int`, in a controller that holds words: that of the lowest of
-- the 16 slots that is enabled and names an interrupt requested as an IRQ.
pub update_int-vectaddr :
    (s : Pl190) (k : ℕ)
    → IsWords s
    → k < 16
    → slot_active s k ≡ true
    → ((j : ℕ) → j < k → slot_active s j ≡ false)
    → (update_int s).reg reg_pl190_vectaddr ≡ s.reg (reg_pl190_vectaddr0 + k)
unfolding update_int
update_int-vectaddr s k w hk active lower =
    let stop : vector_loop (update_status s) 16 0 ≡ 0 + k =
      vector_loop_first (update_status s) 16 0 k hk
        (ap (slot_hit (update_status s)) (omega arith) ∙ slot_hit-update_status s k w ∙ active)
        (λ j hj.
          ap (slot_hit (update_status s)) (omega arith)
          ∙ slot_hit-update_status s j w
          ∙ lower j hj) in
    ground (arith, update_status_above s (reg_pl190_vectaddr0 + k) (omega arith))

-- The vector address after `update_int` is the default one when none of the 16 slots is active, in
-- a controller that holds words.
pub update_int-defvectaddr :
    (s : Pl190)
    → IsWords s
    → ((j : ℕ) → j < 16 → slot_active s j ≡ false)
    → (update_int s).reg reg_pl190_vectaddr ≡ s.reg reg_pl190_defvectaddr
unfolding update_int
update_int-defvectaddr s w idle =
    let stop : vector_loop (update_status s) 16 0 ≡ 0 + 16 =
      vector_loop_none (update_status s) 16 0 (λ j hj.
        ap (slot_hit (update_status s)) (omega arith) ∙ slot_hit-update_status s j w ∙ idle j hj) in
    ground (arith, update_status_above s reg_pl190_defvectaddr (omega arith))
