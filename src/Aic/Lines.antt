-- ===== src/Aic/Lines.antt =====
-- The interrupt lines of the Aic over every sequence of its operations.
use open_socemu.Base.{
  ℕ, ◌/◌, ◌^◌, ◌<◌, ◌≡◌, refl, ap, ◌∙◌, ltb, ◌==◌, if_both, bit_set, ok, arith, IsWordArray,
  update-IsWordArray, update, Ensures-ok, Ensures-check, assertion,
}
use open_socemu.Base.Search.{any_below, any_below_ext, first_hit, first_hit-any}
use open_socemu.Base.Bits.{test_bit}
use open_socemu.Base.Masks.{bit_and-lt, bit_or-lt, raise_bit-lt, drop_bit-lt}
use open_socemu.Aic.{
  Aic, new, fiq_at, irq_at, generate_fiq, generate_irq, check_int, interrupt_set, interrupt_clr,
  write_switch, reg_wr,
}
use open_socemu.Aic.Regs.{
  aic_svr_index, aic_ipr_index, aic_imr_index, aic_ffsr_index, aic_cisr_index, aic_isr_index,
  aic_ivr_index, aic_fvr_index, aic_iecr_index, aic_idcr_index, aic_ffer_index, aic_ffdr_index,
  reg_aic_count,
}
use open_socemu.Aic.Asks.{
  asks_fiq, asks_irq, pending, fiq_at-asks, irq_at-asks, fiq_shown, fiq_only, irq_shown, IsSame,
  generate_fiq-IsSame, generate_irq-IsSame,
}

-- What holds after every operation: the registers are words, the FIQ line is high exactly when a
-- source asks for it, and the IRQ line exactly when one asks for that.
pub record IsServed (s : Aic) : Type 0 where
  pub words : IsWordArray s.reg
  pub fiq_level : s.fiq ≡ any_below 32 (asks_fiq s.reg)
  pub irq_level : s.irq ≡ any_below 32 (asks_irq s.reg)

generate_fiq-IsWordArray :
    (mask : ℕ) (reg : ℕ → ℕ) → IsWordArray reg → IsWordArray (generate_fiq mask reg)
unfolding generate_fiq
generate_fiq-IsWordArray mask reg w =
    if_both IsWordArray (ltb (first_hit (fiq_at (reg aic_ffsr_index) mask) 32 0) 32)
      (λ small.
        let w1 = update-IsWordArray reg aic_isr_index _ w (ground arith) in
        let w2 =
          update-IsWordArray _ aic_cisr_index _ w1
            (bit_or-lt 32 (reg aic_cisr_index) 1 (w aic_cisr_index) (omega arith)) in
        update-IsWordArray _ aic_fvr_index _ w2 (w2 aic_svr_index))
      λ _. w

generate_irq-IsWordArray :
    (mask : ℕ) (reg : ℕ → ℕ) → IsWordArray reg → IsWordArray (generate_irq mask reg)
unfolding generate_irq
generate_irq-IsWordArray mask reg w =
    if_both IsWordArray (ltb (first_hit (irq_at (reg aic_ffsr_index) mask) 31 1) 32)
      (λ small.
        let w1 =
          if_both IsWordArray (bit_set (reg aic_cisr_index) 0) (λ _. w)
            λ _. update-IsWordArray reg aic_isr_index _ w (ground arith) in
        let w2 =
          update-IsWordArray _ aic_cisr_index _ w1
            (bit_or-lt 32 _ 2 (w1 aic_cisr_index) (omega arith)) in
        update-IsWordArray _ aic_ivr_index _ w2 (w2 _))
      λ _. w

fiq_level :
    (r q : ℕ → ℕ)
    → IsSame r q
    → ltb (first_hit (fiq_at (r aic_ffsr_index) (pending r)) 32 0) 32 ≡ any_below 32 (asks_fiq q)
fiq_level r q (e1, e2, e3) =
    first_hit-any (fiq_at (r aic_ffsr_index) (pending r)) 32 0
    ∙ any_below_ext 32 _ (asks_fiq q) λ i h. rw (e1, e2, e3) (ground (arith, fiq_at-asks r i))

irq_level :
    (r q : ℕ → ℕ)
    → IsSame r q
    → IsWordArray r
    → ltb (first_hit (irq_at (r aic_ffsr_index) (pending r)) 31 1) 32 ≡ any_below 32 (asks_irq q)
irq_level r q (e1, e2, e3) w =
    first_hit-any (irq_at (r aic_ffsr_index) (pending r)) 31 1
    ∙ any_below_ext 32 _ (asks_irq q) λ i h. rw (e1, e2, e3) (irq_at-asks r i w h)

IsSame-trans : (r q p : ℕ → ℕ) → IsSame r q → IsSame q p → IsSame r p
IsSame-trans r q p (a, b, c) (a', b', c') = (a' ∙ a, b' ∙ b, c' ∙ c)

check_int-IsServed : (s : Aic) → IsWordArray s.reg → IsServed (check_int s)
unfolding check_int
check_int-IsServed s w =
    let mask = pending s.reg in
    let q = generate_fiq mask (update s.reg aic_cisr_index 0) in
    let same = generate_fiq-IsSame mask s.reg in
    let (e1, e2, e3) = same in
    let wq =
      generate_fiq-IsWordArray mask _ (update-IsWordArray s.reg aic_cisr_index 0 w (omega arith)) in
    let last = generate_irq mask q in
    let all = IsSame-trans s.reg q last same (generate_irq-IsSame mask q) in
    record {
      words = generate_irq-IsWordArray mask q wq;
      fiq_level = fiq_shown mask s.reg ∙ fiq_level s.reg last all;
      irq_level =
          irq_shown mask q (fiq_only mask s.reg)
          ∙ ap (λ f. ltb (first_hit (irq_at f mask) 31 1) 32) e3
          ∙ irq_level s.reg last all w;
    }

-- One operation: a source is asserted or deasserted, or the bus writes a word.
pub data Step : Aic → Aic → Type 0 where
  assert_source : (s : Aic) (id : ℕ) → id < 32 → Step s (interrupt_set id s)
  deassert_source : (s : Aic) (id : ℕ) → id < 32 → Step s (interrupt_clr id s)
  write : (s t : Aic) (offset value : ℕ) → value < 2 ^ 32 → reg_wr offset value s ≡ ok t → Step s t

pub data Reach : Aic → Type 0 where
  start : Reach new
  next : {s t : Aic} → Reach s → Step s t → Reach t

write_switch-IsWordArray :
    (index value : ℕ) (reg : ℕ → ℕ)
    → IsWordArray reg
    → value < 2 ^ 32
    → IsWordArray (write_switch index value reg)
unfolding write_switch
write_switch-IsWordArray index value reg w h =
    let P = IsWordArray in
    if_both P (index == aic_iecr_index)
      (λ _. update-IsWordArray reg aic_imr_index _ w (bit_or-lt 32 _ value (w _) h))
      λ _.
        if_both P (index == aic_idcr_index)
          (λ _. update-IsWordArray reg aic_imr_index _ w (bit_and-lt 32 _ _ (w _)))
          λ _.
            if_both P (index == aic_imr_index) (λ _. w)
              λ _.
                if_both P (index == aic_ffer_index)
                  (λ _. update-IsWordArray reg aic_ffsr_index _ w (bit_or-lt 32 _ value (w _) h))
                  λ _.
                    if_both P (index == aic_ffdr_index)
                      (λ _. update-IsWordArray reg aic_ffsr_index _ w (bit_and-lt 32 _ _ (w _)))
                      λ _.
                        if_both P (index == aic_ffsr_index) (λ _. w)
                          λ _. update-IsWordArray reg index value w h

Step-IsServed : (s t : Aic) → Step s t → IsServed s → IsServed t
unfolding interrupt_set interrupt_clr reg_wr
Step-IsServed s t (assert_source u id small) h =
    check_int-IsServed _
      (update-IsWordArray s.reg aic_ipr_index _ h.words (raise_bit-lt _ id (h.words _) small))
Step-IsServed s t (deassert_source u id small) h =
    check_int-IsServed _
      (update-IsWordArray s.reg aic_ipr_index _ h.words (drop_bit-lt _ id (h.words _)))
Step-IsServed s t (write u v offset value word e) h =
    Ensures-ok IsServed
      (Ensures-check IsServed (ltb (offset / 4) reg_aic_count) assertion _
        λ _. check_int-IsServed _ (write_switch-IsWordArray (offset / 4) value s.reg h.words word))
      e

-- In every state that interrupts of the sources 0 to 31 and register writes can reach from the
-- constructor's, the FIQ line is high exactly when a source is pending and enabled that is source 0
-- or forced to be fast, and the IRQ line exactly when one of 1 to 31 is that is not forced to be.
pub Reach-IsServed : {s : Aic} → Reach s → IsServed s
unfolding new any_below test_bit
Reach-IsServed start = record { words = λ j. omega arith; fiq_level = refl; irq_level = refl }
Reach-IsServed (next r step) = Step-IsServed _ _ step (Reach-IsServed r)
