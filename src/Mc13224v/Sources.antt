-- ===== src/Mc13224v/Sources.antt =====
-- The operations of the Itc that leave its source 3 alone.
use open_socemu.Base.{
  ℕ, ◌/◌, ◌^◌, ◌<◌, ◌≡◌, refl, ap, Bool, false, ◌==◌, ltb, arith, assertion, Ensures, Ensures-both,
  Ensures-bind, Ensures-check, if_both,
}
use open_socemu.Base.Bits.{test_bit}
use open_socemu.Base.Masks.{test_bit-raise_bit, test_bit-drop_bit}
use open_socemu.Itc.{
  Itc, check_int, interrupt_set, interrupt_clr, write_switch, reg_wr, is_read_only,
}
use open_socemu.Itc.Regs.{intsrc_index, intennum_index, intdisnum_index, reg_itc_count}
use open_socemu.Itc.Lines.{IsShown, reg_wr-IsShown, interrupt_set-IsShown, interrupt_clr-IsShown}

abbrev pub source : Itc → Bool
source s = test_bit (s.reg intsrc_index) 3

-- The controller's own invariant holds, and the source 3 is as before.
abbrev pub IsSame : Itc → Itc → Type 0
IsSame s s' = IsShown s' × (source s' ≡ source s)

write_switch-intsrc :
    (reg : ℕ → ℕ) (index value : ℕ)
    → Ensures (λ reg'. reg' intsrc_index ≡ reg intsrc_index) (write_switch reg index value)
unfolding write_switch
write_switch-intsrc reg index value =
    let P = Ensures (λ (reg' : ℕ → ℕ). reg' intsrc_index ≡ reg intsrc_index) in
    if_both P (is_read_only index) (λ _. tt)
      λ free.
        if_both P (index == intennum_index) (λ _. if_both P (ltb value 32) (λ _. refl) (λ _. tt))
          λ _.
            if_both P (index == intdisnum_index)
              (λ _. if_both P (ltb value 32) (λ _. refl) (λ _. tt)) (λ _. ground arith)

reg_wr-source :
    (offset value : ℕ) (s : Itc) → Ensures (λ s'. source s' ≡ source s) (reg_wr offset value s)
unfolding reg_wr check_int
reg_wr-source offset value s =
    let P = (λ (s' : Itc). source s' ≡ source s) in
    Ensures-check P (ltb (offset / 4) reg_itc_count) assertion _ λ _.
      Ensures-bind (λ reg'. reg' intsrc_index ≡ s.reg intsrc_index) P _ _
        (write_switch-intsrc s.reg (offset / 4) value) (λ reg' e. ap (λ x. test_bit x 3) e)

set-source :
    (id : ℕ) (s : Itc)
    → (id == 3) ≡ false
    → Ensures (λ s'. source s' ≡ source s) (interrupt_set id s)
unfolding interrupt_set check_int
set-source id s other =
    Ensures-check (λ (s' : Itc). source s' ≡ source s) (ltb id 16) assertion _
      (λ small. ground (arith, test_bit-raise_bit (s.reg intsrc_index) id 3))

clr-source :
    (id : ℕ) (s : Itc)
    → IsShown s
    → (id == 3) ≡ false
    → Ensures (λ s'. source s' ≡ source s) (interrupt_clr id s)
unfolding interrupt_clr check_int
clr-source id s shown other =
    Ensures-check (λ (s' : Itc). source s' ≡ source s) (ltb id 16) assertion _
      λ small.
        ground (arith, test_bit-drop_bit (s.reg intsrc_index) id 3 (shown.words intsrc_index))

pub reg_wr-IsSame :
    (offset value : ℕ) (s : Itc)
    → IsShown s
    → value < 2 ^ 32
    → Ensures (IsSame s) (reg_wr offset value s)
reg_wr-IsSame offset value s shown h =
    Ensures-both IsShown _ _ (reg_wr-IsShown offset value s shown.words h)
      (reg_wr-source offset value s)

pub set-IsSame :
    (id : ℕ) (s : Itc) → IsShown s → (id == 3) ≡ false → Ensures (IsSame s) (interrupt_set id s)
set-IsSame id s shown other =
    Ensures-both IsShown _ _ (interrupt_set-IsShown id s shown.words) (set-source id s other)

pub clr-IsSame :
    (id : ℕ) (s : Itc) → IsShown s → (id == 3) ≡ false → Ensures (IsSame s) (interrupt_clr id s)
clr-IsSame id s shown other =
    Ensures-both IsShown _ _ (interrupt_clr-IsShown id s shown.words) (clr-source id s shown other)
