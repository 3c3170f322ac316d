-- ===== src/Sp804/Due.antt =====
-- When the pending event of a counter of the Sp804 is due, through starts, stops and expiries.
use open_socemu.Base.{
  ℕ, ◌+◌, ◌*◌, ◌/◌, ◌≡◌, refl, sym, ap, ◌∙◌, ◌⊎◌, inl, inr, Bool, true, false, ◌==◌, none, some,
  bit_and, bit_set, get_field, if_both, ==_iff, Bool-cases, arith, ◌&&◌, ◌^◌, zero, suc,
}
use open_socemu.Base.Bits.{test_bit, test_bit-bit_and, eq_of_bits, test_bit_of_lt}
use open_socemu.Sp804.{
  Sp804, Counter, prescale, start_counter, start_t1_counter, start_t2_counter, stop_t1_counter,
  stop_t2_counter, update_int, t1_thread_process, t2_thread_process,
}
use open_socemu.Sp804.Regs.{
  reg_sp804_timer1_value, reg_sp804_timer1_control, reg_sp804_timer2_value,
  reg_sp804_timer2_control,
}

-- A counter has no event pending, or the timer is on and the event is due when the value that the
-- counter was started with has been counted down at the rate of the control register.
abbrev pub IsDue : ℕ → ℕ → Counter → Type 0
IsDue control value c =
    (c.event ≡ none)
    ⊎ ((bit_set control 7 ≡ true)
        × (c.event ≡ some (c.starttime + c.ckperiod * value * prescale control)))

abbrev pub IsTimed1 : Sp804 → Type 0
IsTimed1 s =
    IsDue (s.reg reg_sp804_timer1_control) (s.reg reg_sp804_timer1_value) s.t1
    × (s.t1.stopped ≡ true)

abbrev pub IsTimed2 : Sp804 → Type 0
IsTimed2 s =
    IsDue (s.reg reg_sp804_timer2_control) (s.reg reg_sp804_timer2_value) s.t2
    × (s.t2.stopped ≡ true)

-- Both, and neither timer was ever marked as running.
abbrev pub IsTimed : Sp804 → Type 0
IsTimed s = IsTimed1 s × IsTimed2 s

pub start_t1-IsTimed :
    (now : ℕ) (s : Sp804) → s.t1.stopped ≡ true → IsTimed2 s → IsTimed (start_t1_counter now s)
unfolding start_t1_counter start_counter
start_t1-IsTimed now s still other =
    elim (Bool-cases (bit_set (s.reg reg_sp804_timer1_control) 7)) [
      | inl on ↦ rw on ((inr (on, refl), still), other)
      | inr off ↦ rw off ((inl refl, still), other)
    ]

pub start_t2-IsTimed :
    (now : ℕ) (s : Sp804) → IsTimed1 s → s.t2.stopped ≡ true → IsTimed (start_t2_counter now s)
unfolding start_t2_counter start_counter
start_t2-IsTimed now s other still =
    elim (Bool-cases (bit_set (s.reg reg_sp804_timer2_control) 7)) [
      | inl on ↦ rw on (other, (inr (on, refl), still))
      | inr off ↦ rw off (other, (inl refl, still))
    ]

pub stop_t1-IsTimed : (now : ℕ) (s : Sp804) → IsTimed2 s → IsTimed (stop_t1_counter now s)
unfolding stop_t1_counter
stop_t1-IsTimed now s other = ((inl refl, refl), other)

pub stop_t2-IsTimed : (now : ℕ) (s : Sp804) → IsTimed1 s → IsTimed (stop_t2_counter now s)
unfolding stop_t2_counter
stop_t2-IsTimed now s other = (other, (inl refl, refl))

pub update_int-IsTimed : (s : Sp804) → IsTimed s → IsTimed (update_int s)
unfolding update_int
update_int-IsTimed s h = h

pub t1_thread-IsTimed : (now : ℕ) (s : Sp804) → IsTimed s → IsTimed (t1_thread_process now s)
unfolding t1_thread_process update_int
t1_thread-IsTimed now s ((due, still), other) =
    if_both IsTimed (bit_set (s.reg reg_sp804_timer1_control) 0)
      (λ one_shot. stop_t1-IsTimed now _ other) (λ again. start_t1-IsTimed now _ still other)

pub t2_thread-IsTimed : (now : ℕ) (s : Sp804) → IsTimed s → IsTimed (t2_thread_process now s)
unfolding t2_thread_process update_int
t2_thread-IsTimed now s (other, (due, still)) =
    if_both IsTimed (bit_set (s.reg reg_sp804_timer2_control) 0)
      (λ one_shot. stop_t2-IsTimed now _ other) (λ again. start_t2-IsTimed now _ other still)

-- The bits of the prescaler are among those of the mask 0x4F.
mask_bits : (i : ℕ) → (test_bit 0x4F i && test_bit 0xC i) ≡ test_bit 0xC i
unfolding test_bit
mask_bits zero = refl
mask_bits (suc zero) = refl
mask_bits (suc (suc zero)) = refl
mask_bits (suc (suc (suc zero))) = refl
mask_bits (suc (suc (suc (suc i)))) =
    ground (arith, test_bit_of_lt 4 0xC (i + 4) (omega arith) (omega arith))

absorb : (a b c : Bool) → (b && c) ≡ c → (a && c) ≡ ((a && b) && c)
absorb true b c e = sym e
absorb false b c e = refl

prescaler_masked : (x : ℕ) → bit_and x 0xC ≡ bit_and (bit_and x 0x4F) 0xC
prescaler_masked x = eq_of_bits _ _ (λ i.
    test_bit-bit_and x 0xC i
    ∙ absorb (test_bit x i) (test_bit 0x4F i) (test_bit 0xC i) (mask_bits i)
    ∙ ap (λ b. b && test_bit 0xC i) (sym (test_bit-bit_and x 0x4F i))
    ∙ sym (test_bit-bit_and (bit_and x 0x4F) 0xC i))

prescale_ext : (a b : ℕ) → bit_and a 0x4F ≡ bit_and b 0x4F → prescale a ≡ prescale b
unfolding prescale get_field
prescale_ext a b e =
    ap (λ x. 2 ^ (x / 2 ^ 2 * 4))
      (prescaler_masked a ∙ ap (λ x. bit_and x 0xC) e ∙ sym (prescaler_masked b))

pub IsDue-keep :
    (a b value : ℕ) (c : Counter)
    → (bit_and a 0x4F == bit_and b 0x4F) ≡ true
    → bit_set b 7 ≡ true
    → IsDue a value c
    → IsDue b value c
IsDue-keep a b value c same on (inl idle) = inl idle
IsDue-keep a b value c same on (inr (was, due)) =
    let e = prescale_ext a b ((==_iff _ _).0 same) in
    inr (on, due ∙ ap (λ p. some (c.starttime + c.ckperiod * value * p)) e)

pub IsDue-off :
    (a b value : ℕ) (c : Counter) → bit_set a 7 ≡ false → IsDue a value c → IsDue b value c
IsDue-off a b value c off (inl idle) = inl idle
IsDue-off a b value c off (inr (on, due)) = ground (arith, on, off)
