-- ===== src/Pl190/Lines.antt =====
-- The interrupt lines of the Pl190 over every sequence of its operations.
use open_socemu.Base.{
  ℕ, ◌+◌, ◌/◌, ◌^◌, ◌<◌, ◌≡◌, refl, ◌∙◌, not, ◌&&◌, ◌==◌, ltb, bit_or, ok, arith, IsWordArray,
  update-IsWordArray, Ensures, Ensures-ok, Ensures-bind, Ensures-check, assertion, Bool-cases, inl,
  inr,
}
use open_socemu.Base.Search.{any_below, any_below_ext}
use open_socemu.Base.Bits.{test_bit}
use open_socemu.Base.Masks.{bit_and-lt, bit_or-lt, raise_bit-lt, drop_bit-lt, nonzero-any_below}
use open_socemu.Pl190.{
  Pl190, new, update_status, update_int, int_set_cb, int_clr_cb, reg_wr, write_switch, vector_loop,
  is_read_only,
}
use open_socemu.Pl190.Regs.{
  reg_pl190_irqstatus, reg_pl190_fiqstatus, reg_pl190_count, reg_pl190_softint, reg_pl190_intenable,
  reg_pl190_intenclear, reg_pl190_softintclear, reg_pl190_vectaddr0, reg_pl190_defvectaddr,
}
use open_socemu.Pl190.Status.{IsWords, requested, selected, update_int-status}

-- What holds after every operation: the registers are words, and each line is high exactly when
-- one of the 32 interrupts asks for it.
pub record IsSettled (s : Pl190) : Type 0 where
  pub words : IsWords s
  pub irq_level : s.irq ≡ any_below 32 (λ i. requested s i && not (selected s i))
  pub fiq_level : s.fiq ≡ any_below 32 (λ i. requested s i && selected s i)

update_status-lt : (s : Pl190) → IsWords s → IsWordArray (update_status s)
unfolding update_status
update_status-lt s w =
    let raw = bit_or s.vicintsource (s.reg reg_pl190_softint) in
    let h : raw < 2 ^ 32 = bit_or-lt 32 _ _ w.sources (w.regs reg_pl190_softint) in
    update-IsWordArray _ _ _
      (update-IsWordArray _ _ _ (update-IsWordArray _ _ _ w.regs h)
        (bit_and-lt 32 _ _ (bit_and-lt 32 raw _ h)))
      (bit_and-lt 32 _ _ (bit_and-lt 32 raw _ h))

update_int-IsWords : (s : Pl190) → IsWords s → IsWords (update_int s)
unfolding update_int
update_int-IsWords s w = record {
  regs = λ j. ground (
    arith,
    update_status-lt s w j,
    update_status-lt s w (reg_pl190_vectaddr0 + vector_loop (update_status s) 16 0),
    update_status-lt s w reg_pl190_defvectaddr,
  );
  sources = w.sources;
}

-- The parts of the state that decide a request are left alone.
update_int-IsSettled : (s : Pl190) → IsWords s → IsSettled (update_int s)
unfolding update_int update_status
update_int-IsSettled s w =
    let w' = update_int-IsWords s w in
    record {
      words = w';
      irq_level =
          nonzero-any_below _ (w'.regs reg_pl190_irqstatus)
          ∙ any_below_ext 32 _ _ (λ i h. (update_int-status s i w h).0);
      fiq_level =
          nonzero-any_below _ (w'.regs reg_pl190_fiqstatus)
          ∙ any_below_ext 32 _ _ (λ i h. (update_int-status s i w h).1);
    }

-- One operation: a source is asserted or deasserted, or the bus writes a word.
pub data Step : Pl190 → Pl190 → Type 0 where
  assert_source : (s : Pl190) (i : ℕ) → i < 32 → Step s (int_set_cb i s)
  deassert_source : (s : Pl190) (i : ℕ) → i < 32 → Step s (int_clr_cb i s)
  write :
      (s t : Pl190) (offset value : ℕ) → value < 2 ^ 32 → reg_wr offset value s ≡ ok t → Step s t

pub data Reach : Pl190 → Type 0 where
  start : Reach new
  next : {s t : Pl190} → Reach s → Step s t → Reach t

write_switch-IsWordArray :
    (reg : ℕ → ℕ) (index value : ℕ)
    → IsWordArray reg
    → value < 2 ^ 32
    → Ensures IsWordArray (write_switch reg index value)
unfolding write_switch
write_switch-IsWordArray reg index value hr hv = elim (Bool-cases (index == reg_pl190_intenclear)) [
  | inl a ↦ rw a (update-IsWordArray _ _ _ hr (bit_and-lt 32 _ _ (hr reg_pl190_intenable)))
  | inr a ↦ elim (Bool-cases (index == reg_pl190_softintclear)) [
    | inl b ↦ rw (a, b) (update-IsWordArray _ _ _ hr (bit_and-lt 32 _ _ (hr reg_pl190_softint)))
    | inr b ↦ elim (Bool-cases (is_read_only index)) [
      | inl c ↦ rw (a, b, c) tt
      | inr c ↦ rw (a, b, c) (update-IsWordArray _ _ _ hr hv)
    ]
  ]
]

reg_wr-IsSettled :
    (offset value : ℕ) (s : Pl190)
    → IsWords s
    → value < 2 ^ 32
    → Ensures IsSettled (reg_wr offset value s)
unfolding reg_wr
reg_wr-IsSettled offset value s w hv =
    let index = offset / 4 in
    Ensures-check IsSettled (ltb index reg_pl190_count) assertion _ λ _.
      Ensures-bind IsWordArray IsSettled (write_switch s.reg index value) _
        (write_switch-IsWordArray s.reg index value w.regs hv)
        (λ reg' h. update_int-IsSettled _ (record { regs = h; sources = w.sources }))

Step-IsSettled : {s t : Pl190} → Step s t → IsSettled s → IsSettled t
unfolding int_set_cb int_clr_cb
Step-IsSettled (assert_source s i h) v =
    update_int-IsSettled _
      (record { regs = v.words.regs; sources = raise_bit-lt s.vicintsource i v.words.sources h })
Step-IsSettled (deassert_source s i h) v =
    update_int-IsSettled _
      (record { regs = v.words.regs; sources = drop_bit-lt s.vicintsource i v.words.sources })
Step-IsSettled (write s t offset value h e) v =
    Ensures-ok IsSettled (reg_wr-IsSettled offset value s v.words h) e

pub new-IsSettled : IsSettled new
unfolding new any_below test_bit
new-IsSettled = record {
  words = record { regs = λ j. ground arith; sources = omega arith };
  irq_level = refl;
  fiq_level = refl;
}

-- In every state that operations can reach from the constructor's, the IRQ line is high exactly
-- when one of the 32 interrupts is requested and not selected for the FIQ, the FIQ line exactly
-- when one is requested and selected, and every register is a 32-bit word.
pub Reach-IsSettled : {s : Pl190} → Reach s → IsSettled s
Reach-IsSettled start = new-IsSettled
Reach-IsSettled (next r st) = Step-IsSettled st (Reach-IsSettled r)
