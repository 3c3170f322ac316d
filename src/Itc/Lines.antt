-- ===== src/Itc/Lines.antt =====
-- The interrupt lines and the pending registers of the Itc over every sequence of its operations.
use open_socemu.Base.{
  ℕ, ◌/◌, ◌^◌, ◌<◌, ◌≡◌, refl, ◌∙◌, Bool, false, not, ◌&&◌, ltb, ◌==◌, nonzero, ok, arith, if_both,
  Bool-cases, inl, inr, ◌⊎◌, ◌≤◌, zero, suc, bit_set, IsWordArray, update-IsWordArray, Ensures,
  Ensures-ok, Ensures-bind, Ensures-check, assertion, if◌then◌else◌, some, none,
}
use open_socemu.Base.Search.{any_below, any_below_ext}
use open_socemu.Base.Bits.{test_bit, test_bit-zero}
use open_socemu.Base.Masks.{raise_bit-lt, drop_bit-lt, nonzero-any_below}
use open_socemu.Itc.{
  Itc, new, pending_fiq, pending_irq, vector, highest, check_int, interrupt_set, interrupt_clr,
  write_switch, reg_wr, is_read_only,
}
use open_socemu.Itc.Regs.{
  intennum_index, intdisnum_index, intenable_index, nivector_index, fivector_index, intsrc_index,
  nipend_index, fipend_index, reg_itc_count,
}
use open_socemu.Itc.Pending.{
  asks_fiq, asks_irq, pending_fiq-bits, pending_irq-bits, pending_fiq-lt, pending_irq-lt,
}

-- What holds after every operation: the registers are words, each bit of the pending registers
-- says whether its interrupt asks for a line, the FIQ line is high when one asks for it, and the
-- IRQ line is high when one asks for it and none for the FIQ.
pub record IsShown (s : Itc) : Type 0 where
  pub words : IsWordArray s.reg
  pub fipend_bits : (i : ℕ) → i < 32 → test_bit (s.reg fipend_index) i ≡ asks_fiq s.reg i
  pub nipend_bits : (i : ℕ) → i < 32 → test_bit (s.reg nipend_index) i ≡ asks_irq s.reg i
  pub fiq_level : s.fiq ≡ any_below 32 (asks_fiq s.reg)
  pub irq_level : s.irq ≡ (not (any_below 32 (asks_fiq s.reg)) && any_below 32 (asks_irq s.reg))

highest-cases :
    (pending n : ℕ)
    → (highest pending n ≡ none) ⊎ ((k : ℕ) × (highest pending n ≡ some k) × (k ≤ n))
unfolding highest
highest-cases pending zero = inl refl
highest-cases pending (suc n) = elim (Bool-cases (bit_set pending (suc n))) [
  | inl hit ↦ inr (suc n, rw hit refl, omega arith)
  | inr miss ↦ elim (highest-cases pending n) [
    | inl nothing ↦ inl (rw miss nothing)
    | inr (k, found, bound) ↦ inr (k, rw miss found, omega arith)
  ]
]

vector-lt : (pending old : ℕ) → old < 2 ^ 32 → vector pending old < 2 ^ 32
unfolding vector
vector-lt pending old h = elim (Bool-cases (nonzero pending)) [
  | inl some_pending ↦ elim (highest-cases pending 10) [
    | inl nothing ↦ rw (some_pending, nothing) h
    | inr (k, found, bound) ↦ rw (some_pending, found) (omega arith)
  ]
  | inr idle ↦ rw idle (omega arith)
]

check_int-IsWordArray : (s : Itc) → IsWordArray s.reg → IsWordArray (check_int s).reg
unfolding check_int
check_int-IsWordArray s w =
    let w1 = update-IsWordArray s.reg fipend_index _ w (pending_fiq-lt s.reg w) in
    let w2 = update-IsWordArray _ nipend_index _ w1 (pending_irq-lt s.reg w) in
    let w3 = update-IsWordArray _ nivector_index _ w2 (vector-lt _ _ (w2 nivector_index)) in
    update-IsWordArray _ fivector_index _ w3 (vector-lt _ _ (w3 fivector_index))

fiq-any : (reg : ℕ → ℕ) → IsWordArray reg → nonzero (pending_fiq reg) ≡ any_below 32 (asks_fiq reg)
fiq-any reg w =
    nonzero-any_below _ (pending_fiq-lt reg w)
    ∙ any_below_ext 32 _ _ (λ i h. pending_fiq-bits reg i)

irq-any : (reg : ℕ → ℕ) → IsWordArray reg → nonzero (pending_irq reg) ≡ any_below 32 (asks_irq reg)
irq-any reg w =
    nonzero-any_below _ (pending_irq-lt reg w)
    ∙ any_below_ext 32 _ _ (λ i h. pending_irq-bits reg i w h)

pub check_int-IsShown : (s : Itc) → IsWordArray s.reg → IsShown (check_int s)
unfolding check_int
check_int-IsShown s w = record {
  words = check_int-IsWordArray s w;
  fipend_bits = λ i h. pending_fiq-bits s.reg i;
  nipend_bits = λ i h. pending_irq-bits s.reg i w h;
  fiq_level = fiq-any s.reg w;
  irq_level = level _ _ _ _ (fiq-any s.reg w) (irq-any s.reg w);
}
  where
    level : (a b c d : Bool) → a ≡ c → b ≡ d → (if a then false else b) ≡ (not c && d)
    level a b c d p q = ground (arith, p, q)

-- One operation: a source is asserted or deasserted, or the bus writes a word.
pub data Step : Itc → Itc → Type 0 where
  assert_source : (s t : Itc) (id : ℕ) → interrupt_set id s ≡ ok t → Step s t
  deassert_source : (s t : Itc) (id : ℕ) → interrupt_clr id s ≡ ok t → Step s t
  write : (s t : Itc) (offset value : ℕ) → value < 2 ^ 32 → reg_wr offset value s ≡ ok t → Step s t

pub data Reach : Itc → Type 0 where
  start : Reach new
  next : {s t : Itc} → Reach s → Step s t → Reach t

write_switch-IsWordArray :
    (reg : ℕ → ℕ) (index value : ℕ)
    → IsWordArray reg
    → value < 2 ^ 32
    → Ensures IsWordArray (write_switch reg index value)
unfolding write_switch
write_switch-IsWordArray reg index value hr hv =
    let P = Ensures IsWordArray in
    let held = hr intenable_index in
    if_both P (is_read_only index) (λ _. tt)
      λ _.
        if_both P (index == intennum_index)
          (λ _.
            if_both P (ltb value 32)
              (λ small. update-IsWordArray _ _ _ hr (raise_bit-lt _ value held (ground arith)))
              (λ _. tt))
          λ _.
            if_both P (index == intdisnum_index)
              (λ _.
                if_both P (ltb value 32)
                  (λ small. update-IsWordArray _ _ _ hr (drop_bit-lt _ value held)) (λ _. tt))
              λ _. update-IsWordArray _ _ _ hr hv

pub reg_wr-IsShown :
    (offset value : ℕ) (s : Itc)
    → IsWordArray s.reg
    → value < 2 ^ 32
    → Ensures IsShown (reg_wr offset value s)
unfolding reg_wr
reg_wr-IsShown offset value s w hv =
    Ensures-check IsShown (ltb (offset / 4) reg_itc_count) assertion _ λ _.
      Ensures-bind IsWordArray IsShown (write_switch s.reg (offset / 4) value) _
        (write_switch-IsWordArray s.reg (offset / 4) value w hv) (λ reg' h. check_int-IsShown _ h)

pub interrupt_set-IsShown :
    (id : ℕ) (s : Itc) → IsWordArray s.reg → Ensures IsShown (interrupt_set id s)
unfolding interrupt_set
interrupt_set-IsShown id s w = Ensures-check IsShown (ltb id 16) assertion _ λ small.
    check_int-IsShown _
      (update-IsWordArray _ _ _ w (raise_bit-lt _ id (w intsrc_index) (ground arith)))

pub interrupt_clr-IsShown :
    (id : ℕ) (s : Itc) → IsWordArray s.reg → Ensures IsShown (interrupt_clr id s)
unfolding interrupt_clr
interrupt_clr-IsShown id s w =
    Ensures-check IsShown (ltb id 16) assertion _
      λ small. check_int-IsShown _ (update-IsWordArray _ _ _ w (drop_bit-lt _ id (w intsrc_index)))

Step-IsShown : {s t : Itc} → Step s t → IsShown s → IsShown t
Step-IsShown (assert_source s t id e) v = Ensures-ok IsShown (interrupt_set-IsShown id s v.words) e
Step-IsShown (deassert_source s t id e) v =
    Ensures-ok IsShown (interrupt_clr-IsShown id s v.words) e
Step-IsShown (write s t offset value h e) v =
    Ensures-ok IsShown (reg_wr-IsShown offset value s v.words h) e

pub new-IsShown : IsShown new
unfolding new any_below test_bit
new-IsShown = record {
  words = λ j. omega arith;
  fipend_bits = λ i h. ground (arith, test_bit-zero i);
  nipend_bits = λ i h. ground (arith, test_bit-zero i);
  fiq_level = refl;
  irq_level = refl;
}

-- In every state that operations can reach from the constructor's, every register is a word, the
-- pending registers show for each of 32 bits whether its interrupt asks for the FIQ or the IRQ,
-- the FIQ line is high exactly when one asks for the FIQ, and the IRQ line is high exactly when
-- one asks for the IRQ and none for the FIQ.
pub Reach-IsShown : {s : Itc} → Reach s → IsShown s
Reach-IsShown start = new-IsShown
Reach-IsShown (next r st) = Step-IsShown st (Reach-IsShown r)
