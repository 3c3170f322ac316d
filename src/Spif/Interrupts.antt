-- ===== src/Spif/Interrupts.antt =====
-- The interrupt line and the accesses of the Spif over every sequence of its operations.
use open_socemu.Base.{
  ℕ, ◌+◌, ◌/◌, ◌≡◌, refl, sym, true, false, not, ◌||◌, ◌==◌, ltb, if◌then◌else◌, if_both, Option,
  none, some, bit_set, nonzero, bit_and, bit_not, leb, ok, undefined, assertion, tlm_err, ◌>>=◌,
  Ensures, Ensures-ok, Ensures-bind, Ensures-after, Ensures-check,
}
use open_socemu.Spif.{
  Spif, Flash, new, check_int, receive, extra_bits, respond, respond_id, respond_word, finish,
  thread_flash, start_access, write_switch, reg_wr, set_reg, ss_setup, sck_count, data_length,
  is_read_id,
}
use open_socemu.Spif.Regs.{
  spif_rx_data_index, spif_clk_ctrl_index, spif_setup_index, spif_status_index, reg_spif_count,
  spif_start_bit,
}

-- An access is marked as active exactly while its event is pending, and the line shows the status.
pub record IsPaced (s : Spif) : Type 0 where
  pub paced : s.flash.active ≡ s.flash.event
  pub shown : s.interrupt ≡ bit_set (s.reg spif_status_index) 0

abbrev Paced : Spif → Type 0
Paced s = s.flash.active ≡ s.flash.event

check_int-IsPaced : (s : Spif) → Paced s → IsPaced (check_int s)
unfolding check_int
check_int-IsPaced s h = record { paced = h; shown = refl }

start_access-Paced : (s : Spif) → Ensures Paced (start_access s)
unfolding start_access
start_access-Paced s = Ensures-check Paced (not s.flash.active) tlm_err _ λ _.
    Ensures-check Paced (ss_setup s == 1 || ss_setup s == 2) tlm_err _
      λ _. Ensures-check Paced (leb (data_length s) (sck_count s + 1)) tlm_err _ λ _. refl

write_switch-Paced :
    (index value : ℕ) (s : Spif) → Paced s → Ensures Paced (write_switch index value s)
unfolding write_switch
write_switch-Paced index value s h =
    let P = Ensures Paced in
    if_both P (index == spif_rx_data_index) (λ _. tt)
      λ _.
        if_both P (index == spif_clk_ctrl_index)
          (λ _.
            if_both P (nonzero (bit_and value spif_start_bit))
              (λ _. start_access-Paced (set_reg index (bit_and value (bit_not spif_start_bit)) s))
              (λ _. h))
          λ _.
            if_both P (index == spif_setup_index)
              (λ _. if_both Paced (ss_setup (set_reg index value s) == 3) (λ _. h) (λ _. h))
              λ _. if_both P (index == spif_status_index) (λ _. h) (λ _. h)

-- The answer leaves no event pending, where none was.
abbrev Spent : Spif → Type 0
Spent t = t.flash.event ≡ false

respond_id-Spent :
    (f : Flash) (bits : Option ℕ) (s : Spif) → f.event ≡ false → Ensures Spent (respond_id f bits s)
unfolding respond_id
respond_id-Spent f none s e = tt
respond_id-Spent f (some n) s e = Ensures-check Spent (ltb 0 n) undefined _ λ _. e

respond_word-Spent :
    (f : Flash) (bits : Option ℕ) (s : Spif)
    → f.event ≡ false
    → Ensures Spent (respond_word f bits s)
unfolding respond_word
respond_word-Spent f none s e = tt
respond_word-Spent f (some n) s e =
    Ensures-check Spent (n == 0 || leb (f.curaddr + 4) f.size) undefined _ λ _. e

respond-Spent :
    (f : Flash) (bits : Option ℕ) (s : Spif) → f.event ≡ false → Ensures Spent (respond f bits s)
unfolding respond
respond-Spent f bits s e =
    if_both (Ensures Spent) (is_read_id f.opcode) (λ _. respond_id-Spent f bits s e)
      λ _. if_both (Ensures Spent) (f.opcode == 0x03) (λ _. respond_word-Spent f bits s e) (λ _. e)

finish-IsPaced : (s : Spif) → Spent s → IsPaced (finish s)
unfolding finish
finish-IsPaced s e = check_int-IsPaced _ (sym e)

thread_flash-IsPaced : (s : Spif) → Ensures IsPaced (thread_flash s)
unfolding thread_flash
thread_flash-IsPaced s =
    let bits = if s.flash.opcode == 0 then extra_bits s else some (sck_count s + 1) in
    Ensures-after IsPaced (if s.flash.opcode == 0 then receive s else ok s.flash) _ λ f.
      let answer = respond (record f { event = false }) bits s in
      Ensures-check IsPaced (elim bits [ none ↦ true | some n ↦ leb n 32 ]) tlm_err
        (answer >>= λ t. ok (finish t))
        λ _.
          Ensures-bind Spent IsPaced answer (λ t. ok (finish t))
            (respond-Spent (record f { event = false }) bits s refl) finish-IsPaced

reg_wr-IsPaced : (offset value : ℕ) (s : Spif) → IsPaced s → Ensures IsPaced (reg_wr offset value s)
unfolding reg_wr
reg_wr-IsPaced offset value s h =
    Ensures-check IsPaced (ltb (offset / 4) reg_spif_count) assertion _ λ _.
      Ensures-bind Paced IsPaced (write_switch (offset / 4) value s) _
        (write_switch-Paced (offset / 4) value s h.paced) check_int-IsPaced

-- What happens to the block: an access of the processor, or its thread at its event.
pub data Reach (flashdata : ℕ → ℕ) (flashsize : ℕ) : Spif → Type 0 where
  created : Reach flashdata flashsize (new flashdata flashsize)
  written :
      {s t : Spif} (offset value : ℕ)
      → Reach flashdata flashsize s
      → reg_wr offset value s ≡ ok t
      → Reach flashdata flashsize t
  ran :
      {s t : Spif}
      → Reach flashdata flashsize s
      → s.flash.event ≡ true
      → thread_flash s ≡ ok t
      → Reach flashdata flashsize t

-- In every state that the block reaches, an access is marked as active exactly while its event is
-- pending, so no start is refused once the thread has run; and the interrupt line is set exactly when
-- the interrupt bit of the status register is.
pub Reach-IsPaced :
    {flashdata : ℕ → ℕ} {flashsize : ℕ} {s : Spif} → Reach flashdata flashsize s → IsPaced s
unfolding new bit_set
Reach-IsPaced created = record { paced = refl; shown = refl }
Reach-IsPaced (written {s = s} offset value r e) =
    Ensures-ok IsPaced {m = reg_wr offset value s} (reg_wr-IsPaced offset value s (Reach-IsPaced r))
      e
Reach-IsPaced (ran {s = s} r pending e) =
    Ensures-ok IsPaced {m = thread_flash s} (thread_flash-IsPaced s) e
