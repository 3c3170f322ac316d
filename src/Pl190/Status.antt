-- ===== src/Pl190/Status.antt =====
-- The status registers of the Pl190, bit by bit.
use open_socemu.Base.{ℕ, ◌^◌, ◌<◌, ◌≡◌, refl, Bool, not, ◌&&◌, ◌||◌}
use open_socemu.Base.Bits.{test_bit, test_bit-bit_and, test_bit-bit_or}
use open_socemu.Base.Masks.{test_bit-bit_not}
use open_socemu.Pl190.{Pl190, update_status, update_int}
use open_socemu.Pl190.Regs.{
  reg_pl190_irqstatus, reg_pl190_fiqstatus, reg_pl190_intselect, reg_pl190_intenable,
  reg_pl190_softint,
}

-- Every register and the sources are 32-bit words.
pub record IsWords (s : Pl190) : Type 0 where
  pub regs : (j : ℕ) → s.reg j < 2 ^ 32
  pub sources : s.vicintsource < 2 ^ 32

-- Interrupt i is asserted by its source or by software, and enabled.
abbrev pub requested : Pl190 → ℕ → Bool
requested s i =
    (test_bit s.vicintsource i || test_bit (s.reg reg_pl190_softint) i)
    && test_bit (s.reg reg_pl190_intenable) i

-- It is routed to the FIQ.
abbrev pub selected : Pl190 → ℕ → Bool
selected s i = test_bit (s.reg reg_pl190_intselect) i

pub update_status-bits :
    (s : Pl190) (i : ℕ)
    → IsWords s
    → i < 32
    → (test_bit (update_status s reg_pl190_irqstatus) i ≡ (requested s i && not (selected s i)))
      × (test_bit (update_status s reg_pl190_fiqstatus) i ≡ (requested s i && selected s i))
unfolding update_status
update_status-bits s i w hi = (
  simp (test_bit-bit_and, test_bit-bit_or)
      (rw (test_bit-bit_not (s.reg reg_pl190_intselect) i (w.regs reg_pl190_intselect) hi) refl),
  simp (test_bit-bit_and, test_bit-bit_or) refl,
)

-- In the state that `update_int` leaves, bit i of IRQSTATUS is set exactly when interrupt i is
-- requested and not selected for the FIQ, and bit i of FIQSTATUS exactly when it is requested
-- and selected, for the 32 interrupts of a controller that holds words.
pub update_int-status :
    (s : Pl190) (i : ℕ)
    → IsWords s
    → i < 32
    → (test_bit ((update_int s).reg reg_pl190_irqstatus) i ≡ (requested s i && not (selected s i)))
      × (test_bit ((update_int s).reg reg_pl190_fiqstatus) i ≡ (requested s i && selected s i))
unfolding update_int update_status
update_int-status s i w hi = update_status-bits s i w hi
