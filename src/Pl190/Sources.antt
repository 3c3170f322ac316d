-- ===== src/Pl190/Sources.antt =====
-- What the callbacks and the clear registers of the Pl190 change, bit by bit.
use open_socemu.Base.{ℕ, ◌*◌, ◌^◌, ◌<◌, ◌≡◌, refl, not, ◌&&◌, ◌||◌, ◌==◌, ok}
use open_socemu.Base.Bits.{test_bit}
use open_socemu.Base.Masks.{test_bit-raise_bit, test_bit-drop_bit, test_bit-and_not}
use open_socemu.Pl190.{
  Pl190, update_status, update_int, int_set_cb, int_clr_cb, reg_wr, write_switch,
}
use open_socemu.Pl190.Regs.{
  reg_pl190_intenable, reg_pl190_intenclear, reg_pl190_softint, reg_pl190_softintclear,
}
use open_socemu.Pl190.Status.{IsWords}

-- `int_set_cb i` asserts source i and `int_clr_cb i` deasserts it, for i below 32 in a controller
-- that holds words, and neither changes another source.
pub int_cb-sources :
    (s : Pl190) (i j : ℕ)
    → IsWords s
    → i < 32
    → (test_bit (int_set_cb i s).vicintsource j ≡ (test_bit s.vicintsource j || j == i))
      × (test_bit (int_clr_cb i s).vicintsource j ≡ (test_bit s.vicintsource j && not (j == i)))
unfolding int_set_cb int_clr_cb update_int
int_cb-sources s i j w hi =
    (test_bit-raise_bit s.vicintsource i j, test_bit-drop_bit s.vicintsource i j w.sources hi)

-- Writing a word to INTENCLEAR or SOFTINTCLEAR is accepted, and clears in INTENABLE or SOFTINT
-- exactly the bits that are set in it, in a controller that holds words.
pub reg_wr-clear :
    (s : Pl190) (value i : ℕ)
    → IsWords s
    → value < 2 ^ 32
    → (e : Pl190) × (reg_wr (4 * reg_pl190_intenclear) value s ≡ ok e)
      × (test_bit (e.reg reg_pl190_intenable) i
          ≡ (test_bit (s.reg reg_pl190_intenable) i && not (test_bit value i)))
      × (f : Pl190) × (reg_wr (4 * reg_pl190_softintclear) value s ≡ ok f)
      × (test_bit (f.reg reg_pl190_softint) i
          ≡ (test_bit (s.reg reg_pl190_softint) i && not (test_bit value i)))
unfolding reg_wr update_int write_switch update_status
reg_wr-clear s value i w hv = (
  _,
  refl,
  test_bit-and_not (s.reg reg_pl190_intenable) value i (w.regs reg_pl190_intenable) hv,
  _,
  refl,
  test_bit-and_not (s.reg reg_pl190_softint) value i (w.regs reg_pl190_softint) hv,
)
