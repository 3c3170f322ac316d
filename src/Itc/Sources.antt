-- ===== src/Itc/Sources.antt =====
-- What the sources and the enable numbers of the Itc change, bit by bit.
use open_socemu.Base.{
  ℕ, ◌*◌, ◌<◌, ◌≡◌, refl, true, not, ◌&&◌, ◌||◌, ◌==◌, ltb, ok, arith, IsWordArray, update,
  raise_bit, drop_bit,
}
use open_socemu.Base.Bits.{test_bit}
use open_socemu.Base.Masks.{test_bit-raise_bit, test_bit-drop_bit}
use open_socemu.Itc.{Itc, check_int, interrupt_set, interrupt_clr, write_switch, reg_wr}
use open_socemu.Itc.Regs.{intennum_index, intdisnum_index, intenable_index, intsrc_index}

-- In a controller that holds words, asserting and deasserting source id, below 16, are accepted:
-- they set and clear bit id of INTSRC, and change no other bit of it.
pub interrupt-sources :
    (s : Itc) (id i : ℕ)
    → IsWordArray s.reg
    → id < 16
    → (e : Itc) × (interrupt_set id s ≡ ok e)
      × (test_bit (e.reg intsrc_index) i ≡ (test_bit (s.reg intsrc_index) i || i == id))
      × (f : Itc) × (interrupt_clr id s ≡ ok f)
      × (test_bit (f.reg intsrc_index) i ≡ (test_bit (s.reg intsrc_index) i && not (i == id)))
unfolding interrupt_set interrupt_clr check_int
interrupt-sources s id i w small =
    let accepted : ltb id 16 ≡ true = ground arith in
    (
      check_int (record s { reg = update s.reg intsrc_index (raise_bit (s.reg intsrc_index) id) }),
      rw accepted refl,
      test_bit-raise_bit (s.reg intsrc_index) id i,
      check_int (record s { reg = update s.reg intsrc_index (drop_bit (s.reg intsrc_index) id) }),
      rw accepted refl,
      test_bit-drop_bit (s.reg intsrc_index) id i (w intsrc_index) (omega arith),
    )

-- In a controller that holds words, writing a number below 32 to INTENNUM or to INTDISNUM is
-- accepted: it sets or clears that bit of INTENABLE, and changes no other bit of it.
pub reg_wr-enable :
    (s : Itc) (value i : ℕ)
    → IsWordArray s.reg
    → value < 32
    → (e : Itc) × (reg_wr (4 * intennum_index) value s ≡ ok e)
      × (test_bit (e.reg intenable_index) i ≡ (test_bit (s.reg intenable_index) i || i == value))
      × (f : Itc) × (reg_wr (4 * intdisnum_index) value s ≡ ok f)
      × (test_bit (f.reg intenable_index) i
          ≡ (test_bit (s.reg intenable_index) i && not (i == value)))
unfolding reg_wr write_switch check_int
reg_wr-enable s value i w small =
    let accepted : ltb value 32 ≡ true = ground arith in
    (
      check_int (record s {
        reg = update s.reg intenable_index (raise_bit (s.reg intenable_index) value);
      }),
      rw accepted refl,
      test_bit-raise_bit (s.reg intenable_index) value i,
      check_int (record s {
        reg = update s.reg intenable_index (drop_bit (s.reg intenable_index) value);
      }),
      rw accepted refl,
      test_bit-drop_bit (s.reg intenable_index) value i (w intenable_index) small,
    )
