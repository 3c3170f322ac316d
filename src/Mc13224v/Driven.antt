-- ===== src/Mc13224v/Driven.antt =====
-- What an access of the Crm sends to the Itc.
use open_socemu.Base.{
  ℕ, ◌≡◌, refl, ◌∙◌, Bool, true, false, ok, arith, update, raise_bit, drop_bit, Bool-cases, inl,
  inr, IsWordArray, update-IsWordArray, if◌then◌else◌, ◌==◌,
}
use open_socemu.Base.Bits.{test_bit}
use open_socemu.Base.Masks.{test_bit-raise_bit, test_bit-drop_bit, raise_bit-lt, drop_bit-lt}
use open_socemu.Tlm.{IsReady}
use open_socemu.IntLine.{IntSlave}
use open_socemu.IntLine.Wire.{sent, drive, set-drive}
use open_socemu.Crm.{Crm, check_int, status_index}
use open_socemu.Crm.Status.{wakes, ext_wu_evt-wakes}
use open_socemu.Itc.{Itc, interrupt_set, interrupt_clr}
use open_socemu.Itc.Regs.{intsrc_index}
use open_socemu.Itc.Lines.{IsShown, check_int-IsShown}
use open_socemu.Mc13224v.{Mc13224v, int_slave}

-- The Itc with its source 3 at a level.
unfoldable pub with_source : Bool → Itc → Itc
with_source level s = open_socemu.Itc.check_int (record s {
  reg =
      update s.reg intsrc_index
        (if level then raise_bit (s.reg intsrc_index) 3 else drop_bit (s.reg intsrc_index) 3);
})

abbrev pub driven : Crm → IntSlave Itc → Crm × IntSlave Itc
driven c s =
    let level = wakes (c.reg status_index) in
    (
      record c { interrupt = sent (if level then 1 else 0) c.interrupt },
      record { owner = with_source level s.owner; state = level },
    )

abbrev pub joined : Crm × IntSlave Itc → Mc13224v
joined (crm, slave) = record { crm = crm; slave = slave }

pub check_int-driven :
    (c : Crm) (s : IntSlave Itc)
    → IsReady c.interrupt.master_b_pl
    → check_int int_slave c s ≡ ok (driven c s)
unfolding check_int int_slave drive interrupt_set interrupt_clr with_source
check_int-driven c s ready =
    let (up, down) = set-drive (interrupt_set 3) (interrupt_clr 3) c.interrupt s ready in
    rw (ext_wu_evt-wakes c.reg) (elim (Bool-cases (wakes (c.reg status_index))) [
      | inl on ↦ rw (on, up) refl
      | inr off ↦ rw (off, down) refl
    ])

pub with_source-bit :
    (level : Bool) (s : Itc) (i : ℕ)
    → IsWordArray s.reg
    → test_bit ((with_source level s).reg intsrc_index) i
      ≡ (if i == 3 then level else test_bit (s.reg intsrc_index) i)
unfolding with_source open_socemu.Itc.check_int
with_source-bit true s i w = test_bit-raise_bit (s.reg intsrc_index) 3 i ∙ ground arith
with_source-bit false s i w =
    test_bit-drop_bit (s.reg intsrc_index) 3 i (w intsrc_index) (omega arith) ∙ ground arith

pub with_source-IsShown :
    (level : Bool) (s : Itc) → IsWordArray s.reg → IsShown (with_source level s)
unfolding with_source
with_source-IsShown true s w =
    check_int-IsShown _
      (update-IsWordArray _ _ _ w (raise_bit-lt _ 3 (w intsrc_index) (omega arith)))
with_source-IsShown false s w =
    check_int-IsShown _ (update-IsWordArray _ _ _ w (drop_bit-lt _ 3 (w intsrc_index)))
