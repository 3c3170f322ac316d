-- ===== src/Pl081/Access.antt =====
-- The register accesses of src/tlm_blocks/Arm/PrimeCells/Pl081/Pl081.h.
use open_socemu.Base.{
  ℕ, ◌/◌, Bool, not, ◌&&◌, ◌||◌, ◌==◌, ltb, leb, if◌then◌else◌, bit_and, bit_or, bit_not, nonzero,
  shl, drop_bit, update, Result, ok, fault, assertion, tlm_err, check, ◌>>=◌, ◌>>◌,
}
use open_socemu.Pl081.{Pl081, Channel, sanitycheck, config_index, set_channel, notify, update_int}
use open_socemu.Pl081.Regs.{
  reg_pl081_dmacintstat, reg_pl081_dmacinttcstat, reg_pl081_dmacinttcclr, reg_pl081_dmacinterrstat,
  reg_pl081_dmacinterrclr, reg_pl081_dmacrawintc, reg_pl081_dmacrawinterr, reg_pl081_dmacenbldchns,
  reg_pl081_dmacc0srcaddr, reg_pl081_dmacc0destaddr, reg_pl081_dmacc0llireg,
  reg_pl081_dmacc0control, reg_pl081_dmacc0config, reg_pl081_dmacc1srcaddr,
  reg_pl081_dmacc1destaddr, reg_pl081_dmacc1llireg, reg_pl081_dmacc1control, reg_pl081_dmacc1config,
  reg_pl081_dmacperiphid0, reg_pl081_dmacpcellid3, reg_pl081_count,
}

-- The channel of an index that is a register of channel 0 or the same register of channel 1.
abbrev pub either : ℕ → ℕ → ℕ → Bool
either index first second = index == second || index == first

abbrev pub channel_of : ℕ → ℕ → ℕ
channel_of index second = if index == second then 1 else 0

unfoldable pub reg_rd : ℕ → Pl081 → Result ℕ
reg_rd offset s = do
  let index = offset / 4
  check (ltb index reg_pl081_count) assertion
  if index == reg_pl081_dmacenbldchns
      then ok (
          bit_or (bit_and (s.reg reg_pl081_dmacc0config) 1)
            (shl (bit_and (s.reg reg_pl081_dmacc1config) 1) 1))
      else if either index reg_pl081_dmacc0srcaddr reg_pl081_dmacc1srcaddr
      then ok ((s.dma (channel_of index reg_pl081_dmacc1srcaddr)).src)
      else if either index reg_pl081_dmacc0destaddr reg_pl081_dmacc1destaddr
      then ok ((s.dma (channel_of index reg_pl081_dmacc1destaddr)).dest)
      else if either index reg_pl081_dmacc0llireg reg_pl081_dmacc1llireg
      then ok ((s.dma (channel_of index reg_pl081_dmacc1llireg)).lli)
      else if either index reg_pl081_dmacc0control reg_pl081_dmacc1control
      then ok ((s.dma (channel_of index reg_pl081_dmacc1control)).ctrl)
      else if index == reg_pl081_dmacinttcclr || index == reg_pl081_dmacinterrclr
      then fault tlm_err
      else ok (s.reg index)

-- The read-only labels of the write switch; the eight identification registers are consecutive.
abbrev pub is_read_only : ℕ → Bool
is_read_only index =
    (((index == reg_pl081_dmacintstat || index == reg_pl081_dmacinttcstat)
        || (index == reg_pl081_dmacinterrstat || index == reg_pl081_dmacrawintc))
      || (index == reg_pl081_dmacrawinterr || index == reg_pl081_dmacenbldchns))
    || (leb reg_pl081_dmacperiphid0 index && leb index reg_pl081_dmacpcellid3)

-- A write of a channel's configuration register.
unfoldable pub write_config : ℕ → ℕ → Pl081 → Pl081
write_config channel written s =
    let value = drop_bit written 17 in
    let before = s.reg (config_index channel) in
    let stored = record s { reg = update s.reg (config_index channel) value } in
    if not (nonzero (bit_and before 1)) && nonzero (bit_and value 1)
    then record (set_channel channel (record (s.dma channel) { state = sanitycheck }) stored) {
      thread = notify s.thread;
    }
    else stored

-- A write of one of the four channel registers that are kept beside the register file.
unfoldable pub write_channel : ℕ → (Channel → Channel) → Pl081 → Pl081
write_channel channel f s = set_channel channel (f (s.dma channel)) s

-- The switch of `reg_wr`.
unfoldable pub write_switch : ℕ → ℕ → Pl081 → Result Pl081
write_switch index value s =
    if index == reg_pl081_dmacinttcclr
    then ok (record s {
      reg =
          update s.reg reg_pl081_dmacrawintc
            (bit_and (s.reg reg_pl081_dmacrawintc) (bit_not value));
    })
    else if index == reg_pl081_dmacinterrclr
    then ok (record s {
      reg =
          update s.reg reg_pl081_dmacrawinterr
            (bit_and (s.reg reg_pl081_dmacrawinterr) (bit_not value));
    })
    else if either index reg_pl081_dmacc0srcaddr reg_pl081_dmacc1srcaddr
    then ok
        (write_channel (channel_of index reg_pl081_dmacc1srcaddr) (λ c. record c { src = value }) s)
    else if either index reg_pl081_dmacc0destaddr reg_pl081_dmacc1destaddr
    then ok (
        write_channel (channel_of index reg_pl081_dmacc1destaddr) (λ c. record c { dest = value })
          s)
    else if either index reg_pl081_dmacc0llireg reg_pl081_dmacc1llireg
    then ok
        (write_channel (channel_of index reg_pl081_dmacc1llireg) (λ c. record c { lli = value }) s)
    else if either index reg_pl081_dmacc0control reg_pl081_dmacc1control
    then ok (
        write_channel (channel_of index reg_pl081_dmacc1control) (λ c. record c { ctrl = value }) s)
    else if either index reg_pl081_dmacc0config reg_pl081_dmacc1config
    then ok (write_config (channel_of index reg_pl081_dmacc1config) value s)
    else if is_read_only index
    then fault tlm_err
    else ok (record s { reg = update s.reg index value })

unfoldable pub reg_wr : ℕ → ℕ → Pl081 → Result Pl081
reg_wr offset value s = do
  let index = offset / 4
  check (ltb index reg_pl081_count) assertion
  t ← write_switch index value s
  ok (update_int t)
