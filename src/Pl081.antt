-- ===== src/Pl081.antt =====
-- The DMA controller of src/tlm_blocks/Arm/PrimeCells/Pl081/Pl081.h.
-- What a read of a word on the bus returns is a parameter. The loop of the thread is cut into its
-- rounds: a round ends with a channel served, or in the wait for the event.
pub mod Regs
pub mod Access
pub mod Quiet
pub mod Interrupts
pub mod Channels
mod Tests
use open_socemu.Base.{
  ℕ, ◌+◌, ◌-◌, ◌*◌, ◌/◌, ◌%◌, ◌^◌, Bool, true, false, not, ◌&&◌, ◌||◌, ◌==◌, ltb, leb,
  if◌then◌else◌, bit_and, bit_or, bit_not, nonzero, shl, u32, raise_bit, drop_bit, update, Result,
  ok, fault, assertion, tlm_err, check, ◌>>=◌, ◌>>◌,
}
use Regs.{
  reg_pl081_dmacintstat, reg_pl081_dmacinttcstat, reg_pl081_dmacinttcclr, reg_pl081_dmacinterrstat,
  reg_pl081_dmacinterrclr, reg_pl081_dmacrawintc, reg_pl081_dmacrawinterr, reg_pl081_dmacenbldchns,
  reg_pl081_dmacconfig, reg_pl081_dmacc0srcaddr, reg_pl081_dmacc0destaddr, reg_pl081_dmacc0llireg,
  reg_pl081_dmacc0control, reg_pl081_dmacc0config, reg_pl081_dmacc1srcaddr,
  reg_pl081_dmacc1destaddr, reg_pl081_dmacc1llireg, reg_pl081_dmacc1control, reg_pl081_dmacc1config,
  reg_pl081_dmacperiphid0, reg_pl081_dmacperiphid1, reg_pl081_dmacperiphid2,
  reg_pl081_dmacperiphid3, reg_pl081_dmacpcellid0, reg_pl081_dmacpcellid1, reg_pl081_dmacpcellid2,
  reg_pl081_dmacpcellid3, reg_pl081_count,
}

pub data ChannelState : Type 0 where
  idle fetch sanitycheck copy : ChannelState

pub record Channel : Type 0 where
  pub src : ℕ
  pub dest : ℕ
  pub lli : ℕ
  pub ctrl : ℕ
  pub state : ChannelState

-- Whether the thread runs, or waits for the event.
pub data Thread : Type 0 where
  running waiting : Thread

pub record Pl081 : Type 0 where
  pub reg : ℕ → ℕ
  pub dma : ℕ → Channel
  pub thread : Thread
  pub inttc : Bool
  pub interr : Bool
  pub intr : Bool

abbrev id_regs : ℕ → ℕ
id_regs =
    let r0 = update (λ _. 0) reg_pl081_dmacperiphid0 0x81 in
    let r1 = update r0 reg_pl081_dmacperiphid1 0x10 in
    let r2 = update r1 reg_pl081_dmacperiphid2 0x05 in
    let r3 = update r2 reg_pl081_dmacperiphid3 0 in
    let r4 = update r3 reg_pl081_dmacpcellid0 0x0D in
    let r5 = update r4 reg_pl081_dmacpcellid1 0xF0 in
    let r6 = update r5 reg_pl081_dmacpcellid2 0x05 in update r6 reg_pl081_dmacpcellid3 0xB1

unfoldable pub new : Pl081
new = record {
  reg = id_regs;
  dma = λ _. record { src = 0; dest = 0; lli = 0; ctrl = 0; state = idle };
  thread = running;
  inttc = false;
  interr = false;
  intr = false;
}

-- The index of a channel's configuration register.
abbrev pub config_index : ℕ → ℕ
config_index channel =
    reg_pl081_dmacc0config + (reg_pl081_dmacc1config - reg_pl081_dmacc0config) * channel

-- Enabled and not halted.
unfoldable pub is_enabled : ℕ → Pl081 → Bool
is_enabled channel s = bit_and (s.reg (config_index channel)) 0x4001 == 1

-- `m_dma_event.notify()`: the event is lost where the thread does not wait.
abbrev pub notify : Thread → Thread
notify t = running

unfoldable pub set_channel : ℕ → Channel → Pl081 → Pl081
set_channel channel c s = record s { dma = update s.dma channel c }

-- The linked list item at an address.
unfoldable pub fetched : (ℕ → ℕ) → Channel → Channel
fetched bus c =
    let address = bit_and c.lli (bit_not 3) in
    record {
      src = bus address;
      dest = bus (u32 (address + 4));
      lli = bus (u32 (address + 8));
      ctrl = bus (u32 (address + 12));
      state = copy;
    }

-- The state COPY, which marks the FIFO not empty and empty again.
unfoldable pub copy_data : ℕ → Pl081 → Result (Bool × Pl081)
copy_data channel s = do
  let index = reg_pl081_dmacc0config + channel * 8
  check (bit_and (s.reg index) 0x2000 == 0) assertion
  let full = update s.reg index (raise_bit (s.reg index) 17)
  ok (true, record s { reg = update full index (drop_bit (full index) 17) })

-- The Boolean says whether there was activity.
unfoldable pub handle_channel : (ℕ → ℕ) → ℕ → Pl081 → Result (Bool × Pl081)
handle_channel bus channel s =
    let c = s.dma channel in
    if is_enabled channel s
    then (elim c.state [
      | idle ↦ ok (false, s)
      | fetch ↦ ok (true, set_channel channel (fetched bus c) s)
      | sanitycheck ↦ ok (true, set_channel channel (record c { state = copy }) s)
      | copy ↦ copy_data channel s
    ])
    else ok (false, s)

-- One round of the thread.
unfoldable pub thread_process : (ℕ → ℕ) → Pl081 → Result Pl081
thread_process bus s =
    if nonzero (bit_and (s.reg reg_pl081_dmacconfig) 1)
    then (do
      (busy0, s0) ← handle_channel bus 0 s
      if busy0 then ok s0 else (do
        (busy1, s1) ← handle_channel bus 1 s0
        ok (if busy1 then s1 else record s1 { thread = waiting })))
    else ok (record s { thread = waiting })

unfoldable pub update_int : Pl081 → Pl081
update_int s =
    let r1 = update s.reg reg_pl081_dmacinttcstat (s.reg reg_pl081_dmacrawintc) in
    let r2 = update r1 reg_pl081_dmacinterrstat (r1 reg_pl081_dmacrawinterr) in
    let both = bit_or (r2 reg_pl081_dmacinttcstat) (r2 reg_pl081_dmacinterrstat) in
    let r3 = update r2 reg_pl081_dmacintstat both in
    record s {
      reg = r3;
      inttc = nonzero (r1 reg_pl081_dmacinttcstat);
      interr = nonzero (r2 reg_pl081_dmacinterrstat);
      intr = nonzero (r3 reg_pl081_dmacintstat);
    }
