-- ===== src/Pl081/Quiet.antt =====
-- What the thread of the DMA controller keeps: no list item is fetched, no interrupt is pending.
use open_socemu.Base.{
  ℕ, ◌+◌, ◌*◌, ◌≡◌, refl, Bool, true, false, ◌==◌, if_both, nonzero, bit_and, update, Result, ok,
  arith, Ensures, Ensures-bind, Ensures-check, assertion,
}
use open_socemu.Pl081.{
  Pl081, Channel, ChannelState, Thread, idle, fetch, sanitycheck, copy, handle_channel, copy_data,
  thread_process, waiting, is_enabled, set_channel, fetched,
}
use open_socemu.Pl081.Regs.{
  reg_pl081_dmacrawintc, reg_pl081_dmacrawinterr, reg_pl081_dmacconfig, reg_pl081_dmacc0config,
}

abbrev pub is_fetch : ChannelState → Bool
is_fetch state = elim state [ fetch ↦ true | _ ↦ false ]

-- No channel fetches a list item, and no interrupt is pending or raised.
pub record IsQuiet (s : Pl081) : Type 0 where
  pub no_fetch : (channel : ℕ) → is_fetch (s.dma channel).state ≡ false
  pub rawintc : s.reg reg_pl081_dmacrawintc ≡ 0
  pub rawinterr : s.reg reg_pl081_dmacrawinterr ≡ 0
  pub inttc : s.inttc ≡ false
  pub interr : s.interr ≡ false
  pub intr : s.intr ≡ false

pub set_channel-IsQuiet :
    (channel : ℕ) (c : Channel) (s : Pl081)
    → IsQuiet s
    → is_fetch c.state ≡ false
    → IsQuiet (set_channel channel c s)
unfolding set_channel
set_channel-IsQuiet channel c s h quiet = record {
  no_fetch = λ j.
      if_both (λ (d : Channel). is_fetch d.state ≡ false) (j == channel) (λ _. quiet)
        (λ _. h.no_fetch j);
  rawintc = h.rawintc;
  rawinterr = h.rawinterr;
  inttc = h.inttc;
  interr = h.interr;
  intr = h.intr;
}

-- A register that is not one of the two raw ones.
pub set_reg-IsQuiet :
    (index value : ℕ) (s : Pl081)
    → IsQuiet s
    → (reg_pl081_dmacrawintc == index) ≡ false
    → (reg_pl081_dmacrawinterr == index) ≡ false
    → IsQuiet (record s { reg = update s.reg index value })
set_reg-IsQuiet index value s h n1 n2 = record {
  no_fetch = h.no_fetch;
  rawintc = rw n1 h.rawintc;
  rawinterr = rw n2 h.rawinterr;
  inttc = h.inttc;
  interr = h.interr;
  intr = h.intr;
}

pub set_thread-IsQuiet :
    (s : Pl081) (thread : Thread) → IsQuiet s → IsQuiet (record s { thread = thread })
set_thread-IsQuiet s thread h = record {
  no_fetch = h.no_fetch;
  rawintc = h.rawintc;
  rawinterr = h.rawinterr;
  inttc = h.inttc;
  interr = h.interr;
  intr = h.intr;
}

abbrev After : Result (Bool × Pl081) → Type 0
After = Ensures (λ bs. IsQuiet bs.1)

copy_data-IsQuiet : (channel : ℕ) (s : Pl081) → IsQuiet s → After (copy_data channel s)
unfolding copy_data
copy_data-IsQuiet channel s h =
    let index = reg_pl081_dmacc0config + channel * 8 in
    Ensures-check (λ bs. IsQuiet bs.1) (bit_and (s.reg index) 0x2000 == 0) assertion _
      λ _.
        set_reg-IsQuiet index _ _ (set_reg-IsQuiet index _ s h (ground arith) (ground arith))
          (ground arith) (ground arith)

handle_channel-IsQuiet :
    (bus : ℕ → ℕ) (channel : ℕ) (s : Pl081) → IsQuiet s → After (handle_channel bus channel s)
unfolding handle_channel
handle_channel-IsQuiet bus channel s h =
    if_both After (is_enabled channel s) (λ _. served (s.dma channel).state (h.no_fetch channel))
      (λ _. h)
  where
    served :
        (state : ChannelState)
        → is_fetch state ≡ false
        → After (elim state [
          | idle ↦ ok (false, s)
          | fetch ↦ ok (true, set_channel channel (fetched bus (s.dma channel)) s)
          | sanitycheck ↦ ok (true, set_channel channel (record (s.dma channel) { state = copy }) s)
          | copy ↦ copy_data channel s
        ])
    served idle e = h
    served fetch e = cc
    served sanitycheck e = set_channel-IsQuiet channel _ s h refl
    served copy e = copy_data-IsQuiet channel s h

pub thread_process-IsQuiet :
    (bus : ℕ → ℕ) (s : Pl081) → IsQuiet s → Ensures IsQuiet (thread_process bus s)
unfolding thread_process
thread_process-IsQuiet bus s h =
    if_both (Ensures IsQuiet) (nonzero (bit_and (s.reg reg_pl081_dmacconfig) 1))
      (λ _.
        Ensures-bind (λ bs. IsQuiet bs.1) IsQuiet (handle_channel bus 0 s) _
          (handle_channel-IsQuiet bus 0 s h)
          λ (busy0, s0) h0.
            if_both (Ensures IsQuiet) busy0 (λ _. h0)
              λ _.
                Ensures-bind (λ bs. IsQuiet bs.1) IsQuiet (handle_channel bus 1 s0) _
                  (handle_channel-IsQuiet bus 1 s0 h0)
                  λ (busy1, s1) h1.
                    if_both IsQuiet busy1 (λ _. h1) (λ _. set_thread-IsQuiet s1 waiting h1))
      (λ _. set_thread-IsQuiet s waiting h)
