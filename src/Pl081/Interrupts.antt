-- ===== src/Pl081/Interrupts.antt =====
-- What the DMA controller never does, over every sequence of its operations.
use open_socemu.Base.{
  ℕ, ◌/◌, ◌≡◌, refl, false, not, ◌&&◌, ltb, ◌==◌, if_both, nonzero, bit_and, update, drop_bit, ok,
  arith, Ensures, Ensures-ok, Ensures-bind, Ensures-check, assertion,
}
use open_socemu.Base.Masks.{zero_of_bits}
use open_socemu.Base.Bits.{test_bit-bit_and, test_bit-zero}
use open_socemu.Pl081.{
  Pl081, Channel, sanitycheck, new, thread_process, set_channel, update_int, config_index,
}
use open_socemu.Pl081.Access.{
  reg_wr, write_switch, write_config, write_channel, is_read_only, either,
}
use open_socemu.Pl081.Regs.{
  reg_pl081_dmacinttcclr, reg_pl081_dmacinterrclr, reg_pl081_count, reg_pl081_dmacc0srcaddr,
  reg_pl081_dmacc0destaddr, reg_pl081_dmacc0llireg, reg_pl081_dmacc0control, reg_pl081_dmacc0config,
  reg_pl081_dmacc1srcaddr, reg_pl081_dmacc1destaddr, reg_pl081_dmacc1llireg,
  reg_pl081_dmacc1control, reg_pl081_dmacc1config,
}
use open_socemu.Pl081.Quiet.{
  is_fetch, IsQuiet, set_channel-IsQuiet, set_reg-IsQuiet, set_thread-IsQuiet,
  thread_process-IsQuiet,
}
use open_socemu.Pl081.{notify}

update_int-IsQuiet : (s : Pl081) → IsQuiet s → IsQuiet (update_int s)
unfolding update_int
update_int-IsQuiet s h = record {
  no_fetch = h.no_fetch;
  rawintc = h.rawintc;
  rawinterr = h.rawinterr;
  inttc = rw h.rawintc refl;
  interr = rw h.rawinterr refl;
  intr = rw (h.rawintc, h.rawinterr) refl;
}

cleared : (x m : ℕ) → x ≡ 0 → bit_and x m ≡ 0
cleared x m e = rw e (zero_of_bits _ λ i. rw (test_bit-bit_and, test_bit-zero) refl)

write_config-IsQuiet :
    (channel written : ℕ) (s : Pl081) → IsQuiet s → IsQuiet (write_config channel written s)
unfolding write_config
write_config-IsQuiet channel written s h =
    let index = config_index channel in
    let value = drop_bit written 17 in
    let stored = record s { reg = update s.reg index value } in
    let quiet = set_reg-IsQuiet index value s h (ground arith) (ground arith) in
    let checked : Channel = record (s.dma channel) { state = sanitycheck } in
    if_both IsQuiet (not (nonzero (bit_and (s.reg index) 1)) && nonzero (bit_and value 1))
      (λ _.
        set_thread-IsQuiet (set_channel channel checked stored) (notify s.thread)
          (set_channel-IsQuiet channel checked stored quiet refl))
      (λ _. quiet)

write_switch-IsQuiet :
    (index value : ℕ) (s : Pl081) → IsQuiet s → Ensures IsQuiet (write_switch index value s)
unfolding write_switch write_channel
write_switch-IsQuiet index value s h =
    let P = Ensures IsQuiet in
    let kept = (λ (channel : ℕ) (c : Channel) (e : is_fetch c.state ≡ false).
      set_channel-IsQuiet channel c s h e) in
    if_both P (index == reg_pl081_dmacinttcclr)
      (λ _. record {
        no_fetch = h.no_fetch;
        rawintc = cleared _ _ h.rawintc;
        rawinterr = h.rawinterr;
        inttc = h.inttc;
        interr = h.interr;
        intr = h.intr;
      })
      λ _.
        if_both P (index == reg_pl081_dmacinterrclr)
          (λ _. record {
            no_fetch = h.no_fetch;
            rawintc = h.rawintc;
            rawinterr = cleared _ _ h.rawinterr;
            inttc = h.inttc;
            interr = h.interr;
            intr = h.intr;
          })
          λ _.
            if_both P (either index reg_pl081_dmacc0srcaddr reg_pl081_dmacc1srcaddr)
              (λ _. kept _ _ (h.no_fetch _))
              λ _.
                if_both P (either index reg_pl081_dmacc0destaddr reg_pl081_dmacc1destaddr)
                  (λ _. kept _ _ (h.no_fetch _))
                  λ _.
                    if_both P (either index reg_pl081_dmacc0llireg reg_pl081_dmacc1llireg)
                      (λ _. kept _ _ (h.no_fetch _))
                      λ _.
                        if_both P (either index reg_pl081_dmacc0control reg_pl081_dmacc1control)
                          (λ _. kept _ _ (h.no_fetch _))
                          λ _.
                            if_both P (either index reg_pl081_dmacc0config reg_pl081_dmacc1config)
                              (λ _. write_config-IsQuiet _ value s h)
                              λ _.
                                if_both P (is_read_only index) (λ _. tt)
                                  (λ ro.
                                    set_reg-IsQuiet index value s h (ground arith) (ground arith))

-- One operation: a round of the thread, with any content of the bus, or a write of a register.
pub data Step : Pl081 → Pl081 → Type 0 where
  round : (bus : ℕ → ℕ) (s t : Pl081) → thread_process bus s ≡ ok t → Step s t
  write : (s t : Pl081) (offset value : ℕ) → reg_wr offset value s ≡ ok t → Step s t

pub data Reach : Pl081 → Type 0 where
  start : Reach new
  next : {s t : Pl081} → Reach s → Step s t → Reach t

Step-IsQuiet : (s t : Pl081) → Step s t → IsQuiet s → IsQuiet t
unfolding reg_wr
Step-IsQuiet s t (round bus u v e) h = Ensures-ok IsQuiet (thread_process-IsQuiet bus s h) e
Step-IsQuiet s t (write u v offset value e) h =
    Ensures-ok IsQuiet
      (Ensures-check IsQuiet (ltb (offset / 4) reg_pl081_count) assertion _ λ _.
        Ensures-bind IsQuiet IsQuiet (write_switch (offset / 4) value s) _
          (write_switch-IsQuiet (offset / 4) value s h) update_int-IsQuiet)
      e

-- In every state that register writes and rounds of the thread can reach from the constructor's, no
-- channel fetches a list item, no interrupt is pending, and the three interrupt lines are low:
-- whatever is copied, its end is never signalled.
pub Reach-IsQuiet : {s : Pl081} → Reach s → IsQuiet s
unfolding new
Reach-IsQuiet start = record {
  no_fetch = λ j. refl;
  rawintc = refl;
  rawinterr = refl;
  inttc = refl;
  interr = refl;
  intr = refl;
}
Reach-IsQuiet (next r step) = Step-IsQuiet _ _ step (Reach-IsQuiet r)
