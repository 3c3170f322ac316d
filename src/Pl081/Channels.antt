-- ===== src/Pl081/Channels.antt =====
-- How the channels of the DMA controller are started, and what their thread does then.
use open_socemu.Base.{
  ℕ, zero, suc, ◌*◌, ◌^◌, ◌<◌, ◌≡◌, refl, ap, ◌∙◌, true, false, ◌==◌, Bool-cases, inl, inr, nonzero,
  bit_and, bit_or, update, drop_bit, raise_bit, Result, ok, arith, bit_set, IsWordArray, ◌>>=◌,
}
use open_socemu.Base.Bits.{test_bit, test_bit-bit_and, eq_of_bits, test_bit-bit_or, test_bit-pow}
use open_socemu.Base.Masks.{test_bit-raise_bit, test_bit-drop_bit, raise_bit-lt, bit_set-test_bit}
use open_socemu.Pl081.{
  Pl081, sanitycheck, copy, running, waiting, handle_channel, copy_data, thread_process, is_enabled,
  set_channel, update_int, config_index,
}
use open_socemu.Pl081.Access.{reg_wr, write_switch, write_config}
use open_socemu.Pl081.Regs.{reg_pl081_dmacconfig, reg_pl081_dmacc0config}

-- A word whose bit 17 is clear is marked and unmarked without a change.
marked : (x : ℕ) → x < 2 ^ 32 → test_bit x 17 ≡ false → drop_bit (raise_bit x 17) 17 ≡ x
marked x h clear = eq_of_bits _ x λ i.
    test_bit-drop_bit (raise_bit x 17) 17 i (raise_bit-lt x 17 h (omega arith)) (omega arith)
    ∙ ground (arith, test_bit-raise_bit x 17 i, at i)
  where
    at : (i : ℕ) → i ≡ 17 → test_bit x i ≡ test_bit x 17
    at i e = ap (test_bit x) e

update_same : (f : ℕ → ℕ) (i v w : ℕ) → w ≡ f i → update (update f i v) i w ≡ f
update_same f i v w e = λ k j. at j k
  where
    at : (j : ℕ) → update (update f i v) i w j ≡ f j
    at j = elim (Bool-cases (j == i)) [
      | inl same ↦ rw same (e ∙ ap f (ground arith))
      | inr other ↦ rw other refl
    ]

copy_data-still :
    (s : Pl081)
    → IsWordArray s.reg
    → bit_and (s.reg reg_pl081_dmacc0config) 0x2000 ≡ 0
    → test_bit (s.reg reg_pl081_dmacc0config) 17 ≡ false
    → copy_data 0 s ≡ ok (true, s)
unfolding copy_data
copy_data-still s w flow empty =
    let unchanged =
      update_same s.reg reg_pl081_dmacc0config (raise_bit (s.reg reg_pl081_dmacc0config) 17) _
        (marked (s.reg reg_pl081_dmacc0config) (w _) empty) in
    rw flow (ap (λ r. ok (true, record s { reg = r })) unchanged)

handle_channel-still :
    (bus : ℕ → ℕ) (s : Pl081)
    → is_enabled 0 s ≡ true
    → (s.dma 0).state ≡ copy
    → copy_data 0 s ≡ ok (true, s)
    → handle_channel bus 0 s ≡ ok (true, s)
unfolding handle_channel
handle_channel-still bus s enabled copying still = rw (enabled, copying) still

round-still :
    (bus : ℕ → ℕ) (s : Pl081)
    → nonzero (bit_and (s.reg reg_pl081_dmacconfig) 1) ≡ true
    → handle_channel bus 0 s ≡ ok (true, s)
    → thread_process bus s ≡ ok s
unfolding thread_process
round-still bus s on still = rw (on, still) refl

-- The rounds of the thread, n of them.
unfoldable pub rounds : (ℕ → ℕ) → ℕ → Pl081 → Result Pl081
rounds bus zero s = ok s
rounds bus (suc n) s = thread_process bus s >>= rounds bus n

-- While the controller is on and its first channel is in the state COPY, enabled and not halted, with
-- the DMA as flow controller and the FIFO marked empty, every number of rounds of the thread leaves
-- the state as it is, and the thread running: nothing is copied, and the second channel is not served.
pub rounds-copy :
    (bus : ℕ → ℕ) (n : ℕ) (s : Pl081)
    → IsWordArray s.reg
    → nonzero (bit_and (s.reg reg_pl081_dmacconfig) 1) ≡ true
    → is_enabled 0 s ≡ true
    → (s.dma 0).state ≡ copy
    → bit_and (s.reg reg_pl081_dmacc0config) 0x2000 ≡ 0
    → test_bit (s.reg reg_pl081_dmacc0config) 17 ≡ false
    → rounds bus n s ≡ ok s
unfolding rounds
rounds-copy bus zero s w on enabled copying flow empty = refl
rounds-copy bus (suc n) s w on enabled copying flow empty =
    let still = handle_channel-still bus s enabled copying (copy_data-still s w flow empty) in
    rw (round-still bus s on still) (rounds-copy bus n s w on enabled copying flow empty)

enabled_value :
    (value : ℕ)
    → value < 2 ^ 32
    → test_bit value 0 ≡ true
    → test_bit value 14 ≡ false
    → bit_and (drop_bit value 17) 0x4001 ≡ 1
enabled_value value word on unhalted = eq_of_bits _ 1 λ i. ground (
  arith,
  test_bit-bit_and (drop_bit value 17) (bit_or (2 ^ 0) (2 ^ 14)) i,
  test_bit-drop_bit value 17 i word (omega arith),
  test_bit-bit_or (2 ^ 0) (2 ^ 14) i,
  test_bit-pow 0 i,
  test_bit-pow 14 i,
  at i 0,
  at i 14,
)
  where
    at : (i p : ℕ) → i ≡ p → test_bit value i ≡ test_bit value p
    at i p e = ap (test_bit value) e

started_value :
    (value : ℕ)
    → value < 2 ^ 32
    → test_bit value 0 ≡ true
    → nonzero (bit_and (drop_bit value 17) 1) ≡ true
unfolding bit_set
started_value value word on =
    bit_set-test_bit (drop_bit value 17) 0
    ∙ test_bit-drop_bit value 17 0 word (omega arith)
    ∙ ground arith

reg_wr-config :
    (channel value : ℕ) (s : Pl081)
    → channel < 2
    → reg_wr (4 * config_index channel) value s ≡ ok (update_int (write_config channel value s))
unfolding reg_wr write_switch
reg_wr-config zero value s h = refl
reg_wr-config (suc zero) value s h = refl
reg_wr-config (suc (suc channel)) value s h = absurd (omega arith)

-- The state after a start, before its interrupts are updated.
abbrev pub started : ℕ → ℕ → Pl081 → Pl081
started channel value s =
    let stored = record s { reg = update s.reg (config_index channel) (drop_bit value 17) } in
    record (set_channel channel (record (s.dma channel) { state = sanitycheck }) stored) {
      thread = running;
    }

write_config-started :
    (channel value : ℕ) (s : Pl081)
    → nonzero (bit_and (s.reg (config_index channel)) 1) ≡ false
    → nonzero (bit_and (drop_bit value 17) 1) ≡ true
    → write_config channel value s ≡ started channel value s
unfolding write_config
write_config-started channel value s off on = rw (off, on) refl

started-checking :
    (channel value : ℕ) (s : Pl081)
    → ((update_int (started channel value s)).dma channel).state ≡ sanitycheck
unfolding update_int set_channel
started-checking channel value s =
    let here : (channel == channel) ≡ true = ground arith in rw here refl

started-enabled :
    (channel value : ℕ) (s : Pl081)
    → channel < 2
    → bit_and (drop_bit value 17) 0x4001 ≡ 1
    → is_enabled channel (update_int (started channel value s)) ≡ true
unfolding is_enabled update_int set_channel
started-enabled zero value s h e = rw e refl
started-enabled (suc zero) value s h e = rw e refl
started-enabled (suc (suc channel)) value s h e = absurd (omega arith)

handle_channel-check :
    (bus : ℕ → ℕ) (channel : ℕ) (s : Pl081)
    → is_enabled channel s ≡ true
    → (s.dma channel).state ≡ sanitycheck
    → handle_channel bus channel s
      ≡ ok (true, set_channel channel (record (s.dma channel) { state = copy }) s)
unfolding handle_channel
handle_channel-check bus channel s enabled checking = rw (enabled, checking) refl

-- A write of the configuration register that sets its enable bit, and not its halt bit, in a channel
-- that is not enabled, is accepted: the thread runs, the channel is in its check, and when the thread
-- serves it, it moves to the state COPY. The value is a word.
pub reg_wr-start :
    (bus : ℕ → ℕ) (channel value : ℕ) (s : Pl081)
    → channel < 2
    → value < 2 ^ 32
    → nonzero (bit_and (s.reg (config_index channel)) 1) ≡ false
    → test_bit value 0 ≡ true
    → test_bit value 14 ≡ false
    → (t : Pl081) × (reg_wr (4 * config_index channel) value s ≡ ok t)
      × (t.thread ≡ running)
      × ((t.dma channel).state ≡ sanitycheck)
      × (handle_channel bus channel t
          ≡ ok (true, set_channel channel (record (t.dma channel) { state = copy }) t))
reg_wr-start bus channel value s small word off on unhalted =
    let t = update_int (started channel value s) in
    let same = write_config-started channel value s off (started_value value word on) in
    (
      t,
      reg_wr-config channel value s small ∙ ap (λ u. ok (update_int u)) same,
      (unfold update_int in refl),
      started-checking channel value s,
      handle_channel-check bus channel t
          (started-enabled channel value s small (enabled_value value word on unhalted))
          (started-checking channel value s),
    )

-- A write that turns the controller on, or any other of that register, leaves a thread that waits
-- waiting, whatever channels are enabled by then: the event is notified by the channels' registers only.
pub reg_wr-asleep :
    (value : ℕ) (s : Pl081)
    → s.thread ≡ waiting
    → (t : Pl081) × (reg_wr (4 * reg_pl081_dmacconfig) value s ≡ ok t)
      × (t.thread ≡ waiting)
      × (t.reg reg_pl081_dmacconfig ≡ value)
      × (t.dma ≡ s.dma)
unfolding reg_wr write_switch update_int
reg_wr-asleep value s asleep = (_, refl, asleep, refl, refl)
