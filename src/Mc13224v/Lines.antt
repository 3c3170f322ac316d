-- ===== src/Mc13224v/Lines.antt =====
-- The line between the Crm and the Itc over every sequence of accesses, interrupts of other blocks
-- and writes of a debugger to the Crm.
use open_socemu.Base.{
  ℕ, ◌/◌, ◌^◌, ◌<◌, ◌≡◌, refl, ◌∙◌, ◌*◌, Result, Bool, true, false, ◌==◌, ltb, ok, arith,
  IsWordArray, Ensures, Ensures-ok, Ensures-bind, Ensures-check, Ensures-after, assertion,
}
use open_socemu.Base.Bits.{test_bit-zero}
use open_socemu.Tlm.{Payload, IsReady}
use open_socemu.Peripheral.{slave_b_transport}
use open_socemu.Peripheral.Keeps.{IsKept, transport-keeps}
use open_socemu.BusSlave.Debug.{put_bytes-IsWordArray}
use open_socemu.BusSlave.{BusSlave, slave_dbg_transport}
use open_socemu.IntLine.{IntSlave}
use open_socemu.Crm.{Crm, check_int, status_index, reg_crm_count}
use open_socemu.Crm.Status.{wakes, write_switch-IsWordArray}
use open_socemu.Itc.{Itc, interrupt_set, interrupt_clr}
use open_socemu.Itc.Lines.{IsShown, new-IsShown}
use open_socemu.Mc13224v.{
  Mc13224v, int_slave, new, on_itc, crm_rd, crm_wr, itc_rd, itc_wr, crm_registers, itc_registers,
  crm_dbg_write,
}
use open_socemu.Mc13224v.Sources.{IsSame, source, reg_wr-IsSame, set-IsSame, clr-IsSame}
use open_socemu.Mc13224v.Driven.{
  check_int-driven, driven, joined, with_source-bit, with_source-IsShown,
}

-- The state, and the value of STATUS that the last access of the Crm left, 0 before the first.
pub data Reach : Mc13224v → ℕ → Type 0 where
  start : (preloaded : Bool) → Reach (new preloaded) 0
  access_crm :
      {m m' : Mc13224v} {seen : ℕ} (t t' : Payload)
      → Reach m seen
      → t.data_word < 2 ^ 32
      → slave_b_transport crm_registers t m ≡ ok (t', m')
      → Reach m' (m'.crm.reg status_index)
  access_itc :
      {m m' : Mc13224v} {seen : ℕ} (t t' : Payload)
      → Reach m seen
      → t.data_word < 2 ^ 32
      → slave_b_transport itc_registers t m ≡ ok (t', m')
      → Reach m' seen
  other_set :
      {m m' : Mc13224v} {seen : ℕ} (id : ℕ)
      → Reach m seen
      → (id == 3) ≡ false
      → on_itc (interrupt_set id) m ≡ ok m'
      → Reach m' seen
  other_clear :
      {m m' : Mc13224v} {seen : ℕ} (id : ℕ)
      → Reach m seen
      → (id == 3) ≡ false
      → on_itc (interrupt_clr id) m ≡ ok m'
      → Reach m' seen
  debug_crm :
      {m m' : Mc13224v} {seen : ℕ} (length addr n : ℕ) (bytes : ℕ → ℕ)
      → Reach m seen
      → crm_dbg_write length addr bytes m ≡ ok (n, m')
      → Reach m' seen

-- The registers of the Crm are words, its master has its defaults, the Itc shows what it should,
-- and its source 3 and the slave's level are the wake-up events that the last access saw.
pub record IsWired (seen : ℕ) (m : Mc13224v) : Type 0 where
  pub words : IsWordArray m.crm.reg
  pub ready : IsReady m.crm.interrupt.master_b_pl
  pub shown : IsShown m.slave.owner
  pub source_level : source m.slave.owner ≡ wakes seen
  pub level : m.slave.state ≡ wakes seen

abbrev pub IsFresh : Mc13224v → Type 0
IsFresh m = IsWired (m.crm.reg status_index) m

driven-IsFresh :
    (c : Crm) (s : IntSlave Itc)
    → IsWordArray c.reg
    → IsReady c.interrupt.master_b_pl
    → IsWordArray s.owner.reg
    → IsFresh (joined (driven c s))
driven-IsFresh c s w ready h =
    let level = wakes (c.reg status_index) in
    record {
      words = w;
      ready = record { width = ready.width; no_mask = ready.no_mask };
      shown = with_source-IsShown level s.owner h;
      source_level = with_source-bit level s.owner 3 h;
      level = refl;
    }

check_int-IsFresh :
    (c : Crm) (s : IntSlave Itc)
    → IsWordArray c.reg
    → IsReady c.interrupt.master_b_pl
    → IsWordArray s.owner.reg
    → Ensures (λ p. IsFresh (joined p)) (check_int int_slave c s)
check_int-IsFresh c s w ready h = rw (check_int-driven c s ready) (driven-IsFresh c s w ready h)

crm_rd-IsFresh :
    (seen offset : ℕ) (m : Mc13224v)
    → IsWired seen m
    → Ensures (λ (v, m'). IsFresh m') (crm_rd offset m)
unfolding crm_rd open_socemu.Crm.reg_rd
crm_rd-IsFresh seen offset m g =
    Ensures-bind (λ (v, c, s). IsFresh (joined (c, s))) (λ (v, m'). IsFresh m') _ _
      (Ensures-check (λ (v, c, s). IsFresh (joined (c, s))) (ltb (offset / 4) reg_crm_count)
        assertion _
        λ _.
          Ensures-bind (λ p. IsFresh (joined p)) (λ (v, c, s). IsFresh (joined (c, s))) _ _
            (check_int-IsFresh m.crm m.slave g.words g.ready g.shown.words) (λ p f. f))
      (λ (v, c, s) f. f)

crm_wr-IsFresh :
    (seen offset value : ℕ) (m : Mc13224v)
    → IsWired seen m
    → value < 2 ^ 32
    → Ensures IsFresh (crm_wr offset value m)
unfolding crm_wr open_socemu.Crm.reg_wr
crm_wr-IsFresh seen offset value m g h =
    Ensures-bind (λ p. IsFresh (joined p)) IsFresh _ _
      (Ensures-check (λ p. IsFresh (joined p)) (ltb (offset / 4) reg_crm_count) assertion _
        λ _.
          Ensures-bind IsWordArray (λ p. IsFresh (joined p)) _ _
            (write_switch-IsWordArray m.crm.reg (offset / 4) value g.words h)
            (λ reg' w. check_int-IsFresh _ m.slave w g.ready g.shown.words))
      (λ p f. f)

crm-IsKept : (seen : ℕ) → IsKept (IsWired seen) IsFresh crm_registers
unfolding crm_registers
crm-IsKept seen = record { reads = crm_rd-IsFresh seen; writes = crm_wr-IsFresh seen }

on_itc-IsWired :
    (seen : ℕ) (f : Itc → Result Itc) (m : Mc13224v)
    → IsWired seen m
    → Ensures (IsSame m.slave.owner) (f m.slave.owner)
    → Ensures (IsWired seen) (on_itc f m)
unfolding on_itc
on_itc-IsWired seen f m g h =
    Ensures-bind (IsSame m.slave.owner) (IsWired seen) _ _ h λ s' (shown, same). record {
      words = g.words;
      ready = g.ready;
      shown = shown;
      source_level = same ∙ g.source_level;
      level = g.level;
    }

itc_wr-IsWired :
    (seen offset value : ℕ) (m : Mc13224v)
    → IsWired seen m
    → value < 2 ^ 32
    → Ensures (IsWired seen) (itc_wr offset value m)
unfolding itc_wr
itc_wr-IsWired seen offset value m g h =
    on_itc-IsWired seen (open_socemu.Itc.reg_wr offset value) m g
      (reg_wr-IsSame offset value m.slave.owner g.shown h)

itc-IsKept : (seen : ℕ) → IsKept (IsWired seen) (IsWired seen) itc_registers
unfolding itc_registers itc_rd
itc-IsKept seen = record {
  reads = λ offset m g.
      Ensures-after (λ (v, m'). IsWired seen m') (open_socemu.Itc.reg_rd offset m.slave.owner) _
        (λ v. g);
  writes = itc_wr-IsWired seen;
}

abbrev IsWritten : ℕ × (ℕ → ℕ) × BusSlave → Type 0
IsWritten (n, bytes, s) = IsWordArray s.words

debug-IsWired :
    (seen length addr : ℕ) (bytes : ℕ → ℕ) (m : Mc13224v)
    → IsWired seen m
    → Ensures (λ (n, m'). IsWired seen m') (crm_dbg_write length addr bytes m)
unfolding crm_dbg_write slave_dbg_transport
debug-IsWired seen length addr bytes m g =
    Ensures-bind IsWritten (λ (n, m'). IsWired seen m') _ _
      (Ensures-check IsWritten (ltb addr (4 * reg_crm_count)) assertion _
        λ _. put_bytes-IsWordArray _ addr bytes m.crm.reg g.words)
      λ (n, b, s) w. record {
        words = w;
        ready = g.ready;
        shown = g.shown;
        source_level = g.source_level;
        level = g.level;
      }

new-IsWired : (preloaded : Bool) → IsWired 0 (new preloaded)
unfolding new open_socemu.Itc.new open_socemu.Crm.new open_socemu.Crm.set_status
    open_socemu.IntLine.new
new-IsWired true = record {
  words = λ j. ground arith;
  ready = record { width = refl; no_mask = refl };
  shown = new-IsShown;
  source_level = test_bit-zero 3;
  level = refl;
}
new-IsWired false = record {
  words = λ j. omega arith;
  ready = record { width = refl; no_mask = refl };
  shown = new-IsShown;
  source_level = test_bit-zero 3;
  level = refl;
}

-- In every state that is reached by accesses of the Crm and the Itc through their sockets, by the
-- interrupts of other blocks and by writes of a debugger to the Crm, the source 3 of the Itc and the
-- level of its slave tell whether an external wake-up event was in STATUS after the last access of
-- the Crm, and the Itc shows its sources on its lines.
pub Reach-IsWired : {m : Mc13224v} {seen : ℕ} → Reach m seen → IsWired seen m
Reach-IsWired (start preloaded) = new-IsWired preloaded
Reach-IsWired (access_crm {m = m} {seen = seen} t t' r h e) =
    Ensures-ok (λ (t'', m''). IsFresh m'')
      (transport-keeps _ _ crm_registers t m (crm-IsKept seen) (Reach-IsWired r) h) e
Reach-IsWired (access_itc {m = m} {seen = seen} t t' r h e) =
    Ensures-ok (λ (t'', m''). IsWired seen m'')
      (transport-keeps _ _ itc_registers t m (itc-IsKept seen) (Reach-IsWired r) h) e
Reach-IsWired (other_set {m = m} {seen = seen} id r other e) =
    let g = Reach-IsWired r in
    Ensures-ok (IsWired seen)
      (on_itc-IsWired seen (interrupt_set id) m g (set-IsSame id m.slave.owner g.shown other)) e
Reach-IsWired (other_clear {m = m} {seen = seen} id r other e) =
    let g = Reach-IsWired r in
    Ensures-ok (IsWired seen)
      (on_itc-IsWired seen (interrupt_clr id) m g (clr-IsSame id m.slave.owner g.shown other)) e
Reach-IsWired (debug_crm {m = m} {seen = seen} length addr n bytes r e) =
    Ensures-ok (λ (n', m''). IsWired seen m'')
      (debug-IsWired seen length addr bytes m (Reach-IsWired r)) e
