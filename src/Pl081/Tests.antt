-- ===== src/Pl081/Tests.antt =====
-- Runs of the Pl081, and its theorems at concrete states.
use open_socemu.Base.{ℕ, ◌*◌, ◌≡◌, refl, ◌==◌, if◌then◌else◌, ok, fault, tlm_err, arith, update}
use open_socemu.Base.Bits.{test_bit}
use open_socemu.Pl081.{
  Pl081, new, copy, waiting, handle_channel, thread_process, is_enabled, fetched, update_int,
}
use open_socemu.Pl081.Access.{reg_wr, reg_rd, write_switch}
use open_socemu.Pl081.Regs.{reg_pl081_dmacconfig}
use open_socemu.Pl081.Quiet.{IsQuiet}
use open_socemu.Pl081.Interrupts.{start, next, round, write, Reach-IsQuiet}
use open_socemu.Pl081.Channels.{rounds, rounds-copy}

abbrev no_bus : ℕ → ℕ
no_bus a = a

-- The controller is on, and its first channel copies.
abbrev copying : Pl081
copying = record new {
  reg = λ j. (if j == 12 then 1 else if j == 68 then 1 else 0);
  dma = λ _. record { src = 16; dest = 32; lli = 66; ctrl = 0; state = copy };
}

copying_runs :
    (reg_rd 28 copying ≡ ok 1)
    × (reg_rd 288 copying ≡ ok 16)
    × (reg_rd 8 copying ≡ fault tlm_err)
    × (reg_wr 20 1 copying ≡ fault tlm_err)
    × (fetched no_bus (copying.dma 0)
        ≡ record { src = 64; dest = 68; lli = 72; ctrl = 76; state = copy })
unfolding reg_rd reg_wr write_switch fetched
copying_runs = (refl, refl, refl, refl, refl)

rounds-copy_example : rounds no_bus 5 copying ≡ ok copying
unfolding is_enabled test_bit
rounds-copy_example = rounds-copy no_bus 5 copying (λ j. ground arith) refl refl refl refl refl

abbrev turned_on : Pl081
turned_on = update_int (record new { reg = update new.reg reg_pl081_dmacconfig 1 })

turned_on_runs : reg_wr (4 * reg_pl081_dmacconfig) 1 new ≡ ok turned_on
unfolding reg_wr write_switch
turned_on_runs = refl

abbrev asleep : Pl081
asleep = record turned_on { thread = waiting }

asleep_runs : thread_process no_bus turned_on ≡ ok asleep
unfolding thread_process handle_channel is_enabled update_int new
asleep_runs = refl

Reach-IsQuiet_example : IsQuiet asleep
Reach-IsQuiet_example = Reach-IsQuiet (
    next (next start (write new turned_on (4 * reg_pl081_dmacconfig) 1 turned_on_runs))
      (round no_bus turned_on asleep asleep_runs))
