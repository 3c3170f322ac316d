-- ===== src/Uart/Tests.antt =====
-- Runs of the Uart, and its theorems at concrete states.
use open_socemu.Base.{
  ◌*◌, ◌≡◌, refl, true, false, ◌==◌, ok, fault, tlm_err, assertion, [], ◌∷◌, if◌then◌else◌,
}
use open_socemu.Uart.{
  Uart, woken, sending, new, size, is_empty, notify, tx_free, check_int, tx_enabled, tx_start,
  rx_done, reg_rd, reg_wr, write_switch, write_ucon, write_udata,
}
use open_socemu.Uart.Regs.{udata_index, ucon_index}
use open_socemu.Uart.Wakeup.{IsLive, Reach, start, next, write, Reach-IsLive}

-- Transmission and reception are on with their interrupts, and two bytes wait on either side.
abbrev busy : Uart
busy = record {
  reg = λ j.
      (if j == 0
        then 0x6003
        else if j == 3
        then 3
        else if j == 4
        then 31
        else if j == 6
        then 1
        else 0);
  tx_fifo = 65 ∷ 66 ∷ [];
  tx_phase = woken;
  rx_fifo = 97 ∷ 98 ∷ [];
  interrupt = false;
}

busy_runs :
    ((check_int busy).interrupt ≡ false)
    × ((rx_done 99 busy).interrupt ≡ true)
    × (tx_start busy ≡ ok (record busy { tx_fifo = 66 ∷ []; tx_phase = sending }))
    × (tx_start new ≡ fault assertion)
    × (reg_rd 8 busy ≡ ok (97, record busy { rx_fifo = 98 ∷ [] }))
    × (reg_rd 16 busy ≡ ok (30, busy))
    × (reg_wr 4 0 busy ≡ fault tlm_err)
    × (reg_wr 16 40 busy ≡ fault tlm_err)
    × (reg_wr 24 0 busy ≡ fault tlm_err)
unfolding check_int rx_done tx_start reg_rd reg_wr write_switch tx_free size new
busy_runs = (refl, refl, refl, refl, refl, refl, refl, refl, refl)

-- Transmission is turned on, and a byte is written.
abbrev on : Uart
on = check_int (write_ucon 1 new)

abbrev filled : Uart
filled = check_int (write_udata 65 on)

filled-Reach : Reach filled
unfolding reg_wr write_switch
filled-Reach =
    next (next start (write new on (4 * ucon_index) 1 refl))
      (write on filled (4 * udata_index) 65 refl)

filled_woken : filled.tx_phase ≡ woken
unfolding check_int write_udata write_ucon tx_enabled size is_empty notify new
filled_woken = refl

Reach-IsLive_example : IsLive filled
Reach-IsLive_example = Reach-IsLive filled-Reach
