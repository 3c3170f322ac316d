-- ===== src/Spi/Tests.antt =====
-- Runs of the Spi, and the theorems applied.
use open_socemu.Base.{
  ℕ, ◌≡◌, refl, true, ◌==◌, if◌then◌else◌, ok, fault, tlm_err, undefined, assertion, arith, ◌>>=◌,
}
use open_socemu.Spi.{
  Spi, new, check_int, places, identity, thread_flash, start_access, write_switch, reg_wr, reg_rd,
}
use open_socemu.Spi.Regs.{spi_clk_ctrl_index}
use open_socemu.Spi.Identity.{thread_flash-same}
use open_socemu.Spif

-- The block told to read the identity, with a number of clocks.
abbrev told : ℕ → (ℕ → ℕ)
told clk_ctrl j =
    if j == 0
    then 0x90000000
    else if j == spi_clk_ctrl_index
    then clk_ctrl
    else if j == 3
    then 2
    else 0

abbrev asked : ℕ → Spi
asked clk_ctrl = record new { reg = told clk_ctrl }

-- With 64 clocks for the 32 bits sent all of the identity is read, with 40 its first byte; with 32 or
-- 65 the shift is undefined.
asked_runs :
    ((thread_flash (asked 0x3F20) >>= reg_rd 4) ≡ ok 0xBF02BF02)
    × ((thread_flash (asked 0x2720) >>= reg_rd 4) ≡ ok 0xBF)
    × (thread_flash (asked 0x1F20) ≡ fault undefined)
    × (thread_flash (asked 0x4020) ≡ fault undefined)
unfolding thread_flash places identity check_int reg_rd
asked_runs = (refl, refl, refl, refl)

refused :
    (reg_wr 8 0x1F80 new ≡ fault tlm_err)
    × (reg_wr 8 0x1FA0 (record (asked 0) { active = true }) ≡ fault tlm_err)
    × (reg_wr 4 1 new ≡ fault tlm_err)
    × (reg_rd 20 new ≡ fault assertion)
unfolding reg_wr write_switch start_access reg_rd
refused = (refl, refl, refl, refl)

abbrev both : open_socemu.Spif.Spif
both = record (open_socemu.Spif.new (λ a. a) 64) { reg = told 0x2720 }

thread_flash-same_example :
    (thread_flash (asked 0x2720) >>= reg_rd 4)
    ≡ (open_socemu.Spif.thread_flash both >>= open_socemu.Spif.reg_rd 4)
unfolding open_socemu.Spif.new
thread_flash-same_example =
    thread_flash-same (asked 0x2720) both 4 refl refl (omega arith) refl (omega arith)
