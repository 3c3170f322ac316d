-- ===== src/Spif/Tests.antt =====
-- Runs of the Spif, and the theorems applied.
use open_socemu.Base.{
  ℕ, ◌*◌, ◌≡◌, refl, true, false, ◌==◌, if◌then◌else◌, [], ◌∷◌, update, ok, fault, tlm_err,
  undefined, assertion, drop_bit, arith, ◌>>=◌,
}
use open_socemu.Spif.{
  Spif, new, check_int, start_access, thread_flash, receive, extra_bits, respond, respond_id,
  finish, write_switch, reg_wr, reg_rd,
}
use open_socemu.Spif.Regs.{spif_setup_index, spif_clk_ctrl_index, spif_status_index}
use open_socemu.Spif.Reading.{at_rest, command, read_words, words_from, command-read_words}

abbrev bytes : ℕ → ℕ
bytes a = a

abbrev selected : ℕ → ℕ
selected j = if j == spif_setup_index then 2 else 0

command-read_words_example :
    (command 8 (at_rest 0 selected bytes 64 0 false) >>= read_words 2)
    ≡ ok (0x08090A0B ∷ 0x0C0D0E0F ∷ [])
unfolding words_from
command-read_words_example =
    command-read_words bytes 64 selected 8 0 false 2 (omega arith) refl (omega arith) refl
      (omega arith)

-- A start on a flash that is not selected is refused, so is a write of received data, and a read of
-- the identity that leaves no clocks for it is undefined.
refused :
    (reg_wr (4 * spif_clk_ctrl_index) 0x1F80 (new bytes 64) ≡ fault tlm_err)
    × (reg_wr 4 1 (new bytes 64) ≡ fault tlm_err)
    × (reg_rd 20 (new bytes 64) ≡ fault assertion)
unfolding reg_wr write_switch start_access reg_rd new
refused = (refl, refl, refl)

-- The block told to read the identity, with a number of clocks.
abbrev asked : ℕ → Spif
asked clk_ctrl = record (new bytes 64) {
  reg = λ j.
      (if j == 0 then 0x90000000 else if j == spif_clk_ctrl_index then clk_ctrl else selected j);
}

-- With 32 clocks for the 32 bits sent the answer is a shift by 32; with 64, all of the identity.
asked_runs :
    (thread_flash (asked 0x1F20) ≡ fault undefined)
    × ((thread_flash (asked 0x3F20) >>= reg_rd 4) ≡ ok 0xBF02BF02)
unfolding thread_flash receive extra_bits respond respond_id finish check_int reg_rd new
asked_runs = (refl, refl)

abbrev chosen : Spif
chosen = check_int (record (new bytes 64) { reg = update (new bytes 64).reg spif_setup_index 2 })

chosen_runs : reg_wr (4 * spif_setup_index) 2 (new bytes 64) ≡ ok chosen
unfolding reg_wr write_switch
chosen_runs = refl

abbrev pending : Spif
pending = check_int (record chosen {
  reg = update (update chosen.reg spif_clk_ctrl_index 0x1F00) spif_status_index 0;
  flash = record chosen.flash { active = true; event = true };
})

pending_runs : reg_wr (4 * spif_clk_ctrl_index) 0x1F80 chosen ≡ ok pending
unfolding reg_wr write_switch start_access check_int new drop_bit
pending_runs = refl
