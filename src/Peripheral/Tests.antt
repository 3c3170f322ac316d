-- ===== src/Peripheral/Tests.antt =====
-- Runs of a plain register file, and its theorem at a concrete one.
use open_socemu.Base.{◌*◌, ◌≡◌, refl, ok, fault, assertion, update, arith}
use open_socemu.Tlm.{Payload, IsReady, b_wr_word, b_rd_word}
use open_socemu.IntLine.{new}
use open_socemu.Peripheral.{slave_b_transport, registers, reg_rd, reg_wr, cleared}
use open_socemu.Peripheral.Words.{write_read, registers-write_read}

abbrev ready : IsReady new.master_b_pl
unfolding new
ready = record { width = refl; no_mask = refl }

file_runs :
    (write_read (registers 10) new.master_b_pl 8 5 8 0 cleared ≡ ok (5, update cleared 2 5))
    × (write_read (registers 10) new.master_b_pl 8 5 12 7 cleared ≡ ok (0, update cleared 2 5))
    × (write_read (registers 10) new.master_b_pl 9 5 12 7 cleared ≡ fault assertion)
    × (write_read (registers 10) new.master_b_pl 40 5 12 7 cleared ≡ fault assertion)
unfolding write_read registers reg_rd reg_wr cleared slave_b_transport new b_wr_word b_rd_word
    open_socemu.Tlm.b_trans open_socemu.Tlm.word_sanity
file_runs = (refl, refl, refl, refl)

registers-write_read_example :
    write_read (registers 10) new.master_b_pl (4 * 2) 5 (4 * 3) 7 cleared
    ≡ ok (0, update cleared 2 5)
unfolding cleared
registers-write_read_example =
    registers-write_read 10 2 3 5 7 new.master_b_pl cleared ready (omega arith) (omega arith)
      (omega arith)
