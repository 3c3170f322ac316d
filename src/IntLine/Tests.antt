-- ===== src/IntLine/Tests.antt =====
-- Runs of an interrupt line whose owner counts the calls of its two methods.
use open_socemu.Base.{ℕ, suc, ◌≡◌, refl, true, false, Result, ok, fault, assertion}
use open_socemu.Tlm.{Payload, write_command, read_command, incomplete_response}
use open_socemu.IntLine.{new, set, clear, slave_b_transport}
use open_socemu.IntLine.Wire.{sent}

abbrev on_set : ℕ × ℕ → Result (ℕ × ℕ)
on_set (sets, clears) = ok (suc sets, clears)

abbrev on_clear : ℕ × ℕ → Result (ℕ × ℕ)
on_clear (sets, clears) = ok (sets, suc clears)

-- A word that is no level.
abbrev strange : Payload
strange = record (new.master_b_pl) { command = write_command; data_length = 4; data_word = 2 }

line_runs :
    (set (slave_b_transport on_set on_clear) new (record { owner = (0, 0); state = false })
      ≡ ok (sent 1 new, record { owner = (1, 0); state = true }))
    × (clear (slave_b_transport on_set on_clear) new (record { owner = (1, 0); state = true })
        ≡ ok (sent 0 new, record { owner = (1, 1); state = false }))
    × (slave_b_transport on_set on_clear strange (record { owner = (0, 0); state = false })
        ≡ fault assertion)
    × (slave_b_transport on_set on_clear new.master_b_pl (record { owner = (0, 0); state = false })
        ≡ fault assertion)
unfolding set clear slave_b_transport new open_socemu.Tlm.int_set open_socemu.Tlm.int_clr
    open_socemu.Tlm.b_wr_word open_socemu.Tlm.b_trans open_socemu.Tlm.word_sanity
line_runs = (refl, refl, refl, refl)
