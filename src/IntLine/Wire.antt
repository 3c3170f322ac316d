-- ===== src/IntLine/Wire.antt =====
-- What arrives at the owner of a slave when its master sets or clears the line.
use open_socemu.Base.{
  ℕ, ◌≡◌, refl, Bool, true, false, if◌then◌else◌, Result, ok, inl, inr, ◌>>=◌, Result-cases,
}
use open_socemu.Tlm.{
  IsReady, write_command, ok_response, word_sanity, b_trans, b_wr_word, int_set, int_clr,
}
use open_socemu.IntLine.{IntMaster, IntSlave, set, clear, slave_b_transport}

-- The master after it has sent a level.
abbrev pub sent : ℕ → IntMaster → IntMaster
sent level m = record {
  master_b_pl = record (m.master_b_pl) {
    command = write_command;
    address = 0;
    data_word = level;
    data_length = 4;
    response = ok_response;
  };
}

-- What the line does: the owner's method for the level, and the level kept.
unfoldable pub drive {ℓ} :
    {A : Type ℓ}
    → (A → Result A)
    → (A → Result A)
    → Bool
    → IntMaster
    → IntSlave A
    → Result (IntMaster × IntSlave A)
drive set_cb clear_cb level m s = do
  owner ← if level then set_cb s.owner else clear_cb s.owner
  ok (sent (if level then 1 else 0) m, record { owner = owner; state = level })

-- Setting and clearing a line whose master has its defaults call the owner's set and clear
-- methods, and none of the checks on the way fails.
pub set-drive {ℓ} :
    {A : Type ℓ} (set_cb clear_cb : A → Result A) (m : IntMaster) (s : IntSlave A)
    → IsReady m.master_b_pl
    → (set (slave_b_transport set_cb clear_cb) m s ≡ drive set_cb clear_cb true m s)
      × (clear (slave_b_transport set_cb clear_cb) m s ≡ drive set_cb clear_cb false m s)
unfolding set clear slave_b_transport int_set int_clr b_wr_word b_trans word_sanity drive
set-drive set_cb clear_cb m s ready = (
  rw (ready.width, ready.no_mask)
      (elim (Result-cases (set_cb s.owner)) [ inl (a, e) ↦ rw e refl | inr (f, e) ↦ rw e refl ]),
  rw (ready.width, ready.no_mask)
      (elim (Result-cases (clear_cb s.owner)) [ inl (a, e) ↦ rw e refl | inr (f, e) ↦ rw e refl ]),
)
