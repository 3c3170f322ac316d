-- ===== src/IntOr/Tests.antt =====
-- Runs of the gate, and its theorem at a concrete state.
use open_socemu.Base.{◌≡◌, refl, true, false, ◌==◌, ok, fault, assertion, update, raise_bit}
use open_socemu.Base.Search.{any_below}
use open_socemu.IntOr.{IntOr, new, add, int_s_b_transport}
use open_socemu.IntOr.Levels.{start, added, sent, line-any_level}

abbrev one_master : IntOr
one_master = record { or = 0; master_num = 1; line = false }

abbrev asserted : IntOr
asserted = record { or = 1; master_num = 1; line = true }

adds : add new ≡ ok one_master
unfolding add new
adds = refl

asserts : int_s_b_transport 0 1 one_master ≡ ok asserted
unfolding int_s_b_transport raise_bit
asserts = refl

unknown_master : int_s_b_transport 3 1 one_master ≡ fault assertion
unfolding int_s_b_transport
unknown_master = refl

line-any_level_example : asserted.line ≡ any_below 1 (update (λ _. false) 0 (1 == 1))
line-any_level_example = line-any_level (sent 0 1 (added start adds) asserts)
