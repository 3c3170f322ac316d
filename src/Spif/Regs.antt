-- ===== src/Spif/Regs.antt =====
-- The register indices and bits of src/tlm_blocks/Mc13224v/Spif/reg_spif.h that the handlers name.
use open_socemu.Base.{ℕ}

abbrev pub spif_tx_data_index : ℕ
spif_tx_data_index = 0

abbrev pub spif_rx_data_index : ℕ
spif_rx_data_index = 1

abbrev pub spif_clk_ctrl_index : ℕ
spif_clk_ctrl_index = 2

abbrev pub spif_setup_index : ℕ
spif_setup_index = 3

abbrev pub spif_status_index : ℕ
spif_status_index = 4

abbrev pub reg_spif_count : ℕ
reg_spif_count = 5

abbrev pub spif_start_bit : ℕ
spif_start_bit = 0x80

abbrev pub spif_overflow_bit : ℕ
spif_overflow_bit = 0x10

abbrev pub spif_int_bit : ℕ
spif_int_bit = 1
