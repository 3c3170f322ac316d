-- ===== src/Spi/Regs.antt =====
-- The register indices and bits of src/tlm_blocks/Mc13224v/Spi/reg_spi.h that the handlers name.
use open_socemu.Base.{ℕ}

abbrev pub spi_tx_data_index : ℕ
spi_tx_data_index = 0

abbrev pub spi_rx_data_index : ℕ
spi_rx_data_index = 1

abbrev pub spi_clk_ctrl_index : ℕ
spi_clk_ctrl_index = 2

abbrev pub spi_setup_index : ℕ
spi_setup_index = 3

abbrev pub spi_status_index : ℕ
spi_status_index = 4

abbrev pub reg_spi_count : ℕ
reg_spi_count = 5

abbrev pub spi_start_bit : ℕ
spi_start_bit = 0x80

abbrev pub spi_overflow_bit : ℕ
spi_overflow_bit = 0x10

abbrev pub spi_int_bit : ℕ
spi_int_bit = 1
