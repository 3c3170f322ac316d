-- ===== src/Uart/Regs.antt =====
-- The register indices and bits of src/tlm_blocks/Mc13224v/Uart/reg_uart.h.
use open_socemu.Base.{ℕ}

abbrev pub ucon_index : ℕ
ucon_index = 0

abbrev pub ustat_index : ℕ
ustat_index = 1

abbrev pub udata_index : ℕ
udata_index = 2

abbrev pub urxcon_index : ℕ
urxcon_index = 3

abbrev pub utxcon_index : ℕ
utxcon_index = 4

abbrev pub ubr_index : ℕ
ubr_index = 6

abbrev pub reg_uart_count : ℕ
reg_uart_count = 7

abbrev pub mrxr_bit : ℕ
mrxr_bit = 0x4000

abbrev pub mtxr_bit : ℕ
mtxr_bit = 0x2000

abbrev pub rxe_bit : ℕ
rxe_bit = 2

abbrev pub txe_bit : ℕ
txe_bit = 1

abbrev pub ubrmod_mask : ℕ
ubrmod_mask = 0xFFFF
