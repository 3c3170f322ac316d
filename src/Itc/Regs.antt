-- ===== src/Itc/Regs.antt =====
-- The register indices of src/tlm_blocks/Mc13224v/Itc/reg_itc.h.
use open_socemu.Base.{ℕ}

abbrev pub nimask_index : ℕ
nimask_index = 1

abbrev pub intennum_index : ℕ
intennum_index = 2

abbrev pub intdisnum_index : ℕ
intdisnum_index = 3

abbrev pub intenable_index : ℕ
intenable_index = 4

abbrev pub inttype_index : ℕ
inttype_index = 5

abbrev pub nivector_index : ℕ
nivector_index = 0xA

abbrev pub fivector_index : ℕ
fivector_index = 0xB

abbrev pub intsrc_index : ℕ
intsrc_index = 0xC

abbrev pub nipend_index : ℕ
nipend_index = 0xE

abbrev pub fipend_index : ℕ
fipend_index = 0xF

abbrev pub reg_itc_count : ℕ
reg_itc_count = 16
