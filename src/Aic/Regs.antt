-- ===== src/Aic/Regs.antt =====
-- The register indices of src/tlm_blocks/At91sam9261/Aic/reg_aic.h that the handlers name.
use open_socemu.Base.{ℕ}

abbrev pub aic_svr_index : ℕ
aic_svr_index = 0x20

abbrev pub aic_ivr_index : ℕ
aic_ivr_index = 0x40

abbrev pub aic_fvr_index : ℕ
aic_fvr_index = 0x41

abbrev pub aic_isr_index : ℕ
aic_isr_index = 0x42

abbrev pub aic_ipr_index : ℕ
aic_ipr_index = 0x43

abbrev pub aic_imr_index : ℕ
aic_imr_index = 0x44

abbrev pub aic_cisr_index : ℕ
aic_cisr_index = 0x45

abbrev pub aic_iecr_index : ℕ
aic_iecr_index = 0x48

abbrev pub aic_idcr_index : ℕ
aic_idcr_index = 0x49

abbrev pub aic_ffer_index : ℕ
aic_ffer_index = 0x50

abbrev pub aic_ffdr_index : ℕ
aic_ffdr_index = 0x51

abbrev pub aic_ffsr_index : ℕ
aic_ffsr_index = 0x52

abbrev pub reg_aic_count : ℕ
reg_aic_count = 128
