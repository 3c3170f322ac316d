-- ===== src/Sp805/Regs.antt =====
-- The register indices of src/tlm_blocks/Arm/PrimeCells/Sp805/Sp805.h that its handlers name.
use open_socemu.Base.{ℕ}

abbrev pub reg_sp805_wdogload : ℕ
reg_sp805_wdogload = 0

abbrev pub reg_sp805_wdogvalue : ℕ
reg_sp805_wdogvalue = 1

abbrev pub reg_sp805_wdogcontrol : ℕ
reg_sp805_wdogcontrol = 2

abbrev pub reg_sp805_wdogintclr : ℕ
reg_sp805_wdogintclr = 3

abbrev pub reg_sp805_wdogris : ℕ
reg_sp805_wdogris = 4

abbrev pub reg_sp805_wdogmis : ℕ
reg_sp805_wdogmis = 5

abbrev pub reg_sp805_wdoglock : ℕ
reg_sp805_wdoglock = 768

abbrev pub reg_sp805_wdogitop : ℕ
reg_sp805_wdogitop = 961

abbrev pub reg_sp805_periphid0 : ℕ
reg_sp805_periphid0 = 1016

abbrev pub reg_sp805_periphid1 : ℕ
reg_sp805_periphid1 = 1017

abbrev pub reg_sp805_periphid2 : ℕ
reg_sp805_periphid2 = 1018

abbrev pub reg_sp805_periphid3 : ℕ
reg_sp805_periphid3 = 1019

abbrev pub reg_sp805_pcellid0 : ℕ
reg_sp805_pcellid0 = 1020

abbrev pub reg_sp805_pcellid1 : ℕ
reg_sp805_pcellid1 = 1021

abbrev pub reg_sp805_pcellid2 : ℕ
reg_sp805_pcellid2 = 1022

abbrev pub reg_sp805_pcellid3 : ℕ
reg_sp805_pcellid3 = 1023

abbrev pub reg_sp805_count : ℕ
reg_sp805_count = 1024
