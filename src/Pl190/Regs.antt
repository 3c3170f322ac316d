-- ===== src/Pl190/Regs.antt =====
-- The register indices of src/tlm_blocks/Arm/PrimeCells/Pl190/Pl190.h that its handlers name.
use open_socemu.Base.{ℕ}

abbrev pub reg_pl190_irqstatus : ℕ
reg_pl190_irqstatus = 0

abbrev pub reg_pl190_fiqstatus : ℕ
reg_pl190_fiqstatus = 1

abbrev pub reg_pl190_rawintr : ℕ
reg_pl190_rawintr = 2

abbrev pub reg_pl190_intselect : ℕ
reg_pl190_intselect = 3

abbrev pub reg_pl190_intenable : ℕ
reg_pl190_intenable = 4

abbrev pub reg_pl190_intenclear : ℕ
reg_pl190_intenclear = 5

abbrev pub reg_pl190_softint : ℕ
reg_pl190_softint = 6

abbrev pub reg_pl190_softintclear : ℕ
reg_pl190_softintclear = 7

abbrev pub reg_pl190_vectaddr : ℕ
reg_pl190_vectaddr = 12

abbrev pub reg_pl190_defvectaddr : ℕ
reg_pl190_defvectaddr = 13

abbrev pub reg_pl190_vectaddr0 : ℕ
reg_pl190_vectaddr0 = 64

abbrev pub reg_pl190_vectcntl0 : ℕ
reg_pl190_vectcntl0 = 128

abbrev pub reg_pl190_periphid0 : ℕ
reg_pl190_periphid0 = 1016

abbrev pub reg_pl190_periphid1 : ℕ
reg_pl190_periphid1 = 1017

abbrev pub reg_pl190_periphid2 : ℕ
reg_pl190_periphid2 = 1018

abbrev pub reg_pl190_periphid3 : ℕ
reg_pl190_periphid3 = 1019

abbrev pub reg_pl190_pcellid0 : ℕ
reg_pl190_pcellid0 = 1020

abbrev pub reg_pl190_pcellid1 : ℕ
reg_pl190_pcellid1 = 1021

abbrev pub reg_pl190_pcellid2 : ℕ
reg_pl190_pcellid2 = 1022

abbrev pub reg_pl190_pcellid3 : ℕ
reg_pl190_pcellid3 = 1023

abbrev pub reg_pl190_count : ℕ
reg_pl190_count = 1024
