-- ===== src/Pl081/Regs.antt =====
-- The register indices of src/tlm_blocks/Arm/PrimeCells/Pl081/Pl081.h that its handlers name.
use open_socemu.Base.{ℕ}

abbrev pub reg_pl081_dmacintstat : ℕ
reg_pl081_dmacintstat = 0

abbrev pub reg_pl081_dmacinttcstat : ℕ
reg_pl081_dmacinttcstat = 1

abbrev pub reg_pl081_dmacinttcclr : ℕ
reg_pl081_dmacinttcclr = 2

abbrev pub reg_pl081_dmacinterrstat : ℕ
reg_pl081_dmacinterrstat = 3

abbrev pub reg_pl081_dmacinterrclr : ℕ
reg_pl081_dmacinterrclr = 4

abbrev pub reg_pl081_dmacrawintc : ℕ
reg_pl081_dmacrawintc = 5

abbrev pub reg_pl081_dmacrawinterr : ℕ
reg_pl081_dmacrawinterr = 6

abbrev pub reg_pl081_dmacenbldchns : ℕ
reg_pl081_dmacenbldchns = 7

abbrev pub reg_pl081_dmacconfig : ℕ
reg_pl081_dmacconfig = 12

abbrev pub reg_pl081_dmacc0srcaddr : ℕ
reg_pl081_dmacc0srcaddr = 64

abbrev pub reg_pl081_dmacc0destaddr : ℕ
reg_pl081_dmacc0destaddr = 65

abbrev pub reg_pl081_dmacc0llireg : ℕ
reg_pl081_dmacc0llireg = 66

abbrev pub reg_pl081_dmacc0control : ℕ
reg_pl081_dmacc0control = 67

abbrev pub reg_pl081_dmacc0config : ℕ
reg_pl081_dmacc0config = 68

abbrev pub reg_pl081_dmacc1srcaddr : ℕ
reg_pl081_dmacc1srcaddr = 72

abbrev pub reg_pl081_dmacc1destaddr : ℕ
reg_pl081_dmacc1destaddr = 73

abbrev pub reg_pl081_dmacc1llireg : ℕ
reg_pl081_dmacc1llireg = 74

abbrev pub reg_pl081_dmacc1control : ℕ
reg_pl081_dmacc1control = 75

abbrev pub reg_pl081_dmacc1config : ℕ
reg_pl081_dmacc1config = 76

abbrev pub reg_pl081_dmacperiphid0 : ℕ
reg_pl081_dmacperiphid0 = 1016

abbrev pub reg_pl081_dmacperiphid1 : ℕ
reg_pl081_dmacperiphid1 = 1017

abbrev pub reg_pl081_dmacperiphid2 : ℕ
reg_pl081_dmacperiphid2 = 1018

abbrev pub reg_pl081_dmacperiphid3 : ℕ
reg_pl081_dmacperiphid3 = 1019

abbrev pub reg_pl081_dmacpcellid0 : ℕ
reg_pl081_dmacpcellid0 = 1020

abbrev pub reg_pl081_dmacpcellid1 : ℕ
reg_pl081_dmacpcellid1 = 1021

abbrev pub reg_pl081_dmacpcellid2 : ℕ
reg_pl081_dmacpcellid2 = 1022

abbrev pub reg_pl081_dmacpcellid3 : ℕ
reg_pl081_dmacpcellid3 = 1023

abbrev pub reg_pl081_count : ℕ
reg_pl081_count = 1024
