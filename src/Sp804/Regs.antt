-- ===== src/Sp804/Regs.antt =====
-- The register indices of src/tlm_blocks/Arm/PrimeCells/Sp804/Sp804.h that its handlers name.
use open_socemu.Base.{ℕ}

abbrev pub reg_sp804_timer1_load : ℕ
reg_sp804_timer1_load = 0

abbrev pub reg_sp804_timer1_value : ℕ
reg_sp804_timer1_value = 1

abbrev pub reg_sp804_timer1_control : ℕ
reg_sp804_timer1_control = 2

abbrev pub reg_sp804_timer1_intclr : ℕ
reg_sp804_timer1_intclr = 3

abbrev pub reg_sp804_timer1_ris : ℕ
reg_sp804_timer1_ris = 4

abbrev pub reg_sp804_timer1_mis : ℕ
reg_sp804_timer1_mis = 5

abbrev pub reg_sp804_timer1_bgload : ℕ
reg_sp804_timer1_bgload = 6

abbrev pub reg_sp804_timer2_load : ℕ
reg_sp804_timer2_load = 8

abbrev pub reg_sp804_timer2_value : ℕ
reg_sp804_timer2_value = 9

abbrev pub reg_sp804_timer2_control : ℕ
reg_sp804_timer2_control = 10

abbrev pub reg_sp804_timer2_intclr : ℕ
reg_sp804_timer2_intclr = 11

abbrev pub reg_sp804_timer2_ris : ℕ
reg_sp804_timer2_ris = 12

abbrev pub reg_sp804_timer2_mis : ℕ
reg_sp804_timer2_mis = 13

abbrev pub reg_sp804_timer2_bgload : ℕ
reg_sp804_timer2_bgload = 14

abbrev pub reg_sp804_timer_itop : ℕ
reg_sp804_timer_itop = 961

abbrev pub reg_sp804_periphid0 : ℕ
reg_sp804_periphid0 = 1016

abbrev pub reg_sp804_periphid1 : ℕ
reg_sp804_periphid1 = 1017

abbrev pub reg_sp804_periphid2 : ℕ
reg_sp804_periphid2 = 1018

abbrev pub reg_sp804_periphid3 : ℕ
reg_sp804_periphid3 = 1019

abbrev pub reg_sp804_pcellid0 : ℕ
reg_sp804_pcellid0 = 1020

abbrev pub reg_sp804_pcellid1 : ℕ
reg_sp804_pcellid1 = 1021

abbrev pub reg_sp804_pcellid2 : ℕ
reg_sp804_pcellid2 = 1022

abbrev pub reg_sp804_pcellid3 : ℕ
reg_sp804_pcellid3 = 1023

abbrev pub reg_sp804_count : ℕ
reg_sp804_count = 1024
