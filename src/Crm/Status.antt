-- ===== src/Crm/Status.antt =====
-- The bits of STATUS under a write, and the external wake-up events among them.
use open_socemu.Base.{
  ℕ, ◌+◌, ◌-◌, ◌/◌, ◌%◌, sym, ◌^◌, ◌<◌, ◌≡◌, refl, ◌∙◌, ap, Bool, not, ◌&&◌, ◌||◌, ◌==◌, leb, ltb,
  bit_and, bit_not, get_field, nonzero, arith, IsWordArray, update-IsWordArray, Ensures, if_both,
}
use open_socemu.Base.Bits.{test_bit, test_bit-bit_and, test_bit-bit_or, test_bit-pow, eq_of_bits}
use open_socemu.Base.Masks.{test_bit-and_not, test_bit-mod, test_bit-ones, bit_and-lt}
use open_socemu.Base.Shifts.{test_bit-shr, test_bit-mul}
use open_socemu.Crm.{write_switch, is_read_only, clear_bits, status_index, ext_wu_evt_getf}

clear_bits-bits : (i : ℕ) → test_bit clear_bits i ≡ (ltb i 8 || i == 9)
clear_bits-bits i = test_bit-bit_or (2 ^ 8 - 1) (2 ^ 9) i ∙ rw (test_bit-ones, test_bit-pow) refl

-- An external wake-up event: the field in the bits 7 to 4 of STATUS is not zero.
abbrev pub wakes : ℕ → Bool
wakes status = nonzero (status / 2 ^ 4 % 2 ^ 4)

mask-bits : (i : ℕ) → test_bit 0xF0 i ≡ (leb 4 i && ltb (i - 4) 4)
mask-bits i = test_bit-mul (2 ^ 4 - 1) 4 i ∙ rw test_bit-ones refl

pub ext_wu_evt-wakes : (reg : ℕ → ℕ) → nonzero (ext_wu_evt_getf reg) ≡ wakes (reg status_index)
unfolding ext_wu_evt_getf get_field
ext_wu_evt-wakes reg = ap nonzero (
    eq_of_bits _ _ λ i.
      test_bit-shr _ 4 i
      ∙ test_bit-bit_and (reg status_index) 0xF0 (i + 4)
      ∙ sym (
          test_bit-mod 4 (reg status_index / 2 ^ 4) i
          ∙ ap (λ b. b && ltb i 4) (test_bit-shr _ 4 i)
          ∙ ap (λ b. test_bit (reg status_index) (i + 4) && b) (ground (arith, mask-bits (i + 4)))))

pub status_written-bits :
    (reg : ℕ → ℕ) (value i : ℕ)
    → IsWordArray reg
    → value < 2 ^ 32
    → test_bit (bit_and (reg status_index) (bit_not (bit_and value clear_bits))) i
      ≡ (test_bit (reg status_index) i && not (test_bit value i && (ltb i 8 || i == 9)))
status_written-bits reg value i w h =
    test_bit-and_not (reg status_index) (bit_and value clear_bits) i (w status_index)
      (bit_and-lt 32 value _ h)
    ∙ rw (test_bit-bit_and, clear_bits-bits) refl

pub write_switch-IsWordArray :
    (reg : ℕ → ℕ) (index value : ℕ)
    → IsWordArray reg
    → value < 2 ^ 32
    → Ensures IsWordArray (write_switch reg index value)
unfolding write_switch
write_switch-IsWordArray reg index value w h =
    let P = Ensures IsWordArray in
    if_both P (is_read_only index) (λ _. tt)
      λ _.
        if_both P (index == status_index)
          (λ _. update-IsWordArray _ _ _ w (bit_and-lt 32 _ _ (w index)))
          (λ _. update-IsWordArray _ _ _ w h)
