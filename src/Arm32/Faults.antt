-- ===== src/Arm32/Faults.antt =====
-- Where the simulator stops: writes of mode bits, and instructions that leave no handler.
use open_socemu.Base.{
  ℕ, ◌^◌, ◌≡◌, ◌≢◌, refl, sym, ap, ◌∙◌, Bool, true, false, not, ◌&&◌, ◌||◌, ◌==◌, ◌⊎◌, arith,
  if◌then◌else◌, Bool-cases, inl, inr, if_both, nonzero, bit_and, bit_not, bit_xor, shr, Result, ok,
  fault, assertion, undefined, Ensures, Ensures-ok, Ensures-after, ◌>>=◌,
}
use mathlib.Core.Bool.{xor}
use open_socemu.Base.Bits.{test_bit, test_bit-bit_and, test_bit-zero, eq_of_bits}
use open_socemu.Base.Xor.{test_bit-bit_xor}
use open_socemu.Arm32.{Arch, Arm32, cpsr_m, cpsr_cached, raise_illegal}
use open_socemu.Arm32.Psr.{test_cc, set_cpsr, set_flags, merge, switch_mode}
use open_socemu.Arm32.Exec.{Memory, null, illegalop, Handler, exec_insn}
use open_socemu.Arm32.Unconditional.{Decoded, matches, unsupported}
use open_socemu.Arm32.Decode.{decode_arm}
use open_socemu.Arm32.Conditional.{
  decode_conditional, decode_misc, decode_immediate, decode_status, decode_multiply, write_psr,
}

xor-masked : (r v m c : Bool) → (r && c) ≡ false → ((xor r v && m) && c) ≡ ((v && m) && c)
unfolding xor
xor-masked true v m c e = ground arith
xor-masked false true m c e = refl
xor-masked false false m c e = refl

masked_twice :
    (x m c i : ℕ)
    → test_bit (bit_and (bit_and x m) c) i ≡ ((test_bit x i && test_bit m i) && test_bit c i)
masked_twice x m c i =
    test_bit-bit_and (bit_and x m) c i ∙ ap (λ b. b && test_bit c i) (test_bit-bit_and x m i)

-- The bits that a write would change among the mode bits, when CPSR keeps none of them itself.
changed-mode :
    (raw val mask : ℕ)
    → bit_and raw cpsr_m ≡ 0
    → bit_and (bit_and (bit_xor raw val) mask) cpsr_m ≡ bit_and (bit_and val mask) cpsr_m
changed-mode raw val mask h = eq_of_bits _ _ λ i.
    let none_kept : (test_bit raw i && test_bit cpsr_m i) ≡ false =
      sym (test_bit-bit_and raw cpsr_m i) ∙ ap (λ y. test_bit y i) h ∙ test_bit-zero i in
    masked_twice (bit_xor raw val) mask cpsr_m i
    ∙ ap (λ b. (b && test_bit mask i) && test_bit cpsr_m i) (test_bit-bit_xor raw val i)
    ∙ xor-masked (test_bit raw i) (test_bit val i) (test_bit mask i) (test_bit cpsr_m i) none_kept
    ∙ sym (masked_twice val mask cpsr_m i)

-- CPSR keeps no mode bit beside the mode flag, so that a write under a mask ends in the assertion of
-- the missing mode switch exactly when the value has a mode bit under the mask, even one of the
-- current mode; otherwise it sets the flags, and the other bits of CPSR by the mask.
pub set_cpsr-outcome :
    (val mask : ℕ) (s : Arm32)
    → bit_and s.raw_cpsr cpsr_m ≡ 0
    → set_cpsr val mask s ≡ (
        if nonzero (bit_and (bit_and val mask) cpsr_m)
        then fault assertion
        else ok (record (set_flags val mask s) {
          raw_cpsr = merge s.raw_cpsr val (bit_and mask (bit_not cpsr_cached));
        }))
unfolding set_cpsr set_flags switch_mode
set_cpsr-outcome val mask s h =
    rw (changed-mode s.raw_cpsr val mask h)
      (elim (Bool-cases (nonzero (bit_and (bit_and val mask) cpsr_m))) [
        | inl e ↦ rw e refl
        | inr e ↦ rw e refl
      ])

-- The handler was not filled, or is that of an illegal instruction.
abbrev IsEmpty : Handler → Type 0
IsEmpty h = (h.fn ≡ null) ⊎ (h.fn ≡ illegalop)

module _ (arch : Arch) (h : Handler) (empty : h.fn ≡ null) where
  abbrev Left : Decoded → Type 0
  Left = Ensures (λ th. IsEmpty th.1)

  after_state : (m : Result Arm32) → Left (m >>= (λ t. ok (t, h)))
  after_state (ok t) = inl empty
  after_state (fault e) = tt

  needs-Left :
      (feature : Bool) (s : Arm32) (rest : Decoded)
      → Left rest
      → Left (if feature then rest else unsupported s h)
  unfolding unsupported
  needs-Left feature s rest k = if_both Left feature (λ _. k) (λ _. inr refl)

  decode_immediate-Left : (s : Arm32) → Left (decode_immediate arch s h)
  unfolding decode_immediate unsupported
  decode_immediate-Left s =
      if_both Left (bit_and s.insn (2 ^ 21) == 0) (λ _. inr refl)
        λ _.
          if_both Left (not (bit_and (shr s.insn 12) 0xf == 0xf)) (λ _. inl empty)
            λ _.
              if_both Left (bit_and (shr s.insn 16) 0xf == 0) (λ _. inl empty)
                λ _. after_state (write_psr arch _ _ _ s)

  decode_misc-Left : (s : Arm32) → Left (decode_misc arch s h)
  unfolding decode_misc
  decode_misc-Left s =
      let here : IsEmpty h = inl empty in
      let op1 = bit_and (shr s.insn 21) 3 in
      let sh = bit_and (shr s.insn 4) 0xf in
      if_both Left (sh == 0) (λ _. after_state (decode_status arch op1 s))
        λ _.
          if_both Left (sh == 1)
            (λ _.
              if_both Left (op1 == 1) (λ _. here)
                λ _. if_both Left (op1 == 3) (λ _. here) (λ _. here))
            λ _.
              if_both Left (sh == 2)
                (λ _. if_both Left (op1 == 1) (λ _. needs-Left arch.has_5tej s _ here) (λ _. here))
                λ _.
                  if_both Left (sh == 3) (λ _. if_both Left (op1 == 1) (λ _. here) (λ _. here))
                    λ _.
                      if_both Left (sh == 5) (λ _. here)
                        λ _.
                          if_both Left (sh == 7) (λ _. tt)
                            λ _.
                              if_both Left (((sh == 8 || sh == 0xa) || sh == 0xc) || sh == 0xe)
                                (λ _. after_state (decode_multiply op1 sh s)) (λ _. here)

  decode_arm-Left : (s : Arm32) → (shr s.insn 28 == 0xf) ≡ false → Left (decode_arm arch s h)
  unfolding decode_arm decode_conditional
  decode_arm-Left s e = rw e (
      Ensures-after (λ th. IsEmpty th.1)
        (if not (shr s.insn 28 == 0xe) then test_cc (shr s.insn 28) s else ok true) _
        λ passed.
          if_both Left passed
            (λ _.
              if_both Left (matches s.insn 0x0f900000 0x03000000) (λ _. decode_immediate-Left s)
                λ _.
                  if_both Left
                    (matches s.insn 0x0f900000 0x01000000
                      && not (matches s.insn 0x00000090 0x00000090))
                    (λ _. decode_misc-Left s) (λ _. inl empty))
            (λ _. inl empty))

exec-empty {ℓ} :
    {σ : Type ℓ} (arch : Arch) (memory : Memory σ) (h : Handler) (s : Arm32) (bus : σ)
    → IsEmpty h
    → (exec_insn arch memory h s bus ≡ fault undefined)
      ⊎ (exec_insn arch memory h s bus ≡ ok (raise_illegal s, bus))
unfolding exec_insn
exec-empty arch memory h s bus (inl e) = rw e (inl refl)
exec-empty arch memory h s bus (inr e) = rw e (inr refl)

-- An ARM instruction with a condition, decoded from a new handler, whether its condition holds or
-- not: where the decoder ends, executing the handler either calls the null pointer that the handler
-- was made with, or raises the exception of an illegal instruction.
pub decode_arm-exec {ℓ} :
    {σ : Type ℓ} (arch : Arch) (memory : Memory σ) (s t : Arm32) (h g : Handler) (bus : σ)
    → h.fn ≡ null
    → shr s.insn 28 ≢ 0xf
    → decode_arm arch s h ≡ ok (t, g)
    → (exec_insn arch memory g t bus ≡ fault undefined)
      ⊎ (exec_insn arch memory g t bus ≡ ok (raise_illegal t, bus))
decode_arm-exec arch memory s t h g bus empty cond e =
    exec-empty arch memory g t bus
      (Ensures-ok (λ th. IsEmpty th.1) (decode_arm-Left arch h empty s (ground arith)) e)
