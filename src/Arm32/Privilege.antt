-- ===== src/Arm32/Privilege.antt =====
-- What an instruction of the simulator cannot change in user mode.
use open_socemu.Base.{
  ℕ, ◌^◌, ◌<◌, ◌≡◌, refl, Bool, true, not, ◌&&◌, ◌||◌, ◌==◌, arith, if◌then◌else◌, if_both, nonzero,
  bit_and, shr, Result, ok, fault, assertion, Ensures, Ensures-ok, Ensures-bind, Ensures-after,
  ◌>>=◌,
}
use open_socemu.Arm32.{Arch, Arm32, mode_usr, reg_lr}
use open_socemu.Arm32.Alu.{sra}
use open_socemu.Arm32.Psr.{test_cc}
use open_socemu.Arm32.Exec.{Handler}
use open_socemu.Arm32.Unconditional.{
  Decoded, matches, set_param, unsupported, decode_unconditional, decode_barrier, decode_multiple,
  decode_blx, decode_cps, cps_operands,
}
use open_socemu.Arm32.Decode.{decode_insn, decode_arm, decode_thumb}
use open_socemu.Arm32.Conditional.{
  decode_conditional, decode_misc, nop_hint, decode_immediate, decode_saturating, decode_multiply,
  accumulate, multiply, half_operand,
}
use open_socemu.Arm32.Guarded.{
  IsGuarded, IsGuarded-same, raise_illegal-IsGuarded, set_reg-IsGuarded, nibble, set_pc-IsGuarded,
  bx-IsGuarded, write_psr-IsGuarded, decode_status-IsGuarded,
}

-- The state of a decoded instruction.
abbrev Kept : Arm32 → Decoded → Type 0
Kept s = Ensures (λ th. IsGuarded s th.0)

decode_unconditional-Kept :
    (arch : Arch) (s : Arm32) (h : Handler) → Kept s (decode_unconditional arch s h)
unfolding decode_unconditional decode_barrier decode_multiple decode_blx decode_cps set_param
    unsupported
decode_unconditional-Kept arch s h =
    let P = Kept s in
    let same = IsGuarded-same s in
    let insn = s.insn in
    let featured : (b : Bool) → P (if b then fault assertion else unsupported s h) =
      λ b. if_both P b (λ _. tt) (λ _. same) in
    if_both P (bit_and (shr insn 25) 7 == 1) (λ _. featured arch.has_neon)
      λ _.
        if_both P (matches insn 0x0f100000 0x04000000) (λ _. featured arch.has_neon)
          λ _.
            if_both P (matches insn 0x0d70f000 0x0550f000) (λ _. same)
              λ _.
                if_both P (matches insn 0x0ffffdff 0x01010000)
                  (λ _. if_both P arch.has_6 (λ _. same) (λ _. same))
                  λ _.
                    if_both P (matches insn 0x0fffff00 0x057ff000)
                      (λ _.
                        if_both P (bit_and (shr insn 4) 0xf == 1) (λ _. featured arch.has_6k)
                          λ _.
                            if_both P
                              ((bit_and (shr insn 4) 0xf == 4 || bit_and (shr insn 4) 0xf == 5)
                                || bit_and (shr insn 4) 0xf == 6)
                              (λ _. featured arch.has_7) (λ _. same))
                      λ _.
                        if_both P (matches insn 0x0e5fffe0 0x084d0500)
                          (λ _. if_both P arch.has_6 (λ _. tt) (λ _. same))
                          λ _.
                            if_both P (matches insn 0x0e50ffe0 0x08100a00)
                              (λ _. if_both P arch.has_6 (λ _. tt) (λ _. same))
                              λ _.
                                if_both P (matches insn 0x0e000000 0x0a000000) (λ _. tt)
                                  λ _.
                                    if_both P (matches insn 0x0e000f00 0x0c000100)
                                      (λ _. featured arch.has_iwmmxt)
                                      λ _.
                                        if_both P (matches insn 0x0fe00000 0x0c400000) (λ _. tt)
                                          λ _.
                                            if_both P (matches insn 0x0f000010 0x0e000010) (λ _. tt)
                                              λ _.
                                                if_both P (matches insn 0x0ff10020 0x01000000)
                                                  (λ _.
                                                    if_both P (nonzero (cps_operands insn).0)
                                                      (λ _. tt) (λ _. same))
                                                  (λ _. same)

flag_set : (s : Arm32) (q : ℕ) → IsGuarded s (record s { qf = q })
flag_set s q = record { mf = refl; itf = refl; raw_cpsr = refl; spsr = refl; banked_regs = refl }

accumulate-IsGuarded :
    (adding : Bool) (tmp rn rd : ℕ) (s : Arm32)
    → rd < 16
    → IsGuarded s (accumulate adding tmp rn rd s)
unfolding accumulate
accumulate-IsGuarded adding tmp rn rd s h = set_reg-IsGuarded s _ rd _ h (flag_set s _)

decode_multiply-IsGuarded :
    (op1 sh : ℕ) (s : Arm32) → Ensures (IsGuarded s) (decode_multiply op1 sh s)
unfolding decode_multiply
decode_multiply-IsGuarded op1 sh s =
    let P = IsGuarded s in
    let rm = s.regs (bit_and s.insn 0xf) in
    let rs = s.regs (bit_and (shr s.insn 8) 0xf) in
    let right = half_operand (nonzero (bit_and sh 4)) rs in
    let left = half_operand (nonzero (bit_and sh 2)) rm in
    if_both (Ensures P) (op1 == 1)
      (λ _.
        Ensures-after P (multiply rm right) _
          λ product. accumulate-IsGuarded _ (sra product 16) _ _ s (nibble _))
      λ _. Ensures-after P (multiply left right) _ λ product.
        if_both (Ensures P) (op1 == 2)
          (λ _.
            set_reg-IsGuarded s _ _ _ (nibble _)
              (set_reg-IsGuarded s s _ _ (nibble _) (IsGuarded-same s)))
          λ _. accumulate-IsGuarded _ product _ _ s (nibble _)

decode_saturating-IsGuarded : (op1 : ℕ) (s : Arm32) → IsGuarded s (decode_saturating op1 s)
unfolding decode_saturating
decode_saturating-IsGuarded op1 s = set_reg-IsGuarded s _ _ _ (nibble _) (flag_set s _)

-- A result of the decoder beside the handler.
beside-Kept :
    (s : Arm32) (h : Handler) (m : Result Arm32)
    → Ensures (IsGuarded s) m
    → Kept s (m >>= (λ t. ok (t, h)))
beside-Kept s h m k = Ensures-bind (IsGuarded s) (λ th. IsGuarded s th.0) m _ k (λ t g. g)

decode_immediate-Kept :
    (arch : Arch) (s : Arm32) (h : Handler)
    → s.mf ≡ mode_usr
    → s.raw_cpsr < 2 ^ 32
    → Kept s (decode_immediate arch s h)
unfolding decode_immediate nop_hint unsupported
decode_immediate-Kept arch s h user word =
    let P = Kept s in
    if_both P (bit_and s.insn (2 ^ 21) == 0) (λ _. IsGuarded-same s)
      λ _.
        if_both P (not (bit_and (shr s.insn 12) 0xf == 0xf)) (λ _. raise_illegal-IsGuarded s)
          λ _.
            if_both P (bit_and (shr s.insn 16) 0xf == 0) (λ _. raise_illegal-IsGuarded s)
              λ _. beside-Kept s h _ (write_psr-IsGuarded arch _ _ _ s user word)

decode_misc-Kept :
    (arch : Arch) (s : Arm32) (h : Handler)
    → s.mf ≡ mode_usr
    → s.raw_cpsr < 2 ^ 32
    → Kept s (decode_misc arch s h)
unfolding decode_misc unsupported
decode_misc-Kept arch s h user word =
    let P = Kept s in
    let same = IsGuarded-same s in
    let illegal = raise_illegal-IsGuarded s in
    let op1 = bit_and (shr s.insn 21) 3 in
    let sh = bit_and (shr s.insn 4) 0xf in
    if_both P (sh == 0) (λ _. beside-Kept s h _ (decode_status-IsGuarded arch op1 s user word))
      λ _.
        if_both P (sh == 1)
          (λ _.
            if_both P (op1 == 1) (λ _. bx-IsGuarded s s _ same)
              λ _.
                if_both P (op1 == 3) (λ _. set_reg-IsGuarded s s _ _ (nibble _) same)
                  (λ _. illegal))
          λ _.
            if_both P (sh == 2)
              (λ _.
                if_both P (op1 == 1)
                  (λ _. if_both P arch.has_5tej (λ _. bx-IsGuarded s s _ same) (λ _. same))
                  (λ _. illegal))
              λ _.
                if_both P (sh == 3)
                  (λ _.
                    if_both P (op1 == 1)
                      (λ _. bx-IsGuarded s _ _ (set_reg-IsGuarded s s reg_lr _ (omega arith) same))
                      (λ _. illegal))
                  λ _.
                    if_both P (sh == 5) (λ _. decode_saturating-IsGuarded op1 s)
                      λ _.
                        if_both P (sh == 7) (λ _. tt)
                          λ _.
                            if_both P (((sh == 8 || sh == 0xa) || sh == 0xc) || sh == 0xe)
                              (λ _. beside-Kept s h _ (decode_multiply-IsGuarded op1 sh s))
                              (λ _. illegal)

decode_arm-Kept :
    (arch : Arch) (s : Arm32) (h : Handler)
    → s.mf ≡ mode_usr
    → s.raw_cpsr < 2 ^ 32
    → Kept s (decode_arm arch s h)
unfolding decode_arm decode_conditional
decode_arm-Kept arch s h user word =
    let P = Kept s in
    if_both P (shr s.insn 28 == 0xf) (λ _. decode_unconditional-Kept arch s h)
      λ _.
        Ensures-after (λ th. IsGuarded s th.0)
          (if not (shr s.insn 28 == 0xe) then test_cc (shr s.insn 28) s else ok true) _
          λ passed.
            if_both P passed
              (λ _.
                if_both P (matches s.insn 0x0f900000 0x03000000)
                  (λ _. decode_immediate-Kept arch s h user word)
                  λ _.
                    if_both P
                      (matches s.insn 0x0f900000 0x01000000
                        && not (matches s.insn 0x00000090 0x00000090))
                      (λ _. decode_misc-Kept arch s h user word) (λ _. IsGuarded-same s))
              (λ _. IsGuarded-same s)

-- In user mode, whatever the instruction word, the state of Thumb and the architecture are: decoding
-- it, where the decoder ends, leaves as they were the mode, the IT state, the masks of
-- exceptions and every other bit of CPSR but the user's flags (N, Z, C, V, Q and GE) and the Thumb bit,
-- which a branch may set, and the SPSR and the banked registers.
pub decode_insn-IsGuarded :
    (arch : Arch) (s t : Arm32) (h g : Handler)
    → s.mf ≡ mode_usr
    → s.raw_cpsr < 2 ^ 32
    → decode_insn arch s h ≡ ok (t, g)
    → IsGuarded s t
unfolding decode_insn decode_thumb
decode_insn-IsGuarded arch s t h g user word e =
    Ensures-ok (λ th. IsGuarded s th.0)
      (if_both (Kept s) (nonzero s.tf) (λ _. set_pc-IsGuarded s s _ (IsGuarded-same s))
        λ _. decode_arm-Kept arch s h user word)
      e
