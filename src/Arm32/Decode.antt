-- ===== src/Arm32/Decode.antt =====
-- The decoder of src/tlm_blocks/Cpu/Arm/Arm32.h: the choice of the decoding functions.
use open_socemu.Base.{◌+◌, true, not, ◌==◌, if◌then◌else◌, shr, nonzero, ok, ◌>>=◌}
use open_socemu.Arm32.{Arch, Arm32, reg_pc}
use open_socemu.Arm32.Psr.{test_cc}
use open_socemu.Arm32.Exec.{Handler, set_pc}
use open_socemu.Arm32.Unconditional.{Decoded, decode_unconditional}
use open_socemu.Arm32.Conditional.{decode_conditional}

unfoldable pub decode_arm : Arch → Arm32 → Handler → Decoded
decode_arm arch s h =
    let cond = shr s.insn 28 in
    if cond == 0xf then decode_unconditional arch s h else (do
      passed ← (if not (cond == 0xe) then test_cc cond s else ok true)
      if passed then decode_conditional arch s h else ok (s, h))

unfoldable pub decode_thumb : Arm32 → Handler → Decoded
decode_thumb s h = ok (set_pc (s.regs reg_pc + 2) s, h)

unfoldable pub decode_insn : Arch → Arm32 → Handler → Decoded
decode_insn arch s h = if nonzero s.tf then decode_thumb s h else decode_arm arch s h
