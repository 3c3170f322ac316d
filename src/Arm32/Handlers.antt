-- ===== src/Arm32/Handlers.antt =====
-- What the execution of a decoded instruction of the simulator cannot change in user mode.
use open_socemu.Base.{ℕ, ◌≡◌, ◌∙◌, arith, Result, ok, fault, nonzero, Ensures, Ensures-ok, if_both}
use open_socemu.Arm32.{Arch, Arm32, mode_usr, reg_lr, reg_pc}
use open_socemu.Arm32.Exec.{
  Memory, Fn, null, illegalop, nop_arm, pld_arm, setend_arm, srs_arm, rfe_arm, blx_arm, cps_arm,
  Handler, exec_insn, blx, beside, cps, srs, rfe, setend, advanced,
}
use open_socemu.Arm32.Guarded.{
  IsGuarded, IsGuarded-same, is_user-Ensures, raise_illegal-IsGuarded, set_reg-IsGuarded,
  set_pc-IsGuarded, bx-IsGuarded,
}

IsGuarded-trans : (s t u : Arm32) → IsGuarded s t → IsGuarded t u → IsGuarded s u
IsGuarded-trans s t u h k = record {
  mf = k.mf ∙ h.mf;
  itf = k.itf ∙ h.itf;
  raw_cpsr = k.raw_cpsr ∙ h.raw_cpsr;
  spsr = k.spsr ∙ h.spsr;
  banked_regs = k.banked_regs ∙ h.banked_regs;
}

blx-IsGuarded : (params : ℕ → ℕ) (s : Arm32) → IsGuarded s (blx params s)
unfolding blx
blx-IsGuarded params s =
    bx-IsGuarded s _ _
      (set_reg-IsGuarded s s reg_lr (s.regs reg_pc) (omega arith) (IsGuarded-same s))

setend-IsGuarded : (params : ℕ → ℕ) (s : Arm32) → Ensures (IsGuarded s) (setend params s)
unfolding setend
setend-IsGuarded params s =
    if_both (Ensures (IsGuarded s)) (nonzero (params 0)) (λ _. tt) (λ _. IsGuarded-same s)

cps-IsGuarded :
    (arch : Arch) (params : ℕ → ℕ) (s : Arm32)
    → s.mf ≡ mode_usr
    → Ensures (IsGuarded s) (cps arch params s)
unfolding cps
cps-IsGuarded arch params s user = is_user-Ensures (IsGuarded s) arch s _ user (IsGuarded-same s)

-- After the program counter was moved on.
advanced-IsGuarded : (s : Arm32) → IsGuarded s (advanced s)
advanced-IsGuarded s = set_pc-IsGuarded s s _ (IsGuarded-same s)

module _ {ℓ} {σ : Type ℓ} (arch : Arch) (memory : Memory σ) (bus : σ) where
  -- The state of a result that has the bus beside it.
  abbrev Kept : Arm32 → Result (Arm32 × σ) → Type 0
  Kept s = Ensures (λ tb. IsGuarded s tb.0)

  after_advanced : (s : Arm32) (m : Result (Arm32 × σ)) → Kept (advanced s) m → Kept s m
  after_advanced s (ok tb) k = IsGuarded-trans s (advanced s) tb.0 (advanced-IsGuarded s) k
  after_advanced s (fault e) k = tt

  beside-Kept : (s : Arm32) (m : Result Arm32) → Ensures (IsGuarded s) m → Kept s (beside bus m)
  beside-Kept s (ok t) k = k
  beside-Kept s (fault e) k = tt

  srs-Kept : (params : ℕ → ℕ) (s : Arm32) → s.mf ≡ mode_usr → Kept s (srs arch memory params s bus)
  unfolding srs
  srs-Kept params s user =
      is_user-Ensures (λ tb. IsGuarded s tb.0) arch s _ user (raise_illegal-IsGuarded s)

  rfe-Kept : (params : ℕ → ℕ) (s : Arm32) → s.mf ≡ mode_usr → Kept s (rfe arch memory params s bus)
  unfolding rfe
  rfe-Kept params s user =
      is_user-Ensures (λ tb. IsGuarded s tb.0) arch s _ user (raise_illegal-IsGuarded s)

  exec_fn-Kept :
      (fn : Fn) (params : ℕ → ℕ) (s : Arm32)
      → s.mf ≡ mode_usr
      → Kept s (exec_insn arch memory (record { fn = fn; params = params }) s bus)
  unfolding exec_insn
  exec_fn-Kept null params s user = tt
  exec_fn-Kept illegalop params s user = raise_illegal-IsGuarded s
  exec_fn-Kept nop_arm params s user = advanced-IsGuarded s
  exec_fn-Kept pld_arm params s user = advanced-IsGuarded s
  exec_fn-Kept setend_arm params s user =
      after_advanced s _ (beside-Kept (advanced s) _ (setend-IsGuarded params (advanced s)))
  exec_fn-Kept srs_arm params s user =
      after_advanced s _ (srs-Kept params (advanced s) ((advanced-IsGuarded s).mf ∙ user))
  exec_fn-Kept rfe_arm params s user =
      after_advanced s _ (rfe-Kept params (advanced s) ((advanced-IsGuarded s).mf ∙ user))
  exec_fn-Kept blx_arm params s user =
      IsGuarded-trans s (advanced s) _ (advanced-IsGuarded s) (blx-IsGuarded params (advanced s))
  exec_fn-Kept cps_arm params s user = after_advanced s _ (
      beside-Kept (advanced s) _
        (cps-IsGuarded arch params (advanced s) ((advanced-IsGuarded s).mf ∙ user)))

  -- In user mode, whatever the handler, its parameters, the architecture and the memory are: its
  -- execution, where it ends, leaves as they were the mode, the IT state, the masks of
  -- exceptions and every other bit of CPSR but the user's flags (N, Z, C, V, Q and GE) and the Thumb
  -- bit, which a branch may set, and the SPSR and the banked registers.
  pub exec_insn-IsGuarded :
      (h : Handler) (s t : Arm32) (after : σ)
      → s.mf ≡ mode_usr
      → exec_insn arch memory h s bus ≡ ok (t, after)
      → IsGuarded s t
  exec_insn-IsGuarded h s t after user e =
      Ensures-ok (λ tb. IsGuarded s tb.0) (exec_fn-Kept h.fn h.params s user) e
