-- ===== src/Arm32/Guarded.antt =====
-- The state that user mode cannot change: what the helpers of the instructions keep of it.
use open_socemu.Base.{
  ℕ, ◌%◌, ◌^◌, ◌<◌, ◌≡◌, refl, sym, ap, ◌∙◌, Bool, true, false, ◌==◌, ◌⊎◌, arith, Bool-cases, inl,
  inr, if_both, nonzero, bit_and, bit_not, bit_xor, Result, ok, fault, assertion, Ensures, ◌>>=◌,
}
use open_socemu.Base.Bits.{test_bit, test_bit-bit_and, test_bit-bit_or, test_bit-zero, eq_of_bits}
use open_socemu.Base.Masks.{bit_and-lt_right, bit_and_low, zero_of_bits}
use open_socemu.Arm32.{
  Arch, Arm32, is_user, raise_illegal, set_reg, mode_usr, reg_spsr, cpsr_user, cpsr_cached, cpsr_m,
  cpsr_it_1_0, cpsr_it_7_2,
}
use open_socemu.Arm32.Psr.{msr_mask, defined_mask, set_cpsr, set_psr, set_flags, merge}
use open_socemu.Arm32.Exec.{bx, set_pc}
use open_socemu.Arm32.Conditional.{decode_status, write_psr}

-- The second state has the mode and the IT state of the first, the bits of CPSR that are kept in
-- `raw_cpsr`, the SPSR and the banked registers. The flags N, Z, C, V, Q and GE and the Thumb bit, which
-- BX and BLX set in user mode too, may differ.
pub record IsGuarded (s t : Arm32) : Type 0 where
  pub mf : t.mf ≡ s.mf
  pub itf : t.itf ≡ s.itf
  pub raw_cpsr : t.raw_cpsr ≡ s.raw_cpsr
  pub spsr : t.regs reg_spsr ≡ s.regs reg_spsr
  pub banked_regs : t.banked_regs ≡ s.banked_regs

pub IsGuarded-same : (s : Arm32) → IsGuarded s s
IsGuarded-same s = record {
  mf = refl;
  itf = refl;
  raw_cpsr = refl;
  spsr = refl;
  banked_regs = refl;
}

-- In user mode the test ends with true, or fails for the M profile.
pub is_user-outcome :
    (arch : Arch) (s : Arm32)
    → s.mf ≡ mode_usr
    → (is_user arch s ≡ ok true) ⊎ (is_user arch s ≡ fault assertion)
unfolding is_user
is_user-outcome arch s user = elim (Bool-cases arch.has_m) [
  | inl m ↦ rw m (inr refl)
  | inr m ↦ rw (m, user) (inl refl)
]

pub is_user-Ensures {ℓ κ} :
    {A : Type ℓ} (P : A → Type κ) (arch : Arch) (s : Arm32) (f : Bool → Result A)
    → s.mf ≡ mode_usr
    → Ensures P (f true)
    → Ensures P (is_user arch s >>= f)
is_user-Ensures P arch s f user h = elim (is_user-outcome arch s user) [
  | inl e ↦ rw e h
  | inr e ↦ rw e tt
]

bit_and-disjoint : (x a b c : ℕ) → bit_and b c ≡ 0 → bit_and (bit_and x (bit_and a b)) c ≡ 0
bit_and-disjoint x a b c h = zero_of_bits _ λ i. ground (
  arith,
  test_bit-bit_and (bit_and x (bit_and a b)) c i,
  test_bit-bit_and x (bit_and a b) i,
  test_bit-bit_and a b i,
  sym (test_bit-bit_and b c i) ∙ ap (λ y. test_bit y i) h ∙ test_bit-zero i,
)

merge-zero : (raw val : ℕ) → raw < 2 ^ 32 → merge raw val 0 ≡ raw
merge-zero raw val h = eq_of_bits _ raw λ i. ground (
  arith,
  test_bit-bit_or (bit_and raw (bit_not 0)) (bit_and val 0) i,
  ap (λ y. test_bit y i) (bit_and_low 32 raw ∙ whole),
  test_bit-bit_and val 0 i,
  test_bit-zero i,
)
  where
    whole : raw % 2 ^ 32 ≡ raw
    whole = omega arith

user-disjoint : (m c : ℕ) → bit_and cpsr_user c ≡ 0 → bit_and (bit_and m cpsr_user) c ≡ 0
user-disjoint m c h = zero_of_bits _ λ i. ground (
  arith,
  test_bit-bit_and (bit_and m cpsr_user) c i,
  test_bit-bit_and m cpsr_user i,
  sym (test_bit-bit_and cpsr_user c i) ∙ ap (λ y. test_bit y i) h ∙ test_bit-zero i,
)

-- A mask of user bits holds no mode bit, and no bit that CPSR keeps beside the cached flags.
set_cpsr-user :
    (val m : ℕ) (s : Arm32)
    → s.raw_cpsr < 2 ^ 32
    → set_cpsr val (bit_and m cpsr_user) s ≡ ok (set_flags val (bit_and m cpsr_user) s)
unfolding set_cpsr set_flags
set_cpsr-user val m s h =
    rw
      (
        bit_and-disjoint (bit_xor s.raw_cpsr val) m cpsr_user cpsr_m refl,
        user-disjoint m (bit_not cpsr_cached) refl,
      )
      (ap (λ r. ok (record (set_flags val (bit_and m cpsr_user) s) { raw_cpsr = r }))
        (merge-zero s.raw_cpsr val h))

set_flags-IsGuarded : (val m : ℕ) (s : Arm32) → IsGuarded s (set_flags val (bit_and m cpsr_user) s)
unfolding set_flags
set_flags-IsGuarded val m s = record {
  mf = refl;
  itf = rw (user-disjoint m cpsr_it_1_0 refl, user-disjoint m cpsr_it_7_2 refl) refl;
  raw_cpsr = refl;
  spsr = refl;
  banked_regs = refl;
}

pub raise_illegal-IsGuarded : (s : Arm32) → IsGuarded s (raise_illegal s)
unfolding raise_illegal
raise_illegal-IsGuarded s = record {
  mf = refl;
  itf = refl;
  raw_cpsr = refl;
  spsr = refl;
  banked_regs = refl;
}

-- A register below the SPSR.
pub set_reg-IsGuarded :
    (s t : Arm32) (i value : ℕ) → i < 16 → IsGuarded s t → IsGuarded s (set_reg i value t)
set_reg-IsGuarded s t i value h k =
    let apart : (reg_spsr == i) ≡ false = ground arith in
    record {
      mf = k.mf;
      itf = k.itf;
      raw_cpsr = k.raw_cpsr;
      spsr = rw apart k.spsr;
      banked_regs = k.banked_regs;
    }

pub nibble : (x : ℕ) → bit_and x 0xf < 16
nibble x = bit_and-lt_right 4 x 0xf (omega arith)

pub set_pc-IsGuarded : (s t : Arm32) (pc : ℕ) → IsGuarded s t → IsGuarded s (set_pc pc t)
unfolding set_pc
set_pc-IsGuarded s t pc h = set_reg-IsGuarded s t 15 _ (omega arith) h

pub bx-IsGuarded : (s t : Arm32) (addr : ℕ) → IsGuarded s t → IsGuarded s (bx addr t)
unfolding bx
bx-IsGuarded s t addr h =
    set_pc-IsGuarded s (record t { tf = bit_and addr 1 }) _
      (record {
        mf = h.mf;
        itf = h.itf;
        raw_cpsr = h.raw_cpsr;
        spsr = h.spsr;
        banked_regs = h.banked_regs;
      })

-- MSR in user mode.
pub write_psr-IsGuarded :
    (arch : Arch) (flags : ℕ) (spsr : Bool) (val : ℕ) (s : Arm32)
    → s.mf ≡ mode_usr
    → s.raw_cpsr < 2 ^ 32
    → Ensures (IsGuarded s) (write_psr arch flags spsr val s)
unfolding write_psr msr_mask set_psr
write_psr-IsGuarded arch flags true val s user word = elim (is_user-outcome arch s user) [
  | inl e ↦ rw e (raise_illegal-IsGuarded s)
  | inr e ↦ rw e tt
]
write_psr-IsGuarded arch flags false val s user word = elim (is_user-outcome arch s user) [
  | inl e ↦
      rw (e, set_cpsr-user val (defined_mask arch flags false) s word)
        (set_flags-IsGuarded val (defined_mask arch flags false) s)
  | inr e ↦ rw e tt
]

pub decode_status-IsGuarded :
    (arch : Arch) (op1 : ℕ) (s : Arm32)
    → s.mf ≡ mode_usr
    → s.raw_cpsr < 2 ^ 32
    → Ensures (IsGuarded s) (decode_status arch op1 s)
unfolding decode_status
decode_status-IsGuarded arch op1 s user word =
    let P = Ensures (IsGuarded s) in
    if_both P (nonzero (bit_and op1 1)) (λ _. write_psr-IsGuarded arch _ _ _ s user word)
      λ _.
        if_both P (nonzero (bit_and op1 2))
          (λ _. is_user-Ensures (IsGuarded s) arch s _ user (raise_illegal-IsGuarded s))
          λ _. set_reg-IsGuarded s s _ _ (nibble _) (IsGuarded-same s)
