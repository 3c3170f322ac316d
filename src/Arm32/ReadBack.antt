-- ===== src/Arm32/ReadBack.antt =====
-- CPSR of the simulator after a masked write: its bits, and the widths of its fields.
use open_socemu.Base.{
  ℕ, ◌+◌, ◌-◌, ◌^◌, ◌<◌, ◌≤◌, ◌≡◌, refl, sym, ap, ◌∙◌, Bool, true, false, not, ◌&&◌, ◌==◌, leb, ltb,
  arith, if◌then◌else◌, Bool-cases, inl, inr, nonzero, bit_and, bit_not, shr, ok, bit_set, Ensures,
  Ensures-ok, if_both,
}
use open_socemu.Base.Bits.{test_bit, test_bit-bit_and, test_bit_of_lt}
use open_socemu.Base.Masks.{bit_set-test_bit, bit_and-lt, zero_of_bits}
use open_socemu.Arm32.{Arm32, cpsr_m, cpsr_ge, cpsr_it_7_2, cpsr_it_1_0, cpsr_nzcv, cpsr_cached}
use open_socemu.Arm32.Psr.{get_cpsr, set_cpsr, set_flags, truth}
use open_socemu.Arm32.Faults.{set_cpsr-outcome}
use open_socemu.Arm32.Status.{cached, IsPsr, cpsr_bit, get_cpsr-bits}
use open_socemu.Arm32.Writes.{
  IsWhole, written, written-IsPsr, one_bit, low_field, it_after-bits, kept_mask, merge-bits,
}

-- A flag of one bit, as a write leaves it.
flag_after :
    (m : Bool) (val p old : ℕ)
    → ((if m then bit_and (shr val p) 1 else old) == 1) ≡ (if m then test_bit val p else (old == 1))
flag_after true val p old = one_bit val p
flag_after false val p old = refl

truth_after :
    (mask val p old : ℕ)
    → ((if nonzero (bit_and mask (2 ^ p)) then truth (nonzero (bit_and val (2 ^ p))) else old) == 1)
      ≡ (if test_bit mask p then test_bit val p else (old == 1))
unfolding bit_set
truth_after mask val p old = rw (bit_set-test_bit mask p, bit_set-test_bit val p) (ground arith)

ge_after :
    (m : Bool) (val old j : ℕ)
    → j < 4
    → test_bit (if m then bit_and (shr val 16) 0xf else old) j
      ≡ (if m then test_bit val (j + 16) else test_bit old j)
ge_after true val old j h = low_field 4 val 16 j ∙ ground arith
ge_after false val old j h = refl

-- The fields that a write leaves.
pub record IsAfter (val mask : ℕ) (s t : Arm32) : Type 0 where
  pub nf : (t.nf == 1) ≡ (if nonzero (bit_and mask cpsr_nzcv) then test_bit val 31 else (s.nf == 1))
  pub zf : (t.zf == 1) ≡ (if nonzero (bit_and mask cpsr_nzcv) then test_bit val 30 else (s.zf == 1))
  pub cf : (t.cf == 1) ≡ (if nonzero (bit_and mask cpsr_nzcv) then test_bit val 29 else (s.cf == 1))
  pub vf : (t.vf == 1) ≡ (if nonzero (bit_and mask cpsr_nzcv) then test_bit val 28 else (s.vf == 1))
  pub qf : (t.qf == 1) ≡ (if test_bit mask 27 then test_bit val 27 else (s.qf == 1))
  pub tf : (t.tf == 1) ≡ (if test_bit mask 5 then test_bit val 5 else (s.tf == 1))
  pub itf :
      (j : ℕ)
      → j < 8
      → test_bit t.itf j ≡ (
          if ltb j 2
          then (if nonzero (bit_and mask cpsr_it_1_0)
              then test_bit val (j + 25)
              else test_bit s.itf j)
          else if nonzero (bit_and mask cpsr_it_7_2)
          then test_bit val (j + 8)
          else test_bit s.itf j)
  pub gef :
      (j : ℕ)
      → j < 4
      → test_bit t.gef j
        ≡ (if nonzero (bit_and mask cpsr_ge) then test_bit val (j + 16) else test_bit s.gef j)
  pub raw_cpsr :
      (i : ℕ)
      → i < 32
      → test_bit t.raw_cpsr i
        ≡ (if test_bit mask i && not (cached i) then test_bit val i else test_bit s.raw_cpsr i)

written-IsAfter :
    (val mask : ℕ) (s : Arm32) → mask < 2 ^ 32 → IsPsr s → IsAfter val mask s (written val mask s)
unfolding set_flags
written-IsAfter val mask s hm h =
    let raw_mask : bit_and mask (bit_not cpsr_cached) < 2 ^ 32 = bit_and-lt 32 mask _ hm in
    record {
      nf = flag_after _ val 31 s.nf;
      zf = flag_after _ val 30 s.zf;
      cf = flag_after _ val 29 s.cf;
      vf = flag_after _ val 28 s.vf;
      qf = truth_after mask val 27 s.qf;
      tf = truth_after mask val 5 s.tf;
      itf = λ j k. it_after-bits _ _ val s.itf j h.itf k;
      gef = λ j k. ge_after _ val s.gef j k;
      raw_cpsr = λ i k.
          merge-bits s.raw_cpsr val (bit_and mask (bit_not cpsr_cached)) i h.raw_cpsr raw_mask
          ∙ ap (λ b. if b then test_bit val i else test_bit s.raw_cpsr i) (kept_mask mask i hm k);
    }

written-bits :
    (val mask : ℕ) (s t : Arm32) (i : ℕ)
    → IsWhole mask
    → IsAfter val mask s t
    → t.mf ≡ s.mf
    → 5 ≤ i
    → i < 32
    → cpsr_bit t i ≡ (if test_bit mask i then test_bit val i else cpsr_bit s i)
written-bits val mask s t i whole w same_mode low high =
    let at : (x p : ℕ) → i ≡ p → test_bit x i ≡ test_bit x p = λ x p e. ap (test_bit x) e in
    elim (Bool-cases (leb 28 i)) [
      | inl above ↦
          ground (
            arith,
            w.nf,
            w.zf,
            w.cf,
            w.vf,
            whole.nzcv i,
            at val 31,
            at val 30,
            at val 29,
            at val 28,
          )
      | inr below1 ↦ elim (Bool-cases (leb 25 i)) [
        | inl above ↦
            (let back : (i - 25) + 25 ≡ i = ground arith in
              let same : test_bit val ((i - 25) + 25) ≡ test_bit val i = ap (test_bit val) back in
              ground (arith, same, at val 27, at mask 27, w.qf, w.itf (i - 25), whole.it_1_0 i))
        | inr below2 ↦ elim (Bool-cases (leb 20 i)) [
          | inl above ↦ ground (arith, w.raw_cpsr i)
          | inr below3 ↦ elim (Bool-cases (leb 16 i)) [
            | inl above ↦
                (let back : (i - 16) + 16 ≡ i = ground arith in
                  let same : test_bit val ((i - 16) + 16) ≡ test_bit val i =
                    ap (test_bit val) back in
                  ground (arith, same, w.gef (i - 16), whole.ge i))
            | inr below4 ↦ elim (Bool-cases (leb 10 i)) [
              | inl above ↦
                  (let back : (i - 8) + 8 ≡ i = ground arith in
                    let same : test_bit val ((i - 8) + 8) ≡ test_bit val i =
                      ap (test_bit val) back in
                    ground (arith, same, w.itf (i - 8), whole.it_7_2 i))
              | inr below5 ↦ ground (arith, w.raw_cpsr i, w.tf, at val 5, at mask 5)
            ]
          ]
        ]
      ]
    ]

-- A state without mode bits beside the mode flag is written only as `written` says.
set_cpsr-written :
    (val mask : ℕ) (s t : Arm32) → IsPsr s → set_cpsr val mask s ≡ ok t → t ≡ written val mask s
set_cpsr-written val mask s t h e =
    Ensures-ok (λ u. u ≡ written val mask s)
      (rw (set_cpsr-outcome val mask s (no_mode_bits s h)) (
        if_both (Ensures (λ u. u ≡ written val mask s))
          (nonzero (bit_and (bit_and val mask) cpsr_m)) (λ _. tt) (λ _. refl)))
      e
  where
    no_mode_bits : (s : Arm32) → IsPsr s → bit_and s.raw_cpsr cpsr_m ≡ 0
    no_mode_bits s h = zero_of_bits _ λ i. elim (Bool-cases (leb i 5)) [
      | inl low ↦ ground (arith, test_bit-bit_and s.raw_cpsr cpsr_m i, h.apart i)
      | inr high ↦ ground (arith, test_bit-bit_and s.raw_cpsr cpsr_m i, test_bit_of_lt 5 cpsr_m i)
    ]

-- A write of CPSR that is carried out keeps every field within its width, and the other bits apart.
pub set_cpsr-IsPsr :
    (val mask : ℕ) (s t : Arm32) → mask < 2 ^ 32 → IsPsr s → set_cpsr val mask s ≡ ok t → IsPsr t
set_cpsr-IsPsr val mask s t hm h e =
    rw (set_cpsr-written val mask s t h e) (written-IsPsr val mask s hm h)

-- From a state whose flags fit their widths, and whose `raw_cpsr` is a word that holds none of the bits
-- which the flags and the mode keep: after a write of CPSR that is carried out, under a 32-bit mask
-- that splits none of the groups of flags which are written together, a read returns at each position from 5 to 31 the bit of the value
-- where the mask has the position, and the bit of the CPSR before elsewhere.
pub set_cpsr-get_cpsr :
    (val mask : ℕ) (s t : Arm32) (i : ℕ)
    → mask < 2 ^ 32
    → IsWhole mask
    → IsPsr s
    → set_cpsr val mask s ≡ ok t
    → 5 ≤ i
    → i < 32
    → test_bit (get_cpsr t) i
      ≡ (if test_bit mask i then test_bit val i else test_bit (get_cpsr s) i)
set_cpsr-get_cpsr val mask s t i hm whole h e low high =
    let same = set_cpsr-written val mask s t h e in
    let after : IsAfter val mask s t = rw same (written-IsAfter val mask s hm h) in
    let mode : t.mf ≡ s.mf = rw same (unfold set_flags in refl) in
    get_cpsr-bits t i (set_cpsr-IsPsr val mask s t hm h e) high
    ∙ written-bits val mask s t i whole after mode low high
    ∙ ap (λ b. if test_bit mask i then test_bit val i else b) (sym (get_cpsr-bits s i h high))
