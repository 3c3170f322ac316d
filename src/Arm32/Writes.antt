-- ===== src/Arm32/Writes.antt =====
-- What a masked write of CPSR in the simulator leaves, bit by bit.
use open_socemu.Base.{
  ℕ, ◌+◌, ◌-◌, ◌^◌, ◌<◌, ◌≤◌, ◌≡◌, refl, ap, ◌∙◌, Bool, true, false, not, ◌&&◌, ◌==◌, ltb, arith,
  if◌then◌else◌, if_both, nonzero, bit_and, bit_or, bit_not, shl, shr,
}
use open_socemu.Base.Bits.{test_bit, test_bit-bit_and, test_bit-bit_or}
use open_socemu.Base.Masks.{
  test_bit-ones, test_bit-mod, test_bit-and_not, bit_and_low, bit_and-lt_right, bit_and-lt,
  bit_or-lt,
}
use open_socemu.Base.Shifts.{test_bit-shr}
use open_socemu.Arm32.{Arm32, cpsr_ge, cpsr_it_7_2, cpsr_it_1_0, cpsr_nzcv, cpsr_cached}
use open_socemu.Arm32.Psr.{set_flags, merge, truth}
use open_socemu.Arm32.Status.{cached, IsPsr, field_bit, it_mask}

pub cached-bits : (i : ℕ) → i < 32 → test_bit cpsr_cached i ≡ cached i
cached-bits i k =
    test_bit-bit_or (bit_or (shl 63 0) (shl 1023 10)) (shl 127 25) i
    ∙ ground (
      arith,
      test_bit-bit_or (shl 63 0) (shl 1023 10) i,
      field_bit 6 63 0 i (omega arith) k,
      field_bit 10 1023 10 i (omega arith) k,
      field_bit 7 127 25 i (omega arith) k,
      test_bit-ones 6 i,
      test_bit-ones 10 (i - 10),
      test_bit-ones 7 (i - 25),
    )

-- The field of w bits of a value at a position.
pub low_field :
    (w val p j : ℕ)
    → test_bit (bit_and (shr val p) (2 ^ w - 1)) j ≡ (test_bit val (j + p) && ltb j w)
low_field w val p j =
    ap (λ y. test_bit y j) (bit_and_low w (shr val p))
    ∙ test_bit-mod w (shr val p) j
    ∙ ap (λ b. b && ltb j w) (test_bit-shr val p j)

pub one_bit : (val p : ℕ) → (bit_and (shr val p) 1 == 1) ≡ test_bit val p
unfolding test_bit
one_bit val p =
    let here : 0 + p ≡ p = omega arith in
    let moved = test_bit-shr val p 0 ∙ ap (test_bit val) here in
    ap (λ y. y == 1) (bit_and_low 1 (shr val p)) ∙ moved

-- The IT state that a write leaves, from its two parts.
abbrev pub it_after : Bool → Bool → ℕ → ℕ → ℕ
it_after low high val itf =
    let it1 = if low then bit_or (bit_and itf (bit_not 3)) (bit_and (shr val 25) 3) else itf in
    if high then bit_or (bit_and it1 3) (bit_and (shr val 8) 0xfc) else it1

it_after-lt : (low high : Bool) (val itf : ℕ) → itf < 256 → it_after low high val itf < 256
it_after-lt low high val itf h =
    if_both (λ x. x < 256) high
      (λ _.
        bit_or-lt 8 _ _ (bit_and-lt_right 8 _ 3 (omega arith))
          (bit_and-lt_right 8 _ 0xfc (omega arith)))
      (λ _.
        if_both (λ x. x < 256) low
          (λ _. bit_or-lt 8 _ _ (bit_and-lt 8 itf _ h) (bit_and-lt_right 8 _ 3 (omega arith)))
          (λ _. h))

it_low_bits :
    (low : Bool) (val itf j : ℕ)
    → itf < 256
    → test_bit (if low then bit_or (bit_and itf (bit_not 3)) (bit_and (shr val 25) 3) else itf) j
      ≡ (if low && ltb j 2 then test_bit val (j + 25) else test_bit itf j)
it_low_bits true val itf j h = ground (
  arith,
  test_bit-bit_or (bit_and itf (bit_not 3)) (bit_and (shr val 25) 3) j,
  test_bit-and_not itf 3 j (omega arith) (omega arith),
  test_bit-ones 2 j,
  low_field 2 val 25 j,
)
it_low_bits false val itf j h = refl

pub it_after-bits :
    (low high : Bool) (val itf j : ℕ)
    → itf < 256
    → j < 8
    → test_bit (it_after low high val itf) j ≡ (
        if ltb j 2
        then (if low then test_bit val (j + 25) else test_bit itf j)
        else if high
        then test_bit val (j + 8)
        else test_bit itf j)
it_after-bits low true val itf j h k = ground (
  arith,
  test_bit-bit_or
      (bit_and (if low then bit_or (bit_and itf (bit_not 3)) (bit_and (shr val 25) 3) else itf) 3)
      (bit_and (shr val 8) 0xfc) j,
  low_field 2 (if low then bit_or (bit_and itf (bit_not 3)) (bit_and (shr val 25) 3) else itf) 0 j,
  it_low_bits low val itf j h,
  test_bit-bit_and (shr val 8) 0xfc j,
  it_mask j (omega arith),
  test_bit-shr val 8 j,
)
it_after-bits low false val itf j h k = it_low_bits low val itf j h ∙ ground arith

-- A mask that holds a group of CPSR bits whole, or not at all.
pub record IsWhole (mask : ℕ) : Type 0 where
  pub nzcv : (i : ℕ) → 28 ≤ i → i < 32 → test_bit mask i ≡ nonzero (bit_and mask cpsr_nzcv)
  pub it_1_0 : (i : ℕ) → 25 ≤ i → i < 27 → test_bit mask i ≡ nonzero (bit_and mask cpsr_it_1_0)
  pub ge : (i : ℕ) → 16 ≤ i → i < 20 → test_bit mask i ≡ nonzero (bit_and mask cpsr_ge)
  pub it_7_2 : (i : ℕ) → 10 ≤ i → i < 16 → test_bit mask i ≡ nonzero (bit_and mask cpsr_it_7_2)

-- The state that a write without mode bits leaves.
abbrev pub written : ℕ → ℕ → Arm32 → Arm32
written val mask s = record (set_flags val mask s) {
  raw_cpsr = merge s.raw_cpsr val (bit_and mask (bit_not cpsr_cached));
}

pub kept_mask :
    (mask i : ℕ)
    → mask < 2 ^ 32
    → i < 32
    → test_bit (bit_and mask (bit_not cpsr_cached)) i ≡ (test_bit mask i && not (cached i))
kept_mask mask i h k =
    test_bit-and_not mask cpsr_cached i h (omega arith)
    ∙ ap (λ b. test_bit mask i && not b) (cached-bits i k)

pub merge-bits :
    (raw val mask i : ℕ)
    → raw < 2 ^ 32
    → mask < 2 ^ 32
    → test_bit (merge raw val mask) i ≡ (if test_bit mask i then test_bit val i else test_bit raw i)
merge-bits raw val mask i hr hm = ground (
  arith,
  test_bit-bit_or (bit_and raw (bit_not mask)) (bit_and val mask) i,
  test_bit-and_not raw mask i hr hm,
  test_bit-bit_and val mask i,
)

truth-lt : (b : Bool) → truth b < 2
truth-lt b = ground arith

one_bit-lt : (x : ℕ) → bit_and x 1 < 2
one_bit-lt x = bit_and-lt_right 1 x 1 (omega arith)

if_lt : (b : Bool) (x y n : ℕ) → x < n → y < n → (if b then x else y) < n
if_lt b x y n hx hy = if_both (λ z. z < n) b (λ _. hx) (λ _. hy)

pub written-IsPsr :
    (val mask : ℕ) (s : Arm32) → mask < 2 ^ 32 → IsPsr s → IsPsr (written val mask s)
unfolding set_flags
written-IsPsr val mask s hm h =
    let raw_mask : bit_and mask (bit_not cpsr_cached) < 2 ^ 32 = bit_and-lt 32 mask _ hm in
    record {
      nf = if_lt _ _ _ 2 (one_bit-lt _) h.nf;
      zf = if_lt _ _ _ 2 (one_bit-lt _) h.zf;
      cf = if_lt _ _ _ 2 (one_bit-lt _) h.cf;
      vf = if_lt _ _ _ 2 (one_bit-lt _) h.vf;
      qf = if_lt _ _ _ 2 (truth-lt _) h.qf;
      tf = if_lt _ _ _ 2 (truth-lt _) h.tf;
      gef = if_lt _ _ _ 16 (bit_and-lt_right 4 _ 0xf (omega arith)) h.gef;
      itf = it_after-lt _ _ val s.itf h.itf;
      mf = h.mf;
      raw_cpsr =
          bit_or-lt 32 _ _ (bit_and-lt 32 s.raw_cpsr _ h.raw_cpsr)
            (bit_and-lt_right 32 val _ raw_mask);
      apart = λ i c. ground (
        arith,
        h.apart i c,
        merge-bits s.raw_cpsr val (bit_and mask (bit_not cpsr_cached)) i h.raw_cpsr raw_mask,
        kept_mask mask i hm (ground arith),
      );
    }
