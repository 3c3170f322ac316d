-- ===== src/Arm32/Saturate.antt =====
-- The saturating instructions of the simulator, by signed values.
use open_socemu.Base.{
  ℕ, ◌+◌, ◌-◌, ◌^◌, ◌<◌, ◌≡◌, ◌≢◌, refl, ◌∙◌, Bool, true, false, not, ◌&&◌, ◌||◌, leb, ltb, ◌==◌,
  u32, sub32, arith, if◌then◌else◌, Bool-cases, inl, inr, nonzero, bit_and, IsWordArray, shr,
}
use open_socemu.Arm32.{Arm32, signbit}
use open_socemu.Arm32.Conditional.{decode_saturating}
use open_socemu.Arm32.Alu.{
  add_saturated, subtract_saturated, double_saturated, add_overflows, sub_overflows,
}
use open_socemu.Arm32.Excess.{excess, clamp, sign_set-bit_xor, saturated-excess}

-- Whether the sum and the difference of two signed values are words, by their excess forms: the sum
-- of these is 2 to the 31 above the excess form of the sum.
abbrev pub sum_fits : ℕ → ℕ → Bool
sum_fits x y = leb (2 ^ 31) (x + y) && ltb (x + y) (2 ^ 31 + 2 ^ 32)

abbrev pub difference_fits : ℕ → ℕ → Bool
difference_fits x y = leb y (x + 2 ^ 31) && ltb (x + 2 ^ 31) (y + 2 ^ 32)

add_overflows-sum_fits :
    (a b : ℕ)
    → a < 2 ^ 32
    → b < 2 ^ 32
    → add_overflows (u32 (a + b)) a b ≡ not (sum_fits (excess a) (excess b))
add_overflows-sum_fits a b ha hb =
    rw (sign_set-bit_xor (u32 (a + b)) a (omega arith) ha, sign_set-bit_xor a b ha hb)
      (ground arith)

sub_overflows-difference_fits :
    (a b : ℕ)
    → a < 2 ^ 32
    → b < 2 ^ 32
    → sub_overflows (sub32 a b) a b ≡ not (difference_fits (excess a) (excess b))
sub_overflows-difference_fits a b ha hb =
    rw (sign_set-bit_xor (sub32 a b) a (omega arith) ha, sign_set-bit_xor a b ha hb) (ground arith)

pub add_saturated-excess :
    (a b q : ℕ)
    → a < 2 ^ 32
    → b < 2 ^ 32
    → (excess (add_saturated a b q).0 ≡ clamp (excess a + excess b - 2 ^ 31))
      × ((add_saturated a b q).1 ≡ (if sum_fits (excess a) (excess b) then q else 1))
unfolding add_saturated
add_saturated-excess a b q ha hb =
    rw (add_overflows-sum_fits a b ha hb) (elim (Bool-cases (sum_fits (excess a) (excess b))) [
      | inl fits ↦ rw fits (ground arith, refl)
      | inr over ↦ rw over (saturated-excess a ha ∙ ground arith, refl)
    ])

pub subtract_saturated-excess :
    (a b q : ℕ)
    → a < 2 ^ 32
    → b < 2 ^ 32
    → (excess (subtract_saturated a b q).0 ≡ clamp (excess a + 2 ^ 31 - excess b))
      × ((subtract_saturated a b q).1 ≡ (if difference_fits (excess a) (excess b) then q else 1))
unfolding subtract_saturated
subtract_saturated-excess a b q ha hb =
    rw (sub_overflows-difference_fits a b ha hb)
      (elim (Bool-cases (difference_fits (excess a) (excess b))) [
        | inl fits ↦ rw fits (ground arith, refl)
        | inr over ↦ rw over (saturated-excess a ha ∙ ground arith, refl)
      ])

pub double_saturated-excess :
    (a q : ℕ)
    → a < 2 ^ 32
    → a ≢ 0x40000000
    → (excess (double_saturated a q).0 ≡ clamp (excess a + excess a - 2 ^ 31))
      × ((double_saturated a q).1 ≡ (if sum_fits (excess a) (excess a) then q else 1))
unfolding double_saturated
double_saturated-excess a q ha apart = elim (Bool-cases (ltb a signbit && ltb 0x40000000 a)) [
  | inl above ↦ rw above (ground arith, ground arith)
  | inr _ ↦ elim (Bool-cases (leb signbit a && ltb a 0xC0000000)) [
    | inl below ↦ rw below (ground arith, ground arith)
    | inr fits ↦ rw fits (ground arith, ground arith)
  ]
]

double_saturated-lt : (a q : ℕ) → (double_saturated a q).0 < 2 ^ 32
unfolding double_saturated
double_saturated-lt a q = ground arith

-- At 0x40000000, whose double is not a signed word, QDADD and QDSUB use the wrapped double, which is
-- the least signed word, and leave the saturation flag.
pub double_saturated-boundary :
    (q : ℕ)
    → (double_saturated 0x40000000 q ≡ (signbit, q))
      × (sum_fits (excess 0x40000000) (excess 0x40000000) ≡ false)
unfolding double_saturated
double_saturated-boundary q = (refl, refl)

-- The second operand of an instruction, in excess form: the register, or its saturated double.
abbrev pub operand_excess : Bool → ℕ → ℕ
operand_excess doubles n = if doubles then clamp (excess n + excess n - 2 ^ 31) else excess n

abbrev pub result_excess : Bool → ℕ → ℕ → ℕ
result_excess subtracts x y = if subtracts then clamp (x + 2 ^ 31 - y) else clamp (x + y - 2 ^ 31)

abbrev pub overflowed : Bool → Bool → ℕ → ℕ → Bool
overflowed doubles subtracts m n =
    let y = operand_excess doubles n in
    (doubles && not (sum_fits (excess n) (excess n)))
    || not (if subtracts then difference_fits (excess m) y else sum_fits (excess m) y)

-- The operand and the result, each with the flag, as the decoder computes them.
abbrev operand : Bool → ℕ → ℕ → ℕ × ℕ
operand doubles n q = if doubles then double_saturated n q else (n, q)

abbrev result : Bool → ℕ → ℕ × ℕ → ℕ × ℕ
result subtracts m yq =
    if subtracts then subtract_saturated m yq.0 yq.1 else add_saturated m yq.0 yq.1

operand-lt : (doubles : Bool) (n q : ℕ) → n < 2 ^ 32 → (operand doubles n q).0 < 2 ^ 32
operand-lt true n q h = double_saturated-lt n q
operand-lt false n q h = h

operand-excess :
    (doubles : Bool) (n q : ℕ)
    → n < 2 ^ 32
    → (doubles ≡ true → n ≢ 0x40000000)
    → (excess (operand doubles n q).0 ≡ operand_excess doubles n)
      × ((operand doubles n q).1
          ≡ (if doubles && not (sum_fits (excess n) (excess n)) then 1 else q))
operand-excess true n q h apart =
    let (e, f) = double_saturated-excess n q h (apart refl) in
    (e, f ∙ flip (sum_fits (excess n) (excess n)))
  where
    flip : (b : Bool) → (if b then q else 1) ≡ (if not b then 1 else q)
    flip true = refl
    flip false = refl
operand-excess false n q h apart = (refl, refl)

result-excess :
    (subtracts : Bool) (m y q : ℕ)
    → m < 2 ^ 32
    → y < 2 ^ 32
    → (excess (result subtracts m (y, q)).0 ≡ result_excess subtracts (excess m) (excess y))
      × ((result subtracts m (y, q)).1 ≡ (
          if (if subtracts
            then difference_fits (excess m) (excess y)
            else sum_fits (excess m) (excess y))
          then q
          else 1))
result-excess true m y q hm hy = subtract_saturated-excess m y q hm hy
result-excess false m y q hm hy = add_saturated-excess m y q hm hy

either_flag :
    (a b : Bool) (q : ℕ) → (if b then (if a then 1 else q) else 1) ≡ (if a || not b then 1 else q)
either_flag true true q = refl
either_flag true false q = refl
either_flag false true q = refl
either_flag false false q = refl

both-excess :
    (doubles subtracts : Bool) (m n q : ℕ)
    → m < 2 ^ 32
    → n < 2 ^ 32
    → (doubles ≡ true → n ≢ 0x40000000)
    → let r = result subtracts m (operand doubles n q) in
      (excess r.0 ≡ result_excess subtracts (excess m) (operand_excess doubles n))
      × (r.1 ≡ (if overflowed doubles subtracts m n then 1 else q))
both-excess doubles subtracts m n q hm hn apart =
    let yq = operand doubles n q in
    let (e1, f1) = operand-excess doubles n q hn apart in
    let (e2, f2) = result-excess subtracts m yq.0 yq.1 hm (operand-lt doubles n q hn) in
    (rw e1 at e2, f2 ∙ rw (e1, f1) (either_flag _ _ q))

-- QADD and QSUB on any words, and QDADD and QDSUB on any words but a value 0x40000000 to be doubled: the
-- destination holds the signed sum or difference of the first register and of the second, doubled
-- for the last two, where the double and the result are each cut to the range of a signed word;
-- and the saturation flag is 1 when one of them was cut, and otherwise as it was.
pub decode_saturating-excess :
    (op1 : ℕ) (s : Arm32)
    → IsWordArray s.regs
    → (nonzero (bit_and op1 2) ≡ true → s.regs (bit_and (shr s.insn 16) 0xf) ≢ 0x40000000)
    → let m = s.regs (bit_and s.insn 0xf) in
      let n = s.regs (bit_and (shr s.insn 16) 0xf) in
      let doubles = nonzero (bit_and op1 2) in
      let subtracts = nonzero (bit_and op1 1) in
      let t = decode_saturating op1 s in
      (excess (t.regs (bit_and (shr s.insn 12) 0xf))
        ≡ result_excess subtracts (excess m) (operand_excess doubles n))
      × (t.qf ≡ (if overflowed doubles subtracts m n then 1 else s.qf))
unfolding decode_saturating
decode_saturating-excess op1 s words apart =
    let m = s.regs (bit_and s.insn 0xf) in
    let n = s.regs (bit_and (shr s.insn 16) 0xf) in
    let (e, f) =
      both-excess (nonzero (bit_and op1 2)) (nonzero (bit_and op1 1)) m n s.qf (words _) (words _)
        apart in
    let here : (bit_and (shr s.insn 12) 0xf == bit_and (shr s.insn 12) 0xf) ≡ true = ground arith in
    (rw here e, f)
