-- ===== src/Base/Fields.antt =====
-- A field of w bits at the position sh of a 32-bit word: reading it and replacing it.
use Prim.Native.Nat.{ℕ, ◌+◌, ◌-◌, ◌%◌, ◌^◌, ◌<◌, ◌≤◌, bit_and, bit_or}
use native.Mathlib.Omega.{arith}
use mathlib.Core.Path.{◌≡◌, sym, ap, ◌∙◌}
use mathlib.Core.Logic.{inl, inr, ◌⊎◌}
use mathlib.Core.Bool.{◌&&◌}
use open_socemu.Base.Tests.{leb, ltb, if◌then◌else◌, Bool-cases}
use open_socemu.Base.Word.{shl, shr, bit_not}
use open_socemu.Base.Bits.{test_bit, test_bit-bit_and, test_bit-bit_or, eq_of_bits}
use open_socemu.Base.Masks.{test_bit-ones, test_bit-mod, test_bit-bit_not, bit_and-lt, bit_or-lt}
use open_socemu.Base.Shifts.{test_bit-shr, test_bit-shl}

unfoldable pub extract : ℕ → ℕ → ℕ → ℕ
extract word mask shift = bit_and (shr word shift) mask

unfoldable pub insert : ℕ → ℕ → ℕ → ℕ → ℕ
insert word mask shift value =
    bit_or (bit_and word (bit_not (shl mask shift))) (shl (bit_and value mask) shift)

pub extract-bits :
    (word w sh i : ℕ)
    → test_bit (extract word (2 ^ w - 1) sh) i ≡ (test_bit word (i + sh) && ltb i w)
unfolding extract
extract-bits word w sh i =
    test_bit-bit_and (shr word sh) (2 ^ w - 1) i
    ∙ ground (arith, test_bit-shr word sh i, test_bit-ones w i)

shl-word : (x k : ℕ) → shl x k < 2 ^ 32
shl-word x k = omega arith

pub insert-bits :
    (word w sh value i : ℕ)
    → sh + w ≤ 32
    → i < 32
    → test_bit (insert word (2 ^ w - 1) sh value) i
      ≡ (if leb sh i && ltb i (sh + w) then test_bit value (i - sh) else test_bit word i)
unfolding insert
insert-bits word w sh value i fits hi =
    let field = test_bit-shl (2 ^ w - 1) sh i in
    let ones = test_bit-ones w (i - sh) in
    let hole = test_bit-bit_not (shl (2 ^ w - 1) sh) i (shl-word (2 ^ w - 1) sh) hi in
    let kept = test_bit-bit_and word (bit_not (shl (2 ^ w - 1) sh)) i in
    let masked = test_bit-bit_and value (2 ^ w - 1) (i - sh) in
    let put = test_bit-shl (bit_and value (2 ^ w - 1)) sh i in
    test_bit-bit_or _ _ i ∙ ground (arith, field, ones, hole, kept, masked, put)

pub insert-lt : (word mask sh value : ℕ) → word < 2 ^ 32 → insert word mask sh value < 2 ^ 32
unfolding insert
insert-lt word mask sh value h =
    bit_or-lt 32 _ _ (bit_and-lt 32 word _ h) (shl-word (bit_and value mask) sh)

-- A field that was replaced reads as the value, cut to its width.
pub extract-insert :
    (word w sh value : ℕ)
    → sh + w ≤ 32
    → extract (insert word (2 ^ w - 1) sh value) (2 ^ w - 1) sh ≡ value % 2 ^ w
extract-insert word w sh value fits = eq_of_bits _ _ (λ i.
    let back : (i + sh) - sh ≡ i = omega arith in
    let at : test_bit value ((i + sh) - sh) ≡ test_bit value i = ap (test_bit value) back in
    extract-bits (insert word (2 ^ w - 1) sh value) w sh i ∙ (elim (Bool-cases (ltb i w)) [
      | inl inside ↦ ground (
        arith,
        at,
        test_bit-mod w value i,
        insert-bits word w sh value (i + sh) fits (ground arith),
      )
      | inr outside ↦ ground (arith, test_bit-mod w value i)
    ]))

-- A field apart from one that was replaced reads as before.
pub extract-insert_apart :
    (word w sh value v th : ℕ)
    → sh + w ≤ 32
    → th + v ≤ 32
    → (th + v ≤ sh) ⊎ (sh + w ≤ th)
    → extract (insert word (2 ^ w - 1) sh value) (2 ^ v - 1) th ≡ extract word (2 ^ v - 1) th
extract-insert_apart word w sh value v th fits inside apart = eq_of_bits _ _ (λ i.
    extract-bits (insert word (2 ^ w - 1) sh value) v th i
    ∙ (elim (Bool-cases (ltb i v)) [
      | inl low ↦
          (let bit = insert-bits word w sh value (i + th) fits (ground arith) in
            elim apart [ inl below ↦ ground (arith, bit) | inr above ↦ ground (arith, bit) ])
      | inr high ↦ ground arith
    ])
    ∙ sym (extract-bits word v th i))
