-- ===== src/Gdb/Digits.antt =====
-- Hexadecimal texts that the server reads: numbers, and bytes two digits each.
use open_socemu.Base.{
  ℕ, ◌+◌, ◌*◌, ◌/◌, ◌%◌, ◌^◌, ◌<◌, ◌≡◌, refl, true, false, ◌||◌, List, [], ◌∷◌, ◌++◌, leb, ◌==◌,
  some, ok, arith, Bool-cases, inl, inr,
}
use open_socemu.Base.Lists.{length, All}
use open_socemu.Gdb.{tohex}
use open_socemu.Gdb.Hex.{memtohex, hextomem}
use open_socemu.Gdb.Numbers.{digit, skip_space, sign, skip_prefix, digits, starts_digit, strto}
use open_socemu.Gdb.Commands.{field, skip_char}
use open_socemu.Gdb.Framing.{bit_or-nibbles, fromhex-tohex}

abbrev pub AreBytes : List ℕ → Type 0
AreBytes mem = All (λ c. c < 256) mem

abbrev pub AreNibbles : List ℕ → Type 0
AreNibbles ds = All (λ d. d < 16) ds

-- The digits of a number, the highest first, and its value after others.
unfoldable pub numeral : List ℕ → List ℕ → List ℕ
numeral [] rest = rest
numeral (d ∷ ds) rest = tohex d ∷ numeral ds rest

unfoldable pub value_after : ℕ → List ℕ → ℕ
value_after acc [] = acc
value_after acc (d ∷ ds) = value_after (acc * 16 + d) ds

digit-tohex : (d : ℕ) → d < 16 → digit (tohex d) ≡ some d
digit-tohex d h = ground arith

-- A text that goes on with no digit.
abbrev pub Stops : List ℕ → Type 0
Stops rest = starts_digit rest ≡ false

digits_stop : (acc : ℕ) (rest : List ℕ) → Stops rest → digits acc rest ≡ (acc, rest)
unfolding digits
digits_stop acc [] h = refl
digits_stop acc (c ∷ s) h = ground arith

digits-numeral :
    (acc : ℕ) (ds rest : List ℕ)
    → AreNibbles ds
    → Stops rest
    → digits acc (numeral ds rest) ≡ (value_after acc ds, rest)
unfolding digits numeral value_after
digits-numeral acc [] rest h stop = digits_stop acc rest stop
digits-numeral acc (d ∷ ds) rest (hd, hds) stop =
    rw (digit-tohex d hd, digits) (digits-numeral (acc * 16 + d) ds rest hds stop)

skip_space-tohex : (d : ℕ) (s : List ℕ) → d < 16 → skip_space (tohex d ∷ s) ≡ tohex d ∷ s
unfolding skip_space
skip_space-tohex d s h = ground arith

sign-tohex : (d : ℕ) (s : List ℕ) → d < 16 → sign (tohex d ∷ s) ≡ (false, tohex d ∷ s)
unfolding sign
sign-tohex d s h = ground arith

-- The text behind a first digit does not begin with the letter of a prefix.
abbrev pub NoPrefix : List ℕ → Type 0
NoPrefix [] = Unit
NoPrefix (c ∷ s) = (c == b'x' || c == b'X') ≡ false

skip_prefix-NoPrefix : (c : ℕ) (s : List ℕ) → NoPrefix s → skip_prefix (c ∷ s) ≡ c ∷ s
unfolding skip_prefix
skip_prefix-NoPrefix c [] h = refl
skip_prefix-NoPrefix c (x ∷ []) h = refl
skip_prefix-NoPrefix c (x ∷ d ∷ s) h = elim (Bool-cases (c == b'0')) [
  | inl z ↦ rw z (rw h refl)
  | inr z ↦ rw z refl
]

numeral-NoPrefix : (ds rest : List ℕ) → AreNibbles ds → NoPrefix rest → NoPrefix (numeral ds rest)
unfolding numeral
numeral-NoPrefix [] rest h n = n
numeral-NoPrefix (d ∷ ds) rest (hd, hds) n = ground arith

-- A number in hexadecimal digits is read whole, with what follows it left, when that goes on with no
-- digit and no letter of a prefix.
pub strto-numeral :
    (bound d : ℕ) (ds rest : List ℕ)
    → AreNibbles (d ∷ ds)
    → Stops rest
    → NoPrefix rest
    → value_after 0 (d ∷ ds) < bound
    → strto bound (numeral (d ∷ ds) rest) ≡ (value_after 0 (d ∷ ds), rest)
unfolding strto numeral
strto-numeral bound d ds rest (hd, hds) stop n fits =
    let behind = numeral ds rest in
    let small : leb bound (value_after 0 (d ∷ ds)) ≡ false = ground arith in
    let first : starts_digit (tohex d ∷ behind) ≡ true = rw (digit-tohex d hd, starts_digit) refl in
    rw (skip_space-tohex d behind hd) (
      rw (sign-tohex d behind hd) (
        rw (skip_prefix-NoPrefix (tohex d) behind (numeral-NoPrefix ds rest hds n))
          (rw first (rw (digits-numeral 0 (d ∷ ds) rest (hd, hds) stop) (rw small refl)))))

pub field-numeral :
    (separator d : ℕ) (ds rest : List ℕ)
    → AreNibbles (d ∷ ds)
    → Stops rest
    → NoPrefix rest
    → value_after 0 (d ∷ ds) < 2 ^ 32
    → field separator (numeral (d ∷ ds) rest) ≡ (value_after 0 (d ∷ ds), skip_char separator rest)
unfolding field
field-numeral separator d ds rest h stop n fits =
    let small : value_after 0 (d ∷ ds) % 2 ^ 32 ≡ value_after 0 (d ∷ ds) = omega arith in
    rw (strto-numeral (2 ^ 64) d ds rest h stop n (omega arith)) (rw small refl)

-- The bytes of a memory, as digits and back.
pub hextomem-memtohex :
    (mem rest : List ℕ) → AreBytes mem → hextomem (memtohex mem ++ rest) (length mem) ≡ ok mem
unfolding hextomem memtohex
hextomem-memtohex [] rest h = refl
hextomem-memtohex (c ∷ mem) rest (hc, hmem) = rw (fromhex-tohex (c / 16) (omega arith)) (
    rw (fromhex-tohex (c % 16) (omega arith))
      (rw (bit_or-nibbles c hc) (rw (hextomem-memtohex mem rest hmem) refl)))
