-- ===== src/Gdb/Numbers.antt =====
-- `strtoull` and `strtoul` of the C library at the base 16, as the server calls them.
use open_socemu.Base.{
  ℕ, ◌+◌, ◌-◌, ◌*◌, ◌%◌, Bool, true, false, ◌&&◌, ◌||◌, List, [], ◌∷◌, leb, ◌==◌, if◌then◌else◌,
  Option, none, some,
}

abbrev pub digit : ℕ → Option ℕ
digit c =
    if leb b'0' c && leb c b'9'
    then some (c - b'0')
    else if leb b'a' c && leb c b'f'
    then some (c - b'a' + 10)
    else if leb b'A' c && leb c b'F'
    then some (c - b'A' + 10)
    else none

abbrev pub is_space : ℕ → Bool
is_space c = c == 32 || leb 9 c && leb c 13

unfoldable pub skip_space : List ℕ → List ℕ
skip_space [] = []
skip_space (c ∷ s) = if is_space c then skip_space s else c ∷ s

unfoldable pub sign : List ℕ → Bool × List ℕ
sign [] = (false, [])
sign (c ∷ s) = if c == b'-' then (true, s) else if c == b'+' then (false, s) else (false, c ∷ s)

-- A prefix 0x before a digit.
unfoldable pub skip_prefix : List ℕ → List ℕ
skip_prefix (z ∷ x ∷ d ∷ s) =
    if z == b'0' && (x == b'x' || x == b'X')
    then elim (digit d) [ none ↦ z ∷ x ∷ d ∷ s | some v ↦ d ∷ s ]
    else z ∷ x ∷ d ∷ s
skip_prefix s = s

-- The digits from here on, after a value.
unfoldable pub digits : ℕ → List ℕ → ℕ × List ℕ
digits acc [] = (acc, [])
digits acc (c ∷ s) = elim (digit c) [ none ↦ (acc, c ∷ s) | some d ↦ digits (acc * 16 + d) s ]

abbrev pub starts_digit : List ℕ → Bool
starts_digit [] = false
starts_digit (c ∷ s) = elim (digit c) [ none ↦ false | some d ↦ true ]

-- The number at the start of a text, below a bound, and the text behind it.
unfoldable pub strto : ℕ → List ℕ → ℕ × List ℕ
strto bound s =
    let (negative, t) = sign (skip_space s) in
    let u = skip_prefix t in
    let (n, rest) = digits 0 u in
    if starts_digit u
    then (if leb bound n then bound - 1 else if negative then (bound - n) % bound else n, rest)
    else (0, s)
