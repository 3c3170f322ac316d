-- ===== src/AddrDec/Order.antt =====
-- The chain of the address decoder: ranges that are apart, and the order of the chain.
use open_socemu.Base.{
  ℕ, ◌<◌, ◌≤◌, ◌≡◌, refl, sym, subst, ◌∙◌, ◌⊎◌, inl, inr, true, false, none, some, List, [], ◌∷◌,
  arith, Bool-cases, Option-cases,
}
use open_socemu.AddrDec.{Range, within, unlink}

abbrev pub All : (Range → Type 0) → List Range → Type 0
All P [] = Unit
All P (r ∷ rs) = P r × All P rs

abbrev pub In : Range → List Range → Type 0
In r [] = ⊥
In r (q ∷ rs) = (r ≡ q) ⊎ In r rs

abbrev pub Separate : Range → Range → Type 0
Separate r q = (r.stop ≤ q.start) ⊎ (q.stop ≤ r.start)

-- No two ranges of the chain share an address.
abbrev pub Apart : List Range → Type 0
Apart [] = Unit
Apart (r ∷ rs) = All (Separate r) rs × Apart rs

abbrev pub Filled : Range → Type 0
Filled r = r.start < r.stop

All-Separate-In : (r q : Range) (rs : List Range) → All (Separate r) rs → In q rs → Separate r q
All-Separate-In r q [] a i = elim i [ ]
All-Separate-In r q (x ∷ rs) a (inl e) = subst (Separate r) (sym e) a.0
All-Separate-In r q (x ∷ rs) a (inr i) = All-Separate-In r q rs a.1 i

-- How `unlink` takes a range out of the chain.
pub data Unlink (address : ℕ) : List Range → Range → List Range → Type 0 where
  here : (r : Range) (rs : List Range) → within address r ≡ true → Unlink address (r ∷ rs) r rs
  there :
      (r : Range) {rs : List Range} {found : Range} {others : List Range}
      → within address r ≡ false
      → Unlink address rs found others
      → Unlink address (r ∷ rs) found (r ∷ others)

pub unlink-some :
    (address : ℕ) (chain : List Range) {found : Range} {others : List Range}
    → unlink address chain ≡ some (found, others)
    → Unlink address chain found others
unfolding unlink
unlink-some address [] e = cc
unlink-some address (r ∷ rs) {found} {others} e = elim (Bool-cases (within address r)) [
  | inl hit ↦
      (let p : found ≡ r = ground arith in
        let q : others ≡ rs = ground arith in rw (p, q) (here r rs hit))
  | inr miss ↦ elim (Option-cases (unlink address rs)) [
    | inl nothing ↦ ground arith
    | inr ((f, os), eq) ↦
        (let p : found ≡ f = ground arith in
          let q : others ≡ r ∷ os = ground arith in
          rw (p, q) (there r miss (unlink-some address rs eq)))
  ]
]

pub unlink-none :
    (address : ℕ) (chain : List Range)
    → unlink address chain ≡ none
    → (r : Range) → In r chain
    → within address r ≡ false
unfolding unlink
unlink-none address [] e r i = elim i [ ]
unlink-none address (q ∷ rs) e r (inl same) = ground arith
unlink-none address (q ∷ rs) e r (inr i) = elim (Option-cases (unlink address rs)) [
  | inl nothing ↦ unlink-none address rs nothing r i
  | inr ((f, os), eq) ↦ ground arith
]

pub Unlink-found :
    {address : ℕ} {chain : List Range} {f : Range} {os : List Range}
    → Unlink address chain f os
    → In f chain × (within address f ≡ true)
Unlink-found (here r rs hit) = (inl refl, hit)
Unlink-found (there r miss u) = let (i, hit) = Unlink-found u in (inr i, hit)

-- The chain with the found range in front holds the same ranges.
pub Unlink-In :
    {address : ℕ} {chain : List Range} {f : Range} {os : List Range} (r : Range)
    → Unlink address chain f os
    → In r chain
    → In r (f ∷ os)
Unlink-In q (here r rs hit) i = i
Unlink-In q (there r miss u) (inl e) = inr (inl e)
Unlink-In q (there r miss u) (inr i) = elim (Unlink-In q u i) [
  | inl e ↦ inl e
  | inr j ↦ inr (inr j)
]

pub In-Unlink :
    {address : ℕ} {chain : List Range} {f : Range} {os : List Range} (r : Range)
    → Unlink address chain f os
    → In r (f ∷ os)
    → In r chain
In-Unlink q (here r rs hit) i = i
In-Unlink q (there r miss u) (inl e) = inr (In-Unlink q u (inl e))
In-Unlink q (there r miss u) (inr (inl e)) = inl e
In-Unlink q (there r miss u) (inr (inr i)) = inr (In-Unlink q u (inr i))

pub All-Unlink :
    {address : ℕ} {chain : List Range} {f : Range} {os : List Range} (P : Range → Type 0)
    → Unlink address chain f os
    → All P chain
    → P f × All P os
All-Unlink P (here r rs hit) a = a
All-Unlink P (there r miss u) a = let (p, ps) = All-Unlink P u a.1 in (p, (a.0, ps))

Separate-sym : (r q : Range) → Separate r q → Separate q r
Separate-sym r q (inl e) = inr e
Separate-sym r q (inr e) = inl e

pub Unlink-Apart :
    {address : ℕ} {chain : List Range} {f : Range} {os : List Range}
    → Unlink address chain f os
    → Apart chain
    → Apart (f ∷ os)
Unlink-Apart (here r rs hit) a = a
Unlink-Apart (there r {found = f} miss u) a =
    let (fs, rest) = Unlink-Apart u a.1 in
    let (rf, ros) = All-Unlink (Separate r) u a.0 in ((Separate-sym r f rf, fs), (ros, rest))

-- Ranges apart: an address lies in one of them at most.
pub within_unique :
    (address : ℕ) (chain : List Range) (r q : Range)
    → Apart chain
    → In r chain
    → In q chain
    → within address r ≡ true
    → within address q ≡ true
    → r ≡ q
within_unique address (x ∷ xs) r q a (inl e) (inl d) hr hq = e ∙ sym d
within_unique address (x ∷ xs) r q a (inl e) (inr j) hr hq =
    ground (arith, All-Separate-In x q xs a.0 j)
within_unique address (x ∷ xs) r q a (inr i) (inl d) hr hq =
    ground (arith, All-Separate-In x r xs a.0 i)
within_unique address (x ∷ xs) r q a (inr i) (inr j) hr hq =
    within_unique address xs r q a.1 i j hr hq
within_unique address [] r q a i j hr hq = elim i [ ]
