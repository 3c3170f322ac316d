-- ===== src/AddrDec/Found.antt =====
-- The search of the address decoder: what it finds, and the chain it leaves.
use open_socemu.Base.{
  ℕ, ◌+◌, ◌-◌, ◌%◌, ◌^◌, ◌≡◌, sym, ap, subst, ◌∙◌, inl, inr, true, false, Option, none, some, List,
  ◌∷◌, arith, Option-cases,
}
use open_socemu.AddrDec.{Range, within, unlink, find_range}
use open_socemu.AddrDec.Order.{
  All, In, Apart, unlink-some, unlink-none, Unlink-found, Unlink-In, In-Unlink, All-Unlink,
  Unlink-Apart, within_unique,
}

-- `find_range` returns a range of the chain that holds the address, if there is one.
pub find_range-none :
    (address : ℕ) (chain : List Range)
    → (find_range address chain).0 ≡ none
    → (r : Range) → In r chain
    → within address r ≡ false
unfolding find_range
find_range-none address chain e r i = elim (Option-cases (unlink address chain)) [
  | inl nothing ↦ unlink-none address chain nothing r i
  | inr ((f, os), eq) ↦ ground arith
]

module _ (address : ℕ) (chain : List Range) where
  pub chain_none : unlink address chain ≡ none → chain ≡ (find_range address chain).1
  unfolding find_range
  chain_none e = ground arith

  pub chain_some :
      {f : Range} {os : List Range}
      → unlink address chain ≡ some (f, os)
      → f ∷ os ≡ (find_range address chain).1
  unfolding find_range
  chain_some e = ground arith

pub searched-Apart :
    (address : ℕ) (chain : List Range) → Apart chain → Apart (find_range address chain).1
searched-Apart address chain a = elim (Option-cases (unlink address chain)) [
  | inl nothing ↦ subst Apart (chain_none address chain nothing) a
  | inr ((f, os), eq) ↦
      subst Apart (chain_some address chain eq) (Unlink-Apart (unlink-some address chain eq) a)
]

pub searched-All :
    (P : Range → Type 0) (address : ℕ) (chain : List Range)
    → All P chain
    → All P (find_range address chain).1
searched-All P address chain a = elim (Option-cases (unlink address chain)) [
  | inl nothing ↦ subst (All P) (chain_none address chain nothing) a
  | inr ((f, os), eq) ↦
      subst (All P) (chain_some address chain eq) (All-Unlink P (unlink-some address chain eq) a)
]

pub In-searched :
    (address : ℕ) (chain : List Range) (r : Range) → In r chain → In r (find_range address chain).1
In-searched address chain r i = elim (Option-cases (unlink address chain)) [
  | inl nothing ↦ subst (In r) (chain_none address chain nothing) i
  | inr ((f, os), eq) ↦
      subst (In r) (chain_some address chain eq) (Unlink-In r (unlink-some address chain eq) i)
]

pub searched-In :
    (address : ℕ) (chain : List Range) (r : Range) → In r (find_range address chain).1 → In r chain
searched-In address chain r i = elim (Option-cases (unlink address chain)) [
  | inl nothing ↦ subst (In r) (sym (chain_none address chain nothing)) i
  | inr ((f, os), eq) ↦
      In-Unlink r (unlink-some address chain eq)
        (subst (In r) (sym (chain_some address chain eq)) i)
]

pub find_range-some :
    (address : ℕ) (chain : List Range) (r : Range)
    → (find_range address chain).0 ≡ some r
    → In r chain × (within address r ≡ true)
unfolding find_range
find_range-some address chain r e = elim (Option-cases (unlink address chain)) [
  | inl nothing ↦ ground arith
  | inr ((f, os), eq) ↦
      (let same : r ≡ f = ground arith in rw same (Unlink-found (unlink-some address chain eq)))
]

-- In a chain of ranges that are apart, the range that holds the address is the one found.
pub find_range_lem :
    (address : ℕ) (chain : List Range) (r : Range)
    → Apart chain
    → In r chain
    → within address r ≡ true
    → (find_range address chain).0 ≡ some r
find_range_lem address chain r a i hit = elim (Option-cases (find_range address chain).0) [
  | inl nothing ↦ ground (arith, find_range-none address chain nothing r i)
  | inr (q, eq) ↦
      (let (j, hit') = find_range-some address chain q eq in
        eq ∙ ap some (within_unique address chain q r a j i hit' hit))
]

-- What is forwarded for a range found.
abbrev pub forwarded_to : ℕ → Option Range → Option (ℕ × ℕ)
forwarded_to address found = elim found [
  | none ↦ none
  | some r ↦ some (r.target, (address + 2 ^ 64 - r.start) % 2 ^ 64)
]

-- The search does not depend on the searches before it.
pub find_range-searched :
    (address before : ℕ) (chain : List Range)
    → Apart chain
    → (find_range address (find_range before chain).1).0 ≡ (find_range address chain).0
find_range-searched address before chain a = elim (Option-cases (find_range address chain).0) [
  | inl nothing ↦ elim (Option-cases (find_range address (find_range before chain).1).0) [
    | inl still ↦ still ∙ sym nothing
    | inr (q, eq) ↦
        (let (j, hit) = find_range-some address (find_range before chain).1 q eq in
          ground (arith, find_range-none address chain nothing q (searched-In before chain q j)))
  ]
  | inr (q, eq) ↦
      (let (j, hit) = find_range-some address chain q eq in
        find_range_lem address (find_range before chain).1 q (searched-Apart before chain a)
          (In-searched before chain q j) hit
        ∙ sym eq)
]
