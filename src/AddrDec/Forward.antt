-- ===== src/AddrDec/Forward.antt =====
-- What the address decoder forwards, over every sequence of bindings and accesses.
use open_socemu.Base.{
  ℕ, ◌+◌, ◌-◌, ◌^◌, ◌<◌, ◌≤◌, ◌≡◌, refl, sym, ap, ◌∙◌, inl, Bool, true, false, some, List, [], ◌∷◌,
  bit_and, ltb, ◌==◌, if◌then◌else◌, Result, ok, arith, Ensures, Ensures-check, Ensures-ok,
  assertion, Ensures-bind, check, ◌>>◌,
}
use open_socemu.Base.Masks.{bit_and-split}
use open_socemu.AddrDec.{
  Range, AddrDec, new, overlaps, any_overlap, check_range, bind, within, slave_b_transport,
}
use open_socemu.AddrDec.Order.{All, In, Separate, Apart, Filled}
use open_socemu.AddrDec.Found.{
  searched-Apart, searched-All, find_range_lem, forwarded_to, find_range-searched,
}

-- The ranges bound to a decoder are apart, and none is empty.
pub record IsMapped (s : AddrDec) : Type 0 where
  pub apart : Apart s.head
  pub filled : All Filled s.head

any_overlap-Separate :
    (start stop target : ℕ) (rs : List Range)
    → All Filled rs
    → any_overlap start stop rs ≡ false
    → All (Separate (record { start = start; stop = stop; target = target })) rs
unfolding any_overlap overlaps
any_overlap-Separate start stop target [] f e = tt
any_overlap-Separate start stop target (r ∷ rs) f e =
    (ground arith, any_overlap-Separate start stop target rs f.1 (ground arith))

-- What a check that does not fail has established.
check_range_checked :
    (start stop : ℕ) (s : AddrDec)
    → Ensures
        (λ (c : Bool). (start < stop) × (c ≡ any_overlap start stop s.head))
        (check_range start stop s)
unfolding check_range
check_range_checked start stop s =
    let Q = λ (c : Bool). (start < stop) × (c ≡ any_overlap start stop s.head) in
    let b1 = bit_and start 3 == 0 in
    let b2 = bit_and stop 3 == 0 in
    let b4 = bit_and start (2 ^ 64 - 1 - s.mask) == 0 in
    let b5 = bit_and stop (2 ^ 64 - 1 - s.mask) == 0 in
    let answer : Result Bool = ok (any_overlap start stop s.head) in
    let m5 = check b5 assertion >> answer in
    let m4 = check b4 assertion >> m5 in
    let m3 = check (ltb start stop) assertion >> m4 in
    let m2 = check b2 assertion >> m3 in
    Ensures-check Q b1 assertion m2 λ _. Ensures-check Q b2 assertion m3 λ _.
      Ensures-check Q (ltb start stop) assertion m4 λ full.
        Ensures-check Q b4 assertion m5
          λ _. Ensures-check Q b5 assertion answer λ _. (ground arith, refl)

bind-IsMapped :
    (target start stop : ℕ) (s : AddrDec)
    → IsMapped s
    → Ensures (λ (r : Bool × AddrDec). IsMapped r.1) (bind target start stop s)
unfolding bind
bind-IsMapped target start stop s v =
    Ensures-bind _ _ (check_range start stop s) _ (check_range_checked start stop s) extended
  where
    extended :
        (conflict : Bool)
        → (start < stop) × (conflict ≡ any_overlap start stop s.head)
        → Ensures
            (λ (r : Bool × AddrDec). IsMapped r.1)
            (if conflict
              then ok (true, s)
              else ok (
                false,
                record s {
                  head = record { start = start; stop = stop; target = target } ∷ s.head;
                  num_slaves = s.num_slaves + 1;
                },
              ))
    extended true h = v
    extended false h = record {
      apart = (any_overlap-Separate start stop target s.head v.filled (sym h.1), v.apart);
      filled = (h.0, v.filled);
    }

slave_b_transport-IsMapped :
    (address : ℕ) (s : AddrDec) → IsMapped s → IsMapped (slave_b_transport address s).1
unfolding slave_b_transport
slave_b_transport-IsMapped address s v = record {
  apart = searched-Apart (bit_and address s.mask) s.head v.apart;
  filled = searched-All Filled (bit_and address s.mask) s.head v.filled;
}

-- The states of a decoder: built, then bound to slaves and accessed in any order.
pub data Reach (mask : ℕ) : AddrDec → Type 0 where
  start : Reach mask (new mask)
  bound :
      {s t : AddrDec} {refused : Bool} (target first stop : ℕ)
      → Reach mask s
      → bind target first stop s ≡ ok (refused, t)
      → Reach mask t
  accessed : {s : AddrDec} (address : ℕ) → Reach mask s → Reach mask (slave_b_transport address s).1

-- In every reachable state of the decoder no two ranges of its chain share an address, and none
-- is empty.
pub Reach-IsMapped : {mask : ℕ} {s : AddrDec} → Reach mask s → IsMapped s
unfolding new
Reach-IsMapped start = record { apart = tt; filled = tt }
Reach-IsMapped (bound {s = s} target first stop r e) =
    Ensures-ok _ (bind-IsMapped target first stop s (Reach-IsMapped r)) e
Reach-IsMapped (accessed {s = s} address r) =
    slave_b_transport-IsMapped address s (Reach-IsMapped r)

-- In every reachable state, an access that was made before does not change where an address is
-- forwarded, although it moves a range to the head of the chain.
pub forward-accessed :
    {mask : ℕ} {s : AddrDec} (address before : ℕ)
    → Reach mask s
    → (slave_b_transport address (slave_b_transport before s).1).0 ≡ (slave_b_transport address s).0
unfolding slave_b_transport
forward-accessed {s = s} address before r = ap (forwarded_to address) (
    find_range-searched (bit_and address s.mask) (bit_and before s.mask) s.head
      (Reach-IsMapped r).apart)

-- In every reachable state, an address of 64 bits whose masked value lies in a range of the chain
-- is forwarded to the target of that range. The address inside the target is the offset of the
-- masked value in the range plus the bits of the address outside the mask, which the decoder
-- leaves in.
pub forward_inner :
    {mask : ℕ} {s : AddrDec} (address : ℕ) (r : Range)
    → Reach mask s
    → address < 2 ^ 64
    → s.mask < 2 ^ 64
    → In r s.head
    → within (bit_and address s.mask) r ≡ true
    → (slave_b_transport address s).0
      ≡ some (r.target, (bit_and address s.mask - r.start) + bit_and address (2 ^ 64 - 1 - s.mask))
unfolding slave_b_transport
forward_inner {s = s} address r reach ha hm i hit =
    let masked = bit_and address s.mask in
    let found = find_range_lem masked s.head r (Reach-IsMapped reach).apart i hit in
    let low : r.start ≤ masked = ground arith in
    ap (forwarded_to address) found
    ∙ ap (λ (inner : ℕ). some (r.target, inner))
        (omega (arith, bit_and-split 64 address s.mask ha hm))

abbrev Bound : ℕ → ℕ → ℕ → AddrDec → Bool × AddrDec → Type 0
Bound target first stop s r =
    r.0 ≡ false
    → (r.1.mask ≡ s.mask) × In (record { start = first; stop = stop; target = target }) r.1.head

bind-Bound :
    (target first stop : ℕ) (s : AddrDec)
    → Ensures (Bound target first stop s) (bind target first stop s)
unfolding bind
bind-Bound target first stop s =
    Ensures-bind _ _ (check_range first stop s) _ (check_range_checked first stop s)
      λ conflict _. answered conflict
  where
    answered :
        (conflict : Bool)
        → Ensures (Bound target first stop s) (
            if conflict
            then ok (true, s)
            else ok (
              false,
              record s {
                head = record { start = first; stop = stop; target = target } ∷ s.head;
                num_slaves = s.num_slaves + 1;
              },
            ))
    answered true = λ e. cc
    answered false = λ e. (refl, inl refl)

-- After a binding that is accepted in a reachable state, every address of the range that the mask
-- leaves alone is forwarded to the new slave, at its offset in the range.
pub forward-bind :
    {mask : ℕ} {s t : AddrDec} (target first stop address : ℕ)
    → Reach mask s
    → bind target first stop s ≡ ok (false, t)
    → first ≤ address
    → address < stop
    → stop ≤ 2 ^ 64
    → bit_and address s.mask ≡ address
    → (slave_b_transport address t).0 ≡ some (target, address - first)
unfolding slave_b_transport
forward-bind {s = s} {t} target first stop address reach e lo hi top inside =
    let r : Range = record { start = first; stop = stop; target = target } in
    let (same_mask, in_head) =
      Ensures-ok (Bound target first stop s) (bind-Bound target first stop s) e refl in
    let found =
      find_range_lem (bit_and address t.mask) t.head r
        (Reach-IsMapped (bound target first stop reach e)).apart in_head (ground arith) in
    ap (forwarded_to address) found ∙ ap (λ (inner : ℕ). some (target, inner)) (omega arith)
