-- ===== src/Bus/Decode.antt =====
-- The address decoding of the bus.
use open_socemu.Base.{
  ℕ, ◌-◌, ◌^◌, ◌<◌, ◌≡◌, sym, ap, ◌∙◌, true, false, some, bit_and, update, ltb, arith,
}
use open_socemu.Base.Search.{
  any_below, any_below_complete, any_below_none, first_hit, first_hit_sound, first_hit_stop,
}
use open_socemu.Base.Masks.{bit_and-split}
use open_socemu.Bus.{Bus, conflicts, set_range, decode_address, compose_address}

-- Decoding a 64-bit address and composing the result again gives the address, whatever 64-bit
-- mask the target has.
pub compose-decode :
    (m address i inner : ℕ) (s : Bus)
    → address < 2 ^ 64
    → s.mask i < 2 ^ 64
    → decode_address m address s ≡ some (i, inner)
    → compose_address i inner s ≡ address
unfolding decode_address compose_address
compose-decode m address i inner s ha hm e =
    let k = first_hit (conflicts s address) m 0 in
    let below : k < m = ground arith in
    let is_k : k ≡ i = ground arith in
    let hit : conflicts s address i ≡ true =
      ap (conflicts s address) (sym is_k)
      ∙ first_hit_stop (conflicts s address) m 0 (omega arith) in
    let same : inner ≡ bit_and address (2 ^ 64 - 1 - s.mask i) = ground arith in
    let based : bit_and address (s.mask i) ≡ s.base i = ground arith in
    omega (arith, bit_and-split 64 address (s.mask i) ha hm)

-- A range that `set_range` accepts, of a 64-bit base and mask, is the one that decodes its base
-- address, at the inner address 0.
pub decode-set_range :
    (m id base mask : ℕ) (s t : Bus)
    → base < 2 ^ 64
    → mask < 2 ^ 64
    → set_range m id base mask s ≡ (false, t)
    → decode_address m base t ≡ some (id, 0)
unfolding set_range decode_address
decode-set_range m id base mask s t hb hm e =
    let below : ltb id m ≡ true = ground arith in
    let aligned : bit_and base mask ≡ base = ground arith in
    let apart : any_below m (conflicts s base) ≡ false = ground arith in
    let new_base : t.base ≡ update s.base id base = ground arith in
    let new_mask : t.mask ≡ update s.mask id mask = ground arith in
    let hit : conflicts t base id ≡ true = ground arith in
    let some_hit = any_below_complete m (conflicts t base) id (ground arith) hit in
    let (small, found) = first_hit_sound (conflicts t base) m some_hit in
    let k = first_hit (conflicts t base) m 0 in
    let only : k ≡ id = ground (arith, any_below_none m (conflicts s base) apart k small) in
    ground (arith, bit_and-split 64 base mask hb hm)
