-- ===== src/IntOr/Levels.antt =====
-- What the gate's line says of the levels that its masters sent.
use open_socemu.Base.{
  ℕ, ◌^◌, ◌<◌, ◌≤◌, ◌≡◌, refl, sym, ◌∙◌, Bool, false, ◌==◌, ltb, nonzero, update, ok, Ensures,
  Ensures-ok, Ensures-check, assertion, arith, Bool-cases, inl, inr,
}
use open_socemu.Base.Search.{any_below, any_below_sound, any_below_complete, any_below_ext}
use open_socemu.Base.Bits.{test_bit, test_bit-zero}
use open_socemu.Base.Masks.{
  test_bit-raise_bit, test_bit-drop_bit, raise_bit-lt, drop_bit-lt, nonzero-any_below,
}
use open_socemu.IntOr.{IntOr, new, add, int_s_b_transport}

-- The states that the gate can reach, each with the level that every master sent last; a master
-- that sent nothing counts as low.
pub data Reach : IntOr → (ℕ → Bool) → Type 0 where
  start : Reach new (λ _. false)
  added : {s t : IntOr} {level : ℕ → Bool} → Reach s level → add s ≡ ok t → Reach t level
  sent :
      {s t : IntOr} {level : ℕ → Bool} (id value : ℕ)
      → Reach s level
      → int_s_b_transport id value s ≡ ok t
      → Reach t (update level id (value == 1))

-- The bits of the mask are the levels, and the line is high when one of them is set.
pub record IsGate (level : ℕ → Bool) (s : IntOr) : Type 0 where
  pub word : s.or < 2 ^ 32
  pub few : s.master_num ≤ 32
  pub bits : (i : ℕ) → i < 32 → test_bit s.or i ≡ level i
  pub unused : (i : ℕ) → s.master_num ≤ i → level i ≡ false
  pub output : s.line ≡ nonzero s.or

add-IsGate : (level : ℕ → Bool) (s : IntOr) → IsGate level s → Ensures (IsGate level) (add s)
unfolding add
add-IsGate level s g = Ensures-check (IsGate level) (ltb s.master_num 32) assertion _ λ room.
    record {
      word = g.word;
      few = ground arith;
      bits = g.bits;
      unused = λ i h. g.unused i (omega arith);
      output = g.output;
    }

transport-IsGate :
    (id value : ℕ) (level : ℕ → Bool) (s : IntOr)
    → IsGate level s
    → Ensures (IsGate (update level id (value == 1))) (int_s_b_transport id value s)
unfolding int_s_b_transport
transport-IsGate id value level s g =
    Ensures-check (IsGate (update level id (value == 1))) (ltb id s.master_num) assertion _ λ known.
      let small : id < 32 = ground (arith, g.few) in
      elim (Bool-cases (value == 1)) [
        | inl on ↦ rw on (record {
          word = raise_bit-lt s.or id g.word small;
          few = g.few;
          bits = λ i h. ground (arith, test_bit-raise_bit s.or id i, g.bits i h);
          unused = λ i h. ground (arith, g.unused i h);
          output = refl;
        })
        | inr off ↦ rw off (record {
          word = drop_bit-lt s.or id g.word;
          few = g.few;
          bits = λ i h. ground (arith, test_bit-drop_bit s.or id i g.word small, g.bits i h);
          unused = λ i h. ground (arith, g.unused i h);
          output = refl;
        })
      ]

Reach-IsGate : {s : IntOr} {level : ℕ → Bool} → Reach s level → IsGate level s
unfolding new
Reach-IsGate start = record {
  word = omega arith;
  few = omega arith;
  bits = λ i h. test_bit-zero i;
  unused = λ i h. refl;
  output = refl;
}
Reach-IsGate (added {s = s} {level = level} r e) =
    Ensures-ok (IsGate level) (add-IsGate level s (Reach-IsGate r)) e
Reach-IsGate (sent {s = s} {level = level} id value r e) =
    Ensures-ok (IsGate (update level id (value == 1)))
      (transport-IsGate id value level s (Reach-IsGate r)) e

-- In every reachable state of the gate its line is high exactly when the level that one of its
-- masters sent last is high.
pub line-any_level :
    {s : IntOr} {level : ℕ → Bool} → Reach s level → s.line ≡ any_below s.master_num level
line-any_level {s = s} {level = level} r =
    let g = Reach-IsGate r in
    g.output
    ∙ nonzero-any_below s.or g.word
    ∙ any_below_ext 32 _ _ g.bits
    ∙ narrow 32 s.master_num level g.few g.unused
  where
    narrow :
        (n m : ℕ) (p : ℕ → Bool)
        → m ≤ n
        → ((i : ℕ) → m ≤ i → p i ≡ false)
        → any_below n p ≡ any_below m p
    narrow n m p le clear = elim (Bool-cases (any_below n p)) [
      | inl hit ↦
          (let (i, below, on) = any_below_sound n p hit in
            let inside : i < m = ground (arith, clear i) in
            hit ∙ sym (any_below_complete m p i inside on))
      | inr miss ↦ elim (Bool-cases (any_below m p)) [
        | inl hit ↦
            (let (i, below, on) = any_below_sound m p hit in
              ground (arith, any_below_complete n p i (omega arith) on))
        | inr none_set ↦ miss ∙ sym none_set
      ]
    ]
