-- ===== src/BusSlave/Access.antt =====
-- What a write to a slave with memory leaves for the reads after it.
use open_socemu.Base.{
  subst, ℕ, ◌+◌, ◌-◌, ◌*◌, ◌/◌, ◌%◌, ◌^◌, ◌<◌, ◌≤◌, ◌≡◌, refl, sym, ap, ◌∙◌, ◌⊎◌, inl, inr, true,
  ◌==◌, ltb, leb, bit_and, update, ok, assertion, report_fatal, Ensures, Ensures-ok, Ensures-check,
  Ensures-bind, ==_iff, if_both, arith, Bool-cases,
}
use open_socemu.Base.Masks.{bit_and_low}
use open_socemu.Base.Fields.{extract, insert, extract-insert, extract-insert_apart}
use open_socemu.BusSlave.{
  BusSlave, Command, read_command, write_command, length_mask, lanes, slave_b_transport,
}

-- An access of 1, 2 or 4 bytes inside one word of a slave of the given size.
pub record IsAccess (length addr size : ℕ) : Type 0 where
  pub width : (length ≡ 1) ⊎ ((length ≡ 2) ⊎ (length ≡ 4))
  pub bound : addr / 4 < size / 4
  pub within : addr % 4 + length ≤ 4

mask-ones :
    (length : ℕ)
    → (length ≡ 1) ⊎ ((length ≡ 2) ⊎ (length ≡ 4))
    → length_mask length ≡ ok (2 ^ (8 * length) - 1)
unfolding length_mask
mask-ones length (inl e) = subst (λ n. length_mask n ≡ ok (2 ^ (8 * n) - 1)) (sym e) refl
mask-ones length (inr (inl e)) = subst (λ n. length_mask n ≡ ok (2 ^ (8 * n) - 1)) (sym e) refl
mask-ones length (inr (inr e)) = subst (λ n. length_mask n ≡ ok (2 ^ (8 * n) - 1)) (sym e) refl

lanes-IsAccess :
    (length addr size : ℕ)
    → IsAccess length addr size
    → lanes length addr size ≡ ok (2 ^ (8 * length) - 1, addr % 4 * 8)
unfolding lanes
lanes-IsAccess length addr size a =
    let low : bit_and addr 3 ≡ addr % 4 = bit_and_low 2 addr in
    let pos : 0 < length = elim a.width [
      | inl e ↦ omega arith
      | inr f ↦ elim f [ inl e ↦ omega arith | inr e ↦ omega arith ]
    ] in
    let c1 : leb length 4 ≡ true = ground (arith, a.within) in
    let c2 : ltb 0 length ≡ true = ground arith in
    let c3 : ltb (addr / 4) (size / 4) ≡ true = ground (arith, a.bound) in
    let c4 : leb length (4 - addr % 4) ≡ true = ground (arith, a.within) in
    rw (low, c1, c2, c3, c4, mask-ones length a.width) refl

-- The slave after a write.
abbrev pub written : ℕ → ℕ → ℕ → BusSlave → BusSlave
written length addr ptr s = record s {
  words =
      update s.words (addr / 4)
        (insert (s.words (addr / 4)) (2 ^ (8 * length) - 1) (addr % 4 * 8) ptr);
}

write-IsAccess :
    (length addr ptr : ℕ) (s : BusSlave)
    → IsAccess length addr s.size
    → slave_b_transport write_command length addr ptr s ≡ ok (ptr, written length addr ptr s)
unfolding slave_b_transport
write-IsAccess length addr ptr s a = rw (lanes-IsAccess length addr s.size a) refl

pub read-IsAccess :
    (length addr ptr : ℕ) (s : BusSlave)
    → IsAccess length addr s.size
    → slave_b_transport read_command length addr ptr s
      ≡ ok (extract (s.words (addr / 4)) (2 ^ (8 * length) - 1) (addr % 4 * 8), s)
unfolding slave_b_transport
read-IsAccess length addr ptr s a = rw (lanes-IsAccess length addr s.size a) refl

extract-written :
    (length addr value : ℕ) (s : BusSlave)
    → IsAccess length addr s.size
    → extract ((written length addr value s).words (addr / 4)) (2 ^ (8 * length) - 1) (addr % 4 * 8)
      ≡ value % 2 ^ (8 * length)
extract-written length addr value s a =
    let here : (addr / 4 == addr / 4) ≡ true = ground arith in
    let fits : addr % 4 * 8 + 8 * length ≤ 32 = omega (arith, a.within) in
    rw here (extract-insert (s.words (addr / 4)) (8 * length) (addr % 4 * 8) value fits)

extract-written_apart :
    (length addr value length' addr' : ℕ) (s : BusSlave)
    → IsAccess length addr s.size
    → IsAccess length' addr' s.size
    → (addr' + length' ≤ addr) ⊎ (addr + length ≤ addr')
    → extract
        ((written length addr value s).words (addr' / 4))
        (2 ^ (8 * length') - 1)
        (addr' % 4 * 8)
      ≡ extract (s.words (addr' / 4)) (2 ^ (8 * length') - 1) (addr' % 4 * 8)
extract-written_apart length addr value length' addr' s a a' apart =
    elim (Bool-cases (addr' / 4 == addr / 4)) [
      | inr other ↦ rw other refl
      | inl word ↦
          (let same : addr' / 4 ≡ addr / 4 = (==_iff _ _).0 word in
            let fits : addr % 4 * 8 + 8 * length ≤ 32 = omega (arith, a.within) in
            let fits' : addr' % 4 * 8 + 8 * length' ≤ 32 = omega (arith, a'.within) in
            let fields : (addr' % 4 * 8 + 8 * length' ≤ addr % 4 * 8)
                ⊎ (addr % 4 * 8 + 8 * length ≤ addr' % 4 * 8) =
              elim apart [ inl below ↦ inl (omega arith) | inr above ↦ inr (omega arith) ] in
            rw word (
              extract-insert_apart (s.words (addr / 4)) (8 * length) (addr % 4 * 8) value
                (8 * length') (addr' % 4 * 8) fits fits' fields
              ∙ ap (λ i. extract (s.words i) (2 ^ (8 * length') - 1) (addr' % 4 * 8)) (sym same)))
    ]

-- A write of 1, 2 or 4 bytes inside one word of the slave is accepted, and a read of the same
-- bytes after it is accepted and gives the value that was written, cut to their number.
pub slave_b_transport-write_read :
    (length addr value ptr : ℕ) (s : BusSlave)
    → IsAccess length addr s.size
    → (t : BusSlave) × (slave_b_transport write_command length addr value s ≡ ok (value, t))
      × (slave_b_transport read_command length addr ptr t ≡ ok (value % 2 ^ (8 * length), t))
slave_b_transport-write_read length addr value ptr s a = (
  written length addr value s,
  write-IsAccess length addr value s a,
  read-IsAccess length addr ptr (written length addr value s) a
      ∙ ap (λ v. ok (v, written length addr value s)) (extract-written length addr value s a),
)

-- A write of 1, 2 or 4 bytes inside one word of the slave changes no other bytes: an access of
-- bytes apart from them reads the same before and after it.
pub slave_b_transport-write_apart :
    (length addr value length' addr' ptr : ℕ) (s : BusSlave)
    → IsAccess length addr s.size
    → IsAccess length' addr' s.size
    → (addr' + length' ≤ addr) ⊎ (addr + length ≤ addr')
    → (t : BusSlave) × (v : ℕ) × (slave_b_transport write_command length addr value s
        ≡ ok (value, t))
      × (slave_b_transport read_command length' addr' ptr s ≡ ok (v, s))
      × (slave_b_transport read_command length' addr' ptr t ≡ ok (v, t))
slave_b_transport-write_apart length addr value length' addr' ptr s a a' apart = (
  written length addr value s,
  extract (s.words (addr' / 4)) (2 ^ (8 * length') - 1) (addr' % 4 * 8),
  write-IsAccess length addr value s a,
  read-IsAccess length' addr' ptr s a',
  read-IsAccess length' addr' ptr (written length addr value s) a'
      ∙ ap (λ v. ok (v, written length addr value s))
          (extract-written_apart length addr value length' addr' s a a' apart),
)

length_mask-width :
    (length : ℕ)
    → Ensures (λ (mask : ℕ). (length ≡ 1) ⊎ ((length ≡ 2) ⊎ (length ≡ 4))) (length_mask length)
unfolding length_mask
length_mask-width length =
    let P = Ensures (λ (mask : ℕ). (length ≡ 1) ⊎ ((length ≡ 2) ⊎ (length ≡ 4))) in
    if_both P (length == 1) (λ e. inl ((==_iff _ _).0 e))
      λ _.
        if_both P (length == 2) (λ e. inr (inl ((==_iff _ _).0 e)))
          λ _. if_both P (length == 4) (λ e. inr (inr ((==_iff _ _).0 e))) (λ _. tt)

lanes-accepted :
    (length addr size : ℕ)
    → Ensures (λ (field : ℕ × ℕ). IsAccess length addr size) (lanes length addr size)
unfolding lanes
lanes-accepted length addr size =
    let F : ℕ × ℕ → Type 0 = λ field. IsAccess length addr size in
    let low : bit_and addr 3 ≡ addr % 4 = bit_and_low 2 addr in
    Ensures-check F (leb length 4) assertion _ λ _. Ensures-check F (ltb 0 length) assertion _ λ _.
      Ensures-check F (ltb (addr / 4) (size / 4)) assertion _ λ inside.
        Ensures-check F (leb length (4 - bit_and addr 3)) report_fatal _ λ fits.
          Ensures-bind (λ (mask : ℕ). (length ≡ 1) ⊎ ((length ≡ 2) ⊎ (length ≡ 4))) F
            (length_mask length) _ (length_mask-width length)
            (λ mask w. record { width = w; bound = ground arith; within = ground arith })

-- The transport accepts no other access than one of 1, 2 or 4 bytes inside one word of the slave;
-- every other one ends the simulation.
pub slave_b_transport-accepted :
    (command : Command) (length addr ptr x : ℕ) (s t : BusSlave)
    → slave_b_transport command length addr ptr s ≡ ok (x, t)
    → IsAccess length addr s.size
unfolding slave_b_transport
slave_b_transport-accepted read_command length addr ptr x s t e =
    let F : ℕ × BusSlave → Type 0 = λ r. IsAccess length addr s.size in
    Ensures-ok F
      (Ensures-bind (λ (field : ℕ × ℕ). IsAccess length addr s.size) F (lanes length addr s.size) _
        (lanes-accepted length addr s.size) (λ field a. a))
      e
slave_b_transport-accepted write_command length addr ptr x s t e =
    let F : ℕ × BusSlave → Type 0 = λ r. IsAccess length addr s.size in
    Ensures-ok F
      (Ensures-bind (λ (field : ℕ × ℕ). IsAccess length addr s.size) F (lanes length addr s.size) _
        (lanes-accepted length addr s.size) (λ field a. a))
      e
