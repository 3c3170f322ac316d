-- ===== src/Peripheral/Keeps.antt =====
-- What the methods of a block keep is kept by its socket.
use open_socemu.Base.{ℕ, ◌^◌, ◌<◌, Ensures, Ensures-bind, Ensures-after, if_both}
use open_socemu.Tlm.{Payload, is_read, word_sanity}
use open_socemu.Peripheral.{Registers, slave_b_transport}

-- The two methods lead from P to Q, where a written word is a word.
pub record IsKept {ℓ κ} {S : Type ℓ} (P Q : S → Type κ) (r : Registers S) : Type (ℓ ⊔ κ) where
  pub reads : (offset : ℕ) (s : S) → P s → Ensures (λ (v, s'). Q s') (r.reg_rd offset s)
  pub writes :
      (offset value : ℕ) (s : S) → P s → value < 2 ^ 32 → Ensures Q (r.reg_wr offset value s)

pub transport-keeps {ℓ κ} :
    {S : Type ℓ} (P Q : S → Type κ) (r : Registers S) (t : Payload) (s : S)
    → IsKept P Q r
    → P s
    → t.data_word < 2 ^ 32
    → Ensures (λ (t', s'). Q s') (slave_b_transport r t s)
unfolding slave_b_transport
transport-keeps P Q r t s kept p h =
    Ensures-after (λ (t', s'). Q s') (word_sanity t) _
      λ _.
        if_both (Ensures (λ (t', s'). Q s')) (is_read t.command)
          (λ _.
            Ensures-bind (λ (v, s'). Q s') (λ (t', s'). Q s') _ _ (kept.reads _ s p)
              (λ (v, s') q. q))
          (λ _. Ensures-bind Q (λ (t', s'). Q s') _ _ (kept.writes _ _ s p h) (λ s' q. q))
