-- ===== src/CpuBase/Cache.antt =====
-- The cache of decoded instructions against a thread that decodes each time.
use open_socemu.Base.{
  ℕ, zero, suc, ◌≡◌, Bool, if◌then◌else◌, Option, some, Result, ok, fault, ◌>>=◌, Ensures,
}
use open_socemu.CpuBase.{Methods, Running}

module _ {Insn Core : Type 0} (m : Methods Insn Core) where
  -- The thread without a cache.
  unfoldable pub exec_decoded : Core → Result Core
  exec_decoded c = do (insn, d) ← m.decode_insn c; m.exec_insn insn d

  unfoldable pub plain_round : Core → Result Core
  plain_round c = do
    d ← m.fetch_insn c
    (pending, e) ← m.handle_exception d
    if pending then ok e else (do
      (resume, f) ← m.before_exec_insn (m.get_pc e) e
      if resume then exec_decoded f else ok f)

  unfoldable pub plain_rounds : ℕ → Core → Result Core
  plain_rounds zero c = ok c
  plain_rounds (suc n) c = plain_round c >>= plain_rounds n

  -- In the states of the set, which no method leaves, the decoder ends without a fault, changes nothing,
  -- and gives the handler that belongs to the program counter, whatever else the state is. A debugger
  -- that moves the program counter between the fetch and the decoder breaks this, because the word
  -- fetched before is decoded for the new program counter.
  pub record IsSteady (In : Core → Type 0) (meaning : ℕ → Insn) : Type 0 where
    pub fetch : (c : Core) → In c → Ensures In (m.fetch_insn c)
    pub exception : (c : Core) → In c → Ensures (λ (r : Bool × Core). In r.1) (m.handle_exception c)
    pub before :
        (pc : ℕ) (c : Core) → In c → Ensures (λ (r : Bool × Core). In r.1) (m.before_exec_insn pc c)
    pub exec : (insn : Insn) (c : Core) → In c → Ensures In (m.exec_insn insn c)
    pub decode : (c : Core) → In c → m.decode_insn c ≡ ok (meaning (m.get_pc c), c)

  module _ (In : Core → Type 0) (meaning : ℕ → Insn) (steady : IsSteady In meaning) where
    -- Every handler in the cache is the one that the decoder gives.
    abbrev pub IsCurrent : (ℕ → Option Insn) → Type 0
    IsCurrent insncache = (pc : ℕ) (insn : Insn) → insncache pc ≡ some insn → insn ≡ meaning pc

    -- Both end in the same state, with a cache that is current, or in the same fault.
    abbrev Agrees : Result (Running m) → Result Core → Type 0
    Agrees (ok (insncache, c)) (ok d) = IsCurrent insncache × (c ≡ d) × In c
    Agrees (ok r) (fault e) = ⊥
    Agrees (fault e) (ok d) = ⊥
    Agrees (fault e) (fault e') = e ≡ e'
