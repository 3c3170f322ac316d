-- ===== src/Base/Store.antt =====
-- An array of C as a function of its index; the bounds are the code's own checks.
use Prim.Native.Nat.{ℕ, ◌<◌, ◌^◌}
use native.Mathlib.Omega.{arith}
use open_socemu.Base.Tests.{◌==◌, if◌then◌else◌}

abbrev pub update {ℓ} : {A : Type ℓ} → (ℕ → A) → ℕ → A → ℕ → A
update f i v = λ j. if j == i then v else f j

-- An array of 32-bit words.
abbrev pub IsWordArray : (ℕ → ℕ) → Type 0
IsWordArray f = (j : ℕ) → f j < 2 ^ 32

pub update-IsWordArray :
    (f : ℕ → ℕ) (i v : ℕ) → IsWordArray f → v < 2 ^ 32 → IsWordArray (update f i v)
update-IsWordArray f i v hf hv j = ground (arith, hf j)
