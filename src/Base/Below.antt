-- ===== src/Base/Below.antt =====
-- Facts about the numbers below a bound.
use Prim.Native.Nat.{ℕ, zero, suc, ◌<◌}
use native.Mathlib.Omega.{arith}

pub below-suc {ℓ} :
    (P : ℕ → Type ℓ) (k : ℕ) → P 0 → ((j : ℕ) → j < k → P (suc j)) → (j : ℕ) → j < suc k → P j
below-suc P k z s zero lt = z
below-suc P k z s (suc j) lt = s j (omega arith)
