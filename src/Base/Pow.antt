-- ===== src/Base/Pow.antt =====
-- Powers: sums of exponents, and growth.
use Prim.Native.Nat.{ℕ, zero, suc, ◌+◌, ◌*◌, ◌^◌, ◌≤◌}
use mathlib.Core.Path.{◌≡◌}
use native.Mathlib.Omega.{arith}
use native.Mathlib.Nat.{pow-zero, pow-suc, add-zero, add-suc, mul_assoc, pow-le-pow_right}

pub pow-add : (b m n : ℕ) → b ^ (m + n) ≡ b ^ m * b ^ n
pow-add b m zero = simp (add-zero, pow-zero) (omega arith)
pow-add b m (suc n) =
    simp (add-suc, pow-suc, pow-add b m n) (omega (arith, mul_assoc (b ^ m) (b ^ n) b))

pub two_pow_mono : (m n : ℕ) → m ≤ n → 2 ^ m ≤ 2 ^ n
two_pow_mono m n h = pow-le-pow_right (omega arith) h
