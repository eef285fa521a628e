-- ===== src/Prelude/Powers.antt =====
-- Powers of two.
use Prim.Native.Nat.{ℕ, zero, suc, ◌*◌, ◌^◌, ◌≤◌, ◌<◌}
use mathlib.Core.Path.{◌≡◌}
use native.Mathlib.Nat.{pow-suc}
use native.Mathlib.Omega.{arith}

pub two_pow-suc : (k : ℕ) → 2 ^ suc k ≡ 2 ^ k * 2
two_pow-suc k = pow-suc 2 k

pub two_pow_pos : (k : ℕ) → 1 ≤ 2 ^ k
two_pow_pos zero = omega arith
two_pow_pos (suc k) = omega (arith, two_pow_pos k, two_pow-suc k)

pub lt-two_pow : (k : ℕ) → k < 2 ^ k
lt-two_pow zero = omega arith
lt-two_pow (suc k) = omega (arith, lt-two_pow k, two_pow-suc k)

pub two_pow_mono : (j k : ℕ) → j ≤ k → 2 ^ j ≤ 2 ^ k
two_pow_mono zero k h = omega (arith, two_pow_pos k)
two_pow_mono (suc j) zero h = elim h [ ]
two_pow_mono (suc j) (suc k) h =
    omega (arith, two_pow_mono j k (omega arith), two_pow-suc j, two_pow-suc k)

pub two_pow_strict : (j k : ℕ) → j < k → 2 ^ j < 2 ^ k
two_pow_strict j k h = omega (arith, two_pow_mono (suc j) k h, two_pow-suc j, two_pow_pos j)
