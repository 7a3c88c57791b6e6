-- ===== src/Base/Pow.antt =====
-- Powers of two, which the tactics do not read at a variable exponent.
use Prim.Native.Nat.{ℕ, zero, suc, ◌+◌, ◌*◌, ◌-◌, ◌^◌, ◌≤◌, ◌<◌}
use mathlib.Core.Path.{◌≡◌, ap, ◌∙◌, sym}
use native.Mathlib.Nat.{pow-suc, add-suc, one-le-pow, add-zero}
use native.Mathlib.Omega.{arith}

pub pow-add : (m n : ℕ) → 2 ^ (m + n) ≡ 2 ^ m * 2 ^ n
pow-add m zero = rw add-zero (omega arith)
pow-add m (suc n) = rw (add-suc m n, pow-suc 2 (m + n), pow-suc 2 n, pow-add m n) (omega arith)

pub pow-pos : (n : ℕ) → 0 < 2 ^ n
pow-pos n = one-le-pow n 2 (omega arith)

pub pow-mul-sub : (m n : ℕ) → n ≤ m → 2 ^ n * 2 ^ (m - n) ≡ 2 ^ m
pow-mul-sub m n h = sym (pow-add n (m - n)) ∙ ap (λ k. 2 ^ k) (omega arith)
