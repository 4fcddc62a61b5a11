-- ===== src/Tests/Curve.antt =====
-- The exchange of X25519 keys, with a stand-in for the curve.
use fish.Common.{ℕ, ◌+◌, ◌*◌, ◌%◌, ◌≡◌, ap, arith, [], ◌∷◌, ◌++◌, Bytes, replicate}
use fish.Crypto.X25519.{Curve, IsCurve}
use native.Mathlib.Nat.{mul_comm, mul-zero}

-- The sum of the bytes, each without its top bit.
abbrev weight : Bytes → ℕ
weight [] = 0
weight (c ∷ s) = c % 128 + weight s

abbrev pub curve : Curve
curve = record { public_key = λ k. k; diffie_hellman = λ a u. replicate 32 (weight a * weight u) }

weight-masks : (s : Bytes) (c : ℕ) → weight (s ++ ((c + 128) ∷ [])) ≡ weight (s ++ (c ∷ []))
weight-masks [] c = omega arith
weight-masks (x ∷ s) c = ap (λ n. x % 128 + n) (weight-masks s c)

pub curve-IsCurve : IsCurve curve
curve-IsCurve = record {
  agrees = λ a b _ _. ap (λ n. replicate 32 n) (mul_comm (weight a) (weight b));
  masks = λ a s c _ _ _. ap (λ n. replicate 32 (weight a * n)) (weight-masks s c);
  zero_point = λ a _. ap (λ n. replicate 32 n) (mul-zero (weight a));
}

abbrev pub key : Bytes
key = replicate 32 65

abbrev pub other_key : Bytes
other_key = replicate 32 66
