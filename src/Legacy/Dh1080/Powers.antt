-- ===== src/Legacy/Dh1080/Powers.antt =====
-- Powers modulo a number, for the agreement of the two sides.
use Prim.Native.Nat.{ℕ, zero, suc, ◌*◌, ◌%◌, ◌^◌}
use mathlib.Core.Path.{◌≡◌, refl, sym, ap, ◌∙◌}
use native.Mathlib.Nat.{
  mul-zero, mul-suc, mul_comm, pow-zero, pow-suc, add-mod, mod-mod, mul_assoc, mul_left_comm,
}

mul-mod_left : (x y m : ℕ) → x % m * y % m ≡ x * y % m
mul-mod_left x zero m = rw (mul-zero (x % m)) (rw (mul-zero x) refl)
mul-mod_left x (suc y) m = rw (mul-suc (x % m) y) (
    rw (mul-suc x y) (
      rw (add-mod (x % m * y) (x % m) m)
        (rw (mul-mod_left x y m) (rw (mod-mod x m) (sym (add-mod (x * y) x m))))))

pub pow-mod : (x k m : ℕ) → (x % m) ^ k % m ≡ x ^ k % m
pow-mod x zero m = rw (pow-zero (x % m)) (rw (pow-zero x) refl)
pow-mod x (suc k) m = rw (pow-suc (x % m) k) (
    rw (pow-suc x k) (
      sym (mul-mod_left ((x % m) ^ k) (x % m) m)
      ∙ ap (λ z. z * (x % m) % m) (pow-mod x k m)
      ∙ mul-mod_left (x ^ k) (x % m) m
      ∙ ap (λ z. z % m) (mul_comm (x ^ k) (x % m))
      ∙ mul-mod_left x (x ^ k) m
      ∙ ap (λ z. z % m) (mul_comm x (x ^ k))))

pow_product : (x y k : ℕ) → (x * y) ^ k ≡ x ^ k * y ^ k
pow_product x y zero = rw (pow-zero (x * y)) (rw (pow-zero x) (rw (pow-zero y) refl))
pow_product x y (suc k) = rw (pow-suc (x * y) k) (
    rw (pow-suc x k) (
      rw (pow-suc y k) (
        rw (pow_product x y k) (
          mul_assoc (x ^ k) (y ^ k) (x * y)
          ∙ ap (λ z. x ^ k * z) (mul_left_comm (y ^ k) x y)
          ∙ sym (mul_assoc (x ^ k) x (y ^ k * y))))))

one_pow : (a : ℕ) → 1 ^ a ≡ 1
one_pow zero = refl
one_pow (suc a) = rw (pow-suc 1 a) (rw (one_pow a) refl)

-- Powers of powers may be taken in either order.
pub pow-pow : (g a b : ℕ) → (g ^ a) ^ b ≡ (g ^ b) ^ a
pow-pow g a zero = rw (pow-zero (g ^ a)) (rw (pow-zero g) (sym (one_pow a)))
pow-pow g a (suc b) =
    rw (pow-suc (g ^ a) b)
      (rw (pow-suc g b) (rw (pow_product (g ^ b) g a) (ap (λ z. z * g ^ a) (pow-pow g a b))))
