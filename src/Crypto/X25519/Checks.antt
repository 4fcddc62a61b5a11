-- ===== src/Crypto/X25519/Checks.antt =====
-- fish_11_dll/src/crypto/x25519.rs: keys on their way over IRC, and what the check of them lets through.
use fish.Common.{
  ◌≡◌, refl, ◌∙◌, arith, [], ◌∷◌, ◌++◌, Bytes, length, trim, replicate, ◌==◌, true, ltb, false,
}
use fish.Env.{Env, IsEnv}
use fish.Errors.{ok}
use fish.Crypto.X25519.{
  Curve, IsCurve, validate_public_key, format_public_key, extract_public_key,
  is_valid_public_key_format, compute_shared_secret,
}

-- A key of 32 bytes that passes the check is read back from the text that format_public_key makes of
-- it, and that text is found valid, where base64 has no white space at its ends.
pub extract_public_key-format_public_key :
    (env : Env) (key : Bytes)
    → IsEnv env
    → trim (env.base64_encode key) ≡ env.base64_encode key
    → length key ≡ 32
    → validate_public_key key ≡ ok tt
    → (extract_public_key env (format_public_key env key) ≡ ok key)
      × (is_valid_public_key_format env (format_public_key env key) ≡ true)
unfolding extract_public_key is_valid_public_key_format format_public_key
extract_public_key-format_public_key env key laws tight size valid =
    let read = laws.base64_decode-encode key in
    let long : (length key == 32) ≡ true = ground (arith, size) in
    let fits : ltb (length (format_public_key env key)) 12 ≡ false = ground arith in
    (rw (tight, read, long, valid, fits) refl, rw (read, long, valid, fits) refl)

-- Two sides whose public keys pass the check compute the same secret, each from its own private key
-- and the other's public key.
pub compute_shared_secret_agrees :
    (env : Env) (curve : Curve) (a b : Bytes)
    → IsCurve curve
    → length a ≡ 32
    → length b ≡ 32
    → validate_public_key (curve.public_key a) ≡ ok tt
    → validate_public_key (curve.public_key b) ≡ ok tt
    → compute_shared_secret env curve a (curve.public_key b)
      ≡ compute_shared_secret env curve b (curve.public_key a)
unfolding compute_shared_secret
compute_shared_secret_agrees env curve a b laws size_a size_b x y =
    let same = laws.agrees a b size_a size_b in ground (arith, x, y, same)

-- The point 0 with the top bit set.
abbrev pub masked_zero : Bytes
masked_zero = replicate 31 0 ++ (128 ∷ [])

-- The check accepts the point 0 with its top bit set, which the curve ignores: any two private keys
-- compute one and the same secret from it, that of a shared secret of zeros.
pub compute_shared_secret-masked_zero :
    (env : Env) (curve : Curve) (a b : Bytes)
    → IsCurve curve
    → length a ≡ 32
    → length b ≡ 32
    → (validate_public_key masked_zero ≡ ok tt)
      × (compute_shared_secret env curve a masked_zero
          ≡ compute_shared_secret env curve b masked_zero)
unfolding validate_public_key compute_shared_secret
compute_shared_secret-masked_zero env curve a b laws size_a size_b =
    let zeros : (k : Bytes) → length k ≡ 32 → curve.diffie_hellman k masked_zero ≡ replicate 32 0 =
      λ k size. laws.masks k (replicate 31 0) 0 size refl (omega arith) ∙ laws.zero_point k size in
    (refl, rw (zeros a size_a, zeros b size_b) refl)
