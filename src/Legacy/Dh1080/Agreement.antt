-- ===== src/Legacy/Dh1080/Agreement.antt =====
-- fish_11_dll/src/crypto/dh1080.rs: public keys are read back, and both sides get the same secret.
use fish.Common.{
  ℕ, zero, suc, ◌-◌, ◌%◌, ◌^◌, ◌<◌, ◌≤◌, ◌≡◌, refl, sym, ap, ◌∙◌, arith, false, ◌||◌, [], ◌∷◌, ◌++◌,
  Bytes, length, ltb, leb, replicate, length-append, length-replicate, append-nil,
}
use native.Mathlib.Nat.{mod-lt}
use fish.Errors.{ok}
use fish.Legacy.Dh1080.{
  Crates, IsCrates, has_padding, dh1080_prime, dh1080_generator, without_padding, pop_marker,
  with_padding, padded_key, dh1080_base64_encode, dh1080_base64_decode, public_key_of,
  compute_dh1080_shared_secret, is_degenerate,
}
use fish.Legacy.Dh1080.Powers.{pow-mod, pow-pow}

without_padding_plain : (s : Bytes) → has_padding s ≡ false → without_padding s ≡ s
unfolding without_padding
without_padding_plain [] h = refl
without_padding_plain (c ∷ s) h = ground (arith, without_padding_plain s)

pop_marker-append : (s : Bytes) → pop_marker (s ++ (b'A' ∷ [])) ≡ s
unfolding pop_marker
pop_marker-append [] = refl
pop_marker-append (c ∷ []) = refl
pop_marker-append (c ∷ d ∷ s) = ap (λ t. c ∷ t) (pop_marker-append (d ∷ s))

with_padding_whole : (s : Bytes) → length s % 4 ≡ 0 → with_padding s ≡ s
unfolding with_padding
with_padding_whole s h = rw (h) (append-nil s)

length-padded_key : (s : Bytes) → length s ≤ 135 → length (padded_key s) ≡ 135
unfolding padded_key
length-padded_key s h = ground (
  arith,
  length-append (replicate (135 - length s) 0) s,
  length-replicate {A = ℕ} (135 - length s) 0,
)

-- The public number of a private key.
unfoldable pub power_of : ℕ → ℕ
power_of private_key = dh1080_generator ^ private_key % dh1080_prime

module _ (crates : Crates) (laws : IsCrates crates) where
  from_bytes_be-zeros :
      (n : ℕ) (s : Bytes) → crates.from_bytes_be (replicate n 0 ++ s) ≡ crates.from_bytes_be s
  from_bytes_be-zeros zero s = refl
  from_bytes_be-zeros (suc n) s =
      laws.from_bytes_be-zero (replicate n 0 ++ s) ∙ from_bytes_be-zeros n s

  from_bytes_be-padded_key :
      (s : Bytes) → crates.from_bytes_be (padded_key s) ≡ crates.from_bytes_be s
  unfolding padded_key
  from_bytes_be-padded_key s = ground (arith, from_bytes_be-zeros (135 - length s) s)

  -- Bytes in threes are read back from the text that stands for them.
  pub dh1080_base64_decode-encode :
      (s : Bytes)
      → length s % 3 ≡ 0
      → dh1080_base64_decode crates (dh1080_base64_encode crates s) ≡ ok s
  unfolding dh1080_base64_decode dh1080_base64_encode
  dh1080_base64_decode-encode s whole =
      let t = crates.base64_encode s in
      let plain = without_padding_plain t (laws.base64_whole s whole) in
      let marked = pop_marker-append t in
      let filled = with_padding_whole t (laws.length-base64_encode s whole) in
      ground
        (arith, plain, marked, filled, laws.base64_decode-encode s, length-append t (b'A' ∷ []))

  -- The residue of a power is written in at most 135 bytes.
  prime_bounds : (0 < dh1080_prime) × (dh1080_prime < 2 ^ 1080)
  unfolding dh1080_prime
  prime_bounds = (omega arith, omega arith)

  length-public_bytes : (n : ℕ) → length (padded_key (crates.to_bytes_be (n % dh1080_prime))) ≡ 135
  length-public_bytes n =
      let small = mod-lt n {m = dh1080_prime} (prime_bounds.0) in
      length-padded_key (crates.to_bytes_be (n % dh1080_prime))
        (laws.length-to_bytes_be (n % dh1080_prime) (omega (arith, small, prime_bounds.1)))

  decoded_public_key :
      (a : ℕ)
      → dh1080_base64_decode crates (public_key_of crates a)
        ≡ ok (padded_key (crates.to_bytes_be (power_of a)))
  unfolding public_key_of power_of
  decoded_public_key a = rw (laws.modpow_lem dh1080_generator a dh1080_prime) (
      dh1080_base64_decode-encode
        (padded_key (crates.to_bytes_be (dh1080_generator ^ a % dh1080_prime)))
        (omega (arith, length-public_bytes (dh1080_generator ^ a))))

  public_number : (n : ℕ) → crates.from_bytes_be (padded_key (crates.to_bytes_be n)) ≡ n
  public_number n =
      from_bytes_be-padded_key (crates.to_bytes_be n) ∙ laws.from_bytes_be-to_bytes_be n

  pub secret_of : ℕ → Bytes
  secret_of n =
      without_padding (crates.base64_encode (crates.sha256 (padded_key (crates.to_bytes_be n))))

  computed :
      (a b : ℕ)
      → 2 ≤ power_of a
      → power_of a < dh1080_prime - 1
      → compute_dh1080_shared_secret crates b (public_key_of crates a)
        ≡ ok (secret_of (power_of a ^ b % dh1080_prime))
  unfolding compute_dh1080_shared_secret secret_of
  computed a b lo hi =
      let range : (ltb (power_of a) 2 || leb (dh1080_prime - 1) (power_of a)) ≡ false =
        ground arith in
      rw (decoded_public_key a, compute_dh1080_shared_secret)
        (rw (public_number (power_of a), compute_dh1080_shared_secret)
          (rw (laws.modpow_lem (power_of a) b dh1080_prime, compute_dh1080_shared_secret)
            (rw (range, compute_dh1080_shared_secret) refl)))

  same_power : (a b : ℕ) → power_of a ^ b % dh1080_prime ≡ power_of b ^ a % dh1080_prime
  unfolding power_of
  same_power a b =
      pow-mod (dh1080_generator ^ a) b dh1080_prime
      ∙ ap (λ n. n % dh1080_prime) (pow-pow dh1080_generator a b)
      ∙ sym (pow-mod (dh1080_generator ^ b) a dh1080_prime)

  -- Where both public numbers lie from 2 to the prime less two, each side computes a secret from its own
  -- private key and the public key of the other, and both get the same.
  pub compute_dh1080_shared_secret_agrees :
      (a b : ℕ)
      → 2 ≤ power_of a
      → power_of a < dh1080_prime - 1
      → 2 ≤ power_of b
      → power_of b < dh1080_prime - 1
      → (secret : Bytes) × (compute_dh1080_shared_secret crates b (public_key_of crates a)
          ≡ ok secret)
        × (compute_dh1080_shared_secret crates a (public_key_of crates b) ≡ ok secret)
  compute_dh1080_shared_secret_agrees a b lo hi lo' hi' = (
    secret_of (power_of a ^ b % dh1080_prime),
    computed a b lo hi,
    computed b a lo' hi' ∙ ap (λ n. ok (secret_of n)) (sym (same_power a b)),
  )

-- A secret is computed only from a public key whose number lies from 2 to the prime less two.
pub compute_dh1080_shared_secret-range :
    (crates : Crates) (private_key : ℕ) (other_public_key bytes secret : Bytes)
    → dh1080_base64_decode crates other_public_key ≡ ok bytes
    → compute_dh1080_shared_secret crates private_key other_public_key ≡ ok secret
    → (2 ≤ crates.from_bytes_be bytes) × (crates.from_bytes_be bytes < dh1080_prime - 1)
unfolding compute_dh1080_shared_secret is_degenerate
compute_dh1080_shared_secret-range crates private_key other_public_key bytes secret decoded
      computed_secret =
    ground arith
