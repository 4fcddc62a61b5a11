-- ===== src/Tests/Dh1080.antt =====
-- The key exchange of FiSH 10, with small stand-ins for the crates.
use fish.Common.{ℕ, ◌+◌, ◌-◌, ◌%◌, ◌^◌, ◌≡◌, refl, arith, false, [], ◌∷◌, some, Bytes, length}
use fish.Errors.{ok}
use fish.Legacy.Dh1080.{
  Crates, IsCrates, has_padding, dh1080_prime, compute_dh1080_shared_secret, public_key_of,
}
use fish.Legacy.Dh1080.Agreement.{power_of, compute_dh1080_shared_secret_agrees}

-- Three bytes become four symbols, all of them above the code of '='.
abbrev pub encode : Bytes → Bytes
encode [] = []
encode (a ∷ []) = (a + 100) ∷ []
encode (a ∷ b ∷ []) = (a + 100) ∷ (b + 100) ∷ []
encode (a ∷ b ∷ c ∷ s) = (a + 100) ∷ (b + 100) ∷ (c + 100) ∷ 100 ∷ encode s

abbrev decode : Bytes → Bytes
decode [] = []
decode (a ∷ []) = (a - 100) ∷ []
decode (a ∷ b ∷ []) = (a - 100) ∷ (b - 100) ∷ []
decode (a ∷ b ∷ c ∷ []) = []
decode (a ∷ b ∷ c ∷ d ∷ s) = (a - 100) ∷ (b - 100) ∷ (c - 100) ∷ decode s

decode-encode : (s : Bytes) → decode (encode s) ≡ s
decode-encode [] = refl
decode-encode (a ∷ []) = ground arith
decode-encode (a ∷ b ∷ []) = ground arith
decode-encode (a ∷ b ∷ c ∷ s) = ground (arith, decode-encode s)

encode_plain : (s : Bytes) → has_padding (encode s) ≡ false
encode_plain [] = refl
encode_plain (a ∷ []) = ground arith
encode_plain (a ∷ b ∷ []) = ground arith
encode_plain (a ∷ b ∷ c ∷ s) = ground (arith, encode_plain s)

length-encode : (s : Bytes) → length s % 3 ≡ 0 → length (encode s) % 4 ≡ 0
length-encode [] h = refl
length-encode (a ∷ []) h = ground arith
length-encode (a ∷ b ∷ []) h = ground arith
length-encode (a ∷ b ∷ c ∷ s) h = let rest = length-encode s (omega arith) in omega arith

-- A number is one digit, and the value of a text is the sum of its digits.
abbrev sum : Bytes → ℕ
sum [] = 0
sum (c ∷ s) = c + sum s

abbrev pub stand_ins : Crates
stand_ins = record {
  base64_encode = encode;
  base64_decode = λ s. some (decode s);
  sha256 = λ s. s;
  from_bytes_be = sum;
  to_bytes_be = λ n. n ∷ [];
  modpow = λ b e m. b ^ e % m;
}

stand_ins-IsCrates : IsCrates stand_ins
stand_ins-IsCrates = record {
  base64_whole = λ s h. encode_plain s;
  length-base64_encode = length-encode;
  base64_decode-encode = λ s. ground (arith, decode-encode s);
  from_bytes_be-to_bytes_be = λ n. omega arith;
  from_bytes_be-zero = λ s. omega arith;
  length-to_bytes_be = λ n h. omega arith;
  modpow_lem = λ b e m. refl;
}

compute_dh1080_shared_secret_agrees_example :
    (secret : Bytes) × (compute_dh1080_shared_secret stand_ins 2 (public_key_of stand_ins 1)
      ≡ ok secret)
    × (compute_dh1080_shared_secret stand_ins 1 (public_key_of stand_ins 2) ≡ ok secret)
unfolding power_of dh1080_prime
compute_dh1080_shared_secret_agrees_example =
    compute_dh1080_shared_secret_agrees stand_ins stand_ins-IsCrates 1 2 (omega arith) (omega arith)
      (omega arith) (omega arith)
