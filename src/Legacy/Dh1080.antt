-- ===== src/Legacy/Dh1080.antt =====
-- fish_11_dll/src/crypto/dh1080.rs: the key exchange of FiSH 10. The big numbers of num_bigint, the
-- base64 and the hash are parameters; the random private key is an argument.
pub mod Powers
pub mod Agreement
use fish.Common.{
  ℕ, ◌+◌, ◌*◌, ◌-◌, ◌%◌, ◌^◌, ◌<◌, ◌≤◌, ◌≡◌, ◌==◌, Bool, true, false, not, ◌||◌, List, [], ◌∷◌,
  ◌++◌, Option, none, some, Bytes, if◌then◌else◌, length, ltb, leb, replicate, All,
}
use fish.Errors.{Result, ok, err, DllError}

pub record Crates : Type 0 where
  pub base64_encode : Bytes → Bytes
  pub base64_decode : Bytes → Option Bytes
  pub sha256 : Bytes → Bytes
  pub from_bytes_be : Bytes → ℕ
  pub to_bytes_be : ℕ → Bytes
  pub modpow : ℕ → ℕ → ℕ → ℕ

abbrev pub has_padding : Bytes → Bool
has_padding [] = false
has_padding (c ∷ s) = (c == b'=') || has_padding s

pub record IsCrates (crates : Crates) : Type 0 where
  -- Bytes in threes are written without '='.
  pub base64_whole : (s : Bytes) → length s % 3 ≡ 0 → has_padding (crates.base64_encode s) ≡ false
  pub length-base64_encode :
      (s : Bytes) → length s % 3 ≡ 0 → length (crates.base64_encode s) % 4 ≡ 0
  pub base64_decode-encode : (s : Bytes) → crates.base64_decode (crates.base64_encode s) ≡ some s
  pub from_bytes_be-to_bytes_be : (n : ℕ) → crates.from_bytes_be (crates.to_bytes_be n) ≡ n
  pub from_bytes_be-zero : (s : Bytes) → crates.from_bytes_be (0 ∷ s) ≡ crates.from_bytes_be s
  pub length-to_bytes_be : (n : ℕ) → n < 2 ^ 1080 → length (crates.to_bytes_be n) ≤ 135
  pub modpow_lem : (b e m : ℕ) → crates.modpow b e m ≡ b ^ e % m

-- The prime, written in decimals.
unfoldable pub dh1080_prime : ℕ
dh1080_prime =
    12745216229761186769575009943944198619149164746831579719941140425076456621824834322853258804883232842877311723249782818608677050956745409379781245497526069657222703636504651898833151008222772087491045206203033063108075098874712912417029101508315117935752962862335062591404043092163187352352197487303798807791605274487594646923

abbrev pub dh1080_generator : ℕ
dh1080_generator = 2

-- `filter(|&c| c != '=')`.
unfoldable pub without_padding : Bytes → Bytes
without_padding [] = []
without_padding (c ∷ s) = let rest = without_padding s in if c == b'=' then rest else c ∷ rest

-- The text without a last 'A', if it ends in one.
unfoldable pub pop_marker : Bytes → Bytes
pop_marker [] = []
pop_marker (c ∷ []) = if c == b'A' then [] else c ∷ []
pop_marker (c ∷ d ∷ s) = c ∷ pop_marker (d ∷ s)

-- `while s.len() % 4 != 0`.
unfoldable pub with_padding : Bytes → Bytes
with_padding s = s ++ replicate ((4 - length s % 4) % 4) b'='

-- Zeros in front, up to 135 bytes.
unfoldable pub padded_key : Bytes → Bytes
padded_key bytes =
    if ltb (length bytes) 135 then replicate (135 - length bytes) 0 ++ bytes else bytes

-- Below 2, or from the prime less one on.
unfoldable pub is_degenerate : ℕ → Bool
is_degenerate n = ltb n 2 || leb (dh1080_prime - 1) n

module _ (crates : Crates) where
  open crates use {base64_encode, base64_decode, sha256, from_bytes_be, to_bytes_be, modpow}

  pub dh1080_base64_encode : Bytes → Bytes
  unfolding without_padding
  dh1080_base64_encode bytes = without_padding (base64_encode bytes) ++ (b'A' ∷ [])

  unfoldable pub dh1080_base64_decode : Bytes → Result Bytes DllError
  unfolding pop_marker with_padding
  dh1080_base64_decode b64 =
      if length b64 == 0
      then err DllError.legacy_error
      else elim (base64_decode (with_padding (pop_marker b64))) [
        | none ↦ err DllError.legacy_error
        | some bytes ↦ ok bytes
      ]

  -- The public key of `generate_dh1080_keypair`, for the private key that it drew.
  pub public_key_of : ℕ → Bytes
  unfolding padded_key dh1080_base64_encode
  public_key_of private_key =
      dh1080_base64_encode
        (padded_key (to_bytes_be (modpow dh1080_generator private_key dh1080_prime)))

  unfoldable pub compute_dh1080_shared_secret : ℕ → Bytes → Result Bytes DllError
  unfolding dh1080_base64_decode padded_key without_padding is_degenerate
  compute_dh1080_shared_secret private_key other_public_key =
      elim (dh1080_base64_decode other_public_key) [
        | err e ↦ err e
        | ok other_pub_bytes ↦
            let other_pub = from_bytes_be other_pub_bytes in
            if is_degenerate other_pub
            then err DllError.legacy_error
            else ok (
                without_padding (
                  base64_encode (
                    sha256 (padded_key (to_bytes_be (modpow other_pub private_key dh1080_prime))))))
      ]
