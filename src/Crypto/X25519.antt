-- ===== src/Crypto/X25519.antt =====
-- fish_11_dll/src/crypto/x25519.rs: the checks of public keys and the exchange. The curve of
-- x25519_dalek is an argument with the laws of RFC 7748; the clearing of memory, the age of the pair,
-- which is only logged, and the audit log are left out.
pub mod Checks
use fish.Common.{
  ℕ, ◌+◌, ◌≡◌, ◌<◌, ◌==◌, Bool, true, false, not, ◌&&◌, ◌||◌, List, [], ◌∷◌, ◌++◌, Option, none,
  some, Bytes, codes, if◌then◌else◌, length, take, drop, ltb, same_list, trim, replicate,
}
use fish.Env.{Env}
use fish.Errors.{Result, ok, err, FishError}
use fish.Config.Access.{M, Outcome, ret, fail, blocked, ◌>>=◌, lift}
use fish.Config.Models.{FishConfig}
use fish.Config.Keys.{set_key}
use fish.Config.Manual.{get_keypair}

-- `PublicKey::from(&secret)` and `diffie_hellman`, of 32 bytes each.
pub record Curve : Type 0 where
  pub public_key : Bytes → Bytes
  pub diffie_hellman : Bytes → Bytes → Bytes

-- The two sides agree; the top bit of the 32nd byte is ignored; the point 0 is taken to 0.
pub record IsCurve (curve : Curve) : Type 0 where
  pub agrees :
      (a b : Bytes)
      → length a ≡ 32
      → length b ≡ 32
      → curve.diffie_hellman a (curve.public_key b) ≡ curve.diffie_hellman b (curve.public_key a)
  pub masks :
      (a s : Bytes) (c : ℕ)
      → length a ≡ 32
      → length s ≡ 31
      → c < 128
      → curve.diffie_hellman a (s ++ ((c + 128) ∷ [])) ≡ curve.diffie_hellman a (s ++ (c ∷ []))
  pub zero_point :
      (a : Bytes) → length a ≡ 32 → curve.diffie_hellman a (replicate 32 0) ≡ replicate 32 0

-- In the order of the source.
abbrev low_order_points : List Bytes
low_order_points =
    replicate 32 0
    ∷ (0x01 ∷ replicate 31 0)
    ∷ (0xe0 ∷ 0xeb ∷ 0x7a ∷ 0x7c ∷ 0x3b ∷ 0x41 ∷ 0xb8 ∷ 0xae ∷ 0x16 ∷ 0x56 ∷ 0xe3 ∷ 0xfa ∷ 0xf1
        ∷ 0x9f ∷ 0xc4 ∷ 0x6a ∷ 0xda ∷ 0x09 ∷ 0x8d ∷ 0xeb ∷ 0x9c ∷ 0x32 ∷ 0xb1 ∷ 0xfd ∷ 0x86 ∷ 0x62
        ∷ 0x05 ∷ 0x16 ∷ 0x5f ∷ 0x49 ∷ 0xb8 ∷ 0x00 ∷ [])
    ∷ (0x5f ∷ 0x9c ∷ 0x95 ∷ 0xbc ∷ 0xa3 ∷ 0x50 ∷ 0x8c ∷ 0x24 ∷ 0xb1 ∷ 0xd0 ∷ 0xb1 ∷ 0x55 ∷ 0x9c
        ∷ 0x83 ∷ 0xef ∷ 0x5b ∷ 0x04 ∷ 0x44 ∷ 0x5c ∷ 0xc4 ∷ 0x58 ∷ 0x1c ∷ 0x8e ∷ 0x86 ∷ 0xd8 ∷ 0x22
        ∷ 0x4e ∷ 0xdd ∷ 0xd0 ∷ 0x9f ∷ 0x11 ∷ 0x57 ∷ [])
    ∷ (0xec ∷ (replicate 30 0xff ++ (0x7f ∷ [])))
    ∷ (0xed ∷ (replicate 30 0xff ++ (0x7f ∷ [])))
    ∷ (0xee ∷ (replicate 30 0xff ++ (0x7f ∷ [])))
    ∷ (0xcd ∷ 0xeb ∷ 0x7a ∷ 0x7c ∷ 0x3b ∷ 0x41 ∷ 0xb8 ∷ 0xae ∷ 0x16 ∷ 0x56 ∷ 0xe3 ∷ 0xfa ∷ 0xf1
        ∷ 0x9f ∷ 0xc4 ∷ 0x6a ∷ 0xda ∷ 0x09 ∷ 0x8d ∷ 0xeb ∷ 0x9c ∷ 0x32 ∷ 0xb1 ∷ 0xfd ∷ 0x86 ∷ 0x62
        ∷ 0x05 ∷ 0x16 ∷ 0x5f ∷ 0x49 ∷ 0xb8 ∷ 0x80 ∷ [])
    ∷ []

abbrev is_one_of : Bytes → List Bytes → Bool
is_one_of s [] = false
is_one_of s (p ∷ ps) = same_list s p || is_one_of s ps

abbrev all_zeros : Bytes → Bool
all_zeros [] = true
all_zeros (c ∷ s) = (c == 0) && all_zeros s

unfoldable pub validate_public_key : Bytes → Result (Unit {0}) FishError
validate_public_key bytes =
    if all_zeros bytes
    then err FishError.invalid_input
    else if is_one_of bytes low_order_points
    then err FishError.invalid_input
    else ok tt

abbrev pub prefix : Bytes
prefix = codes "X25519_INIT:"

module _ (env : Env) where
  unfoldable pub format_public_key : Bytes → Bytes
  format_public_key public_key = prefix ++ env.base64_encode public_key

  -- A key of 32 bytes that passes the check.
  abbrev valid_key : Bytes → Result Bytes FishError
  valid_key key =
      if not (length key == 32)
      then err FishError.invalid_input
      else elim (validate_public_key key) [ ok _ ↦ ok key | err e ↦ err e ]

  unfoldable pub extract_public_key : Bytes → Result Bytes FishError
  unfolding validate_public_key
  extract_public_key formatted =
      if ltb (length formatted) (length prefix)
        || not (same_list (take (length prefix) formatted) prefix)
      then err FishError.invalid_input
      else elim (env.base64_decode (trim (drop (length prefix) formatted))) [
        | none ↦ err FishError.invalid_input
        | some key_data ↦ valid_key key_data
      ]

  unfoldable pub is_valid_public_key_format : Bytes → Bool
  unfolding validate_public_key
  is_valid_public_key_format formatted =
      if ltb (length formatted) (length prefix)
        || not (same_list (take (length prefix) formatted) prefix)
      then false
      else elim (env.base64_decode (drop (length prefix) formatted)) [
        | none ↦ false
        | some decoded ↦
            if not (length decoded == 32)
            then false
            else elim (validate_public_key decoded) [ ok _ ↦ true | err e ↦ false ]
      ]

  unfoldable pub compute_shared_secret : Curve → Bytes → Bytes → Result Bytes FishError
  unfolding validate_public_key
  compute_shared_secret curve our_private their_public = elim (validate_public_key their_public) [
    | err e ↦ err e
    | ok _ ↦
        elim (env.hkdf (some (codes "FiSH11-KDF")) (curve.diffie_hellman our_private their_public)
          (codes "EncryptionKey")) [ none ↦ err FishError.crypto_error | some output ↦ ok output ]
  ]

  -- A key that is there is written over.
  abbrev or_overwrite :
      Outcome FishError (Unit {0}) × FishConfig
      → (FishConfig → Outcome FishError (Unit {0}) × FishConfig)
      → Outcome FishError (Unit {0}) × FishConfig
  or_overwrite (fail FishError.duplicate_entry, c) k = k c
  or_overwrite result k = result

  unfoldable pub store_shared_key : Bytes → Bytes → Option Bytes → M FishError (Unit {0})
  store_shared_key nickname secret network l config =
      or_overwrite (set_key env nickname secret network false true l config)
        (set_key env nickname secret network true true l)

  unfoldable pub process_dh_key_exchange :
      Curve → Bytes → Bytes → Option Bytes → M FishError (Unit {0})
  unfolding extract_public_key compute_shared_secret store_shared_key
  process_dh_key_exchange curve nickname public_key_str network = do
    keypair ← get_keypair env
    their_public_key ← lift (extract_public_key public_key_str)
    shared_secret ← lift (compute_shared_secret curve keypair.private_key their_public_key)
    store_shared_key nickname shared_secret network
