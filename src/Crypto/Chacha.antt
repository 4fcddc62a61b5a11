-- ===== src/Crypto/Chacha.antt =====
-- fish_11_dll/src/crypto/chacha20.rs: messages, wrapped keys and ratchet keys. The random nonce is
-- an argument; logging, which is all that the recipient is for, is left out.
pub mod RoundTrip
pub mod Rejects
use fish.Common.{
  ℕ, ◌+◌, Bool, true, false, not, List, [], ◌∷◌, ◌++◌, Option, none, some, Bytes, codes, length,
  take, drop, ltb, leb, ◌==◌, if◌then◌else◌, is_utf8, to_lowercase,
}
use fish.Env.{Env}
use fish.Errors.{Result, ok, err, FishError}
use fish.Config.Access.{M, ◌>>=◌, ◌>>◌, pure, throw, require, expect}
use fish.Config.Access.Counters.{increment_encryption_counter, increment_decryption_counter}

abbrev pub max_message_size : ℕ
max_message_size = 4096

abbrev pub nonce_size_bytes : ℕ
nonce_size_bytes = 24

abbrev pub max_ciphertext_size : ℕ
max_ciphertext_size = max_message_size + 16 + 24

abbrev aad_of : Option Bytes → Bytes
aad_of none = []
aad_of (some ad) = ad

module _ (env : Env) where
  unfoldable pub encrypt_message : Bytes → Bytes → Bytes → Option Bytes → M FishError Bytes
  encrypt_message key nonce message associated_data = do
    require (not (length message == 0)) FishError.invalid_input
    require (leb (length message) max_message_size) FishError.invalid_input
    ciphertext ←
        expect (env.aead_encrypt key nonce (aad_of associated_data) message) FishError.crypto_error
    increment_encryption_counter
    pure (env.base64_encode (nonce ++ ciphertext))

  unfoldable pub decrypt_message : Bytes → Bytes → Option Bytes → M FishError Bytes
  decrypt_message key encrypted_data associated_data = do
    bytes ← expect (env.base64_decode encrypted_data) FishError.crypto_error
    require (leb (length bytes) max_ciphertext_size) FishError.crypto_error
    require (ltb nonce_size_bytes (length bytes)) FishError.crypto_error
    plaintext ←
        expect
          (env.aead_decrypt key (take nonce_size_bytes bytes) (aad_of associated_data)
            (drop nonce_size_bytes bytes))
          FishError.crypto_error
    increment_decryption_counter
    require (is_utf8 plaintext) FishError.crypto_error
    pure plaintext

  unfoldable pub advance_ratchet_key : Bytes → Bytes → Bytes → Result Bytes FishError
  advance_ratchet_key current_key nonce channel_name =
      elim (env.hkdf (some nonce) current_key
        (codes "FCEP-1-RATCHET" ++ to_lowercase channel_name)) [
          | none ↦ err FishError.crypto_error
          | some next_key ↦ ok next_key
        ]

  unfoldable pub wrap_key : Bytes → Bytes → Bytes → Result Bytes FishError
  wrap_key nonce channel_key shared_key_with_member =
      elim (env.aead_encrypt shared_key_with_member nonce [] channel_key) [
        | none ↦ err FishError.crypto_error
        | some ciphertext ↦ ok (env.base64_encode (nonce ++ ciphertext))
      ]

  unfoldable pub unwrap_key : Bytes → Bytes → Result Bytes FishError
  unwrap_key wrapped_key_b64 shared_key_with_coordinator =
      elim (env.base64_decode wrapped_key_b64) [
        | none ↦ err FishError.crypto_error
        | some wrapped_bytes ↦
            if ltb (length wrapped_bytes) 72
            then err FishError.crypto_error
            else elim (env.aead_decrypt shared_key_with_coordinator
                (take nonce_size_bytes wrapped_bytes) [] (drop nonce_size_bytes wrapped_bytes)) [
                  | none ↦ err FishError.crypto_error
                  | some plaintext ↦
                      if length plaintext == 32 then ok plaintext else err FishError.crypto_error
                ]
      ]
