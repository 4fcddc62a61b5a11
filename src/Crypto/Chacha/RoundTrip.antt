-- ===== src/Crypto/Chacha/RoundTrip.antt =====
-- fish_11_dll/src/crypto/chacha20.rs: what was encrypted is read back, and a wrapped key unwrapped.
use fish.Common.{
  ◌+◌, ◌≤◌, ◌<◌, ◌≡◌, arith, true, [], ◌++◌, Option, some, Bytes, length, take, drop, take-append,
  drop-append, length-append, is_utf8,
}
use fish.Env.{Env, IsEnv}
use fish.Errors.{ok}
use fish.Config.Models.{FishConfig}
use fish.Config.Access.{free, ret}
use fish.Config.Access.Counters.{
  count_encryption, count_decryption, increment_encryption_counter, increment_decryption_counter,
}
use fish.Crypto.Chacha.{aad_of, encrypt_message, decrypt_message, wrap_key, unwrap_key}

-- The way through `decrypt_message` that returns the text.
pub decrypt_message_lem :
    (env : Env) (key e : Bytes) (ad : Option Bytes) (bytes plaintext : Bytes) (cfg : FishConfig)
    → env.base64_decode e ≡ some bytes
    → 24 < length bytes
    → length bytes ≤ 4136
    → env.aead_decrypt key (take 24 bytes) (aad_of ad) (drop 24 bytes) ≡ some plaintext
    → is_utf8 plaintext ≡ true
    → decrypt_message env key e ad free cfg ≡ (ret plaintext, (count_decryption free cfg).1)
unfolding decrypt_message increment_decryption_counter
decrypt_message_lem env key e ad bytes plaintext cfg d lo hi o u = ground arith

pub encrypt_message_lem :
    (env : Env) (key nonce message : Bytes) (ad : Option Bytes) (c : Bytes) (cfg : FishConfig)
    → 0 < length message
    → length message ≤ 4096
    → env.aead_encrypt key nonce (aad_of ad) message ≡ some c
    → encrypt_message env key nonce message ad free cfg
      ≡ (ret (env.base64_encode (nonce ++ c)), (count_encryption free cfg).1)
unfolding encrypt_message increment_encryption_counter
encrypt_message_lem env key nonce message ad c cfg lo hi o = ground arith

wrap_key_lem :
    (env : Env) (key nonce text c : Bytes)
    → env.aead_encrypt key nonce [] text ≡ some c
    → wrap_key env nonce text key ≡ ok (env.base64_encode (nonce ++ c))
unfolding wrap_key
wrap_key_lem env key nonce text c e = ground arith

unwrap_key_lem :
    (env : Env) (key e bytes text : Bytes)
    → env.base64_decode e ≡ some bytes
    → 72 ≤ length bytes
    → env.aead_decrypt key (take 24 bytes) [] (drop 24 bytes) ≡ some text
    → length text ≡ 32
    → unwrap_key env e key ≡ ok text
unfolding unwrap_key
unwrap_key_lem env key e bytes text d size o n = ground arith

module _ (env : Env) (laws : IsEnv env) (key nonce : Bytes) (nonce_size : length nonce ≡ 24) where
  -- What the receiver makes of the base64 of a nonce and a ciphertext.
  opened :
      (c : Bytes)
      → (env.base64_decode (env.base64_encode (nonce ++ c)) ≡ some (nonce ++ c))
        × (take 24 (nonce ++ c) ≡ nonce)
        × (drop 24 (nonce ++ c) ≡ c)
        × (length (nonce ++ c) ≡ 24 + length c)
  opened c = (
    laws.base64_decode-encode (nonce ++ c),
    take-append 24 nonce c nonce_size,
    drop-append 24 nonce c nonce_size,
    omega (arith, length-append nonce c),
  )

  -- Under a nonce of 24 bytes and a lawful cipher, a non-empty UTF-8 message of at most 4096 bytes
  -- is encrypted, and it is read back under the same key and associated data, on any
  -- configurations, and each side counts once.
  pub decrypt_message-encrypt_message :
      (message : Bytes) (ad : Option Bytes) (sender receiver : FishConfig)
      → 0 < length message
      → length message ≤ 4096
      → is_utf8 message ≡ true
      → (s : Bytes) × (encrypt_message env key nonce message ad free sender
          ≡ (ret s, (count_encryption free sender).1))
        × (decrypt_message env key s ad free receiver
            ≡ (ret message, (count_decryption free receiver).1))
  decrypt_message-encrypt_message message ad sender receiver nonempty small text =
      let (c, sealed, size) = laws.encrypts key nonce (aad_of ad) message small in
      let (decoded, front, back, total) = opened c in
      let read = laws.decrypt-encrypt key nonce (aad_of ad) message c sealed in
      (
        env.base64_encode (nonce ++ c),
        encrypt_message_lem env key nonce message ad c sender nonempty small sealed,
        decrypt_message_lem env key (env.base64_encode (nonce ++ c)) ad (nonce ++ c) message
            receiver decoded (omega arith) (omega arith) (rw (front, back) read) text,
      )

  -- A channel key that was wrapped for a member is unwrapped with the member's key.
  pub unwrap_key-wrap_key :
      (channel_key : Bytes)
      → length channel_key ≡ 32
      → (s : Bytes) × (wrap_key env nonce channel_key key ≡ ok s)
        × (unwrap_key env s key ≡ ok channel_key)
  unwrap_key-wrap_key channel_key h =
      let (c, sealed, size) = laws.encrypts key nonce [] channel_key (omega arith) in
      let (decoded, front, back, total) = opened c in
      let read = laws.decrypt-encrypt key nonce [] channel_key c sealed in
      (
        env.base64_encode (nonce ++ c),
        wrap_key_lem env key nonce channel_key c sealed,
        unwrap_key_lem env key (env.base64_encode (nonce ++ c)) (nonce ++ c) channel_key decoded
            (omega arith) (rw (front, back) read) h,
      )
