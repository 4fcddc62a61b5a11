-- ===== src/Crypto/Chacha/Rejects.antt =====
-- fish_11_dll/src/crypto/chacha20.rs: what `decrypt_message` checked before it returned a text, and
-- what it does under a lock that its caller holds.
use fish.Common.{
  ◌≤◌, ◌<◌, ◌≡◌, arith, true, Option, some, Bytes, length, take, drop, is_utf8, Option-cases, inl,
  inr,
}
use fish.Env.{Env}
use fish.Config.Models.{FishConfig}
use fish.Config.Access.{free, writing, ret, blocked}
use fish.Config.Access.Counters.{count_decryption, increment_decryption_counter}
use fish.Crypto.Chacha.{aad_of, decrypt_message}

-- What stands behind a text that was returned.
pub record Opened (env : Env) (key e : Bytes) (ad : Option Bytes) (text : Bytes) : Type 0 where
  pub bytes : Bytes
  pub decoded : env.base64_decode e ≡ some bytes
  pub long_enough : 24 < length bytes
  pub small_enough : length bytes ≤ 4136
  pub authentic : env.aead_decrypt key (take 24 bytes) (aad_of ad) (drop 24 bytes) ≡ some text
  pub utf8 : is_utf8 text ≡ true

-- A text is returned only for base64 of 25 to 4136 bytes whose tail the cipher accepts under the
-- first 24 bytes as nonce, and only if it is UTF-8; all that changes is the count.
pub decrypt_message-Opened :
    (env : Env) (key e : Bytes) (ad : Option Bytes) (cfg : FishConfig) {text : Bytes}
    {cfg' : FishConfig}
    → decrypt_message env key e ad free cfg ≡ (ret text, cfg')
    → Opened env key e ad text × (cfg' ≡ (count_decryption free cfg).1)
unfolding decrypt_message increment_decryption_counter
decrypt_message-Opened env key e ad cfg h = elim (Option-cases (env.base64_decode e)) [
  | inl refused ↦ absurd (ground arith)
  | inr (b, d) ↦ (
    record {
      bytes = b;
      decoded = d;
      long_enough = ground arith;
      small_enough = ground arith;
      authentic = ground arith;
      utf8 = ground arith;
    },
    ground arith,
  )
]

-- Under the write lock a message that the cipher accepts is never returned: the counter waits for
-- the lock that the thread holds.
pub decrypt_message-writing :
    (env : Env) (key e : Bytes) (ad : Option Bytes) (cfg : FishConfig) {bytes text : Bytes}
    → env.base64_decode e ≡ some bytes
    → 24 < length bytes
    → length bytes ≤ 4136
    → env.aead_decrypt key (take 24 bytes) (aad_of ad) (drop 24 bytes) ≡ some text
    → decrypt_message env key e ad writing cfg ≡ (blocked, cfg)
unfolding decrypt_message increment_decryption_counter
decrypt_message-writing env key e ad cfg d lo hi o = ground arith

-- Under the write lock no text is ever returned, whatever the key and the message.
pub decrypt_message-ne-ret :
    (env : Env) (key e : Bytes) (ad : Option Bytes) (cfg : FishConfig) (text : Bytes)
    (cfg' : FishConfig)
    → ¬ (decrypt_message env key e ad writing cfg ≡ (ret text, cfg'))
unfolding decrypt_message increment_decryption_counter
decrypt_message-ne-ret env key e ad cfg text cfg' h = ground arith
