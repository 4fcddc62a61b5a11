-- ===== src/Dll/Engine/Incoming/Case.antt =====
-- fish_11_dll/src/engine_registration.rs: a channel message from the engine of one member to that of
-- another. The sender encrypts for the channel's name as it was typed, the receiver decrypts for the
-- name in lower case.
use fish.Common.{
  ◌≤◌, ◌<◌, ◌≡◌, ◌∙◌, arith, true, false, List, ◌++◌, Option, none, some, Bytes, codes, length,
  take, drop, lookup, list_eq, to_lowercase, to_lowercase_twice, is_utf8, crlf, take-append,
  drop-append, length-append,
}
use fish.Env.{Env, IsEnv}
use fish.Errors.{FishError}
use fish.Config.Models.{Nonce, FishConfig}
use fish.Config.Access.{free, ret, fail}
use fish.Config.Access.Counters.{count_decryption}
use fish.Config.Channels.{is_channel, manual_entry_key}
use fish.Config.Settings.{get_encryption_prefix}
use fish.Crypto.Chacha.{decrypt_message}
use fish.Dll.Decrypt.Replay.{is_channel-to_lowercase}
use fish.Dll.Engine.Incoming.{key_identifier_of, sender_of, attempt_decryption}
use fish.Dll.Engine.Incoming.Marked.{IsMarked, attempt_decryption-text, attempt_decryption-refused}
use fish.Dll.Engine.Outgoing.{LegacyKeys, encrypt_channel}
use fish.Dll.Engine.Outgoing.Channel.{encrypt_channel-stored, encrypt_channel-sealed}
use fish.Legacy.Cipher.{BlockCipher}

decrypt_message_refused :
    (env : Env) (key e bytes aad : Bytes) (cfg : FishConfig)
    → env.base64_decode e ≡ some bytes
    → 24 < length bytes
    → length bytes ≤ 4136
    → env.aead_decrypt key (take 24 bytes) aad (drop 24 bytes) ≡ none
    → decrypt_message env key e (some aad) free cfg ≡ (fail FishError.crypto_error, cfg)
unfolding decrypt_message
decrypt_message_refused env key e bytes aad cfg d lo hi refused = ground arith

module _ (env : Env) (laws : IsEnv env) (c : BlockCipher) (legacy_keys : LegacyKeys) (nonce : Nonce)
    (nonce_size : length nonce ≡ 24) (target message key : Bytes) (sender receiver : FishConfig)
    (channel : is_channel target ≡ true) (nonempty : 0 < length message)
    (small : length message ≤ 4096) (text : is_utf8 message ≡ true) (key_size : length key ≡ 32)
    (no_manual : lookup (manual_entry_key (to_lowercase target)) sender.entries ≡ none)
    (stored : lookup (to_lowercase target) sender.channel_keys ≡ some key)
    (no_manual_there : lookup (manual_entry_key (to_lowercase target)) receiver.entries ≡ none)
    (stored_there : lookup (to_lowercase target) receiver.channel_keys ≡ some key) (s : Bytes)
    (after : FishConfig)
    (sent : encrypt_channel env c legacy_keys nonce target message free sender
      ≡ (ret (some (s, false)), after))
    (encryption_prefix line before w0 w1 target_raw w3 : Bytes) (more : List Bytes)
    (network : Option Bytes)
    (configured : get_encryption_prefix free receiver ≡ (ret encryption_prefix, receiver))
    (m : IsMarked encryption_prefix line before w0 w1 target_raw w3 s more)
    (identified : key_identifier_of (sender_of w0) target_raw ≡ to_lowercase target) where
  -- A message that the sender's engine encrypted, under a stored key of 32 bytes that the receiver has
  -- too and a lawful cipher, for a channel whose name has no capital letter: the receiver's engine
  -- turns the line that brings it into the same line with the message, and counts it once.
  pub attempt_decryption-encrypt_channel :
      to_lowercase target ≡ target
      → attempt_decryption env c legacy_keys line network free receiver ≡ (
        ret (some (before ++ (codes " :" ++ (message ++ crlf)))),
        (count_decryption free receiver).1,
      )
  attempt_decryption-encrypt_channel lower_case =
      let (s', made, read) =
        encrypt_channel-stored env laws c legacy_keys nonce target message sender channel no_manual
          nonempty small key receiver nonce_size stored key_size text in
      let same : s' ≡ s = ground (arith, made, sent) in
      attempt_decryption-text env c legacy_keys encryption_prefix line before w0 w1 target_raw w3 s
        more m network receiver configured target key (identified ∙ lower_case) channel
        no_manual_there stored_there key_size message (count_decryption free receiver).1
        (rw (← same) read)

  -- For a channel whose name has a capital letter, nothing comes of it: where the cipher opens what
  -- was sealed for a name under no other name, the receiver's engine passes the encrypted line on as
  -- it came, though both store the same key.
  pub attempt_decryption-capital :
      ((sealed : Bytes)
        → env.aead_encrypt key nonce target message ≡ some sealed
        → env.aead_decrypt key nonce (to_lowercase target) sealed ≡ none)
      → attempt_decryption env c legacy_keys line network free receiver ≡ (ret none, receiver)
  attempt_decryption-capital authentic =
      let (sealed, sealing, size) = laws.encrypts key nonce target message small in
      let made =
        encrypt_channel-sealed env laws c legacy_keys nonce target message sender channel no_manual
          nonempty small key sealed stored key_size sealing in
      let same : env.base64_encode (nonce ++ sealed) ≡ s = ground (arith, made, sent) in
      let bytes = nonce ++ sealed in
      let refused : env.aead_decrypt key (take 24 bytes) (to_lowercase target) (drop 24 bytes)
          ≡ none =
        rw (take-append 24 nonce sealed nonce_size, drop-append 24 nonce sealed nonce_size)
          (authentic sealed sealing) in
      let closed =
        decrypt_message_refused env key (env.base64_encode bytes) bytes (to_lowercase target)
          receiver (laws.base64_decode-encode bytes) (omega (arith, length-append nonce sealed))
          (omega (arith, length-append nonce sealed)) refused in
      let lower = to_lowercase_twice target in
      attempt_decryption-refused env c legacy_keys encryption_prefix line before w0 w1 target_raw w3
        s more m network receiver configured (to_lowercase target) key identified
        (is_channel-to_lowercase target channel) (rw (lower) no_manual_there)
        (rw (lower) stored_there) key_size FishError.crypto_error receiver (rw (← same) closed)
