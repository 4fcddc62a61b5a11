-- ===== src/Dll/Engine/Outgoing/Channel.antt =====
-- fish_11_dll/src/engine_registration.rs: messages to a channel that has a stored key, or only a ratchet.
use fish.Common.{
  ◌≤◌, ◌<◌, ◌≡◌, refl, arith, true, false, ◌++◌, none, some, Bytes, length, lookup, list_eq,
  to_lowercase, is_utf8,
}
use fish.Env.{Env, IsEnv}
use fish.Config.Models.{Nonce, Key, RatchetState, FishConfig}
use fish.Config.Access.{free, writing, ret, blocked}
use fish.Config.Access.Counters.{count_encryption, count_decryption, increment_encryption_counter}
use fish.Config.Channels.{is_channel, manual_entry_key, with_ratchet_state_mut}
use fish.Crypto.Chacha.{encrypt_message, decrypt_message}
use fish.Crypto.Chacha.RoundTrip.{decrypt_message-encrypt_message, encrypt_message_lem}
use fish.Dll.Decrypt.Ratchet.{has_no_key}
use fish.Dll.Decrypt.Replay.{has_stored_key, fallback_key}
use fish.Legacy.Cipher.{BlockCipher}
use fish.Dll.Engine.Outgoing.{
  LegacyKeys, encrypt_under, encrypt_with_ratchet, encrypt_ratchet, encrypt_channel,
}

module _ (env : Env) (laws : IsEnv env) (c : BlockCipher) (legacy_keys : LegacyKeys) (nonce : Nonce)
    (target message : Bytes) (cfg : FishConfig) (channel : is_channel target ≡ true)
    (no_manual : lookup (manual_entry_key (to_lowercase target)) cfg.entries ≡ none)
    (nonempty : 0 < length message) (small : length message ≤ 4096) where
  -- Under the write lock the counter waits.
  encrypt_message_locked :
      (key : Key) → encrypt_message env key nonce message (some target) writing cfg ≡ (blocked, cfg)
  unfolding encrypt_message increment_encryption_counter
  encrypt_message_locked key =
      let (sealed, made, size) = laws.encrypts key nonce target message small in
      ground (arith, made)

  encrypt_ratchet-waits :
      (state : RatchetState)
      → lookup (to_lowercase target) cfg.channel_ratchet_states ≡ some state
      → encrypt_ratchet env c legacy_keys nonce target message free cfg ≡ (blocked, cfg)
  unfolding encrypt_ratchet with_ratchet_state_mut encrypt_with_ratchet
  encrypt_ratchet-waits state there =
      rw (there, with_ratchet_state_mut)
        (rw (encrypt_message_locked state.current_key, encrypt_with_ratchet) refl)

  -- On a channel that has only a ratchet, no message is ever encrypted: for any text of 1 to 4096
  -- bytes and a lawful cipher, the counter waits for the write lock that the ratchet path holds.
  pub encrypt_channel_ratchet_waits :
      (state : RatchetState)
      → lookup (to_lowercase target) cfg.channel_keys ≡ none
      → lookup (to_lowercase target) legacy_keys ≡ none
      → lookup (to_lowercase target) cfg.channel_ratchet_states ≡ some state
      → encrypt_channel env c legacy_keys nonce target message free cfg ≡ (blocked, cfg)
  unfolding encrypt_channel
  encrypt_channel_ratchet_waits state no_key no_legacy there =
      rw (has_no_key env target cfg channel no_manual no_key, encrypt_channel)
        (rw (no_legacy, encrypt_channel) (encrypt_ratchet-waits state there))

  -- With a stored key: the text, and what it is for a member with the key.
  pub encrypt_channel-stored :
      (key : Key) (receiver : FishConfig)
      → length nonce ≡ 24
      → lookup (to_lowercase target) cfg.channel_keys ≡ some key
      → length key ≡ 32
      → is_utf8 message ≡ true
      → (s : Bytes) × (encrypt_channel env c legacy_keys nonce target message free cfg
          ≡ (ret (some (s, false)), (count_encryption free cfg).1))
        × (decrypt_message env key s (some target) free receiver
            ≡ (ret message, (count_decryption free receiver).1))
  unfolding encrypt_channel encrypt_under
  encrypt_channel-stored key receiver nonce_size stored key_size text =
      let (s, sealed, read) =
        decrypt_message-encrypt_message env laws key nonce nonce_size message (some target) cfg
          receiver nonempty small text in
      (
        s,
        rw (has_stored_key env target cfg channel no_manual stored key_size, encrypt_channel)
            (rw (fallback_key env target cfg channel no_manual stored key_size, encrypt_channel)
              (rw (key_size, encrypt_under) (rw (sealed, encrypt_under) refl))),
        read,
      )

  -- What the text is the base64 of.
  pub encrypt_channel-sealed :
      (key : Key) (sealed : Bytes)
      → lookup (to_lowercase target) cfg.channel_keys ≡ some key
      → length key ≡ 32
      → env.aead_encrypt key nonce target message ≡ some sealed
      → encrypt_channel env c legacy_keys nonce target message free cfg
        ≡ (ret (some (env.base64_encode (nonce ++ sealed), false)), (count_encryption free cfg).1)
  unfolding encrypt_channel encrypt_under
  encrypt_channel-sealed key sealed stored key_size made =
      rw (has_stored_key env target cfg channel no_manual stored key_size, encrypt_channel)
        (rw (fallback_key env target cfg channel no_manual stored key_size, encrypt_channel)
          (rw (key_size, encrypt_under)
            (rw
              (
                encrypt_message_lem env key nonce message (some target) sealed cfg nonempty small
                    made,
                encrypt_under,
              )
              refl)))
