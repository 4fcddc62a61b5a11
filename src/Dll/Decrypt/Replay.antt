-- ===== src/Dll/Decrypt/Replay.antt =====
-- fish_11_dll/src/dll_interface/fish11_decryptmsg.rs: a channel with a stored key. Every channel
-- that got its key by FCEP-1 is one, since `set_channel_key` stands beside `init_ratchet_state`.
use fish.Common.{
  ◌≤◌, ◌<◌, ◌≡◌, refl, arith, true, [], ◌∷◌, none, some, Bytes, length, take, drop, is_utf8, lookup,
  list_eq, to_lowercase,
}
use fish.Env.{Env}
use fish.Errors.{ok, DllError, from_fish_error}
use fish.Config.Models.{Key, FishConfig}
use fish.Config.Access.{free, ret, fail}
use fish.Config.Access.Counters.{count_decryption}
use fish.Config.Channels.{
  is_channel, manual_entry_key, get_manual_channel_key, get_channel_key, has_channel_key,
  get_channel_key_with_fallback,
}
use fish.Crypto.Chacha.RoundTrip.{decrypt_message_lem}
use fish.Dll.Decrypt.{payload_of, decrypt_fixed, decrypt_msg}
use fish.Utils.{parse_input}

pub is_channel-to_lowercase : (s : Bytes) → is_channel s ≡ true → is_channel (to_lowercase s) ≡ true
unfolding is_channel to_lowercase
is_channel-to_lowercase [] h = cc
is_channel-to_lowercase (c ∷ s) h = ground arith

module _ (env : Env) (target : Bytes) (cfg : FishConfig) (channel : is_channel target ≡ true)
    (no_manual : lookup (manual_entry_key (to_lowercase target)) cfg.entries ≡ none) where
  pub manual_missing :
      get_manual_channel_key env target free cfg ≡ (fail DllError.key_not_found, cfg)
  unfolding get_manual_channel_key from_fish_error lookup
  manual_missing =
      rw (is_channel-to_lowercase target channel, get_manual_channel_key)
        (rw (no_manual, get_manual_channel_key) refl)

  module _ {key : Key} (stored : lookup (to_lowercase target) cfg.channel_keys ≡ some key)
      (size : length key ≡ 32) where
    stored_key : get_channel_key target free cfg ≡ (ret key, cfg)
    unfolding get_channel_key
    stored_key =
        rw (is_channel-to_lowercase target channel, get_channel_key)
          (rw (stored, get_channel_key) (rw (size, get_channel_key) refl))

    pub has_stored_key : has_channel_key env target free cfg ≡ (ret true, cfg)
    unfolding has_channel_key
    has_stored_key = rw (manual_missing, has_channel_key) (rw (stored_key, has_channel_key) refl)

    pub fallback_key : get_channel_key_with_fallback env target free cfg ≡ (ret key, cfg)
    unfolding get_channel_key_with_fallback
    fallback_key =
        rw (manual_missing, get_channel_key_with_fallback)
          (rw (stored_key, get_channel_key_with_fallback) refl)

    module _ {e bytes text : Bytes} (decoded : env.base64_decode e ≡ some bytes)
        (long_enough : 24 < length bytes) (small_enough : length bytes ≤ 4136)
        (authentic : env.aead_decrypt key (take 24 bytes) target (drop 24 bytes) ≡ some text)
        (utf8 : is_utf8 text ≡ true) where
      fixed_text : decrypt_fixed env target e free cfg ≡ (ret text, (count_decryption free cfg).1)
      unfolding decrypt_fixed
      fixed_text =
          rw (fallback_key, decrypt_fixed)
            (rw
              (
                decrypt_message_lem env key e (some target) bytes text cfg decoded long_enough
                    small_enough authentic utf8,
                decrypt_fixed,
              )
              refl)

      -- With a stored key and no key set by hand, a message that the key opens is returned, and the
      -- caches of nonces and the ratchets are neither read nor changed.
      pub decrypt_msg_fixed :
          (input message : Bytes)
          → parse_input input ≡ ok (record { target = target; message = message })
          → payload_of message ≡ e
          → decrypt_msg env input free cfg ≡ (ret text, (count_decryption free cfg).1)
      unfolding decrypt_msg
      decrypt_msg_fixed input message parsed payload =
          rw (parsed, decrypt_msg)
            (rw (channel, decrypt_msg)
              (rw (has_stored_key, decrypt_msg) (rw (payload, decrypt_msg) fixed_text)))

-- On a channel with a stored key of 32 bytes and no key set by hand, a message whose base64 holds
-- 25 to 4136 bytes, that the key opens and whose text is UTF-8, is returned each time that it is
-- sent: the second time too, whatever the caches of nonces hold, and they stay as they were.
pub decrypt_msg_accepts_replay :
    (env : Env) (target : Bytes) (cfg : FishConfig)
    → is_channel target ≡ true
    → lookup (manual_entry_key (to_lowercase target)) cfg.entries ≡ none
    → {key : Key} → lookup (to_lowercase target) cfg.channel_keys ≡ some key
    → length key ≡ 32
    → {e bytes text : Bytes} → env.base64_decode e ≡ some bytes
    → 24 < length bytes
    → length bytes ≤ 4136
    → env.aead_decrypt key (take 24 bytes) target (drop 24 bytes) ≡ some text
    → is_utf8 text ≡ true
    → (input message : Bytes)
    → parse_input input ≡ ok (record { target = target; message = message })
    → payload_of message ≡ e
    → (once : FishConfig) × (twice : FishConfig) × (decrypt_msg env input free cfg
        ≡ (ret text, once))
      × (decrypt_msg env input free once ≡ (ret text, twice))
      × (twice.channel_nonce_caches ≡ cfg.channel_nonce_caches)
decrypt_msg_accepts_replay env target cfg ch nm st sz d lo hi au u input message p q =
    let once = (count_decryption free cfg).1 in
    (
      once,
      (count_decryption free once).1,
      decrypt_msg_fixed env target cfg ch nm st sz d lo hi au u input message p q,
      decrypt_msg_fixed env target once ch nm st sz d lo hi au u input message p q,
      refl,
    )
