-- ===== src/Dll/Engine/Incoming/Marked.antt =====
-- fish_11_dll/src/engine_registration.rs: a line with a FiSH 11 message, from its parts to what mIRC gets.
use fish.Common.{
  ◌≡◌, refl, arith, true, false, List, ◌∷◌, ◌++◌, Option, none, some, Bytes, codes, length, lookup,
  list_eq, to_lowercase, find_text, has_text, split_whitespace, starts_with, trim, crlf,
}
use fish.Env.{Env}
use fish.Errors.{FishError}
use fish.Config.Models.{Key, FishConfig}
use fish.Config.Access.{free, ret, fail}
use fish.Config.Channels.{is_channel, manual_entry_key}
use fish.Config.Settings.{get_encryption_prefix}
use fish.Crypto.Chacha.{decrypt_message}
use fish.Dll.Decrypt.Replay.{fallback_key}
use fish.Legacy.Cipher.{BlockCipher}
use fish.Legacy.Detection.{is_fish10_message}
use fish.Dll.Engine.Outgoing.{LegacyKeys}
use fish.Dll.Engine.Incoming.{
  key_identifier_of, sender_of, on_rpl_topic, on_topic, channel_or_regular_key, key_of_message,
  decrypt_under, decrypt_fish11, decrypt_marked, attempt_decryption, goes_on,
}

-- A line that is read as a message with the configured prefix: it has no word that another step looks
-- for, and `before` is what stands in front of the prefix.
pub record IsMarked (encryption_prefix line before w0 w1 target_raw w3 payload : Bytes)
    (more : List Bytes) : Type 0 where
  pub no_rpl : has_text (codes " 332 ") line ≡ false
  pub no_topic : find_text (codes " TOPIC ") line ≡ none
  pub no_dh1080_init : has_text (codes "DH1080_INIT") line ≡ false
  pub no_dh1080_finish : has_text (codes "DH1080_FINISH") line ≡ false
  pub no_x25519_init : has_text (codes "X25519_INIT:") line ≡ false
  pub no_x25519_finish : has_text (codes "X25519_FINISH") line ≡ false
  pub text : Bytes
  pub message : find_text (codes " :") line ≡ some (before, text)
  pub not_fish10 : is_fish10_message text ≡ false
  pub marked : starts_with encryption_prefix text ≡ true
  pub words : split_whitespace line ≡ w0 ∷ w1 ∷ target_raw ∷ w3 ∷ more
  pub head : Bytes
  pub behind : Bytes
  pub found : find_text (codes ":" ++ encryption_prefix) line ≡ some (head, behind)
  pub trimmed : trim behind ≡ payload
  pub rest : Bytes
  pub again : find_text (codes " :" ++ encryption_prefix) line ≡ some (before, rest)

module _ (env : Env) (c : BlockCipher) (legacy_keys : LegacyKeys)
    (encryption_prefix line before w0 w1 target_raw w3 payload : Bytes) (more : List Bytes)
    (m : IsMarked encryption_prefix line before w0 w1 target_raw w3 payload more)
    (network : Option Bytes) (cfg : FishConfig)
    (configured : get_encryption_prefix free cfg ≡ (ret encryption_prefix, cfg)) where
  passes_rpl : on_rpl_topic env c legacy_keys line network free cfg ≡ (ret goes_on, cfg)
  unfolding on_rpl_topic
  passes_rpl = rw (m.no_rpl, on_rpl_topic) refl

  passes_topic : on_topic env c legacy_keys line network free cfg ≡ (ret goes_on, cfg)
  unfolding on_topic
  passes_topic = let absent = m.no_topic in ground (arith, absent)

  reaches_fish11 :
      decrypt_marked env c legacy_keys line network free cfg
      ≡ decrypt_fish11 env c legacy_keys line encryption_prefix w0 target_raw network free cfg
  unfolding decrypt_marked
  reaches_fish11 =
      rw (configured, decrypt_marked)
        (rw (m.message, decrypt_marked)
          (rw (m.not_fish10, decrypt_marked)
            (rw (m.marked, decrypt_marked)
              (rw (m.no_x25519_init, decrypt_marked)
                (rw (m.no_x25519_finish, decrypt_marked) (rw (m.words, decrypt_marked) refl))))))

  -- Such a line goes to the decryption of FiSH 11.
  goes_to_fish11 :
      attempt_decryption env c legacy_keys line network free cfg
      ≡ decrypt_fish11 env c legacy_keys line encryption_prefix w0 target_raw network free cfg
  unfolding attempt_decryption
  goes_to_fish11 =
      rw (passes_rpl, attempt_decryption)
        (rw (passes_topic, attempt_decryption)
          (rw (m.no_dh1080_init, attempt_decryption)
            (rw (m.no_dh1080_finish, attempt_decryption) reaches_fish11)))

  module _ (target : Bytes) (key : Key)
      (identified : key_identifier_of (sender_of w0) target_raw ≡ target)
      (channel : is_channel target ≡ true)
      (no_manual : lookup (manual_entry_key (to_lowercase target)) cfg.entries ≡ none)
      (stored : lookup (to_lowercase target) cfg.channel_keys ≡ some key)
      (key_size : length key ≡ 32) where
    finds_key : key_of_message env c legacy_keys target network free cfg ≡ (ret (some key), cfg)
    unfolding key_of_message channel_or_regular_key
    finds_key =
        rw (channel, key_of_message)
          (rw
            (fallback_key env target cfg channel no_manual stored key_size, channel_or_regular_key)
            refl)

    -- What the line comes to, from what the key makes of the payload.
    pub attempt_decryption-text :
        (text : Bytes) (after : FishConfig)
        → decrypt_message env key payload (some target) free cfg ≡ (ret text, after)
        → attempt_decryption env c legacy_keys line network free cfg
          ≡ (ret (some (before ++ (codes " :" ++ (text ++ crlf)))), after)
    unfolding decrypt_fish11 decrypt_under
    attempt_decryption-text text after opened = rw (goes_to_fish11) (
        rw (m.found, decrypt_fish11)
          (rw (identified, decrypt_fish11)
            (rw (finds_key, decrypt_fish11)
              (rw (channel, decrypt_fish11)
                (rw (key_size, decrypt_under)
                  (rw (m.trimmed, decrypt_under)
                    (rw (opened, decrypt_under) (rw (m.again, decrypt_fish11) refl))))))))

    pub attempt_decryption-refused :
        (e : FishError) (after : FishConfig)
        → decrypt_message env key payload (some target) free cfg ≡ (fail e, after)
        → attempt_decryption env c legacy_keys line network free cfg ≡ (ret none, after)
    unfolding decrypt_fish11 decrypt_under
    attempt_decryption-refused e after refused = rw (goes_to_fish11) (
        rw (m.found, decrypt_fish11)
          (rw (identified, decrypt_fish11)
            (rw (finds_key, decrypt_fish11)
              (rw (channel, decrypt_fish11)
                (rw (key_size, decrypt_under)
                  (rw (m.trimmed, decrypt_under)
                    (rw (refused, decrypt_under) (rw (m.again, decrypt_fish11) refl))))))))
