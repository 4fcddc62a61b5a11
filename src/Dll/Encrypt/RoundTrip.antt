-- ===== src/Dll/Encrypt/RoundTrip.antt =====
-- fish_11_dll/src/dll_interface/fish11_encryptmsg.rs and fish11_decryptmsg.rs together: a message
-- of a channel from one member to another.
use fish.Common.{
  ◌≤◌, ◌<◌, ◌≡◌, refl, arith, true, [], ◌++◌, none, some, Bytes, codes, length, is_utf8, lookup,
  list_eq, to_lowercase, trim, starts_with,
}
use fish.Env.{Env, IsEnv}
use fish.Errors.{ok, DllError}
use fish.Config.Models.{FishConfig}
use fish.Config.Access.{Outcome, free, ret, fail, blocked}
use fish.Config.Access.Counters.{count_encryption, count_decryption, increment_encryption_counter}
use fish.Config.Channels.{is_channel, manual_entry_key}
use fish.Crypto.Chacha.RoundTrip.{decrypt_message-encrypt_message}
use fish.Dll.Decrypt.{payload_of, decrypt_fixed, decrypt_msg}
use fish.Dll.Decrypt.Replay.{fallback_key, has_stored_key}
use fish.Dll.Encrypt.{encrypt_with, encrypt_msg}
use fish.Utils.{parse_input}

-- The handler's configuration after a success: both the cipher and the handler count the message.
abbrev pub count_twice : FishConfig → FishConfig
count_twice cfg = (count_encryption free (count_encryption free cfg).1).1

-- The text that a handler answered.
abbrev pub text_of : Outcome DllError Bytes → Bytes
text_of (ret t) = t
text_of (fail e) = []
text_of blocked = []

-- The base64 text behind the prefix is what the receiver works on.
pub payload_of_lem :
    (s : Bytes)
    → trim (codes "+FiSH " ++ s) ≡ codes "+FiSH " ++ s
    → payload_of (codes "+FiSH " ++ s) ≡ s
unfolding payload_of starts_with
payload_of_lem s trimmed = rw (trimmed, payload_of) refl

module _ (env : Env) (laws : IsEnv env) (target key nonce : Bytes) (sender receiver : FishConfig)
    (nonce_size : length nonce ≡ 24) (key_size : length key ≡ 32)
    (channel : is_channel target ≡ true)
    (no_manual : lookup (manual_entry_key (to_lowercase target)) sender.entries ≡ none)
    (stored : lookup (to_lowercase target) sender.channel_keys ≡ some key)
    (no_manual_there : lookup (manual_entry_key (to_lowercase target)) receiver.entries ≡ none)
    (stored_there : lookup (to_lowercase target) receiver.channel_keys ≡ some key) where
  module _ (message : Bytes) (nonempty : 0 < length message) (small : length message ≤ 4096)
      (text : is_utf8 message ≡ true) (input : Bytes)
      (parsed : parse_input input ≡ ok (record { target = target; message = message })) where
    -- Under a nonce of 24 bytes and a lawful cipher, a non-empty UTF-8 message of at most 4096
    -- bytes to a channel for which sender and receiver store the same key of 32 bytes and set none
    -- by hand gets the prefix and is counted twice, and the receiver's path with the fixed key
    -- gives it back from the text behind the prefix.
    pub encrypt_msg_channel :
        (s : Bytes) × (encrypt_msg env nonce input free sender
          ≡ (ret (codes "+FiSH " ++ s), count_twice sender))
        × (decrypt_fixed env target s free receiver
            ≡ (ret message, (count_decryption free receiver).1))
    unfolding encrypt_msg encrypt_with decrypt_fixed increment_encryption_counter
    encrypt_msg_channel =
        let (s, sealed, opened) =
          decrypt_message-encrypt_message env laws key nonce nonce_size message (some target) sender
            receiver nonempty small text in
        let own = fallback_key env target sender channel no_manual stored key_size in
        let theirs =
          fallback_key env target receiver channel no_manual_there stored_there key_size in
        (
          s,
          rw (parsed, encrypt_msg)
              (rw (channel, encrypt_msg) (rw (own, encrypt_msg) (rw (sealed, encrypt_msg) refl))),
          rw (theirs, decrypt_fixed) (rw (opened, decrypt_fixed) refl),
        )

    -- A non-empty UTF-8 message of at most 4096 bytes goes to a channel for which sender and
    -- receiver store the same key of 32 bytes and set none by hand, under a nonce of 24 bytes and
    -- a lawful cipher. What the encryption handler returned for it, arriving unchanged and with no
    -- white space at its end, is turned back into the message by the decryption handler of the
    -- receiver, who counts it once.
    pub decrypt_msg-encrypt_msg :
        (s received : Bytes) (after : FishConfig)
        → encrypt_msg env nonce input free sender ≡ (ret (codes "+FiSH " ++ s), after)
        → trim (codes "+FiSH " ++ s) ≡ codes "+FiSH " ++ s
        → parse_input received ≡ ok (record { target = target; message = codes "+FiSH " ++ s })
        → decrypt_msg env received free receiver ≡ (ret message, (count_decryption free receiver).1)
    unfolding decrypt_msg
    decrypt_msg-encrypt_msg s received after sent trimmed arrived =
        let (s', sealed, opened) = encrypt_msg_channel in
        let same : s' ≡ s = ground (arith, sealed, sent) in
        rw (arrived, decrypt_msg)
          (rw (channel, decrypt_msg)
            (rw
              (
                has_stored_key env target receiver channel no_manual_there stored_there key_size,
                decrypt_msg,
              )
              (rw (payload_of_lem s trimmed, decrypt_msg) (rw (← same) opened))))
