-- ===== src/Dll/Encrypt/Private.antt =====
-- fish_11_dll/src/dll_interface/fish11_encryptmsg.rs and fish11_decryptmsg.rs together: a message
-- between two users who share a key.
use fish.Common.{
  ◌≤◌, ◌<◌, ◌≡◌, refl, ap, sym, ◌∙◌, arith, Bool, true, false, ◌++◌, none, some, Bytes, codes,
  length, is_utf8, lookup-insert_self, list_eq, trim, subst, ℤ, pos, ◌+ℤ◌, ◌-ℤ◌, ◌≤ℤ◌, wrap_i64,
}
use fish.Env.{Env, IsEnv}
use fish.Errors.{ok}
use fish.Config.Models.{Key, FishConfig}
use fish.Config.Access.{free, writing, ret, with_config, with_config_mut}
use fish.Config.Keys.{set_key, get_configured_key_ttl, entry_key_of, age_of}
use fish.Config.Keys.Expiry.{check_key_expiry, expire}
use fish.Config.Keys.Store.{IsReadable, stored, fresh_entry, get_key-stored, set_key_current}
use fish.Config.Access.Counters.{increment_encryption_counter, increment_decryption_counter}
use fish.Config.Channels.{is_channel}
use fish.Crypto.Chacha.RoundTrip.{decrypt_message-encrypt_message}
use fish.Dll.Decrypt.{get_private_key, decrypt_private, decrypt_msg}
use fish.Dll.Encrypt.{encrypt_with, encrypt_private, encrypt_msg}
use fish.Dll.Encrypt.RoundTrip.{text_of, count_twice, payload_of_lem}
use fish.Utils.{normalize_nick, normalize_private_target, parse_input}

module _ (env : Env) (laws : IsEnv env) (net : Bytes) (current : env.current_network ≡ some net)
    (nick key : Bytes) (is_exchange : Bool) (config : FishConfig) where
  abbrev with_key : FishConfig
  with_key = stored env config (normalize_nick nick) net key is_exchange

  -- A key that was stored now has not outlived its time.
  kept :
      (life : ℤ)
      → pos 0 ≤ℤ life
      → life ≤ℤ pos 604800
      → expire env (normalize_nick nick) net life writing with_key ≡ (ret false, with_key)
  unfolding expire age_of ◌+ℤ◌ ◌-ℤ◌ wrap_i64
  kept life h bound =
      let name = normalize_nick nick in
      rw
        (
          lookup-insert_self (entry_key_of name net) (fresh_entry env key is_exchange)
              config.entries,
          expire,
        )
        (ground (arith, laws.parse_date-now))

  positive_life :
      (pos 0 ≤ℤ get_configured_key_ttl config) × (get_configured_key_ttl config ≤ℤ pos 604800)
  unfolding get_configured_key_ttl
  positive_life = ground arith

  fresh_enough : check_key_expiry env nick none free with_key ≡ (ret tt, with_key)
  unfolding check_key_expiry with_config with_config_mut get_configured_key_ttl
  fresh_enough =
      ground (arith, current, kept (get_configured_key_ttl config) positive_life.0 positive_life.1)

  private_key :
      length key ≡ 32
      → IsReadable is_exchange config.fish11.key_ttl
      → get_private_key env nick free with_key ≡ (ret key, with_key)
  unfolding get_private_key
  private_key size life =
      let found = get_key-stored env laws nick key net is_exchange config life in
      rw (fresh_enough, get_private_key)
        (rw (found, get_private_key) (rw (size, get_private_key) refl))

-- A user with a key for a nickname, as the handlers find it for a target.
abbrev HasKey : Env → Key → Bytes → FishConfig → Type 0
HasKey env key target config =
    (is_channel target ≡ false)
    × (normalize_private_target target ≡ ok (normalize_nick target))
    × (get_private_key env (normalize_nick target) free config ≡ (ret key, config))

module _ (env : Env) (laws : IsEnv env) (key nonce message : Bytes) (key_size : length key ≡ 32)
    (nonce_size : length nonce ≡ 24) (nonempty : 0 < length message) (small : length message ≤ 4096)
    (text : is_utf8 message ≡ true) (sender receiver : FishConfig)
    (target origin input received : Bytes)
    (parsed : parse_input input ≡ ok (record { target = target; message = message })) where
  encrypted :
      HasKey env key target sender
      → HasKey env key origin receiver
      → (s : Bytes) × (encrypt_msg env nonce input free sender
          ≡ (ret (codes "+FiSH " ++ s), count_twice sender))
        × (parse_input received ≡ ok (record { target = origin; message = codes "+FiSH " ++ s })
            → trim (codes "+FiSH " ++ s) ≡ codes "+FiSH " ++ s
            → (decrypt_msg env received free receiver).0 ≡ ret message)
  unfolding encrypt_msg encrypt_private encrypt_with decrypt_msg decrypt_private
      increment_encryption_counter increment_decryption_counter with_config_mut
  encrypted (no_channel, named, found) (no_channel', named', found') =
      let (s, sealed, opened) =
        decrypt_message-encrypt_message env laws key nonce nonce_size message none sender receiver
          nonempty small text in
      (
        s,
        rw (parsed, encrypt_msg)
            (rw (no_channel, encrypt_msg)
              (rw (named, encrypt_msg) (rw (found, encrypt_msg) (rw (sealed, encrypt_msg) refl)))),
        λ arrived trimmed.
            rw (arrived, decrypt_msg)
              (rw (no_channel', decrypt_msg)
                (rw (named', decrypt_msg)
                  (rw (found', decrypt_msg)
                    (rw (payload_of_lem s trimmed, decrypt_msg) (rw (opened, decrypt_msg) refl))))),
      )

module _ (env : Env) (laws : IsEnv env) (net : Bytes) (current : env.current_network ≡ some net)
    (key nonce message : Bytes) (key_size : length key ≡ 32) (nonce_size : length nonce ≡ 24)
    (nonempty : 0 < length message) (small : length message ≤ 4096)
    (text : is_utf8 message ≡ true) where
  -- What `set_key` leaves for a nickname is found for a target that names it.
  HasKey-set_key :
      (target nick : Bytes) (is_exchange : Bool) (config : FishConfig)
      → is_channel target ≡ false
      → normalize_private_target target ≡ ok (normalize_nick target)
      → normalize_nick nick ≡ normalize_nick (normalize_nick target)
      → IsReadable is_exchange config.fish11.key_ttl
      → HasKey env key target (set_key env nick key none true is_exchange free config).1
  HasKey-set_key target nick is_exchange config no_channel named names life =
      let set = ap (λ r. r.1) (set_key_current env nick key net is_exchange config current) in
      let stored_for = λ (n : Bytes). stored env config n net key is_exchange in
      let same = set ∙ ap stored_for names in
      (
        no_channel,
        named,
        rw same (
            private_key env laws net current (normalize_nick target) key is_exchange config key_size
              life),
      )

  module _ (nick_b nick_a target origin input received : Bytes) (exchange_a exchange_b : Bool)
      (config_a config_b : FishConfig) (life_a : IsReadable exchange_a config_a.fish11.key_ttl)
      (life_b : IsReadable exchange_b config_b.fish11.key_ttl)
      (private_a : is_channel target ≡ false) (private_b : is_channel origin ≡ false)
      (named_b : normalize_private_target target ≡ ok (normalize_nick target))
      (named_a : normalize_private_target origin ≡ ok (normalize_nick origin))
      (names_b : normalize_nick nick_b ≡ normalize_nick (normalize_nick target))
      (names_a : normalize_nick nick_a ≡ normalize_nick (normalize_nick origin))
      (parsed : parse_input input ≡ ok (record { target = target; message = message })) where
    abbrev sender : FishConfig
    sender = (set_key env nick_b key none true exchange_a free config_a).1

    abbrev receiver : FishConfig
    receiver = (set_key env nick_a key none true exchange_b free config_b).1

    -- What the sender's handler answers for the message.
    abbrev sent : Bytes
    sent = text_of (encrypt_msg env nonce input free sender).0

    -- Two users set the same key of 32 bytes, each for the nickname of the other, on the current
    -- network and with leave to overwrite. Then a message of one to the other, UTF-8 of 1 to 4096
    -- bytes, is encrypted, and the other decrypts it: under a nonce of 24 bytes and a lawful cipher,
    -- where the targets of both are names of those nicknames, not empty and not of channels, base64
    -- and dates are read back, the configured life of an exchange key is not negative and at most
    -- 2 ^ 63 - 301 seconds, and what was encrypted arrives unchanged and with no white space at its ends.
    pub decrypt_msg-set_key :
        trim sent ≡ sent
        → parse_input received ≡ ok (record { target = origin; message = sent })
        → (encrypt_msg env nonce input free sender ≡ (ret sent, count_twice sender))
          × ((decrypt_msg env received free receiver).0 ≡ ret message)
    decrypt_msg-set_key trimmed arrived =
        let (s, sealed, opened) =
          encrypted env laws key nonce message key_size nonce_size nonempty small text sender
            receiver target origin input received parsed
            (HasKey-set_key target nick_b exchange_a config_a private_a named_b names_b life_a)
            (HasKey-set_key origin nick_a exchange_b config_b private_b named_a names_a life_b) in
        let same : sent ≡ codes "+FiSH " ++ s = ap (λ r. text_of r.0) sealed in
        (
          sealed ∙ ap (λ t. (ret t, count_twice sender)) (sym same),
          opened
              (subst (λ t. parse_input received ≡ ok (record { target = origin; message = t })) same
                arrived)
              (subst (λ t. trim t ≡ t) same trimmed),
        )
