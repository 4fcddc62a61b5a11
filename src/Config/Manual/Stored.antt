-- ===== src/Config/Manual/Stored.antt =====
-- fish_11_dll/src/config/manual_channel_keys.rs: a key set by hand against the key that is used.
use fish.Common.{
  ◌≤◌, ◌<◌, ◌≡◌, refl, arith, true, false, list_eq, Option, none, some, ◌++◌, Bytes, codes, length,
  is_utf8, insert, lookup-insert_self, to_lowercase, subst,
}
use fish.Env.{Env, IsEnv}
use fish.Errors.{ok}
use fish.Config.Models.{EntryData, KeyPair, Key, FishConfig}
use fish.Config.Access.{free, ret, with_config, with_config_mut}
use fish.Config.Access.Counters.{count_encryption, count_decryption}
use fish.Config.Channels.{
  is_channel, valid_channel, stored_keypair, storage_key_of, derive_master_storage_key_internal,
  manual_entry_key, manual_entry, decrypt_channel_key_from_storage, get_manual_channel_key,
  get_channel_key_with_fallback,
}
use fish.Config.Manual.{
  store_keypair, fresh_keypair, get_keypair, encrypt_channel_key_for_storage, insert_manual_key,
  set_manual_channel_key,
}
use fish.Crypto.Chacha.{encrypt_message, decrypt_message}
use fish.Crypto.Chacha.RoundTrip.{decrypt_message-encrypt_message}

valid_channel-is_channel : (name : Bytes) → valid_channel name ≡ true → is_channel name ≡ true
unfolding valid_channel
valid_channel-is_channel name v = ground arith

module _ (env : Env) where
  -- The pair that `get_keypair` gives, and the configuration that it leaves.
  abbrev pub pair_in_use : Option KeyPair → KeyPair
  pair_in_use none = fresh_keypair env
  pair_in_use (some pair) = pair

  abbrev with_pair : Option KeyPair → FishConfig → FishConfig
  with_pair none config = (store_keypair env (fresh_keypair env) free config).1
  with_pair (some pair) config = config

  get_keypair_lem :
      (stored : Option KeyPair) (config : FishConfig)
      → stored_keypair env config ≡ ok stored
      → get_keypair env free config ≡ (ret (pair_in_use stored), with_pair stored config)
  unfolding get_keypair store_keypair
  get_keypair_lem none config h = rw (h, get_keypair) refl
  get_keypair_lem (some pair) config h = rw (h, get_keypair) refl

module _ (env : Env) (laws : IsEnv env) where
  -- A pair of two keys of 32 bytes is read back from where `get_keypair` stored it.
  stored_keypair-with_pair :
      (stored : Option KeyPair) (config : FishConfig)
      → length env.fresh_private_key ≡ 32
      → length env.fresh_public_key ≡ 32
      → stored_keypair env config ≡ ok stored
      → stored_keypair env (with_pair env stored config) ≡ ok (some (pair_in_use env stored))
  unfolding stored_keypair store_keypair with_config
  stored_keypair-with_pair none config a b h = ground (
    arith,
    laws.base64_decode-encode env.fresh_private_key,
    laws.base64_decode-encode env.fresh_public_key,
    a,
    b,
  )
  stored_keypair-with_pair (some pair) config a b h = h

  module _ (nonce channel key : Bytes) (nonce_size : length nonce ≡ 24) (key_size : length key ≡ 32)
      (named : valid_channel (to_lowercase channel) ≡ true)
      (nonempty : 0 < length (env.base64_encode key))
      (small : length (env.base64_encode key) ≤ 4096)
      (text : is_utf8 (env.base64_encode key) ≡ true) (master : Key) (pair : Option KeyPair)
      (derived : storage_key_of env (some (pair_in_use env pair)) ≡ ok master)
      (private_size : length env.fresh_private_key ≡ 32)
      (public_size : length env.fresh_public_key ≡ 32) (config : FishConfig)
      (paired : stored_keypair env config ≡ ok pair) where
    abbrev name : Bytes
    name = to_lowercase channel

    abbrev entry : Bytes → EntryData
    entry s = record { key = some s; date = some env.now_text; is_exchange = some false }

    abbrev with_key : Bytes → FishConfig
    with_key s =
        let counted = (count_encryption free (with_pair env pair config)).1 in
        record counted { entries = insert (manual_entry_key name) (entry s) counted.entries }

    set_manual_channel_key_lem :
        (s : Bytes)
        → encrypt_channel_key_for_storage env nonce key name free config
          ≡ (ret s, (count_encryption free (with_pair env pair config)).1)
        → set_manual_channel_key env nonce channel key true free config ≡ (ret tt, with_key s)
    unfolding set_manual_channel_key insert_manual_key with_config_mut
    set_manual_channel_key_lem s e =
        rw (named, set_manual_channel_key) (rw (e, set_manual_channel_key) refl)

    encrypted_lem :
        (s : Bytes)
        → encrypt_message env master nonce
            (env.base64_encode key)
            (some (codes "channel_key_" ++ name))
            free
            (with_pair env pair config)
          ≡ (ret s, (count_encryption free (with_pair env pair config)).1)
        → encrypt_channel_key_for_storage env nonce key name free config
          ≡ (ret s, (count_encryption free (with_pair env pair config)).1)
    unfolding encrypt_channel_key_for_storage
    encrypted_lem s e =
        rw (get_keypair_lem env pair config paired, encrypt_channel_key_for_storage)
          (rw (derived, encrypt_channel_key_for_storage) e)

    pair_kept : (s : Bytes) → stored_keypair env (with_key s) ≡ ok (some (pair_in_use env pair))
    unfolding stored_keypair
    pair_kept s = stored_keypair-with_pair pair config private_size public_size paired

    manual_entry_lem : (s : Bytes) → manual_entry env name (with_key s) ≡ ok (s, master)
    unfolding manual_entry derive_master_storage_key_internal
    manual_entry_lem s =
        let entries = (with_pair env pair config).entries in
        rw (lookup-insert_self (manual_entry_key name) (entry s) entries, manual_entry)
          (rw (pair_kept s, manual_entry) (rw (derived, manual_entry) refl))

    key_in_use :
        (s : Bytes)
        → decrypt_message env master s (some (codes "channel_key_" ++ name)) free (with_key s)
          ≡ (ret (env.base64_encode key), (count_decryption free (with_key s)).1)
        → get_channel_key_with_fallback env channel free (with_key s)
          ≡ (ret key, (count_decryption free (with_key s)).1)
    unfolding get_channel_key_with_fallback get_manual_channel_key decrypt_channel_key_from_storage
        with_config
    key_in_use s e =
        let decoded = laws.base64_decode-encode key in
        let channel_named = valid_channel-is_channel name named in
        rw (channel_named, get_channel_key_with_fallback)
          (rw (manual_entry_lem s, get_channel_key_with_fallback)
            (rw (e, get_channel_key_with_fallback)
              (rw (decoded, get_channel_key_with_fallback)
                (rw (key_size, get_channel_key_with_fallback) refl))))

    -- With leave to overwrite, a nonce of 24 bytes and a lawful cipher, a key of 32 bytes set by
    -- hand for an allowed channel name is stored, and from then on it is the key that is used for
    -- the channel, whatever other key is stored for it, and reading it is counted as a decryption:
    -- where the base64 of the key is UTF-8 of 1 to 4096 bytes, HKDF derives a key from the stored
    -- key pair, or from the fresh one of two keys of 32 bytes where none is stored.
    pub get_channel_key_with_fallback-set_manual_channel_key :
        (config' : FishConfig) × (set_manual_channel_key env nonce channel key true free config
          ≡ (ret tt, config'))
        × (get_channel_key_with_fallback env channel free config'
            ≡ (ret key, (count_decryption free config').1))
    get_channel_key_with_fallback-set_manual_channel_key =
        let ad = some (codes "channel_key_" ++ name) in
        let paired_config = with_pair env pair config in
        let once = λ (receiver : FishConfig).
          decrypt_message-encrypt_message env laws master nonce nonce_size (env.base64_encode key)
            ad paired_config receiver nonempty small text in
        let (s, sealed, _) = once config in
        let (s', sealed', opened) = once (with_key s) in
        let same : s' ≡ s = ground (arith, sealed, sealed') in
        (
          with_key s,
          set_manual_channel_key_lem s (encrypted_lem s sealed),
          key_in_use s (
              subst
                (λ x.
                  decrypt_message env master x ad free (with_key s)
                  ≡ (ret (env.base64_encode key), (count_decryption free (with_key s)).1))
                same opened),
        )
