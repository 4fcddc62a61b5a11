-- ===== src/Config/Manual/Kept.antt =====
-- fish_11_dll/src/config/manual_channel_keys.rs: setting a key by hand without leave to overwrite.
use fish.Common.{
  ◌≡◌, ◌≢◌, refl, arith, true, false, some, Bytes, codes, contains_key, list_eq, ◌∙◌, to_lowercase,
  ◌++◌,
}
use fish.Env.{Env}
use fish.Errors.{Result, ok, err, FishError}
use fish.Config.Models.{KeyPair, Nonce, Key, FishConfig}
use fish.Config.Access.{
  M, ◌>>=◌, next, lift, free, ret, fail, blocked, with_config, with_config_mut, Outcome,
}
use fish.Config.Access.Counters.{increment_encryption_counter}
use fish.Config.Channels.{manual_entry_key, storage_key_of}
use fish.Config.Manual.{
  store_keypair, get_keypair, encrypt_channel_key_for_storage, insert_manual_key,
  set_manual_channel_key,
}
use fish.Crypto.Chacha.{encrypt_message}

-- An operation that changes no entry.
abbrev KeepsEntries : {E A : Type 0} → M E A → Type 0
KeepsEntries m = (config : FishConfig) → (m free config).1.entries ≡ config.entries

next-KeepsEntries :
    {E A B : Type 0} (r : Outcome E A × FishConfig) (k : A → M E B) (config : FishConfig)
    → r.1.entries ≡ config.entries
    → ((a : A) → KeepsEntries (k a))
    → (next r (λ a. k a free)).1.entries ≡ config.entries
next-KeepsEntries (ret a, c) k config h hk = hk a c ∙ h
next-KeepsEntries (fail e, c) k config h hk = h
next-KeepsEntries (blocked, c) k config h hk = h

lift-KeepsEntries : {E A : Type 0} (r : Result A E) → KeepsEntries (lift r)
lift-KeepsEntries (ok a) config = refl
lift-KeepsEntries (err e) config = refl

module _ (env : Env) where
  get_keypair-KeepsEntries : KeepsEntries (get_keypair env)
  unfolding get_keypair store_keypair with_config with_config_mut
  get_keypair-KeepsEntries config = ground arith

  encrypt_message-KeepsEntries :
      (key nonce message ad : Bytes)
      → KeepsEntries (encrypt_message env key nonce message (some ad))
  unfolding encrypt_message increment_encryption_counter with_config_mut
  encrypt_message-KeepsEntries key nonce message ad config = ground arith

  abbrev encrypt_with_pair : Nonce → Key → Bytes → KeyPair → M FishError Bytes
  encrypt_with_pair nonce key name keypair = do
    master_key ← lift (storage_key_of env (some keypair))
    encrypt_message env master_key nonce (env.base64_encode key)
        (some (codes "channel_key_" ++ name))

  encrypt_with_pair-KeepsEntries :
      (nonce : Nonce) (key : Key) (name : Bytes) (keypair : KeyPair)
      → KeepsEntries (encrypt_with_pair nonce key name keypair)
  encrypt_with_pair-KeepsEntries nonce key name keypair config =
      let derived = storage_key_of env (some keypair) in
      let encrypt = λ (master_key : Key).
        encrypt_message env master_key nonce (env.base64_encode key)
          (some (codes "channel_key_" ++ name)) in
      next-KeepsEntries (lift derived free config) encrypt config (lift-KeepsEntries derived config)
        (λ master_key.
          encrypt_message-KeepsEntries master_key nonce (env.base64_encode key)
            (codes "channel_key_" ++ name))

  encrypt_channel_key_for_storage-KeepsEntries :
      (nonce : Nonce) (key : Key) (name : Bytes)
      → KeepsEntries (encrypt_channel_key_for_storage env nonce key name)
  unfolding encrypt_channel_key_for_storage
  encrypt_channel_key_for_storage-KeepsEntries nonce key name config =
      next-KeepsEntries (get_keypair env free config) (encrypt_with_pair nonce key name) config
        (get_keypair-KeepsEntries config) (encrypt_with_pair-KeepsEntries nonce key name)

  -- Without leave to overwrite, a key set by hand for a channel that has one is not taken: the call
  -- does not succeed, whatever else fails, and every entry stays as it was.
  pub set_manual_channel_key_kept :
      (nonce : Nonce) (channel : Bytes) (key : Key) (config : FishConfig)
      → contains_key (manual_entry_key (to_lowercase channel)) config.entries ≡ true
      → let (outcome, after) = set_manual_channel_key env nonce channel key false free config in
        (outcome ≢ ret tt) × (after.entries ≡ config.entries)
  unfolding set_manual_channel_key insert_manual_key with_config_mut
  set_manual_channel_key_kept nonce channel key config there =
      ground (
        arith,
        encrypt_channel_key_for_storage-KeepsEntries nonce key (to_lowercase channel) config,
      )
