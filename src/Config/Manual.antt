-- ===== src/Config/Manual.antt =====
-- fish_11_dll/src/config/manual_channel_keys.rs: keys set by hand, stored encrypted; with the key
-- pair of fish_11_dll/src/config/key_management.rs that they are encrypted under.
pub mod Stored
pub mod Kept
use fish.Common.{
  Bool, false, not, List, [], ◌∷◌, Option, drop, starts_with, ◌&&◌, ◌++◌, none, some, Bytes, codes,
  if◌then◌else◌, insert, remove, contains_key, list_eq, to_lowercase,
}
use fish.Env.{Env}
use fish.Errors.{ok, FishError, DllError}
use fish.Config.Models.{EntryData, KeyPair, Key, Nonce}
use fish.Config.Access.{
  M, ◌>>=◌, ◌>>◌, pure, lift, require, ret, fail, with_config, with_config_mut, into_dll,
}
use fish.Config.Channels.{valid_channel, stored_keypair, storage_key_of, manual_entry_key}
use fish.Crypto.Chacha.{encrypt_message}

-- `remove_manual_channel_key` and `remove_ratchet_channel_key` of fish_11_dll/src/config/mod.rs.
unfoldable pub remove_manual_channel_key : Bytes → M FishError (Unit {0})
unfolding with_config_mut
remove_manual_channel_key channel_name = with_config_mut (λ _ config. (
  ret tt,
  record config { entries = remove (manual_entry_key (to_lowercase channel_name)) config.entries },
))

unfoldable pub remove_ratchet_channel_key : Bytes → M FishError (Unit {0})
unfolding with_config_mut
remove_ratchet_channel_key channel_name = with_config_mut (λ _ config. (
  ret tt,
  record config {
    channel_ratchet_states = remove (to_lowercase channel_name) config.channel_ratchet_states;
  },
))

-- `strip_prefix("channel_key_")` on every entry.
manual_keys_of : List (Bytes × EntryData) → List (Bytes × Option Bytes)
unfolding starts_with
manual_keys_of [] = []
manual_keys_of ((entry_key, entry) ∷ entries) =
    let rest = manual_keys_of entries in
    if starts_with (codes "channel_key_") entry_key
    then (drop 12 entry_key, entry.date) ∷ rest
    else rest

unfoldable pub list_manual_channel_keys : M FishError (List (Bytes × Option Bytes))
unfolding manual_keys_of with_config
list_manual_channel_keys = with_config (λ config. ok (manual_keys_of config.entries))

module _ (env : Env) where
  unfoldable pub store_keypair : KeyPair → M FishError (Unit {0})
  unfolding with_config_mut
  store_keypair keypair = with_config_mut (λ _ config. (
    ret tt,
    record config {
      our_private_key = some (env.base64_encode keypair.private_key);
      our_public_key = some (env.base64_encode keypair.public_key);
      keypair_creation_time = some env.creation_time;
    },
  ))

  -- `generate_keypair` of fish_11_dll/src/crypto/x25519.rs.
  abbrev pub fresh_keypair : KeyPair
  fresh_keypair = record { private_key = env.fresh_private_key; public_key = env.fresh_public_key }

  -- The stored pair, or one that is generated and stored now.
  unfoldable pub get_keypair : M FishError KeyPair
  unfolding store_keypair stored_keypair with_config
  get_keypair = do
    stored ← with_config (stored_keypair env)
    elim stored [
      | some keypair ↦ pure keypair
      | none ↦ do store_keypair fresh_keypair; pure fresh_keypair
    ]

  unfoldable pub encrypt_channel_key_for_storage : Nonce → Key → Bytes → M FishError Bytes
  unfolding get_keypair
  encrypt_channel_key_for_storage nonce key channel_name = do
    keypair ← get_keypair
    master_key ← lift (storage_key_of env (some keypair))
    encrypt_message env master_key nonce (env.base64_encode key)
        (some (codes "channel_key_" ++ channel_name))

  unfoldable pub insert_manual_key : Bytes → Bytes → Bool → M FishError (Unit {0})
  insert_manual_key normalized_channel encrypted_key_b64 overwrite l config =
      if not overwrite && contains_key (manual_entry_key normalized_channel) config.entries
      then (fail FishError.duplicate_entry, config)
      else (
        ret tt,
        record config {
          entries =
              insert (manual_entry_key normalized_channel)
                (record {
                  key = some encrypted_key_b64;
                  date = some env.now_text;
                  is_exchange = some false;
                })
                config.entries;
        },
      )

  unfoldable pub set_manual_channel_key : Nonce → Bytes → Key → Bool → M DllError (Unit {0})
  unfolding encrypt_channel_key_for_storage insert_manual_key valid_channel with_config_mut
  set_manual_channel_key nonce channel_name key overwrite = do
    require (valid_channel (to_lowercase channel_name)) DllError.invalid_input
    encrypted_key_b64 ←
        into_dll (encrypt_channel_key_for_storage nonce key (to_lowercase channel_name))
    into_dll (
        with_config_mut (insert_manual_key (to_lowercase channel_name) encrypted_key_b64 overwrite))
