-- ===== src/Config/Keys/Frame.antt =====
-- fish_11_dll/src/config/key_management.rs: what the keys of nicknames do not depend on.
use fish.Common.{◌≡◌, refl, List, [], ◌∷◌, ◌++◌, Option, Bytes}
use fish.Env.{Env}
use fish.Config.Models.{EntryData, RatchetState, FishConfig}
use fish.Config.Keys.{
  network_of, check_expiration, key_of_entry, key_at, key_on_any_network, get_key_internal,
}
use fish.Utils.{normalize_nick}

-- Other keys and ratchets of channels.
abbrev pub with_channels :
    List (Bytes × Bytes) → List (Bytes × RatchetState) → FishConfig → FishConfig
with_channels keys states config = record config {
  channel_keys = keys;
  channel_ratchet_states = states;
}

module _ (env : Env) (keys : List (Bytes × Bytes)) (states : List (Bytes × RatchetState)) where
  key_on_any_network-with_channels :
      (config : FishConfig) (prefix : Bytes) (entries : List (Bytes × EntryData))
      → key_on_any_network env (with_channels keys states config) prefix entries
        ≡ key_on_any_network env config prefix entries
  unfolding key_on_any_network key_of_entry check_expiration
  key_on_any_network-with_channels config prefix [] = refl
  key_on_any_network-with_channels config prefix ((entry_key, entry) ∷ rest) =
      rw (key_on_any_network-with_channels config prefix rest) refl

  -- The key of a nickname stays when keys or ratchets of channels change.
  pub get_key_internal-with_channels :
      (config : FishConfig) (nickname : Bytes) (network : Option Bytes)
      → get_key_internal env (with_channels keys states config) nickname network
        ≡ get_key_internal env config nickname network
  unfolding get_key_internal key_at key_of_entry check_expiration network_of
  get_key_internal-with_channels config nickname network =
      let prefix = normalize_nick nickname ++ (b'@' ∷ []) in
      rw (key_on_any_network-with_channels config prefix config.entries, get_key_internal) refl
