-- ===== src/Dll/Commands/Display.antt =====
-- fish_11_dll/src/dll_interface/fish11_filelistkeys.rs, fish11_getencryptionstats.rs,
-- fish11_getratchetstate.rs and fish11_setnetwork.rs, with the access to entries of fish_11_dll/src/config/models.rs.
use fish.Common.{
  to_lowercase, split_whitespace, ℕ, ◌-◌, ◌==◌, List, [], ◌∷◌, ◌++◌, Option, none, some, Bytes,
  codes, if◌then◌else◌, length, replicate, trim, starts_with, lookup, insert, list_eq, crlf,
}
use fish.Env.{Env}
use fish.Errors.{Result, ok, err, DllError}
use fish.Config.Models.{EntryData, FishConfig, RatchetState, NonceCache}
use fish.Config.Access.{M, ◌>>=◌, pure, throw, map_err, into_dll, with_config}
use fish.Config.Access.Counters.{get_encryption_count, get_decryption_count, get_key_exchange_count}
use fish.Config.Keys.{default_network}
use fish.Config.Keys.Listing.{Listed, list_keys, count_keys}

-- `{:<n}`, with blanks behind.
abbrev left_aligned : ℕ → Bytes → Bytes
left_aligned n s = s ++ replicate (n - length s) b' '

abbrev dated : Option Bytes → Bytes
dated none = []
dated (some date) = codes " | Added: " ++ date

abbrev shown : Listed → Bytes
shown line =
    codes "Key: "
    ++ (left_aligned 20 line.name
        ++ (codes " | Network: "
            ++ (left_aligned 15 (if length line.network == 0 then default_network else line.network)
                ++ dated line.date)))

abbrev shown_all : List Listed → Bytes
shown_all [] = codes "-------------------"
shown_all (line ∷ lines) = shown line ++ (crlf ++ shown_all lines)

-- FiSH11_FileListKeys.
unfoldable pub file_list_keys : M DllError Bytes
unfolding list_keys
file_list_keys = do
  keys ← into_dll list_keys
  elim keys [
    | [] ↦ pure (codes "FiSH: No keys stored.")
    | line ∷ lines ↦ pure (codes "--- FiSH Keys ---" ++ (crlf ++ shown_all (line ∷ lines)))
  ]

-- FiSH11_GetEncryptionStats: the four numbers of its text.
unfoldable pub encryption_stats : M DllError (ℕ × ℕ × ℕ × ℕ)
unfolding count_keys get_encryption_count get_decryption_count get_key_exchange_count
encryption_stats = do
  key_count ← map_err (λ _. DllError.config_error) count_keys
  encryption_count ← map_err (λ _. DllError.config_error) get_encryption_count
  decryption_count ← map_err (λ _. DllError.config_error) get_decryption_count
  key_exchange_count ← map_err (λ _. DllError.config_error) get_key_exchange_count
  pure (key_count, encryption_count, decryption_count, key_exchange_count)

-- FiSH11_SetNetwork, with the surroundings that it leaves.
unfoldable pub set_network : Env → Bytes → Result (Bytes × Env) DllError
unfolding trim
set_network env input =
    let network_name = trim input in
    if length network_name == 0
    then err DllError.missing_parameter
    else ok (
      codes "Network set to: " ++ network_name,
      record env { current_network = some network_name },
    )

unfoldable pub get_entry : FishConfig → Bytes → Option EntryData
get_entry config key = lookup key config.entries

unfoldable pub set_entry : FishConfig → Bytes → EntryData → FishConfig
set_entry config key entry = record config { entries = insert key entry config.entries }

abbrev with_prefix : Bytes → List (Bytes × EntryData) → List (Bytes × EntryData)
with_prefix prefix [] = []
with_prefix prefix ((key, data') ∷ entries) =
    let rest = with_prefix prefix entries in
    if starts_with prefix key then (key, data') ∷ rest else rest

unfoldable pub get_entries_with_prefix : FishConfig → Bytes → List (Bytes × EntryData)
unfolding starts_with
get_entries_with_prefix config prefix = with_prefix prefix config.entries

-- What FiSH11_GetRatchetState tells of a channel: the name, the epoch and the length of the key, and the
-- number of nonces.
abbrev ratchet_info : Option RatchetState → Option (ℕ × ℕ)
ratchet_info none = none
ratchet_info (some state) = some (state.epoch, length state.current_key)

abbrev nonce_cache_info : Option NonceCache → Option ℕ
nonce_cache_info none = none
nonce_cache_info (some cache) = some (length cache.recent_nonces)

unfoldable pub get_ratchet_state : Bytes → M DllError (Bytes × Option (ℕ × ℕ) × Option ℕ)
unfolding split_whitespace to_lowercase with_config
get_ratchet_state input = elim (split_whitespace input) [
  | [] ↦ throw DllError.invalid_input
  | channel ∷ more ↦
      let channel_name = to_lowercase channel in
      into_dll (
        with_config (λ config.
          (ok (
            channel_name,
            ratchet_info (lookup channel_name config.channel_ratchet_states),
            nonce_cache_info (lookup channel_name config.channel_nonce_caches),
          ))))
]
