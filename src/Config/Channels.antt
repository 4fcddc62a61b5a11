-- ===== src/Config/Channels.antt =====
-- The channel keys: fish_11_dll/src/config/channel_keys.rs, manual_channel_keys.rs,
-- channel_key_utils.rs and state_management.rs.
pub mod Names
pub mod Size
use fish.Common.{
  ℕ, ◌+◌, ◌==◌, Bool, true, false, not, ◌&&◌, ◌||◌, List, [], ◌∷◌, ◌++◌, Option, none, some, Bytes,
  codes, if◌then◌else◌, is_some, lookup, insert, remove, contains_key, list_eq, length, leb, ltb,
  to_lowercase,
}
use fish.Env.{Env}
use fish.Errors.{Result, ok, err, FishError, DllError, from_fish_error}
use fish.Config.Models.{
  KeyPair, Key, Nonce, EntryData, RatchetState, new_ratchet, NonceCache, new_cache, contains,
  check_and_add, FishConfig,
}
use fish.Config.Access.{
  M, Outcome, ◌>>=◌, ◌>>◌, pure, throw, lift, require, expect, ret, fail, blocked, attempt, map_err,
  with_config, with_config_mut, into_dll,
}
use fish.Crypto.Chacha.{encrypt_message, decrypt_message}

-- `starts_with('#') || starts_with('&')`.
unfoldable pub is_channel : Bytes → Bool
is_channel [] = false
is_channel (c ∷ s) = (c == b'#') || (c == b'&')

-- Control characters (on ASCII, BEL among them), the space and the comma.
abbrev is_forbidden : ℕ → Bool
is_forbidden c = ltb c 32 || (c == 127) || (c == 32) || (c == b',')

unfoldable pub any_forbidden : Bytes → Bool
any_forbidden [] = false
any_forbidden (c ∷ s) = is_forbidden c || any_forbidden s

-- The three checks of a channel name, in lower case.
unfoldable pub valid_channel : Bytes → Bool
unfolding is_channel any_forbidden
valid_channel name =
    is_channel name && (leb 2 (length name) && (leb (length name) 50 && not (any_forbidden name)))

unfoldable pub set_channel_key : Bytes → Key → M FishError (Unit {0})
unfolding valid_channel with_config_mut
set_channel_key channel_name key = do
  require (valid_channel (to_lowercase channel_name)) FishError.invalid_input
  with_config_mut (λ _ config. (
    ret tt,
    record config { channel_keys = insert (to_lowercase channel_name) key config.channel_keys },
  ))

unfoldable pub get_channel_key : Bytes → M FishError Key
unfolding is_channel with_config
get_channel_key channel_name = do
  require (is_channel (to_lowercase channel_name)) FishError.invalid_input
  with_config (λ config. (elim (lookup (to_lowercase channel_name) config.channel_keys) [
    | none ↦ err FishError.key_not_found
    | some key_bytes ↦ if length key_bytes == 32 then ok key_bytes else err FishError.config_error
  ]))

-- `or_insert_with`: a state that is there stays.
unfoldable pub init_ratchet_state : Bytes → Key → M DllError (Unit {0})
unfolding with_config_mut
init_ratchet_state channel initial_key = into_dll (
    with_config_mut (λ _ config. (
      ret tt,
      record config {
        channel_ratchet_states =
            if contains_key (to_lowercase channel) config.channel_ratchet_states
            then config.channel_ratchet_states
            else insert (to_lowercase channel) (new_ratchet initial_key)
                config.channel_ratchet_states;
      },
    )))

-- The state that the action leaves is stored; an action that fails leaves it as it was. Every error
-- of the action becomes a ConfigError on the way out.
abbrev store_state :
    {A : Type 0}
    → Bytes
    → Outcome DllError (A × RatchetState) × FishConfig
    → Outcome FishError A × FishConfig
store_state channel (ret (a, state), config) = (
  ret a,
  record config { channel_ratchet_states = insert channel state config.channel_ratchet_states },
)
store_state channel (fail e, config) = (fail FishError.config_error, config)
store_state channel (blocked, config) = (blocked, config)

unfoldable pub on_state :
    {A : Type 0}
    → Bytes
    → (RatchetState → M DllError (A × RatchetState))
    → Option RatchetState
    → M FishError A
on_state channel action none l config = (fail FishError.config_error, config)
on_state channel action (some state) l config = store_state channel (action state l config)

unfoldable pub with_ratchet_state_mut :
    {A : Type 0} → Bytes → (RatchetState → M DllError (A × RatchetState)) → M DllError A
unfolding with_config_mut on_state
with_ratchet_state_mut channel action = into_dll (
    with_config_mut (λ l config.
      on_state (to_lowercase channel) action
        (lookup (to_lowercase channel) config.channel_ratchet_states) l config))

unfoldable pub check_nonce : Bytes → Nonce → M DllError Bool
unfolding with_config
check_nonce channel nonce = into_dll (
    with_config (λ config. (elim (lookup (to_lowercase channel) config.channel_nonce_caches) [
      | none ↦ ok false
      | some cache ↦ ok (contains cache.recent_nonces nonce)
    ])))

abbrev cache_of : Option NonceCache → NonceCache
cache_of none = new_cache
cache_of (some cache) = cache

unfoldable pub add_nonce : Bytes → Nonce → M DllError (Unit {0})
unfolding with_config_mut
add_nonce channel nonce = into_dll (
    with_config_mut (λ _ config.
      (let name = to_lowercase channel in
        let cache = cache_of (lookup name config.channel_nonce_caches) in
        (
          ret tt,
          record config {
            channel_nonce_caches =
                insert name (check_and_add cache nonce).1 config.channel_nonce_caches;
          },
        ))))

-- `replace('#', "hash_")`, so that no line of the file reads as a comment.
unfoldable pub safe_channel_name : Bytes → Bytes
safe_channel_name [] = []
safe_channel_name (c ∷ s) =
    let rest = safe_channel_name s in if c == b'#' then codes "hash_" ++ rest else c ∷ rest

abbrev pub manual_entry_key : Bytes → Bytes
manual_entry_key normalized_channel = codes "channel_key_" ++ safe_channel_name normalized_channel

module _ (env : Env) where
  -- `get_keypair_internal`: a stored pair of two 32-byte keys.
  unfoldable pub stored_keypair : FishConfig → Result (Option KeyPair) FishError
  stored_keypair config = elim config.our_private_key [
    | none ↦ ok none
    | some private_b64 ↦ elim config.our_public_key [
      | none ↦ ok none
      | some public_b64 ↦ elim (env.base64_decode private_b64) [
        | none ↦ err FishError.base64_error
        | some private_data ↦ elim (env.base64_decode public_b64) [
          | none ↦ err FishError.base64_error
          | some public_data ↦
              if (length private_data == 32) && (length public_data == 32)
              then ok (some (record { private_key = private_data; public_key = public_data }))
              else err FishError.config_error
        ]
      ]
    ]
  ]

  unfoldable pub storage_key_of : Option KeyPair → Result Key FishError
  storage_key_of none = err FishError.config_error
  storage_key_of (some keypair) =
      elim (env.hkdf none keypair.private_key (codes "FiSH11-ChannelKeyStorage")) [
        | none ↦ err FishError.crypto_error
        | some output ↦ ok output
      ]

  unfoldable pub derive_master_storage_key_internal : FishConfig → Result Key FishError
  unfolding stored_keypair storage_key_of
  derive_master_storage_key_internal config = elim (stored_keypair config) [
    | err e ↦ err e
    | ok keypair ↦ storage_key_of keypair
  ]

  -- The entry's text and the key that it is encrypted under.
  unfoldable pub manual_entry : Bytes → FishConfig → Result (Bytes × Key) FishError
  unfolding derive_master_storage_key_internal
  manual_entry normalized_channel config =
      elim (lookup (manual_entry_key normalized_channel) config.entries) [
        | none ↦ err FishError.key_not_found
        | some entry ↦ elim entry.key [
          | none ↦ err FishError.config_error
          | some encrypted_key_b64 ↦ elim (derive_master_storage_key_internal config) [
            | err e ↦ err e
            | ok master_key ↦ ok (encrypted_key_b64, master_key)
          ]
        ]
      ]

  unfoldable pub decrypt_channel_key_from_storage : Bytes → Bytes → Key → M FishError Key
  decrypt_channel_key_from_storage encrypted_key_b64 channel_name master_key = do
    decrypted_key_b64 ←
        decrypt_message env master_key encrypted_key_b64
          (some (codes "channel_key_" ++ channel_name))
    key_bytes ← expect (env.base64_decode decrypted_key_b64) FishError.config_error
    require (length key_bytes == 32) FishError.config_error
    pure key_bytes

  unfoldable pub get_manual_channel_key : Bytes → M DllError Key
  unfolding is_channel manual_entry with_config decrypt_channel_key_from_storage
  get_manual_channel_key channel_name = do
    require (is_channel (to_lowercase channel_name)) DllError.invalid_input
    found ← into_dll (with_config (manual_entry (to_lowercase channel_name)))
    into_dll (decrypt_channel_key_from_storage found.0 (to_lowercase channel_name) found.1)

  -- `if let Ok(key) = manual { key } else { the other }`.
  unfoldable pub get_channel_key_with_fallback : Bytes → M DllError Key
  unfolding get_manual_channel_key get_channel_key
  get_channel_key_with_fallback channel_name = do
    manual ← attempt {E = DllError} (get_manual_channel_key channel_name)
    elim manual [ some key ↦ pure key | none ↦ into_dll (get_channel_key channel_name) ]

  unfoldable pub has_channel_key : Bytes → M DllError Bool
  unfolding get_manual_channel_key get_channel_key
  has_channel_key channel_name = do
    manual ← attempt {E = DllError} (get_manual_channel_key channel_name)
    elim manual [
      | some key ↦ pure true
      | none ↦ do
        other ← attempt {E = DllError} (get_channel_key channel_name)
        pure (is_some other)
    ]
