-- ===== src/Config/Keys.antt =====
-- fish_11_dll/src/config/key_management.rs and the network mapping of
-- fish_11_dll/src/config/networks.rs: the keys of nicknames, their networks and their age.
pub mod Store
pub mod Ttl
pub mod Listing
pub mod Expiry
pub mod Frame
use fish.Common.{
  ℕ, ◌+◌, ◌==◌, Bool, true, false, not, ◌&&◌, ◌||◌, List, [], ◌∷◌, ◌++◌, Option, none, some, Bytes,
  codes, if◌then◌else◌, is_some, lookup, insert, remove, contains_key, starts_with, list_eq,
  same_list, ℤ, pos, ◌+ℤ◌, ◌-ℤ◌, leb_ℤ, ltb_ℤ, wrap_i64, length,
}
use fish.Env.{Env}
use fish.Errors.{Result, ok, err, FishError, DllError}
use fish.Config.Models.{EntryData, FishConfig}
use fish.Config.Access.{
  M, ◌>>=◌, ◌>>◌, pure, throw, lift, require, ret, fail, with_config, with_config_mut, into_dll,
}
use fish.Utils.{normalize_nick}

-- i64 constants, in seconds.
abbrev pub min_key_ttl : ℤ
min_key_ttl = pos 3600

abbrev pub max_key_ttl : ℤ
max_key_ttl = pos 604800

abbrev pub key_expiry_grace_period : ℤ
key_expiry_grace_period = pos 300

abbrev pub default_ttl : ℤ
default_ttl = pos 86400

abbrev pub default_network : Bytes
default_network = codes "default"

-- `format!("{}@{}", nick, network)`: both branches of the source write this.
abbrev pub entry_key_of : Bytes → Bytes → Bytes
entry_key_of nick network = nick ++ (b'@' ∷ network)

abbrev pub or_else : {A : Type 0} → Option A → Option A → Option A
or_else none b = b
or_else (some a) b = some a

abbrev pub unwrap_or : {A : Type 0} → Option A → A → A
unwrap_or none d = d
unwrap_or (some a) d = a

abbrev is_true : Option Bool → Bool
is_true (some true) = true
is_true (some false) = false
is_true none = false

unfoldable pub validate_network_name : Bytes → Result (Unit {0}) FishError
validate_network_name [] = ok tt
validate_network_name (c ∷ s) =
    if c == b':' then err FishError.invalid_network_name else validate_network_name s

-- The network that `get_key` and `delete_key` look in.
unfoldable pub network_of : FishConfig → Bytes → Option Bytes → Bytes
network_of config nick network =
    unwrap_or (or_else network (lookup nick config.nick_networks)) default_network

unfoldable pub get_configured_key_ttl : FishConfig → ℤ
get_configured_key_ttl config =
    let ttl = unwrap_or config.fish11.key_ttl default_ttl in
    if ltb_ℤ ttl min_key_ttl
    then min_key_ttl
    else if ltb_ℤ max_key_ttl ttl
    then max_key_ttl
    else ttl

unfoldable pub set_configured_key_ttl : ℤ → M DllError (Unit {0})
unfolding with_config_mut
set_configured_key_ttl ttl_seconds = do
  require (leb_ℤ min_key_ttl ttl_seconds) DllError.invalid_input
  require (leb_ℤ ttl_seconds max_key_ttl) DllError.invalid_input
  with_config_mut (λ _ config.
      (ret tt, record config { fish11 = record (config.fish11) { key_ttl = some ttl_seconds } }))

module _ (env : Env) where
  unfoldable pub resolve_network_name_simple : Option Bytes → Bytes
  resolve_network_name_simple network =
      unwrap_or (or_else network env.current_network) default_network

  -- With `check_existing_mapping`, as every caller sets it.
  unfoldable pub resolve_network_name : FishConfig → Option Bytes → Bytes → Bytes
  resolve_network_name config network nick =
      unwrap_or (or_else network (or_else env.current_network (lookup nick config.nick_networks)))
        default_network

  -- The age of an entry that is an exchange key with a date that can be read.
  unfoldable pub age_of : EntryData → Option ℤ
  age_of entry =
      if is_true entry.is_exchange
      then elim entry.date [
        | none ↦ none
        | some date ↦ elim (env.parse_date date) [
          | none ↦ none
          | some key_date ↦ some (env.now -ℤ key_date)
        ]
      ]
      else none

  unfoldable pub check_expiration : FishConfig → EntryData → Result (Unit {0}) FishError
  unfolding age_of
  check_expiration config entry = elim (age_of entry) [
    | none ↦ ok tt
    | some elapsed ↦
        let key_lifetime = unwrap_or config.fish11.key_ttl default_ttl in
        let remaining = wrap_i64 (wrap_i64 (key_lifetime +ℤ key_expiry_grace_period) -ℤ elapsed) in
        if leb_ℤ remaining (pos 0) then err FishError.key_expired else ok tt
  ]

  -- What an entry that holds a key gives: its expiry is checked, then the key is decoded.
  unfoldable pub key_of_entry : FishConfig → EntryData → Option (Result Bytes FishError)
  unfolding check_expiration
  key_of_entry config entry = elim entry.key [
    | none ↦ none
    | some key_str ↦ some (elim (check_expiration config entry) [
      | err e ↦ err e
      | ok _ ↦ elim (env.base64_decode key_str) [
        | none ↦ err FishError.base64_error
        | some key ↦ ok key
      ]
    ])
  ]

  unfoldable pub key_at : FishConfig → Bytes → Option (Result Bytes FishError)
  unfolding key_of_entry
  key_at config entry_key = elim (lookup entry_key config.entries) [
    | none ↦ none
    | some entry ↦ key_of_entry config entry
  ]

  -- The loop over all entries, in the map's order.
  key_on_any_network :
      FishConfig → Bytes → List (Bytes × EntryData) → Option (Result Bytes FishError)
  unfolding key_of_entry
  key_on_any_network config prefix [] = none
  key_on_any_network config prefix ((entry_key, entry) ∷ rest) =
      let later = key_on_any_network config prefix rest in
      if starts_with prefix entry_key then or_else (key_of_entry config entry) later else later

  unfoldable pub get_key_internal : FishConfig → Bytes → Option Bytes → Result Bytes FishError
  unfolding network_of key_at key_on_any_network
  get_key_internal config nickname network =
      let nick = normalize_nick nickname in
      let network_name = network_of config nick network in
      let is_default = same_list network_name default_network in
      unwrap_or
        (or_else (key_at config (entry_key_of nick network_name)) (
          if is_default
          then key_on_any_network config (nick ++ (b'@' ∷ [])) config.entries
          else key_at config (entry_key_of nick default_network)))
        (err FishError.key_not_found)

  unfoldable pub get_key : Bytes → Option Bytes → M FishError Bytes
  unfolding get_key_internal with_config
  get_key nickname network = with_config (λ config. get_key_internal config nickname network)

  -- The closure of `set_key`: the checks for an entry that is there, and the new entry.
  unfoldable pub insert_key : Bytes → Bytes → Option Bytes → Bool → Bool → M FishError (Unit {0})
  unfolding resolve_network_name
  insert_key nickname key network overwrite is_exchange l config =
      let nick = normalize_nick nickname in
      let net = unwrap_or (or_else network (lookup nick config.nick_networks)) (codes ".") in
      let entry_key = entry_key_of nick (resolve_network_name config network nick) in
      if not overwrite && contains_key nick config.keys
      then (fail FishError.duplicate_entry, config)
      else if not overwrite && contains_key (net ++ (b':' ∷ nickname)) config.entries
      then (fail FishError.duplicate_entry, config)
      else if not overwrite && contains_key entry_key config.entries
      then (fail FishError.duplicate_entry, config)
      else (
        ret tt,
        record config {
          entries =
              insert entry_key
                (record {
                  key = some (env.base64_encode key);
                  date = some env.now_text;
                  is_exchange = some is_exchange;
                })
                config.entries;
        },
      )

  unfoldable pub set_network_for_nick : Bytes → Bytes → M FishError (Unit {0})
  unfolding with_config_mut
  set_network_for_nick nickname network = with_config_mut (λ _ config.
      (ret tt, record config { nick_networks = insert nickname network config.nick_networks }))

  unfoldable pub set_key : Bytes → Bytes → Option Bytes → Bool → Bool → M FishError (Unit {0})
  unfolding validate_network_name insert_key set_network_for_nick resolve_network_name_simple
      with_config_mut
  set_key nickname key network overwrite is_exchange = do
    lift (elim network [ none ↦ ok tt | some net ↦ validate_network_name net ])
    with_config_mut (insert_key nickname key network overwrite is_exchange)
    set_network_for_nick (normalize_nick nickname) (resolve_network_name_simple network)

  unfoldable pub delete_key : Bytes → Option Bytes → M FishError (Unit {0})
  unfolding network_of with_config_mut
  delete_key nickname network = with_config_mut (λ _ config.
      (let nick = normalize_nick nickname in
        let entry_key = entry_key_of nick (network_of config nick network) in
        let config' = record config {
          entries = remove entry_key config.entries;
          keys = remove nick config.keys;
          nick_networks =
              if is_some network then config.nick_networks else remove nick config.nick_networks;
        } in
        (
          if contains_key entry_key config.entries || contains_key nick config.keys
              then ret tt
              else fail FishError.key_not_found,
          config',
        )))
