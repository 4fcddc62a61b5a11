-- ===== src/Config/Keys/Listing.antt =====
-- fish_11_dll/src/config/key_management.rs and fish_11_dll/src/config/mod.rs: the listings of keys, the
-- key pair for display and the shorthands for the default network. Maps are listed in the order of the
-- model. The text of get_key_status_human_readable is left out.
pub mod Counted
use fish.Common.{
  ℕ, ◌+◌, ◌==◌, Bool, true, false, not, ◌&&◌, ◌||◌, List, [], ◌∷◌, ◌++◌, map, Option, none, some,
  Bytes, codes, if◌then◌else◌, is_some, length, lookup, list_eq, starts_with, find_text, ℤ,
}
use fish.Env.{Env}
use fish.Errors.{Result, ok, err, ◌>>=◌, FishError, DllError}
use fish.Config.Models.{Key, EntryData, FishConfig}
use fish.Config.Access.{M, Outcome, ret, fail, blocked, reading, with_config, into_dll}
use fish.Config.Keys.{
  default_network, entry_key_of, resolve_network_name, get_key, set_key, delete_key,
}
use fish.Config.Keys.Expiry.{get_key_ttl}
use fish.Utils.{normalize_nick}

pub record KeyStatus : Type 0 where
  pub nickname : Bytes
  pub network : Bytes
  pub is_exchange : Bool
  pub is_valid : Bool
  pub ttl : Option ℤ

pub record KeyInfo : Type 0 where
  pub nickname : Bytes
  pub network : Bytes
  pub is_exchange : Bool
  pub ttl : Option ℤ

-- A line of list_keys.
pub record Listed : Type 0 where
  pub name : Bytes
  pub network : Bytes
  pub kind : Bytes
  pub date : Option Bytes

-- `is_exchange == Some(true)`.
abbrev is_exchanged : EntryData → Bool
is_exchanged entry = elim entry.is_exchange [ none ↦ false | some b ↦ b ]

-- `Ok(Some(seconds)) => Some(seconds)`, and none else. A thread does not wait here: the lock is held for
-- reading.
abbrev seconds_of : Outcome DllError (Option ℤ) × FishConfig → Option ℤ
seconds_of (ret ttl, config) = ttl
seconds_of (fail e, config) = none
seconds_of (blocked, config) = none

-- The parts around the first '@'; with no '@' the whole on the default network.
unfoldable pub name_and_network : Bytes → Bytes × Bytes
unfolding find_text
name_and_network entry_key = elim (find_text (codes "@") entry_key) [
  | none ↦ (entry_key, default_network)
  | some (nick, net) ↦ (nick, net)
]

module _ (env : Env) where
  abbrev ttl_if : Bool → Bytes → Option Bytes → FishConfig → Option ℤ
  ttl_if true nickname network config = seconds_of (get_key_ttl env nickname network reading config)
  ttl_if false nickname network config = none

  unfoldable pub get_key_status : Bytes → Option Bytes → M DllError KeyStatus
  unfolding normalize_nick resolve_network_name get_key_ttl with_config
  get_key_status nickname network = into_dll (
      with_config (λ config.
        (let nick = normalize_nick nickname in
          let network_name = resolve_network_name env config network nick in
          elim (lookup (entry_key_of nick network_name) config.entries) [
            | none ↦ err FishError.key_not_found
            | some entry ↦ ok (record {
              nickname = nick;
              network = network_name;
              is_exchange = is_exchanged entry;
              is_valid = is_exchanged entry;
              ttl = ttl_if (is_exchanged entry) nickname network config;
            })
          ])))

  abbrev key_info : FishConfig → Bytes × EntryData → KeyInfo
  key_info config (entry_key, entry) =
      let (nick, net) = name_and_network entry_key in
      record {
        nickname = nick;
        network = net;
        is_exchange = is_exchanged entry;
        ttl = ttl_if (is_exchanged entry) nick (some net) config;
      }

  unfoldable pub get_all_keys_with_ttl : M DllError (List KeyInfo)
  unfolding name_and_network get_key_ttl with_config
  get_all_keys_with_ttl =
      into_dll (with_config (λ config. ok (map (key_info config) config.entries)))

  abbrev key_of_32 : Option Bytes → Result Key FishError
  key_of_32 none = err FishError.config_error
  key_of_32 (some encoded) = elim (env.base64_decode encoded) [
    | none ↦ err FishError.config_error
    | some bytes ↦ if length bytes == 32 then ok bytes else err FishError.config_error
  ]

  -- The private key and the public key.
  unfoldable pub get_our_keypair : M FishError (Key × Key)
  unfolding with_config
  get_our_keypair = with_config (λ config. (do
    private_key ← key_of_32 config.our_private_key
    public_key ← key_of_32 config.our_public_key
    ok (private_key, public_key)))

  abbrev get_key_default : Bytes → M FishError Bytes
  get_key_default nickname = get_key env nickname (some default_network)

  abbrev delete_key_default : Bytes → M FishError (Unit {0})
  delete_key_default nickname = delete_key env nickname (some default_network)

  abbrev set_key_default : Bytes → Key → Bool → M FishError (Unit {0})
  set_key_default nickname key overwrite =
      set_key env nickname key (some default_network) overwrite false

abbrev is_hash : Bytes → Bool
is_hash [] = false
is_hash (c ∷ s) = c == b'#'

-- The line of an entry, if it has one.
unfoldable pub listed : Bytes → EntryData → Option Listed
unfolding find_text
listed entry_key entry =
    if not (is_some entry.key) then none else elim (find_text (codes "@") entry_key) [
      | none ↦ none
      | some (name_part, network) ↦
          if not (length name_part == 0) && not (length network == 0)
          then some (record {
            name = name_part;
            network = network;
            kind = if is_hash name_part then codes "channel" else codes "user";
            date = entry.date;
          })
          else none
    ]

abbrev with_line : Option Listed → List Listed → List Listed
with_line none lines = lines
with_line (some line) lines = line ∷ lines

pub lines_of : List (Bytes × EntryData) → List Listed
unfolding listed
lines_of [] = []
lines_of ((entry_key, entry) ∷ entries) = with_line (listed entry_key entry) (lines_of entries)

unfoldable pub list_keys : M FishError (List Listed)
unfolding lines_of with_config
list_keys = with_config (λ config. ok (lines_of config.entries))

-- How many entries have the prefix.
unfoldable pub count_prefix : Bytes → List (Bytes × EntryData) → ℕ
unfolding starts_with
count_prefix prefix [] = 0
count_prefix prefix ((entry_key, entry) ∷ entries) =
    let rest = count_prefix prefix entries in
    if starts_with prefix entry_key then 1 + rest else rest

unfoldable pub count_keys : M FishError ℕ
unfolding count_prefix with_config
count_keys = with_config (λ config. ok (
    count_prefix (codes "key_") config.entries
    + length config.channel_keys
    + count_prefix (codes "channel_key_") config.entries))
