-- ===== src/Config/Keys/Store.antt =====
-- fish_11_dll/src/config/key_management.rs: `set_key` and `delete_key` against the map of entries.
use fish.Common.{
  ◌≡◌, refl, arith, Bool, true, false, ◌||◌, List, [], ◌∷◌, ◌++◌, Option, none, some, Bytes, codes,
  if◌then◌else◌, lookup, insert, contains_key, list_eq, same_list, lookup-insert, lookup-remove,
  lookup-insert_self, lookup-remove_self, pos, ℤ, ◌+ℤ◌, ◌-ℤ◌, ◌≤ℤ◌, wrap_i64, ◌-◌, ◌^◌,
}
use fish.Env.{Env, IsEnv}
use fish.Errors.{ok, FishError}
use fish.Config.Models.{EntryData, FishConfig}
use fish.Config.Access.{free, ret, fail}
use fish.Config.Keys.{
  validate_network_name, entry_key_of, network_of, default_ttl, unwrap_or, key_of_entry, key_at,
  get_key, set_key, delete_key,
}
use fish.Utils.{normalize_nick}

-- A life to which the grace period is added inside an i64.
abbrev pub IsLife : ℤ → Type 0
IsLife key_ttl = (pos 0 ≤ℤ key_ttl) × (key_ttl ≤ℤ pos (2 ^ 63 - 301))

-- That a key stored now can be read: an exchange key needs such a life.
abbrev pub IsReadable : Bool → Option ℤ → Type 0
IsReadable false key_ttl = Unit {0}
IsReadable true key_ttl = IsLife (unwrap_or key_ttl default_ttl)

module _ (env : Env) where
  -- The entry that `set_key` writes.
  abbrev pub fresh_entry : Bytes → Bool → EntryData
  fresh_entry key is_exchange = record {
    key = some (env.base64_encode key);
    date = some env.now_text;
    is_exchange = some is_exchange;
  }

  -- The configuration with the key stored for the nick on the network, and the mapping to it.
  abbrev pub stored : FishConfig → Bytes → Bytes → Bytes → Bool → FishConfig
  stored config nick net key is_exchange = record config {
    entries = insert (entry_key_of nick net) (fresh_entry key is_exchange) config.entries;
    nick_networks = insert nick net config.nick_networks;
  }

  -- With a network that is allowed and leave to overwrite, the key is stored, the nick is mapped to
  -- the network, and no other part of the configuration changes.
  pub set_key_overwrites :
      (nickname key net : Bytes) (is_exchange : Bool) (config : FishConfig)
      → validate_network_name net ≡ ok tt
      → set_key env nickname key (some net) true is_exchange free config
        ≡ (ret tt, stored config (normalize_nick nickname) net key is_exchange)
  unfolding set_key
  set_key_overwrites nickname key net is_exchange config v = ground arith

  -- The same with no network given, on the current one.
  pub set_key_current :
      (nickname key net : Bytes) (is_exchange : Bool) (config : FishConfig)
      → env.current_network ≡ some net
      → set_key env nickname key none true is_exchange free config
        ≡ (ret tt, stored config (normalize_nick nickname) net key is_exchange)
  unfolding set_key
  set_key_current nickname key net is_exchange config c = ground (arith, c)

module _ (env : Env) (laws : IsEnv env) where
  fresh_key :
      (config : FishConfig) (key : Bytes) (is_exchange : Bool)
      → IsReadable is_exchange config.fish11.key_ttl
      → key_of_entry env config (fresh_entry env key is_exchange) ≡ some (ok key)
  unfolding key_of_entry ◌+ℤ◌ ◌-ℤ◌ wrap_i64
  fresh_key config key false h = ground (arith, laws.base64_decode-encode key)
  fresh_key config key true (low, high) =
      ground (arith, low, high, laws.base64_decode-encode key, laws.parse_date-now)

  pub key_at-stored :
      (config : FishConfig) (nick net key : Bytes) (is_exchange : Bool)
      → IsReadable is_exchange config.fish11.key_ttl
      → key_at env (stored env config nick net key is_exchange) (entry_key_of nick net)
        ≡ some (ok key)
  unfolding key_at
  key_at-stored config nick net key is_exchange h =
      rw
        (
          lookup-insert_self (entry_key_of nick net) (fresh_entry env key is_exchange)
              config.entries,
          key_at,
        )
        (fresh_key (stored env config nick net key is_exchange) key is_exchange h)

  pub get_key_lem :
      (config : FishConfig) (nickname key : Bytes) (network : Option Bytes)
      → key_at env config (
          entry_key_of
            (normalize_nick nickname)
            (network_of config (normalize_nick nickname) network))
        ≡ some (ok key)
      → get_key env nickname network free config ≡ (ret key, config)
  unfolding get_key
  get_key_lem config nickname key network e = rw (e, get_key) refl

  -- What was stored is found with no network given.
  pub get_key-stored :
      (nickname key net : Bytes) (is_exchange : Bool) (config : FishConfig)
      → IsReadable is_exchange config.fish11.key_ttl
      → let config' = stored env config (normalize_nick nickname) net key is_exchange in
        get_key env nickname none free config' ≡ (ret key, config')
  unfolding network_of
  get_key-stored nickname key net is_exchange config h =
      let nick = normalize_nick nickname in
      get_key_lem (stored env config nick net key is_exchange) nickname key none (
        rw (lookup-insert_self nick net config.nick_networks)
          (key_at-stored config nick net key is_exchange h))

  -- With an allowed network and leave to overwrite `set_key` succeeds, and then `get_key` gives
  -- the key for the nick, with that network and with none, as long as base64 is read back and, for an
  -- exchange key, dates are too and the configured life is not negative and at most 2 ^ 63 - 301
  -- seconds.
  pub get_key-set_key :
      (nickname key net : Bytes) (is_exchange : Bool) (config : FishConfig)
      → validate_network_name net ≡ ok tt
      → IsReadable is_exchange config.fish11.key_ttl
      → (config' : FishConfig) × (set_key env nickname key (some net) true is_exchange free config
          ≡ (ret tt, config'))
        × (get_key env nickname (some net) free config' ≡ (ret key, config'))
        × (get_key env nickname none free config' ≡ (ret key, config'))
  unfolding network_of
  get_key-set_key nickname key net is_exchange config v h =
      let nick = normalize_nick nickname in
      let config' = stored env config nick net key is_exchange in
      let there = key_at-stored config nick net key is_exchange h in
      (
        config',
        set_key_overwrites env nickname key net is_exchange config v,
        get_key_lem config' nickname key (some net) there,
        get_key-stored nickname key net is_exchange config h,
      )

-- Without leave to overwrite, an entry that is there on an allowed network is kept: the call fails and changes nothing.
pub set_key_duplicate :
    (env : Env) (nickname key net : Bytes) (is_exchange : Bool) (config : FishConfig)
    → validate_network_name net ≡ ok tt
    → contains_key (entry_key_of (normalize_nick nickname) net) config.entries ≡ true
    → set_key env nickname key (some net) false is_exchange free config
      ≡ (fail FishError.duplicate_entry, config)
unfolding set_key
set_key_duplicate env nickname key net is_exchange config v h = ground arith

-- `delete_key` with a network succeeds exactly when there was an entry or an old key to remove;
-- either way the entry and the old key are gone, and every other entry and the mapping stay.
pub lookup-delete_key :
    (env : Env) (nickname net other : Bytes) (config : FishConfig)
    → let nick = normalize_nick nickname in
      let entry_key = entry_key_of nick net in
      let (outcome, after) = delete_key env nickname (some net) free config in
      (outcome ≡ (
        if contains_key entry_key config.entries || contains_key nick config.keys
        then ret tt
        else fail FishError.key_not_found))
      × (lookup other after.entries
          ≡ (if same_list entry_key other then none else lookup other config.entries))
      × (lookup nick after.keys ≡ none)
      × (after.nick_networks ≡ config.nick_networks)
unfolding delete_key
lookup-delete_key env nickname net other config =
    let nick = normalize_nick nickname in
    let entry_key = entry_key_of nick net in
    (refl, lookup-remove entry_key other config.entries, lookup-remove_self nick config.keys, refl)

pub append_ne : (p a b : Bytes) → same_list a b ≡ false → same_list (p ++ a) (p ++ b) ≡ false
append_ne [] a b h = h
append_ne (x ∷ p) a b h = ground (arith, append_ne p a b h)

pub entry_key_ne :
    (nick a b : Bytes)
    → same_list a b ≡ false
    → same_list (entry_key_of nick a) (entry_key_of nick b) ≡ false
entry_key_ne nick a b h = append_ne nick (b'@' ∷ a) (b'@' ∷ b) (ground arith)

-- A key on one network stays readable when an entry on another network is written.
key_at_kept :
    (env : Env) (nick a b : Bytes) (entry : EntryData) (config : FishConfig)
    (networks : List (Bytes × Bytes)) {old : Bytes}
    → same_list a b ≡ false
    → key_at env config (entry_key_of nick b) ≡ some (ok old)
    → key_at env
        (record config {
          entries = insert (entry_key_of nick a) entry config.entries;
          nick_networks = networks;
        })
        (entry_key_of nick b)
      ≡ some (ok old)
unfolding key_at key_of_entry
key_at_kept env nick a b entry config networks d o =
    let kept = lookup-insert (entry_key_of nick a) (entry_key_of nick b) entry config.entries in
    rw (kept, key_at) (rw (entry_key_ne nick a b d, key_at) o)

get_key_unnamed :
    (env : Env) (nickname old : Bytes) (config : FishConfig)
    → lookup (normalize_nick nickname) config.nick_networks ≡ some (codes "default")
    → key_at env config (entry_key_of (normalize_nick nickname) (codes "default")) ≡ some (ok old)
    → get_key env nickname none free config ≡ (ret old, config)
unfolding get_key network_of
get_key_unnamed env nickname old config m o = rw (m, get_key) (rw (o, get_key) refl)

-- With no network given and none current, a nick that is mapped to another network than the
-- default one, and has a readable key on the default network, gets its new key stored on its
-- network and its mapping set to the default network, so that `get_key` goes on to give the old
-- key.
pub get_key-set_key_unnamed :
    (env : Env) (nickname key old net : Bytes) (is_exchange : Bool) (config : FishConfig)
    → env.current_network ≡ none
    → lookup (normalize_nick nickname) config.nick_networks ≡ some net
    → same_list net (codes "default") ≡ false
    → key_at env config (entry_key_of (normalize_nick nickname) (codes "default")) ≡ some (ok old)
    → (config' : FishConfig) × (set_key env nickname key none true is_exchange free config
        ≡ (ret tt, config'))
      × (get_key env nickname none free config' ≡ (ret old, config'))
get_key-set_key_unnamed env nickname key old net is_exchange config c m d o =
    let nick = normalize_nick nickname in
    let config' = record config {
      entries = insert (entry_key_of nick net) (fresh_entry env key is_exchange) config.entries;
      nick_networks = insert nick (codes "default") config.nick_networks;
    } in
    (
      config',
      unfold set_key in ground (arith, c, m),
      get_key_unnamed env nickname old config'
          (lookup-insert_self nick (codes "default") config.nick_networks)
          (key_at_kept env nick net (codes "default") (fresh_entry env key is_exchange) config
            (insert nick (codes "default") config.nick_networks) d o),
    )
