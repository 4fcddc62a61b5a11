-- ===== src/Config/Keys/Ttl.antt =====
-- fish_11_dll/src/config/key_management.rs: the age at which an exchange key is refused.
use fish.Common.{
  ℕ, ◌+◌, ◌≡◌, ◌↔◌, arith, some, Bytes, if◌then◌else◌, lookup, list_eq, ℤ, pos, ◌+ℤ◌, ◌-ℤ◌, leb_ℤ,
  ltb_ℤ, wrap_i64, ◌≤ℤ◌, remove, ◌&&◌, ◌<◌, ◌-◌,
}
use fish.Env.{Env}
use fish.Errors.{err, FishError, DllError}
use fish.Config.Models.{EntryData, FishConfig}
use fish.Config.Access.{free, ret, fail}
use fish.Config.Keys.Expiry.{get_key_ttl, check_key_expiry}
use fish.Config.Keys.{
  default_ttl, entry_key_of, unwrap_or, get_configured_key_ttl, check_expiration, age_of,
  set_configured_key_ttl,
}
use fish.Utils.{normalize_nick}

-- The configured life always lies between an hour and seven days.
pub get_configured_key_ttl_bounds :
    (config : FishConfig)
    → (pos 3600 ≤ℤ get_configured_key_ttl config) × (get_configured_key_ttl config ≤ℤ pos 604800)
unfolding get_configured_key_ttl
get_configured_key_ttl_bounds config = ground arith

-- `set_configured_key_ttl` accepts exactly an hour to seven days: such a life is then the one in
-- force, and any other is refused with the configuration as it was.
pub get-set_configured_key_ttl :
    (ttl : ℤ) (config : FishConfig)
    → let (outcome, after) = set_configured_key_ttl ttl free config in
      if leb_ℤ (pos 3600) ttl && leb_ℤ ttl (pos 604800)
      then (outcome ≡ ret tt) × (get_configured_key_ttl after ≡ ttl)
      else (outcome ≡ fail DllError.invalid_input) × (after ≡ config)
unfolding set_configured_key_ttl get_configured_key_ttl
get-set_configured_key_ttl ttl config = ground arith

module _ (env : Env) (config : FishConfig) (nickname network : Bytes) (entry : EntryData) (age : ℤ)
    (there : lookup (entry_key_of (normalize_nick nickname) network) config.entries ≡ some entry)
    (aged : age_of env entry ≡ some age) where
  -- Where the life in the file is in range, an exchange key whose age can be read is refused by
  -- `get_key`'s check exactly
  -- when `get_key_ttl` says that no second is left.
  pub get_key_ttl-check_expiration :
      get_configured_key_ttl config ≡ unwrap_or config.fish11.key_ttl default_ttl
      → (check_expiration env config entry ≡ err FishError.key_expired)
        ↔ (get_key_ttl env nickname (some network) free config ≡ (ret (some (pos 0)), config))
  unfolding check_expiration get_key_ttl
  get_key_ttl-check_expiration r = ground (arith, there, aged, r)

  -- Where the file holds a life below an hour, an exchange key that is that life and five minutes
  -- old is refused by the check of `get_key`, while `get_key_ttl` says that the rest of the hour
  -- is left.
  pub get_key_ttl_short_life :
      (life : ℕ)
      → config.fish11.key_ttl ≡ some (pos life)
      → life < 3600
      → age ≡ pos (life + 300)
      → (check_expiration env config entry ≡ err FishError.key_expired)
        × (get_key_ttl env nickname (some network) free config
            ≡ (ret (some (pos (3600 - life))), config))
  unfolding check_expiration get_key_ttl get_configured_key_ttl ◌+ℤ◌ ◌-ℤ◌ wrap_i64
  get_key_ttl_short_life life e lt a = ground (arith, there, aged)

  -- A nickname whose exchange key on the named network, with a date that can be read, is more than
  -- the life in force and five minutes old loses its key, its old key and its network, and the
  -- call says that it expired; otherwise nothing changes.
  pub check_key_expiry_lem :
      let nick = normalize_nick nickname in
      check_key_expiry env nickname (some network) free config ≡ (
        if ltb_ℤ (get_configured_key_ttl config +ℤ pos 300) age
        then (
          fail DllError.key_expired,
          record config {
            entries = remove (entry_key_of nick network) config.entries;
            keys = remove nick config.keys;
            nick_networks = remove nick config.nick_networks;
          },
        )
        else (ret tt, config))
  unfolding check_key_expiry get_configured_key_ttl wrap_i64 ◌+ℤ◌
  check_key_expiry_lem = ground (arith, there, aged)
