-- ===== src/Config/Keys/Expiry.antt =====
-- fish_11_dll/src/config/key_management.rs: how long a key has to live, and the removal of one that has
-- outlived its time.
use fish.Common.{
  Bool, true, false, not, Option, none, some, Bytes, if◌then◌else◌, lookup, remove, list_eq, ℤ, pos,
  ◌+ℤ◌, ◌-ℤ◌, leb_ℤ, ltb_ℤ, wrap_i64,
}
use fish.Env.{Env}
use fish.Errors.{ok, err, FishError, DllError}
use fish.Config.Access.{M, ◌>>=◌, pure, require, ret, with_config, with_config_mut, into_dll}
use fish.Config.Keys.{
  entry_key_of, key_expiry_grace_period, get_configured_key_ttl, resolve_network_name,
  resolve_network_name_simple, age_of,
}
use fish.Utils.{normalize_nick}

module _ (env : Env) where
  -- The seconds that are left, at least 0, of the entry's life; `none` where it has no end.
  unfoldable pub get_key_ttl : Bytes → Option Bytes → M DllError (Option ℤ)
  unfolding resolve_network_name age_of get_configured_key_ttl with_config
  get_key_ttl nickname network = into_dll (
      with_config (λ config.
        (let nick = normalize_nick nickname in
          elim (lookup (entry_key_of nick (resolve_network_name env config network nick))
            config.entries) [
              | none ↦ err FishError.key_not_found
              | some entry ↦ elim (age_of env entry) [
                | none ↦ ok none
                | some elapsed ↦
                    let remaining = wrap_i64 (
                      wrap_i64 (get_configured_key_ttl config +ℤ key_expiry_grace_period)
                      -ℤ elapsed) in
                    ok (some (if ltb_ℤ (pos 0) remaining then remaining else pos 0))
              ]
            ])))

  unfoldable pub is_key_about_to_expire : Bytes → Option Bytes → M DllError Bool
  unfolding get_key_ttl
  is_key_about_to_expire nickname network = do
    ttl ← get_key_ttl nickname network
    pure (elim ttl [ none ↦ false | some seconds ↦ leb_ℤ seconds (pos 3600) ])

  -- Whether the entry has outlived its time; then it is removed with all that names it.
  unfoldable pub expire : Bytes → Bytes → ℤ → M FishError Bool
  unfolding age_of
  expire nick network_name key_lifetime l config =
      let entry_key = entry_key_of nick network_name in
      elim (lookup entry_key config.entries) [
        | none ↦ (ret false, config)
        | some entry ↦ elim (age_of env entry) [
          | none ↦ (ret false, config)
          | some elapsed ↦
              if ltb_ℤ (wrap_i64 (key_lifetime +ℤ key_expiry_grace_period)) elapsed
              then (
                ret true,
                record config {
                  entries = remove entry_key config.entries;
                  keys = remove nick config.keys;
                  nick_networks = remove nick config.nick_networks;
                },
              )
              else (ret false, config)
        ]
      ]

  unfoldable pub check_key_expiry : Bytes → Option Bytes → M DllError (Unit {0})
  unfolding expire resolve_network_name_simple get_configured_key_ttl with_config_mut with_config
  check_key_expiry nickname network = do
    key_lifetime ← into_dll (with_config (λ config. ok (get_configured_key_ttl config)))
    was_expired ← into_dll (
        with_config_mut
          (expire (normalize_nick nickname) (resolve_network_name_simple env network) key_lifetime))
    require (not was_expired) DllError.key_expired
