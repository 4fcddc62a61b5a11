-- ===== src/Legacy/Commands.antt =====
-- fish_11_dll/src/dll_interface/fish_10: the commands of mIRC for FiSH 10. The locks are taken in turn,
-- for reading, and released at the end.
use fish.Common.{
  Bool, ◌==◌, ◌++◌, none, some, Bytes, codes, if◌then◌else◌, length, drop, trim, starts_with,
  to_lowercase, contains_key, list_eq,
}
use fish.Errors.{Result, ok, err, ◌>>=◌, DllError}
use fish.Config.Access.{free, Outcome, ret, fail, blocked}
use fish.Legacy.Cipher.{BlockCipher}
use fish.Legacy.Blowfish
use fish.Legacy.Detection.{fish10_prefix}
use fish.Legacy.Dh1080.{Crates}
use fish.Legacy.Keys.{
  LegacyConfig, Hex, is_legacy_target, get_legacy_key, set_legacy_key, remove_legacy_key,
}
use fish.Utils.{parse_input, normalize_target_lowercase}

-- FiSH10_SetKey.
abbrev key_set :
    Bytes → Outcome DllError (Unit {0}) × LegacyConfig → Outcome DllError Bytes × LegacyConfig
key_set target (ret _, config) = (ret (codes "Legacy key set for " ++ target), config)
key_set target (fail e, config) = (fail e, config)
key_set target (blocked, config) = (blocked, config)

unfoldable pub fish10_set_key :
    Crates → Hex → Bytes → LegacyConfig → Outcome DllError Bytes × LegacyConfig
unfolding parse_input trim to_lowercase set_legacy_key
fish10_set_key crates hex input config = elim (parse_input input) [
  | err e ↦ (fail e, config)
  | ok parsed ↦
      let target = to_lowercase parsed.target in
      key_set target (set_legacy_key crates hex free target (trim parsed.message) config)
]

-- `map_err` to a LegacyError.
abbrev as_legacy_error : Result Bytes DllError → Result Bytes DllError
as_legacy_error (ok text) = ok text
as_legacy_error (err _) = err DllError.legacy_error

module _ (c : BlockCipher) (config : LegacyConfig) where
  abbrev key_for : Bytes → Result Bytes DllError
  key_for target = elim (get_legacy_key target config) [
    | none ↦ err DllError.legacy_error
    | some key ↦ ok key
  ]

  unfoldable pub fish10_encrypt_msg_impl : Bytes → Result Bytes DllError
  unfolding parse_input trim to_lowercase
  fish10_encrypt_msg_impl input = do
    parsed ← parse_input input
    key ← key_for (to_lowercase parsed.target)
    encrypted ← as_legacy_error (Blowfish.encrypt_message c key (trim parsed.message))
    ok (fish10_prefix ++ encrypted)

  abbrev without_prefix : Bytes → Bytes
  without_prefix message = if starts_with fish10_prefix message then drop 4 message else message

  unfoldable pub fish10_decrypt_msg_impl : Bytes → Result Bytes DllError
  unfolding parse_input trim to_lowercase starts_with
  fish10_decrypt_msg_impl input = do
    parsed ← parse_input input
    key ← key_for (to_lowercase parsed.target)
    as_legacy_error (Blowfish.decrypt_message c key (without_prefix (trim parsed.message)))

module _ (config : LegacyConfig) where
  -- FiSH10_HasKey.
  unfoldable pub fish10_has_key : Bytes → Result Bytes DllError
  unfolding normalize_target_lowercase contains_key
  fish10_has_key input =
      let target = normalize_target_lowercase input in
      if length target == 0
      then err DllError.missing_parameter
      else if is_legacy_target target config
      then ok (codes "1")
      else ok (codes "0")

  -- FiSH10_GetKey.
  unfoldable pub fish10_get_key : Hex → Bytes → Result Bytes DllError
  unfolding normalize_target_lowercase
  fish10_get_key hex input =
      let target = normalize_target_lowercase input in
      if length target == 0
      then err DllError.missing_parameter
      else elim (get_legacy_key target config) [
        | none ↦ err DllError.key_not_found
        | some key ↦ ok (hex.hex_encode key)
      ]

-- FiSH10_DelKey, told whether FiSH 11 has a key for the target.
abbrev key_deleted :
    Bytes → Result (Unit {0}) DllError × LegacyConfig → Result Bytes DllError × LegacyConfig
key_deleted target (ok _, config) = (ok (codes "legacy key deleted for " ++ target), config)
key_deleted target (err e, config) = (err e, config)

unfoldable pub fish10_del_key :
    (Bytes → Bool) → Bytes → LegacyConfig → Result Bytes DllError × LegacyConfig
unfolding normalize_target_lowercase remove_legacy_key
fish10_del_key in_fish11 input config =
    let target = normalize_target_lowercase input in
    key_deleted target (remove_legacy_key (in_fish11 target) target config)
