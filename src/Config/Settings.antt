-- ===== src/Config/Settings.antt =====
-- fish_11_dll/src/config/settings.rs: the section [FiSH11] and the time of the start. The text of a
-- time is left out.
use fish.Common.{ℕ, Bool, true, false, not, ◌&&◌, none, some, Bytes, codes, if◌then◌else◌}
use fish.Errors.{ok, err, FishError}
use fish.Config.Models.{Fish11Section}
use fish.Config.Access.{M, ret, with_config, with_config_mut}

unfoldable pub get_fish11_config : M FishError Fish11Section
unfolding with_config
get_fish11_config = with_config (λ config. ok config.fish11)

unfoldable pub update_fish11_config : Fish11Section → M FishError (Unit {0})
unfolding with_config_mut
update_fish11_config section =
    with_config_mut (λ _ config. (ret tt, record config { fish11 = section }))

unfoldable pub should_encrypt_message : Bool → Bool → M FishError Bool
unfolding with_config
should_encrypt_message is_notice is_action = with_config (λ config.
    (if is_notice && not config.fish11.encrypt_notice
      then ok false
      else if is_action && not config.fish11.encrypt_action
      then ok false
      else ok true))

unfoldable pub should_process_outgoing : M FishError Bool
unfolding with_config
should_process_outgoing = with_config (λ config. ok config.fish11.process_outgoing)

unfoldable pub should_process_incoming : M FishError Bool
unfolding with_config
should_process_incoming = with_config (λ config. ok config.fish11.process_incoming)

unfoldable pub get_plain_prefix : M FishError Bytes
unfolding with_config
get_plain_prefix = with_config (λ config. ok config.fish11.plain_prefix)

unfoldable pub get_encryption_mark : M FishError (ℕ × Bytes)
unfolding with_config
get_encryption_mark =
    with_config (λ config. ok (config.fish11.mark_position, config.fish11.mark_encrypted))

unfoldable pub get_encryption_prefix : M FishError Bytes
unfolding with_config
get_encryption_prefix = with_config (λ config.
    (if config.fish11.fish_prefix then ok (codes "+FiSH ") else ok config.fish11.encryption_prefix))

unfoldable pub is_fish10_legacy_disabled : M FishError Bool
unfolding with_config
is_fish10_legacy_disabled = with_config (λ config. ok config.fish11.no_fish10_legacy)

unfoldable pub get_startup_time : M FishError ℕ
unfolding with_config
get_startup_time = with_config (λ config. (elim config.startup_date [
  | none ↦ err FishError.config_error
  | some date ↦ ok date
]))

unfoldable pub update_startup_time : ℕ → M FishError (Unit {0})
unfolding with_config_mut
update_startup_time now =
    with_config_mut (λ _ config. (ret tt, record config { startup_date = some now }))
