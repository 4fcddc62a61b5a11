-- ===== src/Dll/Commands/Channels.antt =====
-- fish_11_dll/src/dll_interface: the commands of mIRC for the keys of channels, the topics and the
-- prefix; with derive_key_from_password of fish_11_dll/src/utils/key_derivation.rs and the tests for a
-- key of fish_11_dll/src/config/mod.rs.
use fish.Common.{
  Bool, true, false, not, ◌||◌, ◌==◌, ◌++◌, Option, none, some, Bytes, codes, if◌then◌else◌, length,
  trim, to_lowercase, is_some, contains_key, list_eq, same_list,
}
use fish.Env.{Env}
use fish.Errors.{Result, ok, err, DllError}
use fish.Config.Models.{Key, Nonce}
use fish.Config.Access.{
  M, ◌>>=◌, ◌>>◌, pure, lift, ret, fail, require, expect, attempt, into_dll, with_config,
  with_config_mut,
}
use fish.Config.Channels.{is_channel, get_manual_channel_key}
use fish.Config.Manual.{
  set_manual_channel_key, remove_manual_channel_key, remove_ratchet_channel_key,
}
use fish.Config.Networks.{set_topic, get_topic, remove_topic}
use fish.Config.Settings.{get_fish11_config, update_fish11_config}
use fish.Utils.{split_space}

abbrev yes_or_no : Bool → Bytes
yes_or_no true = codes "1"
yes_or_no false = codes "0"

-- `.unwrap_or(false)`.
abbrev or_false : Option Bool → Bool
or_false none = false
or_false (some b) = b

unfoldable pub has_ratchet_channel_key : {E : Type 0} → Bytes → M E Bool
unfolding with_config
has_ratchet_channel_key channel_name = do
  found ← attempt (
      with_config
        (λ config. ok (contains_key (to_lowercase channel_name) config.channel_ratchet_states)))
  pure (or_false found)

-- FiSH11_HasRatchetChannelKey.
unfoldable pub has_ratchet_command : Bytes → M DllError Bytes
unfolding is_channel has_ratchet_channel_key
has_ratchet_command channel_name = do
  require (is_channel channel_name) DllError.invalid_input
  found ← has_ratchet_channel_key channel_name
  pure (yes_or_no found)

-- FiSH11_RemoveRatchetChannelKey.
unfoldable pub remove_ratchet_command : Bytes → M DllError Bytes
unfolding is_channel remove_ratchet_channel_key
remove_ratchet_command channel_name = do
  require (is_channel channel_name) DllError.invalid_input
  into_dll (remove_ratchet_channel_key channel_name)
  pure (codes "Ratchet channel key removed for " ++ channel_name)

-- FiSH11_RemoveManualChannelKey.
unfoldable pub remove_manual_command : Bytes → M DllError Bytes
unfolding is_channel remove_manual_channel_key
remove_manual_command channel_name = do
  require (is_channel channel_name) DllError.invalid_input
  into_dll (remove_manual_channel_key channel_name)
  pure (codes "Manual channel key removed for " ++ channel_name)

-- FiSH11_SetTopic.
unfoldable pub set_topic_command : Bytes → M DllError Bytes
unfolding split_space trim is_channel set_topic with_config_mut
set_topic_command input = do
  topic ← expect (split_space input).1 DllError.invalid_input
  let channel = trim (split_space input).0
  require (is_channel channel) DllError.invalid_input
  into_dll (
      with_config_mut (λ _ config. (elim (set_topic channel (trim topic) config) [
        | ok config' ↦ (ret tt, config')
        | err e ↦ (fail e, config)
      ])))
  pure (codes "Plaintext topic set for channel: " ++ channel)

-- FiSH11_GetTopic.
unfoldable pub get_topic_command : Bytes → M DllError Bytes
unfolding trim is_channel get_topic with_config
get_topic_command input = do
  require (is_channel (trim input)) DllError.invalid_input
  topic ← into_dll (with_config (λ config. get_topic config (trim input)))
  elim topic [ some text ↦ pure text | none ↦ pure (codes "No topic found for this channel") ]

-- FiSH11_RemoveTopic.
unfoldable pub remove_topic_command : Bytes → M DllError Bytes
unfolding trim is_channel remove_topic with_config_mut
remove_topic_command input = do
  require (is_channel (trim input)) DllError.invalid_input
  removed ← into_dll (
      with_config_mut (λ _ config. (elim (remove_topic (trim input) config) [
        | ok (was_there, config') ↦ (ret was_there, config')
        | err e ↦ (fail e, config)
      ])))
  if removed
      then pure (codes "Topic removed for channel: " ++ trim input)
      else pure (codes "No topic was found for channel: " ++ trim input)

-- FiSH11_SetEncryptionPrefix.
unfoldable pub set_encryption_prefix : Bytes → M DllError Bytes
unfolding get_fish11_config update_fish11_config
set_encryption_prefix prefix = do
  require (not (length prefix == 0)) DllError.missing_parameter
  section ← into_dll get_fish11_config
  into_dll (update_fish11_config (record section { encryption_prefix = prefix }))
  pure (codes "Encryption prefix set successfully")

-- Which value a text stands for.
unfoldable pub parsed_flag : Bytes → Option Bool
parsed_flag value =
    if same_list value (codes "1")
      || (same_list value (codes "true")
          || (same_list value (codes "yes") || same_list value (codes "on")))
    then some true
    else if same_list value (codes "0")
        || (same_list value (codes "false")
            || (same_list value (codes "no") || same_list value (codes "off")))
    then some false
    else none

-- FiSH11_SetFishPrefix.
unfoldable pub set_fish_prefix : Bytes → M DllError Bytes
unfolding to_lowercase parsed_flag get_fish11_config update_fish11_config
set_fish_prefix value_str = do
  require (not (length value_str == 0)) DllError.missing_parameter
  fish_prefix ← expect (parsed_flag (to_lowercase value_str)) DllError.invalid_input
  section ← into_dll get_fish11_config
  into_dll (update_fish11_config (record section { fish_prefix = fish_prefix }))
  if fish_prefix
      then pure (codes "Fish prefix set to enabled")
      else pure (codes "Fish prefix set to disabled")

module _ (env : Env) where
  -- FiSH11_HasManualChannelKey.
  unfoldable pub has_manual_command : Bytes → M DllError Bytes
  unfolding is_channel get_manual_channel_key
  has_manual_command channel_name = do
    require (is_channel channel_name) DllError.invalid_input
    found ← attempt {D = DllError} (get_manual_channel_key env channel_name)
    pure (yes_or_no (is_some found))

  -- FiSH11_SetManualChannelKey.
  unfoldable pub set_manual_command : Nonce → Bytes → M DllError Bytes
  unfolding split_space is_channel set_manual_channel_key
  set_manual_command nonce input = do
    key_b64 ← expect (split_space input).1 DllError.invalid_input
    let channel_name = (split_space input).0
    require (is_channel channel_name) DllError.invalid_input
    key ← expect (env.base64_decode key_b64) DllError.invalid_input
    require (length key == 32) DllError.invalid_input
    set_manual_channel_key env nonce channel_name key true
    pure (codes "Manual channel key set for " ++ channel_name)

  unfoldable pub derive_key_from_password : Bytes → Result Key DllError
  derive_key_from_password password =
      elim (env.hkdf (some (codes "FiSH11-DerivedKey")) password (codes "key-expansion")) [
        | none ↦ err DllError.invalid_input
        | some output ↦ ok output
      ]

  -- FiSH11_SetManualChannelKeyFromPassword.
  unfoldable pub set_manual_from_password : Nonce → Bytes → M DllError Bytes
  unfolding split_space is_channel derive_key_from_password set_manual_channel_key
  set_manual_from_password nonce input = do
    key_material ← expect (split_space input).1 DllError.invalid_input
    let channel_name = (split_space input).0
    require (is_channel channel_name) DllError.invalid_input
    derived_key ← lift (derive_key_from_password key_material)
    set_manual_channel_key env nonce channel_name derived_key true
    pure (codes "Manual channel key set for " ++ channel_name)
