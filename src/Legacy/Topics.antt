-- ===== src/Legacy/Topics.antt =====
-- fish_11_dll/src/legacy/fish10_topics.rs and mod.rs, and fish_11_dll/src/dll_interface/fish10_settopic.rs:
-- the topics of FiSH 10.
use fish.Common.{
  Bool, ◌==◌, ◌++◌, Option, none, some, Bytes, codes, if◌then◌else◌, length, trim, to_lowercase,
  lookup, insert, remove, contains_key, list_eq,
}
use fish.Errors.{Result, ok, err, FishError, DllError}
use fish.Config.Access.{
  M, ◌>>=◌, ◌>>◌, ret, fail, pure, require, expect, into_dll, with_config, with_config_mut,
}
use fish.Config.Channels.{is_channel}
use fish.Config.Models.{FishConfig}
use fish.Utils.{split_space}

-- The topics of FiSH 10 stand among the entries.
abbrev topic_key : Bytes → Bytes
topic_key channel = codes "fish10_topic_" ++ to_lowercase channel

-- With the time as RFC 3339.
unfoldable pub set_legacy_topic : Bytes → Bytes → Bytes → FishConfig → Result FishConfig FishError
set_legacy_topic now channel topic config =
    if length channel == 0
    then err FishError.invalid_input
    else if length topic == 0
    then err FishError.invalid_input
    else ok (record config {
      entries =
          insert (topic_key channel)
            (record { key = some topic; date = some now; is_exchange = none }) config.entries;
    })

unfoldable pub get_legacy_topic : FishConfig → Bytes → Result (Option Bytes) FishError
get_legacy_topic config channel =
    if length channel == 0
    then err FishError.invalid_input
    else elim (lookup (topic_key channel) config.entries) [
      | none ↦ ok none
      | some entry ↦ ok entry.key
    ]

unfoldable pub remove_legacy_topic : Bytes → FishConfig → Result (Bool × FishConfig) FishError
unfolding contains_key
remove_legacy_topic channel config =
    if length channel == 0
    then err FishError.invalid_input
    else ok (
      contains_key (topic_key channel) config.entries,
      record config { entries = remove (topic_key channel) config.entries },
    )

-- FiSH10_SetTopic.
unfoldable pub fish10_set_topic : Bytes → Bytes → M DllError Bytes
unfolding split_space trim is_channel set_legacy_topic with_config_mut
fish10_set_topic now input = do
  topic ← expect (split_space input).1 DllError.invalid_input
  let channel = trim (split_space input).0
  require (is_channel channel) DllError.invalid_input
  into_dll (
      with_config_mut (λ _ config. (elim (set_legacy_topic now channel (trim topic) config) [
        | ok config' ↦ (ret tt, config')
        | err e ↦ (fail e, config)
      ])))
  pure (codes "Legacy plaintext topic set for channel: " ++ channel)

-- FiSH10_GetTopic.
unfoldable pub fish10_get_topic : Bytes → M DllError Bytes
unfolding trim is_channel get_legacy_topic with_config
fish10_get_topic input = do
  require (is_channel (trim input)) DllError.invalid_input
  topic ← into_dll (with_config (λ config. get_legacy_topic config (trim input)))
  elim topic [
    | some text ↦ pure text
    | none ↦ pure (codes "No legacy topic found for this channel")
  ]

-- FiSH10_RemoveTopic.
unfoldable pub fish10_remove_topic : Bytes → M DllError Bytes
unfolding trim is_channel remove_legacy_topic with_config_mut
fish10_remove_topic input = do
  require (is_channel (trim input)) DllError.invalid_input
  removed ← into_dll (
      with_config_mut (λ _ config. (elim (remove_legacy_topic (trim input) config) [
        | ok (was_there, config') ↦ (ret was_there, config')
        | err e ↦ (fail e, config)
      ])))
  if removed
      then pure (codes "Legacy topic removed for channel: " ++ trim input)
      else pure (codes "No legacy topic was found for channel: " ++ trim input)
