-- ===== src/Dll/Engine/Outgoing.antt =====
-- fish_11_dll/src/engine_registration.rs: `attempt_encryption`, for a line on its way to the server. An
-- early `return None` is the answer none; every error ends so too. The random nonce is an argument.
pub mod Channel
use fish.Common.{
  ℕ, ◌+◌, Bool, true, false, not, ◌&&◌, ◌||◌, ◌==◌, List, [], ◌∷◌, ◌++◌, Option, none, some, Bytes,
  codes, if◌then◌else◌, length, take, drop, leb, trim, starts_with, to_lowercase, lookup, list_eq,
  find_text, has_text, trim_newlines, crlf,
}
use fish.Env.{Env}
use fish.Errors.{Result, ok, err, FishError, DllError, from_fish_error}
use fish.Config.Models.{Key, Nonce, RatchetState, advance}
use fish.Config.Access.{M, ◌>>=◌, ◌>>◌, pure, lift, require, expect, attempt, into_dll}
use fish.Config.Channels.{
  is_channel, has_channel_key, get_channel_key_with_fallback, with_ratchet_state_mut,
}
use fish.Config.Keys.{get_key}
use fish.Config.Settings.{get_encryption_prefix}
use fish.Crypto.Chacha.{encrypt_message, advance_ratchet_key}
use fish.Legacy.Cipher.{BlockCipher}
use fish.Legacy.Blowfish
use fish.Legacy.Detection.{is_fish10_message}
use fish.Utils.{normalize_target}

abbrev pub LegacyKeys : Type 0
LegacyKeys = List (Bytes × Bytes)

-- What stands behind the command word, and whether the command is TOPIC.
abbrev behind_command : Bytes → Bytes → Option Bytes
behind_command command cmd_part = elim (find_text (codes " " ++ (command ++ codes " ")) cmd_part) [
  | some (before, after) ↦ some after
  | none ↦
      if starts_with (command ++ codes " ") cmd_part
      then some (drop (length command + 1) cmd_part)
      else none
]

unfoldable pub target_token : Bytes → Option (Bytes × Bool)
unfolding find_text
target_token cmd_part = elim (behind_command (codes "PRIVMSG") cmd_part) [
  | some target ↦ some (target, false)
  | none ↦ elim (behind_command (codes "NOTICE") cmd_part) [
    | some target ↦ some (target, false)
    | none ↦ elim (behind_command (codes "TOPIC") cmd_part) [
      | some target ↦ some (target, true)
      | none ↦ none
    ]
  ]
]

-- A text and whether it is of FiSH 10.
abbrev pub Encrypted : Type 0
Encrypted = Bytes × Bool

abbrev as_fish11 : Option Bytes → Option Encrypted
as_fish11 none = none
as_fish11 (some text) = some (text, false)

abbrev as_legacy : Result Bytes DllError → Option Encrypted
as_legacy (ok text) = some (text, true)
as_legacy (err e) = none

unfoldable pub encrypted_line : Bytes → Bytes → Bool → Encrypted → Bytes
encrypted_line cmd_part encryption_prefix is_topic (text, used_legacy) =
    if is_topic
    then (if used_legacy
        then cmd_part ++ (codes " :+OK" ++ (text ++ crlf))
        else cmd_part ++ (codes " :+FCEP_TOPIC+ " ++ (text ++ crlf)))
    else cmd_part
      ++ (codes " :"
          ++ ((if used_legacy then codes "+OK" else encryption_prefix)
              ++ (codes " " ++ (text ++ crlf))))

abbrev line_with : Bytes → Bytes → Bool → Option Encrypted → Option Bytes
line_with cmd_part encryption_prefix is_topic none = none
line_with cmd_part encryption_prefix is_topic (some encrypted) =
    some (encrypted_line cmd_part encryption_prefix is_topic encrypted)

-- Whether a message is encrypted already.
unfoldable pub is_marked : Bytes → Bytes → Bool
unfolding is_fish10_message
is_marked encryption_prefix message =
    is_fish10_message message || starts_with encryption_prefix message

abbrev pub unwrap_prefix : Option Bytes → Bytes
unwrap_prefix none = codes "+FiSH"
unwrap_prefix (some p) = p

abbrev into_dll_result : Result Bytes FishError → Result Bytes DllError
into_dll_result (ok a) = ok a
into_dll_result (err e) = err (from_fish_error e)

module _ (env : Env) (c : BlockCipher) (legacy_keys : LegacyKeys) (nonce : Nonce) where
  pub encrypt_legacy : Bytes → Bytes → Option Encrypted
  encrypt_legacy target message = elim (lookup (to_lowercase target) legacy_keys) [
    | none ↦ none
    | some legacy_key ↦ as_legacy (Blowfish.encrypt_message c legacy_key message)
  ]

  -- Under a key of 32 bytes.
  unfoldable pub encrypt_under : Key → Bytes → Option Bytes → M DllError (Option Encrypted)
  encrypt_under key message associated_data =
      if length key == 32
      then (do
        encrypted ← attempt {E = DllError} (encrypt_message env key nonce message associated_data)
        pure (as_fish11 encrypted))
      else pure none

  unfoldable pub encrypt_topic : Bytes → Bytes → M DllError (Option Encrypted)
  unfolding encrypt_under get_channel_key_with_fallback
  encrypt_topic target message = do
    found ← attempt {E = DllError} (get_channel_key_with_fallback env target)
    elim found [
      | some key ↦ encrypt_under key message (some target)
      | none ↦ pure (encrypt_legacy target message)
    ]

  -- The closure on the ratchet state.
  unfoldable pub encrypt_with_ratchet :
      Bytes → Bytes → RatchetState → M DllError (Bytes × RatchetState)
  encrypt_with_ratchet target message state = do
    encrypted_b64 ← into_dll (encrypt_message env state.current_key nonce message (some target))
    encrypted_bytes ← expect (env.base64_decode encrypted_b64) DllError.base64
    require (leb 24 (length encrypted_bytes)) DllError.encryption_failed
    next_key ← lift (
        into_dll_result
          (advance_ratchet_key env state.current_key (take 24 encrypted_bytes) target))
    pure (encrypted_b64, advance state next_key)

  unfoldable pub encrypt_ratchet : Bytes → Bytes → M DllError (Option Encrypted)
  unfolding encrypt_with_ratchet with_ratchet_state_mut
  encrypt_ratchet target message = do
    encrypted ←
        attempt {E = DllError} (with_ratchet_state_mut target (encrypt_with_ratchet target message))
    pure (as_fish11 encrypted)

  unfoldable pub encrypt_channel : Bytes → Bytes → M DllError (Option Encrypted)
  unfolding encrypt_under encrypt_ratchet get_channel_key_with_fallback has_channel_key
  encrypt_channel target message = do
    fixed ← has_channel_key env target
    if fixed
        then (do
          found ← attempt {E = DllError} (get_channel_key_with_fallback env target)
          elim found [ some key ↦ encrypt_under key message (some target) | none ↦ pure none ])
        else elim (lookup (to_lowercase target) legacy_keys) [
          | some legacy_key ↦ pure (encrypt_legacy target message)
          | none ↦ encrypt_ratchet target message
        ]

  unfoldable pub encrypt_to_nickname : Bytes → Option Bytes → Bytes → M DllError (Option Encrypted)
  unfolding encrypt_under get_key
  encrypt_to_nickname target network message = do
    found ← attempt {E = DllError} (get_key env target network)
    elim found [
      | some key ↦ encrypt_under key message none
      | none ↦ pure (encrypt_legacy target message)
    ]

  unfoldable pub encrypt_for : Bytes → Bool → Option Bytes → Bytes → M DllError (Option Encrypted)
  unfolding is_channel encrypt_topic encrypt_channel encrypt_to_nickname
  encrypt_for target is_topic network message =
      if is_topic
      then encrypt_topic target message
      else if is_channel target
      then encrypt_channel target message
      else encrypt_to_nickname target network message

  -- Behind the split at the first " :".
  unfoldable pub encrypt_parts : Bytes → Bytes → Option Bytes → M DllError (Option Bytes)
  unfolding get_encryption_prefix encrypt_for is_marked normalize_target target_token
  encrypt_parts cmd_part message network = do
    configured ← attempt {E = DllError} get_encryption_prefix
    let encryption_prefix = unwrap_prefix configured
    if is_marked encryption_prefix message then pure none else elim (target_token cmd_part) [
      | none ↦ pure none
      | some (target_part, is_topic) ↦ do
        encrypted ← encrypt_for (normalize_target (trim target_part)) is_topic network message
        pure (line_with cmd_part encryption_prefix is_topic encrypted)
    ]

  unfoldable pub attempt_encryption : Bytes → Option Bytes → M DllError (Option Bytes)
  unfolding find_text encrypt_parts
  attempt_encryption line network =
      if has_text (codes " PRIVMSG ") line
        || (has_text (codes " NOTICE ") line || has_text (codes " TOPIC ") line)
      then elim (find_text (codes " :") (trim_newlines line)) [
        | none ↦ pure none
        | some (cmd_part, message) ↦ encrypt_parts cmd_part message network
      ]
      else pure none
