-- ===== src/Dll/Commands.antt =====
-- fish_11_dll/src/dll_interface: the commands of mIRC for the keys of nicknames. The answer is the text
-- for mIRC.
pub mod Channels
pub mod Display
pub mod Plaintext
pub mod Nicknames
use fish.Common.{
  ℕ, Bool, true, false, not, ◌&&◌, ◌||◌, ◌==◌, List, [], ◌∷◌, ◌++◌, Option, none, some, Bytes,
  codes, if◌then◌else◌, length, ltb, trim, ℤ, pos, ltb_ℤ, is_some,
}
use fish.Env.{Env}
use fish.Errors.{Result, ok, err, FishError, DllError}
use fish.Config.Models.{Key}
use fish.Config.Access.{M, ◌>>=◌, ◌>>◌, pure, require, expect, into_dll}
use fish.Config.Channels.{is_channel, get_channel_key_with_fallback}
use fish.Config.Keys.{get_key, set_key, delete_key, default_network, unwrap_or}
use fish.Config.Keys.Expiry.{get_key_ttl}
use fish.Utils.{normalize_nick, normalize_target, split_space, three_parts}

-- `normalize_nick(normalize_target(s))`.
unfoldable pub target_nick : Bytes → Bytes
unfolding normalize_nick normalize_target
target_nick s = normalize_nick (normalize_target s)

-- Three parts, or two parts with no network in front.
unfoldable pub two_or_three_parts : Bytes → Option (Option Bytes × Bytes × Bytes)
unfolding three_parts split_space
two_or_three_parts input = elim (three_parts input) [
  | some (network, target, key) ↦ some (some network, target, key)
  | none ↦ elim (split_space input).1 [
    | none ↦ none
    | some second ↦ some (none, (split_space input).0, second)
  ]
]

-- The network, or "default", and the rest.
unfoldable pub network_and_rest : Bytes → Bytes × Bytes
unfolding split_space
network_and_rest input = elim (split_space input).1 [
  | none ↦ (default_network, (split_space input).0)
  | some rest ↦ ((split_space input).0, rest)
]

-- What stands for the life of a key.
pub data KeyLife : Type 0 where
  no_ttl expired : KeyLife
  seconds : ℤ → KeyLife

abbrev life_of : Option ℤ → KeyLife
life_of none = no_ttl
life_of (some ttl) = if ltb_ℤ (pos 0) ttl then seconds ttl else expired

abbrev trim_network : Option Bytes → Option Bytes
trim_network none = none
trim_network (some network) = some (trim network)

module _ (env : Env) where
  -- FiSH11_SetKey.
  unfoldable pub set_key_command : Bytes → M DllError Bytes
  unfolding three_parts target_nick trim set_key
  set_key_command input = do
    (network, target_raw, key_raw) ← expect (three_parts input) DllError.invalid_input
    require (not (length network == 0)) DllError.missing_parameter
    require (not (length (target_nick target_raw) == 0)) DllError.missing_parameter
    require (not (length (trim key_raw) == 0)) DllError.missing_parameter
    key ← expect (env.base64_decode (trim key_raw)) DllError.base64_decode_failed
    require (length key == 32) DllError.invalid_key_size
    into_dll (set_key env (target_nick target_raw) key (some network) true false)
    pure (codes "1")

  -- FiSH11_SetKeyFromPlaintext.
  unfoldable pub set_key_from_plaintext : Bytes → M DllError Bytes
  unfolding two_or_three_parts target_nick set_key
  set_key_from_plaintext input = do
    (network, target_raw, plaintext_key) ← expect (two_or_three_parts input) DllError.invalid_input
    require (not (length (target_nick target_raw) == 0)) DllError.missing_parameter
    require (not (length plaintext_key == 0)) DllError.missing_parameter
    require (not (ltb (length plaintext_key) 8)) DllError.invalid_input
    derived_key ←
        expect
          (env.hkdf (some (unwrap_or network default_network ++ (b':' ∷ target_nick target_raw)))
            plaintext_key [])
          DllError.key_derivation_failed
    into_dll (set_key env (target_nick target_raw) derived_key network true false)
    pure (codes "1")

  -- FiSH11_GenKey, with the 32 random bytes.
  unfoldable pub gen_key : Key → Bytes → M DllError Bytes
  unfolding split_space trim target_nick set_key
  gen_key random input = do
    let nickname = target_nick (trim (split_space input).0)
    require (not (length nickname == 0)) DllError.missing_parameter
    into_dll (set_key env nickname random (trim_network (split_space input).1) false false)
    pure (codes "New key pair generated successfully for " ++ nickname)

  -- FiSH11_FileDelKey.
  unfoldable pub file_del_key : Bytes → M DllError Bytes
  unfolding network_and_rest trim target_nick delete_key
  file_del_key input = do
    let (network, nickname_raw) = network_and_rest (trim input)
    require (not (length (target_nick nickname_raw) == 0)) DllError.missing_parameter
    into_dll (delete_key env (target_nick nickname_raw) (some network))
    pure (codes "Key deleted for " ++ target_nick nickname_raw)

  -- FiSH11_FileGetKey; `get_key_default` is get_key on "default".
  unfoldable pub file_get_key : Bytes → M DllError Bytes
  unfolding trim target_nick is_channel get_channel_key_with_fallback get_key
  file_get_key input = do
    let target = target_nick (trim input)
    require (not (length target == 0)) DllError.missing_parameter
    key ←
        (if is_channel target
          then get_channel_key_with_fallback env target
          else into_dll (get_key env target (some default_network)))
    pure (env.base64_encode key)

  -- FiSH11_GetKeyTTL, as a value in place of its text.
  unfoldable pub key_life : Bytes → M DllError KeyLife
  unfolding trim normalize_nick get_key_ttl
  key_life input = do
    let nickname = normalize_nick (trim input)
    require (not (length nickname == 0)) DllError.missing_parameter
    ttl ← get_key_ttl env nickname none
    pure (life_of ttl)
