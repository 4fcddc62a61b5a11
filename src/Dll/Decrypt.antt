-- ===== src/Dll/Decrypt.antt =====
-- fish_11_dll/src/dll_interface/fish11_decryptmsg.rs, with `get_private_key` of
-- fish_11_dll/src/dll_interface/utility.rs.
pub mod Replay
pub mod Ratchet
use fish.Common.{
  ℕ, ◌==◌, ◌+◌, Bool, true, false, not, ◌&&◌, ◌||◌, List, [], ◌∷◌, ◌++◌, Option, none, some, Bytes,
  codes, if◌then◌else◌, length, take, drop, ltb, leb, trim, starts_with,
}
use mathlib.Core.List.{reverse}
use fish.Env.{Env}
use fish.Errors.{Result, ok, err, FishError, DllError, from_fish_error}
use fish.Config.Models.{Key, Nonce, RatchetState, advance, FishConfig}
use fish.Config.Access.{
  M, Outcome, ◌>>=◌, ◌>>◌, pure, throw, lift, require, expect, attempt, map_err, into_dll,
}
use fish.Config.Access.Counters.{increment_decryption_counter}
use fish.Config.Channels.{
  is_channel, has_channel_key, get_channel_key_with_fallback, check_nonce, add_nonce,
  with_ratchet_state_mut,
}
use fish.Config.Keys.{get_key}
use fish.Config.Keys.Expiry.{check_key_expiry}
use fish.Crypto.Chacha.{decrypt_message, advance_ratchet_key}
use fish.Utils.{ParsedInput, parse_input, normalize_private_target}

-- `message.trim()` without the prefix "+FiSH ", if it has it.
unfoldable pub payload_of : Bytes → Bytes
payload_of message =
    let trimmed = trim message in
    if starts_with (codes "+FiSH ") trimmed then drop 6 trimmed else trimmed

abbrev dll_of : Result Bytes FishError → Result Bytes DllError
dll_of (ok a) = ok a
dll_of (err e) = err (from_fish_error e)

module _ (env : Env) where
  unfoldable pub get_private_key : Bytes → M DllError Key
  unfolding check_key_expiry get_key
  get_private_key nickname = do
    check_key_expiry env nickname none
    key ← into_dll (get_key env nickname none)
    require (length key == 32) DllError.invalid_input
    pure key

  -- `for old_key in previous_keys.iter().rev()`: the list stands newest first.
  unfoldable pub try_keys : Bytes → Bytes → List Key → M DllError (Option Bytes)
  try_keys target encrypted_message [] = pure none
  try_keys target encrypted_message (old_key ∷ older) = do
    plaintext ← attempt {E = DllError} (decrypt_message env old_key encrypted_message (some target))
    elim plaintext [ some text ↦ pure (some text) | none ↦ try_keys target encrypted_message older ]

  -- The closure that works on the ratchet state.
  unfoldable pub decrypt_with_ratchet :
      Bytes → Bytes → Nonce → RatchetState → M DllError (Option Bytes × RatchetState)
  unfolding try_keys
  decrypt_with_ratchet target encrypted_message nonce state = do
    plaintext ←
        attempt {E = DllError}
          (decrypt_message env state.current_key encrypted_message (some target))
    elim plaintext [
      | some text ↦ do
        next_key ← lift (dll_of (advance_ratchet_key env state.current_key nonce target))
        pure (some text, advance state next_key)
      | none ↦ do
        found ← try_keys target encrypted_message (reverse state.previous_keys)
        pure (found, state)
    ]

  -- A channel whose key is stored: one fixed key, no nonce is looked at.
  unfoldable pub decrypt_fixed : Bytes → Bytes → M DllError Bytes
  unfolding get_channel_key_with_fallback
  decrypt_fixed target encrypted_message = do
    key ← get_channel_key_with_fallback env target
    map_err (λ _. DllError.decryption_failed)
        (decrypt_message env key encrypted_message (some target))

  -- A channel with a ratchet: the nonce is checked first, and kept after a success.
  unfoldable pub decrypt_ratchet : Bytes → Bytes → M DllError Bytes
  unfolding decrypt_with_ratchet with_ratchet_state_mut check_nonce add_nonce
  decrypt_ratchet target encrypted_message = do
    encrypted_bytes ← expect (env.base64_decode encrypted_message) DllError.base64
    require (leb 24 (length encrypted_bytes)) DllError.decryption_failed
    let nonce = take 24 encrypted_bytes
    replayed ← check_nonce target nonce
    require (not replayed) DllError.replay_attack_detected
    decrypted ← with_ratchet_state_mut target (decrypt_with_ratchet target encrypted_message nonce)
    plaintext ← expect decrypted DllError.decryption_failed
    add_nonce target nonce
    increment_decryption_counter
    pure plaintext

  unfoldable pub decrypt_private : Bytes → Bytes → M DllError Bytes
  unfolding get_private_key
  decrypt_private target encrypted_message = do
    nickname ← lift (normalize_private_target target)
    key ← get_private_key nickname
    decrypted ←
        map_err (λ _. DllError.decryption_failed) (decrypt_message env key encrypted_message none)
    increment_decryption_counter
    pure decrypted

  -- FiSH11_DecryptMsg.
  unfoldable pub decrypt_msg : Bytes → M DllError Bytes
  unfolding has_channel_key decrypt_fixed decrypt_ratchet decrypt_private
  decrypt_msg input = do
    parsed ← lift (parse_input input)
    let encrypted_message = payload_of parsed.message
    if is_channel parsed.target
        then (do
          fixed ← has_channel_key env parsed.target
          if fixed
              then decrypt_fixed parsed.target encrypted_message
              else decrypt_ratchet parsed.target encrypted_message)
        else decrypt_private parsed.target encrypted_message
