-- ===== src/Dll/Encrypt.antt =====
-- fish_11_dll/src/dll_interface/fish11_encryptmsg.rs.
pub mod RoundTrip
pub mod Private
use fish.Common.{
  ℕ, Bool, true, false, List, [], ◌∷◌, ◌++◌, Option, none, some, Bytes, codes, if◌then◌else◌,
}
use fish.Env.{Env}
use fish.Errors.{DllError}
use fish.Config.Models.{Key, Nonce}
use fish.Config.Access.{M, ◌>>=◌, ◌>>◌, pure, lift, attempt, map_err}
use fish.Config.Access.Counters.{increment_encryption_counter}
use fish.Config.Channels.{is_channel, get_channel_key_with_fallback}
use fish.Crypto.Chacha.{encrypt_message}
use fish.Dll.Decrypt.{get_private_key}
use fish.Utils.{ParsedInput, parse_input, normalize_private_target}

module _ (env : Env) where
  -- Both paths encrypt, put the prefix in front and count.
  unfoldable pub encrypt_with : Key → Nonce → Bytes → Option Bytes → M DllError Bytes
  encrypt_with key nonce message associated_data = do
    encrypted_b64 ←
        map_err (λ _. DllError.encryption_failed)
          (encrypt_message env key nonce message associated_data)
    increment_encryption_counter
    pure (codes "+FiSH " ++ encrypted_b64)

  unfoldable pub encrypt_private : Nonce → Bytes → Bytes → M DllError Bytes
  unfolding encrypt_with get_private_key
  encrypt_private nonce target message = do
    nickname ← lift (normalize_private_target target)
    key ← get_private_key env nickname
    encrypt_with key nonce message none

  -- FiSH11_EncryptMsg. A channel with no key goes on as if it were a nickname.
  unfoldable pub encrypt_msg : Nonce → Bytes → M DllError Bytes
  unfolding encrypt_private get_channel_key_with_fallback
  encrypt_msg nonce input = do
    parsed ← lift (parse_input input)
    if is_channel parsed.target
        then (do
          found ← attempt {E = DllError} (get_channel_key_with_fallback env parsed.target)
          elim found [
            | some key ↦ encrypt_with key nonce parsed.message (some parsed.target)
            | none ↦ encrypt_private nonce parsed.target parsed.message
          ])
        else encrypt_private nonce parsed.target parsed.message
