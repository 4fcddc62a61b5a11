-- ===== src/Dll/Engine.antt =====
-- fish_11_dll/src/engine_registration.rs: the callbacks that the DLL registers with the inject DLL. A
-- line is a C string, none for a null pointer; the answer is none for a null pointer, on which the
-- line goes on as it is. Registering, and the freeing of strings, is glue to Windows.
pub mod Outgoing
pub mod Incoming
use fish.Common.{
  ℕ, Bool, true, false, ◌||◌, ◌==◌, List, [], ◌∷◌, Option, none, some, Bytes, if◌then◌else◌, length,
  is_utf8,
}
use fish.Env.{Env}
use fish.Errors.{DllError}
use fish.Config.Models.{Nonce}
use fish.Config.Access.{M, ◌>>=◌, pure}
use fish.Legacy.Cipher.{BlockCipher}
use fish.Dll.Engine.Outgoing.{LegacyKeys, attempt_encryption}
use fish.Dll.Engine.Incoming.{attempt_decryption}

-- `set_current_network` where GetNetworkName gave a name.
abbrev pub on_network : Option Bytes → Env → Env
on_network none env = env
on_network (some network) env = record env { current_network = some network }

abbrev any_nul : Bytes → Bool
any_nul [] = false
any_nul (c ∷ s) = (c == 0) || any_nul s

-- `CString::new`.
abbrev c_string : Option Bytes → Option Bytes
c_string none = none
c_string (some s) = if any_nul s then none else some s

module _ (c : BlockCipher) (legacy_keys : LegacyKeys) where
  unfoldable pub on_outgoing : Env → Nonce → Option Bytes → Option Bytes → M DllError (Option Bytes)
  unfolding attempt_encryption
  on_outgoing env nonce network none = pure none
  on_outgoing env nonce network (some line) =
      if is_utf8 line
      then (if length line == 0 then pure none else (do
        encrypted ← attempt_encryption (on_network network env) c legacy_keys nonce line network
        pure (c_string encrypted)))
      else pure none

  unfoldable pub on_incoming : Env → Option Bytes → Option Bytes → M DllError (Option Bytes)
  unfolding attempt_decryption
  on_incoming env network none = pure none
  on_incoming env network (some line) =
      if is_utf8 line
      then (if length line == 0 then pure none else (do
        decrypted ← attempt_decryption (on_network network env) c legacy_keys line network
        pure (c_string decrypted)))
      else pure none
