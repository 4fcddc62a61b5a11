-- ===== src/Dll/PublicKey.antt =====
-- fish_11_dll/src/dll_interface/key_management.rs: FiSH11_ProcessPublicKey, which ends an exchange of
-- keys with the public key of the other side, and FiSH11_TestCrypt.
pub mod Agreement
pub mod Raw
use fish.Common.{
  ℕ, Bool, true, false, not, ◌&&◌, ◌||◌, ◌==◌, List, [], ◌∷◌, ◌++◌, Option, none, some, Bytes,
  codes, if◌then◌else◌, length, leb, trim, starts_with, to_lowercase, same_list, split_whitespace,
}
use fish.Env.{Env}
use fish.Errors.{Result, ok, err, FishError, DllError}
use fish.Config.Models.{Key, Nonce}
use fish.Config.Access.{M, ◌>>=◌, ◌>>◌, pure, lift, require, expect, map_err}
use fish.Config.Manual.{get_keypair}
use fish.Crypto.Chacha.{encrypt_message, decrypt_message}
use fish.Crypto.X25519.{
  Curve, prefix, extract_public_key, validate_public_key, compute_shared_secret, store_shared_key,
}
use fish.Utils.{normalize_nick}

abbrev pub is_base64_char : ℕ → Bool
is_base64_char c =
    (leb b'A' c && leb c b'Z')
    || (leb b'a' c && leb c b'z')
    || (leb b'0' c && leb c b'9')
    || (c == b'+')
    || (c == b'/')
    || (c == b'=')

abbrev pub all_of : (ℕ → Bool) → Bytes → Bool
all_of test [] = true
all_of test (c ∷ s) = test c && all_of test s

abbrev pub all_base64 : Bytes → Bool
all_base64 s = all_of is_base64_char s

unfoldable pub looks_like_token : Bytes → Bool
unfolding starts_with
looks_like_token s = starts_with prefix s || ((length s == 44) && all_base64 s)

abbrev last_word : Bytes → List Bytes → Bytes
last_word w [] = w
last_word w (v ∷ ws) = last_word v ws

-- `join(" ")`.
abbrev joined : Bytes → List Bytes → Bytes
joined w [] = w
joined w (v ∷ ws) = w ++ (b' ' ∷ joined v ws)

-- The nickname and the key among the words, none where there are fewer than two.
unfoldable pub token_of : List Bytes → Option (Bytes × Bytes)
unfolding looks_like_token
token_of (first ∷ second ∷ rest) =
    if looks_like_token first
    then some (second, first)
    else if looks_like_token (last_word second rest)
    then some (first, last_word second rest)
    else some (first, joined second rest)
token_of _ = none

abbrev pub as_error : {A : Type 0} → DllError → Result A FishError → Result A DllError
as_error e (ok a) = ok a
as_error e (err _) = err e

-- What the last step makes of an error of `set_key`.
abbrev store_error : FishError → DllError
store_error FishError.duplicate_entry = DllError.key_invalid
store_error _ = DllError.config_malformed

module _ (env : Env) where
  unfoldable pub process_public_key : Curve → Bytes → M DllError Bytes
  unfolding split_whitespace trim token_of normalize_nick extract_public_key validate_public_key
      get_keypair compute_shared_secret store_shared_key
  process_public_key curve input = do
    (nickname_raw, received) ←
        expect (token_of (split_whitespace (trim input))) DllError.invalid_input
    require (not (length (normalize_nick nickname_raw) == 0)) DllError.missing_parameter
    require (not (length (trim received) == 0)) DllError.missing_parameter
    their_public_key ← lift (as_error DllError.key_invalid (extract_public_key env (trim received)))
    lift (as_error DllError.key_invalid (validate_public_key their_public_key))
    keypair ← map_err (λ _. DllError.key_not_found) (get_keypair env)
    shared_secret ← lift (
        as_error DllError.key_exchange_failed
          (compute_shared_secret env curve keypair.private_key their_public_key))
    map_err store_error (store_shared_key env (normalize_nick nickname_raw) shared_secret none)
    pure (codes "1")

  -- The text that is shown is left out.
  unfoldable pub test_crypt : Key → Nonce → Bytes → M DllError (Bytes × Bytes)
  test_crypt key nonce input = do
    require (not (length input == 0)) DllError.missing_parameter
    encrypted ← map_err (λ _. DllError.encryption_failed) (encrypt_message env key nonce input none)
    decrypted ← map_err (λ _. DllError.decryption_failed) (decrypt_message env key encrypted none)
    require (same_list decrypted input) DllError.decryption_failed
    pure (encrypted, decrypted)
