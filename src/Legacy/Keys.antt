-- ===== src/Legacy/Keys.antt =====
-- fish_11_dll/src/legacy/mod.rs, fish10_key_management.rs and fish10_encryption.rs: the keys of FiSH 10
-- and the texts that they encrypt. `LEGACY_CONFIG` is one RwLock that is not re-entrant, as that of the
-- configuration is; the locks of the two maps inside are never taken twice. The file blowfish.ini,
-- whose errors are only logged, is left out.
use fish.Common.{
  ℕ, ◌%◌, Bool, true, false, not, ◌&&◌, ◌||◌, ◌==◌, List, [], ◌∷◌, ◌++◌, Option, none, some, Bytes,
  if◌then◌else◌, length, take, drop, ltb, leb, trim, starts_with, lookup, insert, remove,
  contains_key, list_eq,
}
use fish.Errors.{Result, ok, err, DllError}
use fish.Config.Access.{Lock, writing, Outcome, ret, fail, blocked}
use fish.Legacy.Cipher.{BlockCipher}
use fish.Legacy.Blowfish
use fish.Legacy.Detection.{fish10_prefix, mcps_prefix}
use fish.Legacy.Dh1080.{Crates}

pub record LegacyConfig : Type 0 where
  pub legacy_keys : List (Bytes × Bytes)
  pub dh1080_keys : List (Bytes × ℕ)

abbrev pub is_legacy_target : Bytes → LegacyConfig → Bool
is_legacy_target target config = contains_key target config.legacy_keys

abbrev pub get_legacy_key : Bytes → LegacyConfig → Option Bytes
get_legacy_key target config = lookup target config.legacy_keys

-- `is_ascii_hexdigit`.
abbrev is_hex_digit : ℕ → Bool
is_hex_digit c =
    (leb b'0' c && leb c b'9') || ((leb b'A' c && leb c b'F') || (leb b'a' c && leb c b'f'))

abbrev all_hex : Bytes → Bool
all_hex [] = true
all_hex (c ∷ s) = is_hex_digit c && all_hex s

unfoldable pub is_valid_hex_string : Bytes → Bool
is_valid_hex_string s = if not (length s % 2 == 0) then false else all_hex s

-- The hex crate.
pub record Hex : Type 0 where
  pub hex_encode : Bytes → Bytes
  pub hex_decode : Bytes → Option Bytes

module _ (crates : Crates) (hex : Hex) where
  unfoldable pub text_to_legacy_key : Bytes → Bytes
  text_to_legacy_key text = take 32 (crates.sha256 text)

  abbrev valid_length : Bytes → Result Bytes DllError
  valid_length key =
      if ltb (length key) 4 || ltb 56 (length key) then err DllError.legacy_error else ok key

  -- The key that an input stands for.
  unfoldable pub key_of_input : Bytes → Result Bytes DllError
  unfolding is_valid_hex_string text_to_legacy_key
  key_of_input key_input =
      if is_valid_hex_string key_input
      then elim (hex.hex_decode key_input) [
        | none ↦ err DllError.legacy_error
        | some key ↦ valid_length key
      ]
      else valid_length (text_to_legacy_key key_input)

  -- `LEGACY_CONFIG.read()` waits where the thread holds the lock for writing.
  abbrev stored_legacy :
      Lock → Bytes → Bytes → LegacyConfig → Outcome DllError (Unit {0}) × LegacyConfig
  stored_legacy writing target key config = (blocked, config)
  stored_legacy _ target key config =
      (ret tt, record config { legacy_keys = insert target key config.legacy_keys })

  unfoldable pub set_legacy_key :
      Lock → Bytes → Bytes → LegacyConfig → Outcome DllError (Unit {0}) × LegacyConfig
  unfolding key_of_input
  set_legacy_key l target key_input config = elim (key_of_input key_input) [
    | err e ↦ (fail e, config)
    | ok key ↦ stored_legacy l target key config
  ]

-- From memory, with whether FiSH 11 has a key for the target.
unfoldable pub remove_legacy_key :
    Bool → Bytes → LegacyConfig → Result (Unit {0}) DllError × LegacyConfig
remove_legacy_key in_fish11 target config = (
  if contains_key target config.legacy_keys || in_fish11 then ok tt else err DllError.legacy_error,
  record config { legacy_keys = remove target config.legacy_keys },
)

pub data FishEncryptionMode : Type 0 where
  ecb cbc : FishEncryptionMode

module _ (c : BlockCipher) (config : LegacyConfig) where
  abbrev prefixed : Bytes → Result Bytes DllError → Result Bytes DllError
  prefixed prefix (ok encrypted) = ok (prefix ++ encrypted)
  prefixed prefix (err e) = err e

  unfoldable pub legacy_encrypt_with_mode :
      Bytes → Bytes → FishEncryptionMode → Result Bytes DllError
  legacy_encrypt_with_mode target message mode = elim (get_legacy_key target config) [
    | none ↦ err DllError.legacy_error
    | some key ↦ elim mode [
      | ecb ↦ prefixed fish10_prefix (Blowfish.encrypt_message c key message)
      | cbc ↦ prefixed mcps_prefix (Blowfish.encrypt_message_cbc c key message)
    ]
  ]

  abbrev pub legacy_encrypt : Bytes → Bytes → Result Bytes DllError
  legacy_encrypt target message = legacy_encrypt_with_mode target message ecb

  -- The text without a prefix, with the mode that it stands for.
  unfoldable pub mode_of : Bytes → Bytes × FishEncryptionMode
  unfolding starts_with
  mode_of trimmed =
      if starts_with fish10_prefix trimmed
      then (drop 4 trimmed, ecb)
      else if starts_with mcps_prefix trimmed
      then (drop 5 trimmed, cbc)
      else (trimmed, ecb)

  -- legacy_decrypt_topic is written the same.
  unfoldable pub legacy_decrypt : Bytes → Bytes → Result Bytes DllError
  unfolding trim mode_of
  legacy_decrypt target encrypted_message =
      let (ciphertext, mode) = mode_of (trim encrypted_message) in
      elim (get_legacy_key target config) [
        | none ↦ err DllError.legacy_error
        | some key ↦ elim mode [
          | ecb ↦ Blowfish.decrypt_message c key ciphertext
          | cbc ↦ Blowfish.decrypt_message_cbc c key ciphertext
        ]
      ]
