-- ===== src/Legacy/Engine.antt =====
-- fish_11_dll/src/legacy/fish10_engine.rs: the engine of FiSH 10, for lines in both directions. The
-- private key that generate_dh1080_keypair draws is an argument, none where it fails; the C strings
-- around a line are left out.
pub mod Lines
use fish.Common.{
  ℕ, Bool, true, false, not, ◌&&◌, ◌||◌, ◌==◌, List, [], ◌∷◌, ◌++◌, Option, none, some, Bytes,
  codes, if◌then◌else◌, length, take, drop, trim, starts_with, lookup, insert, list_eq, same_list,
  contains_key,
}
use fish.Errors.{Result, ok, err, DllError}
use fish.Config.Access.{Lock, free, reading, writing, Outcome, ret, fail, blocked}
use fish.Legacy.Cipher.{BlockCipher}
use fish.Legacy.Detection.{
  fish10_prefix, mcps_prefix, is_fish10_message, is_dh1080_message, parse_dh1080_message_type,
  extract_dh1080_public_key,
}
use fish.Legacy.Dh1080.{Crates, public_key_of, compute_dh1080_shared_secret}
use fish.Legacy.Keys.{
  LegacyConfig, Hex, is_legacy_target, legacy_encrypt, legacy_decrypt, set_legacy_key,
}
use fish.Utils.{three_parts}

-- `format!("{} {} {}", a, b, c)`.
abbrev pub three_words : Bytes → Bytes → Bytes → Bytes
three_words a b c = a ++ (b' ' ∷ (b ++ (b' ' ∷ c)))

abbrev answer_line : Bytes → Bytes → Result Bytes DllError → Option Bytes
answer_line command target (err e) = none
answer_line command target (ok text) = some (three_words command target text)

-- What stands behind "+OK " or "mcps ", if it is not empty.
abbrev pub stripped_payload : Bytes → Option Bytes
stripped_payload text =
    let payload = trim text in
    let stripped =
      if starts_with fish10_prefix payload
      then drop 4 payload
      else if starts_with mcps_prefix payload
      then drop 5 payload
      else [] in
    if length stripped == 0 then none else some stripped

module _ (c : BlockCipher) (config : LegacyConfig) where
  -- process_outgoing_fish10_topic is the same for TOPIC.
  unfoldable pub process_outgoing_fish10_message : Bytes → Option Bytes
  unfolding three_parts contains_key
  process_outgoing_fish10_message line = elim (three_parts line) [
    | none ↦ none
    | some (command, target, message) ↦
        if not (same_list command (codes "PRIVMSG"))
          && (not (same_list command (codes "NOTICE")) && not (same_list command (codes "TOPIC")))
        then none
        else if not (is_legacy_target target config)
        then none
        else answer_line command target (legacy_encrypt c config target message)
  ]

  abbrev pub decrypted_line : Bytes → Bytes → Bytes → Option Bytes
  decrypted_line command target text = elim (stripped_payload text) [
    | none ↦ none
    | some payload ↦ answer_line command target (legacy_decrypt c config target payload)
  ]

  unfoldable pub handle_fish10_encrypted_message : Bytes → Option Bytes
  unfolding three_parts trim starts_with legacy_decrypt
  handle_fish10_encrypted_message line = elim (three_parts line) [
    | none ↦ none
    | some (command, target, encrypted_payload) ↦ decrypted_line command target encrypted_payload
  ]

  unfoldable pub handle_fish10_topic_message : Bytes → Option Bytes
  unfolding three_parts is_fish10_message trim starts_with legacy_decrypt
  handle_fish10_topic_message line = elim (three_parts line) [
    | none ↦ none
    | some (command, target, topic_payload) ↦
        if not (same_list command (codes "TOPIC"))
        then none
        else if not (is_fish10_message topic_payload)
        then none
        else decrypted_line command target topic_payload
  ]

-- `.ok()` behind set_legacy_key: its error is thrown away, and a thread that waits goes on waiting.
abbrev answered :
    Option Bytes
    → Outcome DllError (Unit {0}) × LegacyConfig
    → Outcome DllError (Option Bytes) × LegacyConfig
answered line (ret _, config) = (ret line, config)
answered line (fail e, config) = (ret line, config)
answered line (blocked, config) = (blocked, config)

module _ (crates : Crates) (hex : Hex) where
  -- The first 8 bytes of the hash, as hex digits.
  abbrev pub key_text_of : Bytes → Bytes
  key_text_of secret = hex.hex_encode (take 8 (crates.sha256 secret))

  -- DH1080_INIT: the write lock is held to the end.
  unfoldable pub answer_init :
      Option ℕ
      → Bytes
      → Bytes
      → Bytes
      → LegacyConfig
      → Outcome DllError (Option Bytes) × LegacyConfig
  unfolding compute_dh1080_shared_secret set_legacy_key
  answer_init none command target public_key config = (ret none, config)
  answer_init (some private_key) command target public_key config =
      let kept = record config { dh1080_keys = insert target private_key config.dh1080_keys } in
      elim (compute_dh1080_shared_secret crates private_key public_key) [
        | err e ↦ (ret none, kept)
        | ok secret ↦
            answered
              (some (
                three_words command target
                  (codes "DH1080_FINISH " ++ public_key_of crates private_key)))
              (set_legacy_key crates hex writing target (key_text_of secret) kept)
      ]

  -- DH1080_FINISH: the read lock is held to the end.
  unfoldable pub take_finish :
      Bytes → Bytes → Bytes → LegacyConfig → Outcome DllError (Option Bytes) × LegacyConfig
  unfolding compute_dh1080_shared_secret set_legacy_key
  take_finish line target public_key config = elim (lookup target config.dh1080_keys) [
    | none ↦ (ret none, config)
    | some private_key ↦ elim (compute_dh1080_shared_secret crates private_key public_key) [
      | err e ↦ (ret none, config)
      | ok secret ↦
          answered (some line)
            (set_legacy_key crates hex reading target (key_text_of secret) config)
    ]
  ]

  unfoldable pub handle_dh1080_message :
      Option ℕ → Bytes → LegacyConfig → Outcome DllError (Option Bytes) × LegacyConfig
  unfolding three_parts parse_dh1080_message_type extract_dh1080_public_key answer_init take_finish
  handle_dh1080_message drawn line config = elim (three_parts line) [
    | none ↦ (ret none, config)
    | some (command, target, dh1080_message) ↦ elim (parse_dh1080_message_type dh1080_message) [
      | none ↦ (ret none, config)
      | some message_type ↦ elim (extract_dh1080_public_key dh1080_message) [
        | none ↦ (ret none, config)
        | some public_key ↦
            if same_list message_type (codes "INIT")
            then answer_init drawn command target public_key config
            else if same_list message_type (codes "FINISH")
            then take_finish line target public_key config
            else (ret none, config)
      ]
    ]
  ]

  unfoldable pub process_incoming_fish10_message :
      BlockCipher → Option ℕ → Bytes → LegacyConfig → Outcome DllError (Option Bytes) × LegacyConfig
  unfolding is_fish10_message is_dh1080_message handle_fish10_encrypted_message
      handle_dh1080_message handle_fish10_topic_message
  process_incoming_fish10_message c drawn line config =
      if is_fish10_message line
      then (ret (handle_fish10_encrypted_message c config line), config)
      else if is_dh1080_message line
      then handle_dh1080_message drawn line config
      else (ret (handle_fish10_topic_message c config line), config)
