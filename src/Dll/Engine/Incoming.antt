-- ===== src/Dll/Engine/Incoming.antt =====
-- fish_11_dll/src/engine_registration.rs: `attempt_decryption`, for a line on its way to mIRC. An early
-- `return None` is the answer none; every error ends so too.
pub mod Marked
pub mod Case
pub mod Unmarked
use fish.Common.{
  ℕ, Bool, true, false, not, ◌&&◌, ◌||◌, ◌==◌, List, [], ◌∷◌, ◌++◌, Option, none, some, Bytes,
  codes, if◌then◌else◌, length, drop, trim, starts_with, to_lowercase, lookup, list_eq, find_text,
  has_text, split_whitespace, trim_start_of, crlf,
}
use fish.Env.{Env}
use fish.Errors.{Result, ok, err, FishError, DllError}
use fish.Config.Models.{Key}
use fish.Config.Access.{M, ◌>>=◌, ◌>>◌, pure, attempt}
use fish.Config.Channels.{is_channel, get_channel_key_with_fallback}
use fish.Config.Keys.{get_key}
use fish.Config.Settings.{get_encryption_prefix}
use fish.Crypto.Chacha.{decrypt_message}
use fish.Legacy.Cipher.{BlockCipher}
use fish.Legacy.Blowfish
use fish.Legacy.Detection.{is_fish10_message, extract_fish10_payload}
use fish.Utils.{normalize_target}
use fish.Dll.Engine.Outgoing.{LegacyKeys, unwrap_prefix}

abbrev pub fcep_topic : Bytes
fcep_topic = codes "+FCEP_TOPIC+"

abbrev line_of : Bytes → Bytes → Bytes
line_of before text = before ++ (codes " :" ++ (text ++ crlf))

-- A step that returns from the function, or goes on behind its `if`.
pub data TopicStep : Type 0 where
  returns : Option Bytes → TopicStep
  goes_on : TopicStep

abbrev returned_line : Bytes → Option Bytes → Option Bytes
returned_line before none = none
returned_line before (some text) = some (line_of before text)

-- The nickname in front of `!`, without the colon.
unfoldable pub sender_of : Bytes → Bytes
unfolding find_text trim_start_of
sender_of word =
    let sender_raw = trim_start_of b':' word in
    elim (find_text (codes "!") sender_raw) [ some (nick, host) ↦ nick | none ↦ sender_raw ]

-- Which identifier the key is looked up under.
unfoldable pub key_identifier_of : Bytes → Bytes → Bytes
unfolding is_channel to_lowercase normalize_target
key_identifier_of sender target_raw =
    let target = normalize_target target_raw in
    if is_channel target then to_lowercase target else to_lowercase sender

module _ (env : Env) (c : BlockCipher) (legacy_keys : LegacyKeys) where
  -- The channel's key, or else the key of the same name.
  unfoldable pub channel_or_regular_key : Bytes → Option Bytes → M DllError (Option Key)
  unfolding get_channel_key_with_fallback get_key
  channel_or_regular_key key_identifier network = do
    found ← attempt {E = DllError} (get_channel_key_with_fallback env key_identifier)
    elim found [
      | some key ↦ pure (some key)
      | none ↦ attempt {E = DllError} (get_key env key_identifier network)
    ]

  -- Under a key of 32 bytes, if there is one.
  unfoldable pub decrypt_under : Option Key → Bytes → Option Bytes → M DllError (Option Bytes)
  decrypt_under none payload associated_data = pure none
  decrypt_under (some key) payload associated_data =
      if length key == 32
      then attempt {E = DllError} (decrypt_message env key payload associated_data)
      else pure none

  -- A FiSH 10 text: none where there is no key, and then whether it was decrypted.
  pub decrypt_legacy : Bytes → Bytes → Option (Option Bytes)
  decrypt_legacy key_identifier payload = elim (lookup key_identifier legacy_keys) [
    | none ↦ none
    | some key ↦ elim (Blowfish.decrypt_message c key payload) [
      | ok text ↦ some (some text)
      | err e ↦ some none
    ]
  ]

  abbrev legacy_topic : Bytes → Bytes → Result Bytes DllError → TopicStep
  legacy_topic before key_identifier (err e) = returns none
  legacy_topic before key_identifier (ok payload) = elim (decrypt_legacy key_identifier payload) [
    | none ↦ goes_on
    | some decrypted ↦ returns (returned_line before decrypted)
  ]

  -- A topic behind " :", for the channel of a word.
  unfoldable pub decrypt_topic : Bytes → Bytes → Bytes → Option Bytes → M DllError TopicStep
  unfolding channel_or_regular_key decrypt_under extract_fish10_payload normalize_target
      to_lowercase
  decrypt_topic before message_part channel_name network =
      let key_identifier = to_lowercase (normalize_target channel_name) in
      if starts_with fcep_topic message_part
      then (do
        key ← channel_or_regular_key key_identifier network
        decrypted ←
            decrypt_under key (trim (drop (length fcep_topic) message_part)) (some key_identifier)
        pure (returns (returned_line before decrypted)))
      else pure (legacy_topic before key_identifier (extract_fish10_payload message_part))

  abbrev is_topic_text : Bytes → Bool
  is_topic_text message_part = starts_with fcep_topic message_part || is_fish10_message message_part

  -- RPL_TOPIC: the channel is the fourth word of at least five.
  unfoldable pub on_rpl_topic : Bytes → Option Bytes → M DllError TopicStep
  unfolding find_text decrypt_topic is_fish10_message split_whitespace
  on_rpl_topic line network =
      if has_text (codes " 332 ") line
      then elim (find_text (codes " :") line) [
        | none ↦ pure (returns none)
        | some (before, message_part) ↦
            if is_topic_text message_part
            then elim (split_whitespace line) [
              | w0 ∷ w1 ∷ w2 ∷ channel_name ∷ w4 ∷ more ↦
                  decrypt_topic before message_part channel_name network
              | _ ↦ pure (returns none)
            ]
            else pure goes_on
      ]
      else pure goes_on

  abbrev is_prefixed : Bytes → Bool
  is_prefixed [] = false
  is_prefixed (x ∷ s) = x == b':'

  -- A change of the topic: the channel is the first word behind the command.
  unfoldable pub on_topic : Bytes → Option Bytes → M DllError TopicStep
  unfolding find_text decrypt_topic is_fish10_message split_whitespace
  on_topic line network =
      if is_prefixed line
      then elim (find_text (codes " TOPIC ") line) [
        | none ↦ pure goes_on
        | some (head, after_topic_cmd) ↦ elim (find_text (codes " :") line) [
          | none ↦ pure (returns none)
          | some (before, message_part) ↦
              if is_topic_text message_part
              then elim (split_whitespace after_topic_cmd) [
                | [] ↦ pure (returns none)
                | channel_name ∷ more ↦ decrypt_topic before message_part channel_name network
              ]
              else pure goes_on
        ]
      ]
      else pure goes_on

  -- A message of FiSH 10, in a line of at least four words.
  unfoldable pub on_legacy_message : Bytes → Bytes → Bytes → Option Bytes
  unfolding split_whitespace sender_of key_identifier_of extract_fish10_payload
  on_legacy_message line before message_part = elim (split_whitespace line) [
    | w0 ∷ w1 ∷ target_raw ∷ w3 ∷ more ↦ elim (extract_fish10_payload message_part) [
      | err e ↦ none
      | ok payload ↦ elim (decrypt_legacy (key_identifier_of (sender_of w0) target_raw) payload) [
        | none ↦ none
        | some decrypted ↦ returned_line before decrypted
      ]
    ]
    | _ ↦ none
  ]

  abbrev aad_of_key : Bytes → Option Bytes
  aad_of_key key_identifier = if is_channel key_identifier then some key_identifier else none

  unfoldable pub key_of_message : Bytes → Option Bytes → M DllError (Option Key)
  unfolding is_channel channel_or_regular_key get_key
  key_of_message key_identifier network =
      if is_channel key_identifier
      then channel_or_regular_key key_identifier network
      else attempt {E = DllError} (get_key env key_identifier network)

  -- The prefix is searched for twice, with the colon and with the space and the colon.
  unfoldable pub decrypt_fish11 :
      Bytes → Bytes → Bytes → Bytes → Option Bytes → M DllError (Option Bytes)
  unfolding find_text sender_of key_identifier_of is_channel
  decrypt_fish11 line encryption_prefix w0 target_raw network =
      elim (find_text (codes ":" ++ encryption_prefix) line) [
        | none ↦ pure none
        | some (head, behind_marker) ↦
            let key_identifier = key_identifier_of (sender_of w0) target_raw in
            (do
              key ← key_of_message key_identifier network
              decrypted ← decrypt_under key (trim behind_marker) (aad_of_key key_identifier)
              pure (elim (find_text (codes " :" ++ encryption_prefix) line) [
                | none ↦ none
                | some (prefix_and_command, rest) ↦ returned_line prefix_and_command decrypted
              ]))
      ]

  -- Behind the checks for topics and for DH1080.
  unfoldable pub decrypt_marked : Bytes → Option Bytes → M DllError (Option Bytes)
  unfolding find_text get_encryption_prefix is_fish10_message on_legacy_message decrypt_fish11
      split_whitespace
  decrypt_marked line network = do
    configured ← attempt {E = DllError} get_encryption_prefix
    let encryption_prefix = unwrap_prefix configured
    elim (find_text (codes " :") line) [
      | none ↦ pure none
      | some (before, message_part) ↦
          if is_fish10_message message_part
          then pure (on_legacy_message line before message_part)
          else if not (starts_with encryption_prefix message_part)
          then pure none
          else if has_text (codes "X25519_INIT:") line || has_text (codes "X25519_FINISH") line
          then pure none
          else elim (split_whitespace line) [
            | w0 ∷ w1 ∷ target_raw ∷ w3 ∷ more ↦
                decrypt_fish11 line encryption_prefix w0 target_raw network
            | _ ↦ pure none
          ]
    ]

  unfoldable pub attempt_decryption : Bytes → Option Bytes → M DllError (Option Bytes)
  unfolding on_rpl_topic on_topic decrypt_marked find_text
  attempt_decryption line network = do
    rpl ← on_rpl_topic line network
    elim rpl [
      | returns answer ↦ pure answer
      | goes_on ↦ do
        topic ← on_topic line network
        elim topic [
          | returns answer ↦ pure answer
          | goes_on ↦
              if has_text (codes "DH1080_INIT") line || has_text (codes "DH1080_FINISH") line
              then pure none
              else decrypt_marked line network
        ]
    ]
