-- ===== src/Legacy/Engine/Lines.antt =====
-- fish_11_dll/src/legacy/fish10_engine.rs: which lines the engine of FiSH 10 changes.
use fish.Common.{
  ℕ, ◌≡◌, refl, ◌∙◌, sym, ap, arith, inl, inr, false, List, [], ◌∷◌, ◌++◌, Option, none, some,
  Bytes, codes, trim, trim_start, is_whitespace, starts_with, lookup, list_eq, same_list,
  same_list_iff, contains_key, to_lowercase, All, Bool-cases,
}
use mathlib.Core.List.{reverse, reverse-cons, reverse-append}
use fish.Config.Access.{ret}
use fish.Legacy.Cipher.{BlockCipher}
use fish.Legacy.Detection.{is_fish10_message, is_dh1080_message}
use fish.Legacy.Dh1080.{Crates}
use fish.Legacy.Keys.{LegacyConfig, Hex}
use fish.Legacy.Engine.{
  process_outgoing_fish10_message, handle_fish10_encrypted_message, handle_fish10_topic_message,
  stripped_payload, decrypted_line, process_incoming_fish10_message,
}
use fish.Utils.{three_parts, split_space}

-- A text whose last character is kept ends in it.
trim_start-last :
    (c : ℕ) (t : Bytes)
    → is_whitespace c ≡ false
    → (t' : Bytes) × (trim_start (t ++ (c ∷ [])) ≡ t' ++ (c ∷ []))
unfolding trim_start
trim_start-last c [] h = ([], ground (arith, h))
trim_start-last c (x ∷ t) h = elim (Bool-cases (is_whitespace x)) [
  | inl e ↦ (let (t', p) = trim_start-last c t h in (t', rw (e, trim_start) p))
  | inr e ↦ (x ∷ t, rw (e, trim_start) refl)
]

-- Trimming keeps a first character that is not white space.
trim-first : (c : ℕ) (s : Bytes) → is_whitespace c ≡ false → (s' : Bytes) × (trim (c ∷ s) ≡ c ∷ s')
unfolding trim trim_start
trim-first c s h =
    let (t', p) = trim_start-last c (reverse s) h in
    let whole : trim_start (c ∷ s) ≡ c ∷ s = rw (h, trim_start) refl in
    (
      reverse t',
      ap (λ x. reverse (trim_start (reverse x))) whole
          ∙ (ap (λ x. reverse (trim_start x)) (reverse-cons c s)
              ∙ (ap reverse p ∙ reverse-append t' (c ∷ []))),
    )

-- A line that comes from a server begins with a colon.
is_fish10_message-colon : (s : Bytes) → is_fish10_message (b':' ∷ s) ≡ false
unfolding is_fish10_message starts_with
is_fish10_message-colon s =
    let (s', e) = trim-first b':' s (unfold is_whitespace in refl) in rw (e) refl

is_dh1080_message-colon : (s : Bytes) → is_dh1080_message (b':' ∷ s) ≡ false
unfolding is_dh1080_message starts_with
is_dh1080_message-colon s =
    let (s', e) = trim-first b':' s (unfold is_whitespace in refl) in rw (e) refl

handle_fish10_topic_message-colon :
    (c : BlockCipher) (config : LegacyConfig) (s : Bytes)
    → handle_fish10_topic_message c config (b':' ∷ s) ≡ none
unfolding handle_fish10_topic_message three_parts split_space
handle_fish10_topic_message-colon c config s = ground arith

-- A line from a server, which begins with the colon of its prefix, is never changed by the engine of
-- FiSH 10, whatever keys it has, and changes none of them: the marks are searched for at the start of
-- the line.
pub process_incoming-server_line :
    (crates : Crates) (hex : Hex) (c : BlockCipher) (drawn : Option ℕ) (s : Bytes)
    (config : LegacyConfig)
    → process_incoming_fish10_message crates hex c drawn (b':' ∷ s) config ≡ (ret none, config)
unfolding process_incoming_fish10_message
process_incoming-server_line crates hex c drawn s config =
    rw
      (
        is_fish10_message-colon s,
        is_dh1080_message-colon s,
        handle_fish10_topic_message-colon c config s,
      )
      refl

lookup-lower :
    (target : Bytes) (keys : List (Bytes × Bytes))
    → All (λ entry. to_lowercase entry.0 ≡ entry.0) keys
    → same_list (to_lowercase target) target ≡ false
    → lookup target keys ≡ none
unfolding lookup
lookup-lower target [] lower capital = refl
lookup-lower target ((name, key) ∷ keys) (low, lower) capital =
    let later = lookup-lower target keys lower capital in
    elim (Bool-cases (same_list name target)) [
      | inl e ↦
          (let found = (same_list_iff name target).0 e in
            let same =
              (same_list_iff (to_lowercase target) target).1
                (ap to_lowercase (sym found) ∙ (low ∙ found)) in
            ground (arith, capital, same))
      | inr e ↦ rw (e) later
    ]

-- FiSH10_SetKey stores names in lower case. Where all names are, no message to a name with a capital
-- letter is encrypted: the line goes out as it is.
pub process_outgoing-capital :
    (c : BlockCipher) (config : LegacyConfig) (line command target message : Bytes)
    → All (λ entry. to_lowercase entry.0 ≡ entry.0) config.legacy_keys
    → three_parts line ≡ some (command, target, message)
    → same_list (to_lowercase target) target ≡ false
    → process_outgoing_fish10_message c config line ≡ none
unfolding process_outgoing_fish10_message contains_key
process_outgoing-capital c config line command target message lower parts capital =
    let missing = lookup-lower target config.legacy_keys lower capital in
    ground (arith, parts, missing)

stripped_payload-mcps :
    (text : Bytes)
    → trim (codes "mcps " ++ text) ≡ codes "mcps " ++ text
    → trim (codes "+OK " ++ text) ≡ codes "+OK " ++ text
    → stripped_payload (codes "mcps " ++ text) ≡ stripped_payload (codes "+OK " ++ text)
unfolding starts_with
stripped_payload-mcps text t u = rw (t, u, stripped_payload) refl

-- A message that is marked as CBC is decrypted as if it were marked as ECB: the mark is cut off before
-- legacy_decrypt looks for it.
pub handle_fish10_encrypted_message-mcps :
    (c : BlockCipher) (config : LegacyConfig) (line line' command target text : Bytes)
    → three_parts line ≡ some (command, target, codes "mcps " ++ text)
    → three_parts line' ≡ some (command, target, codes "+OK " ++ text)
    → trim (codes "mcps " ++ text) ≡ codes "mcps " ++ text
    → trim (codes "+OK " ++ text) ≡ codes "+OK " ++ text
    → handle_fish10_encrypted_message c config line ≡ handle_fish10_encrypted_message c config line'
unfolding handle_fish10_encrypted_message starts_with
handle_fish10_encrypted_message-mcps c config line line' command target text p q t u =
    rw (p, q, handle_fish10_encrypted_message)
      (rw (stripped_payload-mcps text t u, decrypted_line) refl)
