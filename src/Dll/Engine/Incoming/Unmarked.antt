-- ===== src/Dll/Engine/Incoming/Unmarked.antt =====
-- fish_11_dll/src/engine_registration.rs: lines that are not taken for encrypted ones, among them the
-- topics that the engine itself encrypts for FiSH 10.
use fish.Common.{
  ℕ, ◌==◌, ◌≡◌, refl, ◌∙◌, ap, sym, arith, inl, inr, Bool-cases, true, false, [], ◌∷◌, ◌++◌, Option,
  none, some, Bytes, codes, find_text, starts_with, trim, trim_start, is_whitespace, crlf,
}
use mathlib.Core.List.{reverse, reverse-append, reverse-reverse}
use fish.Env.{Env}
use fish.Config.Models.{FishConfig}
use fish.Config.Access.{free, ret}
use fish.Config.Settings.{get_encryption_prefix}
use fish.Legacy.Cipher.{BlockCipher}
use fish.Legacy.Detection.{is_fish10_message}
use fish.Dll.Engine.Outgoing.{LegacyKeys, encrypted_line}
use fish.Dll.Engine.Incoming.{
  fcep_topic, on_rpl_topic, on_topic, goes_on, decrypt_marked, attempt_decryption,
}

module _ (env : Env) (c : BlockCipher) (legacy_keys : LegacyKeys) (line before text : Bytes)
    (network : Option Bytes) (cfg : FishConfig) (encryption_prefix : Bytes)
    (message : find_text (codes " :") line ≡ some (before, text))
    (no_topic : starts_with fcep_topic text ≡ false) (not_fish10 : is_fish10_message text ≡ false)
    (configured : get_encryption_prefix free cfg ≡ (ret encryption_prefix, cfg))
    (no_mark : starts_with encryption_prefix text ≡ false) where
  rpl_goes_on : on_rpl_topic env c legacy_keys line network free cfg ≡ (ret goes_on, cfg)
  unfolding on_rpl_topic
  rpl_goes_on = ground (arith, message, no_topic, not_fish10)

  topic_goes_on : on_topic env c legacy_keys line network free cfg ≡ (ret goes_on, cfg)
  unfolding on_topic
  topic_goes_on = ground (arith, message, no_topic, not_fish10)

  nothing_marked : decrypt_marked env c legacy_keys line network free cfg ≡ (ret none, cfg)
  unfolding decrypt_marked
  nothing_marked =
      rw (configured, decrypt_marked)
        (rw (message, decrypt_marked)
          (rw (not_fish10, decrypt_marked) (rw (no_mark, decrypt_marked) refl)))

  -- A line whose text behind the first " :" has none of the marks goes on to mIRC as it came, whatever
  -- keys there are, and nothing changes.
  pub attempt_decryption-unmarked :
      attempt_decryption env c legacy_keys line network free cfg ≡ (ret none, cfg)
  unfolding attempt_decryption
  attempt_decryption-unmarked =
      rw (rpl_goes_on, attempt_decryption)
        (rw (topic_goes_on, attempt_decryption) (ground (arith, nothing_marked)))

-- What `trim_start` leaves is the end of the text.
trim_start-suffix : (s : Bytes) → (t : Bytes) × (t ++ trim_start s ≡ s)
unfolding trim_start
trim_start-suffix [] = ([], refl)
trim_start-suffix (x ∷ s) = elim (Bool-cases (is_whitespace x)) [
  | inl e ↦ let (t, eq) = trim_start-suffix s in (x ∷ t, rw (e) (ap (λ u. x ∷ u) eq))
  | inr e ↦ ([], rw (e) refl)
]

-- What trimming at the end leaves is the beginning.
trim_end-prefix : (s : Bytes) → (t : Bytes) × (reverse (trim_start (reverse s)) ++ t ≡ s)
trim_end-prefix s =
    let (t, eq) = trim_start-suffix (reverse s) in
    (
      reverse t,
      sym (reverse-append t (trim_start (reverse s))) ∙ (ap reverse eq ∙ reverse-reverse s),
    )

starts_with-append : (p s t : Bytes) → starts_with p s ≡ true → starts_with p (s ++ t) ≡ true
unfolding starts_with
starts_with-append [] s t h = refl
starts_with-append (x ∷ p) [] t h = ground (arith, h)
starts_with-append (x ∷ p) (y ∷ s) t h = ground (arith, h, starts_with-append p s t)

-- A pattern that the text does not begin with is not at the beginning of a part of it either.
not_at_start : (p s t w : Bytes) → s ++ t ≡ w → starts_with p w ≡ false → starts_with p s ≡ false
not_at_start p s t w eq h = elim (Bool-cases (starts_with p s)) [
  | inr no_start ↦ no_start
  | inl start ↦
      let again : starts_with p (s ++ t) ≡ true = starts_with-append p s t start in
      let whole : starts_with p w ≡ true = rw (← eq) again in cc
]

no_ok_space :
    (x : ℕ) (s : Bytes)
    → (x == 32) ≡ false
    → starts_with (codes "+OK ") (codes "+OK" ++ (x ∷ s)) ≡ false
unfolding starts_with
no_ok_space x s h = ground (arith, h)

no_mcps : (x : ℕ) (s : Bytes) → starts_with (codes "mcps ") (codes "+OK" ++ (x ∷ s)) ≡ false
unfolding starts_with
no_mcps x s = refl

-- "+OK" with anything but a space behind it is no FiSH 10 message.
unrecognised :
    (x : ℕ) (s : Bytes) → (x == 32) ≡ false → is_fish10_message (codes "+OK" ++ (x ∷ s)) ≡ false
unfolding is_fish10_message trim trim_start is_whitespace
unrecognised x s h =
    let w = codes "+OK" ++ (x ∷ s) in
    let u = reverse (trim_start (reverse w)) in
    let (t, eq) = trim_end-prefix w in
    let ok_no : starts_with (codes "+OK ") w ≡ false = no_ok_space x s h in
    let first = not_at_start (codes "+OK ") u t w eq ok_no in
    let second = not_at_start (codes "mcps ") u t w eq (no_mcps x s) in rw (first, second) refl

not_fcep : (x : ℕ) (s : Bytes) → starts_with fcep_topic (codes "+OK" ++ (x ∷ s)) ≡ false
unfolding starts_with
not_fcep x s = refl

-- A topic that the engine encrypts for FiSH 10 is never decrypted by an engine: its mark "+OK" has no
-- space behind it, so for any text that does not begin with a space, where the receiver's prefix is
-- no beginning of what stands behind the first " :", the line goes on to mIRC as it came, whatever
-- keys there are.
pub attempt_decryption-legacy_topic :
    (env : Env) (c : BlockCipher) (legacy_keys : LegacyKeys) (cmd_part before rest : Bytes) (x : ℕ)
    (s own_prefix encryption_prefix : Bytes) (network : Option Bytes) (cfg : FishConfig)
    → let sent = encrypted_line cmd_part own_prefix true (x ∷ s, true) in
      find_text (codes " :") (before ++ sent) ≡ some (rest, codes "+OK" ++ ((x ∷ s) ++ crlf))
      → (x == 32) ≡ false
      → get_encryption_prefix free cfg ≡ (ret encryption_prefix, cfg)
      → starts_with encryption_prefix (codes "+OK" ++ ((x ∷ s) ++ crlf)) ≡ false
      → attempt_decryption env c legacy_keys (before ++ sent) network free cfg ≡ (ret none, cfg)
attempt_decryption-legacy_topic env c legacy_keys cmd_part before rest x s own_prefix
      encryption_prefix network cfg message h configured no_mark =
    attempt_decryption-unmarked env c legacy_keys _ rest (codes "+OK" ++ ((x ∷ s) ++ crlf)) network
      cfg encryption_prefix message (not_fcep x (s ++ crlf)) (unrecognised x (s ++ crlf) h)
      configured no_mark
