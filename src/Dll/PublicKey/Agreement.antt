-- ===== src/Dll/PublicKey/Agreement.antt =====
-- fish_11_dll/src/dll_interface/key_management.rs: FiSH11_ProcessPublicKey with the token of the other side.
use fish.Common.{
  ◌≡◌, refl, ◌∙◌, sym, arith, true, false, [], ◌∷◌, Option, none, some, Bytes, codes, length, ◌==◌,
  starts_with, trim, split_whitespace,
}
use fish.Env.{Env, IsEnv}
use fish.Errors.{ok}
use fish.Config.Models.{Key, KeyPair, FishConfig}
use fish.Config.Access.{free, ret, with_config}
use fish.Config.Channels.{stored_keypair}
use fish.Config.Keys.{get_key, set_key}
use fish.Config.Keys.Store.{IsReadable, stored, get_key-stored}
use fish.Config.Manual.{get_keypair}
use fish.Crypto.X25519.{
  Curve, IsCurve, validate_public_key, format_public_key, compute_shared_secret, store_shared_key,
}
use fish.Crypto.X25519.Checks.{extract_public_key-format_public_key, compute_shared_secret_agrees}
use fish.Utils.{normalize_nick}
use fish.Dll.Exchange.{Call, validate_keypair, nickname_of, exchange_key}
use fish.Dll.Exchange.Token.{IsTimely, exchange_key-token}
use fish.Dll.PublicKey.{looks_like_token, token_of, process_public_key}

-- A public key of 32 bytes that passes the check, and whose base64 has no white space at its ends.
pub record IsSendable (env : Env) (key : Key) : Type 0 where
  pub size : length key ≡ 32
  pub valid : validate_public_key key ≡ ok tt
  pub tight : trim (env.base64_encode key) ≡ env.base64_encode key
  pub tight_token : trim (format_public_key env key) ≡ format_public_key env key

module _ (env : Env) (laws : IsEnv env) (net : Bytes)
    (current : env.current_network ≡ some net) where
  store_shared_key_lem :
      (nickname secret : Bytes) (config : FishConfig)
      → store_shared_key env nickname secret none free config
        ≡ (ret tt, stored env config (normalize_nick nickname) net secret true)
  unfolding store_shared_key set_key
  store_shared_key_lem nickname secret config = ground (arith, current)

  token_of-token :
      (nick : Bytes) (key : Key)
      → looks_like_token nick ≡ false
      → token_of (nick ∷ format_public_key env key ∷ []) ≡ some (nick, format_public_key env key)
  unfolding token_of format_public_key starts_with
  token_of-token nick key plain = rw (plain, token_of) refl

  not_empty : (key : Key) → (length (format_public_key env key) == 0) ≡ false
  unfolding format_public_key
  not_empty key = ground arith

  process_public_key_lem :
      (curve : Curve) (input nick : Bytes) (theirs secret : Key) (pair : KeyPair)
      (config : FishConfig)
      → split_whitespace (trim input) ≡ nick ∷ format_public_key env theirs ∷ []
      → looks_like_token nick ≡ false
      → (length (normalize_nick nick) == 0) ≡ false
      → IsSendable env theirs
      → stored_keypair env config ≡ ok (some pair)
      → compute_shared_secret env curve pair.private_key theirs ≡ ok secret
      → process_public_key env curve input free config ≡ (
        ret (codes "1"),
        stored env config (normalize_nick (normalize_nick nick)) net secret true,
      )
  process_public_key_lem curve input nick theirs secret pair config words plain named send p s =
      let taken = token_of-token nick theirs plain in
      let full = not_empty theirs in
      let (extracted, _) =
        extract_public_key-format_public_key env theirs laws send.tight send.size send.valid in
      let kept = store_shared_key_lem (normalize_nick nick) secret config in
      unfold process_public_key get_keypair with_config in
      rw (words, taken, named, send.tight_token, full, extracted, send.valid, p, s, kept) refl

-- A pair that generate_keypair makes, with a public key that passes all checks.
pub record IsPair (env : Env) (curve : Curve) (pair : KeyPair) : Type 0 where
  pub is_public : pair.public_key ≡ curve.public_key pair.private_key
  pub private_size : length pair.private_key ≡ 32
  pub sendable : IsSendable env pair.public_key
  pub checked : validate_keypair pair ≡ ok tt

-- A nickname as mIRC gives it, and what the user of it sends: one line of two words.
pub record IsAnswer (env : Env) (nick input : Bytes) (theirs : Key) : Type 0 where
  pub words : split_whitespace (trim input) ≡ nick ∷ format_public_key env theirs ∷ []
  pub plain : looks_like_token nick ≡ false
  pub asked : (length (nickname_of nick) == 0) ≡ false
  pub named : (length (normalize_nick nick) == 0) ≡ false

-- One side begins an exchange, sends its public key, processes the answer, and has the secret as the
-- key of the nickname.
abbrev pub Exchanged : Env → Call → Curve → Bytes → Bytes → KeyPair → FishConfig → Key → Type 0
Exchanged env call curve nick input pair config secret =
    (c1 : FishConfig) × (c2 : FishConfig) × (exchange_key env call nick free config
      ≡ (ret (format_public_key env pair.public_key), c1))
    × (process_public_key env curve input free c1 ≡ (ret (codes "1"), c2))
    × (get_key env (normalize_nick nick) none free c2 ≡ (ret secret, c2))

module _ (env : Env) (laws : IsEnv env) (net : Bytes) (current : env.current_network ≡ some net)
    (curve : Curve) where
  one_side :
      (call : Call) (random nick input : Bytes) (pair : KeyPair) (config : FishConfig)
      (theirs secret : Key)
      → IsTimely call random
      → validate_keypair pair ≡ ok tt
      → stored_keypair env config ≡ ok (some pair)
      → IsAnswer env nick input theirs
      → IsSendable env theirs
      → IsReadable true config.fish11.key_ttl
      → compute_shared_secret env curve pair.private_key theirs ≡ ok secret
      → Exchanged env call curve nick input pair config secret
  one_side call random nick input pair config theirs secret timely v p answer send life s =
      let (c1, begun, same) =
        exchange_key-token env call random net timely current nick pair config answer.asked p v in
      (
        c1,
        stored env c1 (normalize_nick (normalize_nick nick)) net secret true,
        begun,
        process_public_key_lem env laws net current curve input nick theirs secret pair c1
            answer.words answer.plain answer.named send (same.same_pair ∙ p) s,
        get_key-stored env laws (normalize_nick nick) secret net true c1
            (rw (same.same_settings) life),
      )

  derived :
      ((salt : Option Bytes) (material info : Bytes)
        → (k : Bytes) × (env.hkdf salt material info ≡ some k))
      → (ours theirs : Key) → validate_public_key theirs ≡ ok tt
      → (secret : Key) × (compute_shared_secret env curve ours theirs ≡ ok secret)
  unfolding compute_shared_secret
  derived derives ours theirs v =
      let point = curve.diffie_hellman ours theirs in
      let (k, e) = derives (some (codes "FiSH11-KDF")) point (codes "EncryptionKey") in
      (k, ground (arith, v, e))

  secrets_agree :
      (a b : KeyPair)
      → IsCurve curve
      → IsPair env curve a
      → IsPair env curve b
      → compute_shared_secret env curve a.private_key b.public_key
        ≡ compute_shared_secret env curve b.private_key a.public_key
  secrets_agree a b curve_laws pair_a pair_b =
      rw (pair_a.is_public, pair_b.is_public)
        (compute_shared_secret_agrees env curve a.private_key b.private_key curve_laws
          pair_a.private_size pair_b.private_size (rw (← pair_a.is_public) pair_a.sendable.valid)
          (rw (← pair_b.is_public) pair_b.sendable.valid))

  -- Two sides with a stored valid pair each, to both of which one and the same current network is
  -- known, and whose nicknames are sent to the other as the answer with the public key, end an exchange
  -- with one and the same key for the nickname of the other, whether they had a key before or not:
  -- where HKDF derives a key, the curve is lawful, both calls are in time and online and write the
  -- file, base64 and dates are read back, and the configured lives of keys are not negative and at most
  -- 2 ^ 63 - 301 seconds.
  pub exchange_agrees :
      (call_a call_b : Call) (random_a random_b nick_a nick_b answer_a answer_b : Bytes)
      (a b : KeyPair) (config_a config_b : FishConfig)
      → IsCurve curve
      → ((salt : Option Bytes) (material info : Bytes)
          → (k : Bytes) × (env.hkdf salt material info ≡ some k))
      → IsPair env curve a
      → IsPair env curve b
      → IsTimely call_a random_a
      → IsTimely call_b random_b
      → stored_keypair env config_a ≡ ok (some a)
      → stored_keypair env config_b ≡ ok (some b)
      → IsAnswer env nick_b answer_b b.public_key
      → IsAnswer env nick_a answer_a a.public_key
      → IsReadable true config_a.fish11.key_ttl
      → IsReadable true config_b.fish11.key_ttl
      → (secret : Key) × Exchanged env call_a curve nick_b answer_b a config_a secret
        × Exchanged env call_b curve nick_a answer_a b config_b secret
  exchange_agrees call_a call_b random_a random_b nick_a nick_b answer_a answer_b a b config_a
        config_b curve_laws derives pair_a pair_b timely_a timely_b p_a p_b from_b from_a life_a
        life_b =
      let (secret, s_a) = derived derives a.private_key b.public_key pair_b.sendable.valid in
      let s_b = sym (secrets_agree a b curve_laws pair_a pair_b) ∙ s_a in
      (
        secret,
        one_side call_a random_a nick_b answer_b a config_a b.public_key secret timely_a
            pair_a.checked p_a from_b pair_b.sendable life_a s_a,
        one_side call_b random_b nick_a answer_a b config_b a.public_key secret timely_b
            pair_b.checked p_b from_a pair_a.sendable life_b s_b,
      )
