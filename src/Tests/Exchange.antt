-- ===== src/Tests/Exchange.antt =====
-- The exchange of keys between two nicknames, on examples.
use fish.Common.{
  ℕ, ◌≡◌, refl, arith, true, false, [], ◌∷◌, ◌++◌, none, some, Bytes, codes, length, take,
  replicate, trim, split_whitespace, to_lowercase, starts_with, ◌==◌, same_list,
}
use fish.Env.{Env, IsEnv}
use fish.Errors.{ok}
use fish.Config.Models.{Key, KeyPair, FishConfig}
use fish.Config.Access.{free, ret}
use fish.Config.Channels.{stored_keypair}
use fish.Config.Keys.{get_key, get_key_internal}
use fish.Crypto.X25519.{validate_public_key, format_public_key}
use fish.Dll.Exchange.{Call, validate_keypair, nickname_of, exchange_key}
use fish.Dll.Exchange.Token.{IsTimely, exchange_key_placeholder}
use fish.Dll.PublicKey.{looks_like_token}
use fish.Dll.PublicKey.Agreement.{IsSendable, IsPair, IsAnswer, Exchanged, exchange_agrees}
use fish.Utils.{normalize_nick, normalize_target}
use fish.Tests.Curve.{curve, curve-IsCurve, key, other_key}
use fish.Tests.World.{world, world-IsEnv, empty}

abbrev pub online : Env
online = record world { current_network = some (codes "net") }

pub online-IsEnv : IsEnv online
online-IsEnv = record {
  base64_decode-encode = world-IsEnv.base64_decode-encode;
  encrypts = world-IsEnv.encrypts;
  decrypt-encrypt = world-IsEnv.decrypt-encrypt;
  parse_date-now = world-IsEnv.parse_date-now;
}

abbrev random : Key
random = replicate 32 90

abbrev call : Call
call = record { connected = true; late = λ stage. false; random_key = some random; saved = ok tt }

call-IsTimely : IsTimely call random
call-IsTimely = record { in_time = λ stage. refl; online = refl; random = refl; written = refl }

abbrev pair_of : Key → KeyPair
pair_of k = record { private_key = k; public_key = k }

abbrev config_of : Key → FishConfig
config_of k = record empty { our_private_key = some k; our_public_key = some k }

abbrev line_with_ending : Bytes → Key → Bytes
line_with_ending nick k = nick ++ (b' ' ∷ format_public_key online k)

key-IsSendable : IsSendable online key
unfolding validate_public_key trim format_public_key
key-IsSendable = record { size = refl; valid = refl; tight = refl; tight_token = refl }

other_key-IsSendable : IsSendable online other_key
unfolding validate_public_key trim format_public_key
other_key-IsSendable = record { size = refl; valid = refl; tight = refl; tight_token = refl }

key-IsPair : IsPair online curve (pair_of key)
unfolding validate_keypair
key-IsPair = record {
  is_public = refl;
  private_size = refl;
  sendable = key-IsSendable;
  checked = refl;
}

other_key-IsPair : IsPair online curve (pair_of other_key)
unfolding validate_keypair
other_key-IsPair = record {
  is_public = refl;
  private_size = refl;
  sendable = other_key-IsSendable;
  checked = refl;
}

al-IsAnswer : IsAnswer online (codes "al") (line_with_ending (codes "al") key) key
unfolding split_whitespace trim format_public_key looks_like_token nickname_of normalize_nick
    normalize_target to_lowercase starts_with
al-IsAnswer = record { words = refl; plain = refl; asked = refl; named = refl }

bo-IsAnswer : IsAnswer online (codes "Bo") (line_with_ending (codes "Bo") other_key) other_key
unfolding split_whitespace trim format_public_key looks_like_token nickname_of normalize_nick
    normalize_target to_lowercase starts_with
bo-IsAnswer = record { words = refl; plain = refl; asked = refl; named = refl }

exchange_agrees_example :
    (secret : Key) × Exchanged online call curve
      (codes "Bo")
      (line_with_ending (codes "Bo") other_key)
      (pair_of key)
      (config_of key)
      secret
    × Exchanged online call curve
        (codes "al")
        (line_with_ending (codes "al") key)
        (pair_of other_key)
        (config_of other_key)
        secret
unfolding stored_keypair
exchange_agrees_example =
    exchange_agrees online online-IsEnv (codes "net") refl curve call call random random
      (codes "al") (codes "Bo") (line_with_ending (codes "al") key)
      (line_with_ending (codes "Bo") other_key) (pair_of key) (pair_of other_key) (config_of key)
      (config_of other_key) curve-IsCurve (λ salt material info. (take 32 material, refl))
      key-IsPair other_key-IsPair call-IsTimely call-IsTimely refl refl bo-IsAnswer al-IsAnswer
      (omega arith) (omega arith)

exchange_key_placeholder_example :
    (config' : FishConfig) × (exchange_key online call (codes " Bo ") free (config_of key)
      ≡ (ret (format_public_key online key), config'))
    × (get_key online (nickname_of (codes " Bo ")) none free config' ≡ (ret random, config'))
unfolding stored_keypair validate_keypair nickname_of get_key_internal to_lowercase trim
    fish.Common.lookup
exchange_key_placeholder_example =
    exchange_key_placeholder online call random (codes "net") call-IsTimely refl (codes " Bo ")
      (pair_of key) (config_of key) online-IsEnv refl refl refl refl (omega arith)
