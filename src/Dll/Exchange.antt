-- ===== src/Dll/Exchange.antt =====
-- fish_11_dll/src/dll_interface/fish11_exchangekey.rs: FiSH11_ExchangeKey, which begins an exchange of
-- keys with a nickname and answers the public key to send. The clock, the network and the file are
-- given by a `Call`.
pub mod Token
use fish.Common.{
  ℕ, Bool, true, false, not, ◌&&◌, ◌||◌, ◌==◌, List, [], ◌∷◌, ◌++◌, Option, none, some, Bytes,
  codes, if◌then◌else◌, length, take, drop, leb, trim, starts_with, to_lowercase, replicate,
  same_list, bit_and,
}
use fish.Env.{Env}
use fish.Errors.{Result, ok, err, FishError, DllError}
use fish.Config.Models.{Key, KeyPair}
use fish.Config.Access.{
  M, ◌>>=◌, ◌>>◌, ret, pure, lift, require, expect, attempt, into_dll, with_config_mut,
}
use fish.Config.Access.Counters.{increment_key_exchange_counter}
use fish.Config.Keys.{get_key, set_key}
use fish.Config.Manual.{get_keypair, store_keypair, fresh_keypair}
use fish.Crypto.X25519.{prefix, format_public_key}
use fish.Utils.{normalize_nick, normalize_target}

-- The three checks of the time.
pub data Stage : Type 0 where
  before_key_check before_keypair_generation before_keypair_validation : Stage

-- What a call finds: `is_socket_connected`, whether `KEY_EXCHANGE_TIMEOUT_SECONDS` have passed at a
-- check, the 32 bytes of OsRng, none where it panics, and what `save_config` answers.
pub record Call : Type 0 where
  pub connected : Bool
  pub late : Stage → Bool
  pub random_key : Option Key
  pub saved : Result (Unit {0}) FishError

-- `key[31] & 0x80 != 0`.
abbrev has_top_bit : Bytes → Bool
has_top_bit key = elim (drop 31 key) [ [] ↦ false | c ∷ s ↦ not (bit_and c 0x80 == 0) ]

unfoldable pub validate_keypair : KeyPair → Result (Unit {0}) DllError
validate_keypair keypair =
    if same_list keypair.public_key (replicate 32 0)
    then err DllError.key_invalid
    else if same_list keypair.private_key (replicate 32 0)
    then err DllError.key_invalid
    else if has_top_bit keypair.public_key
    then err DllError.key_invalid
    else ok tt

-- The nickname that an input names.
unfoldable pub nickname_of : Bytes → Bytes
unfolding normalize_nick normalize_target
nickname_of input = normalize_nick (normalize_target (trim input))

-- `CONFIG.write()` for the copy that is saved behind the lock.
abbrev pub take_snapshot : M FishError (Unit {0})
take_snapshot = with_config_mut (λ _ config. (ret tt, config))

module _ (env : Env) (call : Call) where
  abbrev pub check_timeout : Stage → M DllError (Unit {0})
  check_timeout stage = require (not (call.late stage)) DllError.timeout

  -- Whether a key was generated.
  unfoldable pub ensure_key_exists : Bytes → M DllError Bool
  unfolding get_key set_key
  ensure_key_exists nickname = do
    existing_key ← attempt {E = DllError} (get_key env nickname none)
    elim existing_key [
      | some key ↦ pure false
      | none ↦ do
        key_bytes ← expect call.random_key DllError.rng_failed
        into_dll (set_key env nickname key_bytes none true true)
        pure true
    ]

  -- With whether the pair was generated here.
  unfoldable pub get_or_generate_keypair_internal : M DllError (KeyPair × Bool)
  unfolding get_keypair store_keypair
  get_or_generate_keypair_internal = do
    existing_keypair ← attempt {E = DllError} (get_keypair env)
    elim existing_keypair [
      | some keypair ↦ pure (keypair, false)
      | none ↦ do into_dll (store_keypair env (fresh_keypair env)); pure (fresh_keypair env, true)
    ]

  unfoldable pub save_if : Bool → M DllError (Unit {0})
  unfolding with_config_mut
  save_if false = pure tt
  save_if true = into_dll (do take_snapshot; lift call.saved)

  unfoldable pub exchange_key : Bytes → M DllError Bytes
  unfolding nickname_of ensure_key_exists get_or_generate_keypair_internal validate_keypair
      format_public_key save_if increment_key_exchange_counter
  exchange_key input = do
    require (not (length (nickname_of input) == 0)) DllError.missing_parameter
    check_timeout before_key_check
    require call.connected DllError.not_connected
    key_was_generated ← ensure_key_exists (nickname_of input)
    check_timeout before_keypair_generation
    (keypair, keypair_was_generated) ← get_or_generate_keypair_internal
    check_timeout before_keypair_validation
    lift (validate_keypair keypair)
    require (starts_with prefix (format_public_key env keypair.public_key)) DllError.key_invalid
    save_if (key_was_generated || keypair_was_generated)
    increment_key_exchange_counter
    pure (format_public_key env keypair.public_key)
