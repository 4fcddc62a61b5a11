-- ===== src/Dll/Exchange/Token.antt =====
-- fish_11_dll/src/dll_interface/fish11_exchangekey.rs: what a call that begins an exchange leaves behind.
use fish.Common.{
  ◌≡◌, refl, ◌∙◌, arith, inl, inr, Bool, true, false, none, some, Bytes, length, ◌==◌, starts_with,
}
use fish.Env.{Env, IsEnv}
use fish.Errors.{Result-cases, ok, err, FishError}
use fish.Config.Models.{Key, KeyPair, FishConfig}
use fish.Config.Access.{free, ret, with_config, with_config_mut}
use fish.Config.Access.Counters.{count_key_exchange, increment_key_exchange_counter}
use fish.Config.Channels.{stored_keypair}
use fish.Config.Keys.{get_key_internal, get_key, set_key}
use fish.Config.Keys.Store.{IsReadable, stored, get_key-stored}
use fish.Config.Manual.{get_keypair}
use fish.Crypto.X25519.{format_public_key}
use fish.Utils.{normalize_nick}
use fish.Dll.Exchange.{
  Stage, Call, validate_keypair, nickname_of, ensure_key_exists, get_or_generate_keypair_internal,
  exchange_key, save_if, before_key_check, before_keypair_generation, before_keypair_validation,
}

-- A call in time, connected, with random bytes and a file that can be written.
pub record IsTimely (call : Call) (key : Key) : Type 0 where
  pub in_time : (stage : Stage) → call.late stage ≡ false
  pub online : call.connected ≡ true
  pub random : call.random_key ≡ some key
  pub written : call.saved ≡ ok tt

-- What an exchange goes on from: the pair and the settings.
pub record HasSame (env : Env) (before after : FishConfig) : Type 0 where
  pub same_pair : stored_keypair env after ≡ stored_keypair env before
  pub same_settings : after.fish11 ≡ before.fish11

-- The count of one exchange.
abbrev counted : FishConfig → FishConfig
counted config = (count_key_exchange free config).1

module _ (env : Env) (call : Call) (key net : Bytes) (timely : IsTimely call key)
    (current : env.current_network ≡ some net) where
  -- A nickname with no key gets the random one.
  ensure_key_exists-missing :
      (nickname : Bytes) (config : FishConfig) {e : FishError}
      → get_key_internal env config nickname none ≡ err e
      → ensure_key_exists env call nickname free config
        ≡ (ret true, stored env config (normalize_nick nickname) net key true)
  unfolding ensure_key_exists get_key set_key
  ensure_key_exists-missing nickname config missing =
      ground (arith, missing, timely.random, current)

  ensure_key_exists_lem :
      (nickname : Bytes) (config : FishConfig)
      → (generated : Bool) × (config' : FishConfig) × (ensure_key_exists env call nickname free
            config
          ≡ (ret generated, config'))
        × HasSame env config config'
  unfolding stored_keypair
  ensure_key_exists_lem nickname config =
      elim (Result-cases (get_key_internal env config nickname none)) [
        | inl (old, found) ↦ (
          false,
          config,
          unfold ensure_key_exists get_key in rw (found, ensure_key_exists) refl,
          record { same_pair = refl; same_settings = refl },
        )
        | inr (e, missing) ↦ (
          true,
          stored env config (normalize_nick nickname) net key true,
          ensure_key_exists-missing nickname config missing,
          record { same_pair = refl; same_settings = refl },
        )
      ]

  after_ensure :
      (input : Bytes) (generated : Bool) (pair : KeyPair) (config c1 : FishConfig)
      → (length (nickname_of input) == 0) ≡ false
      → ensure_key_exists env call (nickname_of input) free config ≡ (ret generated, c1)
      → stored_keypair env c1 ≡ ok (some pair)
      → validate_keypair pair ≡ ok tt
      → exchange_key env call input free config
        ≡ (ret (format_public_key env pair.public_key), counted c1)
  unfolding exchange_key get_or_generate_keypair_internal get_keypair with_config starts_with
      format_public_key save_if increment_key_exchange_counter with_config_mut
  after_ensure input generated pair config c1 named e p v =
      let t1 = timely.in_time before_key_check in
      let t2 = timely.in_time before_keypair_generation in
      let t3 = timely.in_time before_keypair_validation in
      elim generated [
        | true ↦ ground (arith, t1, t2, t3, timely.online, timely.written, named, e, p, v)
        | false ↦ ground (arith, t1, t2, t3, timely.online, timely.written, named, e, p, v)
      ]

  -- With a stored pair that is valid, a call in time and online for an input that names a nickname,
  -- with a key or without one, answers the public key of the pair as a token, and keeps the pair and
  -- the settings.
  pub exchange_key-token :
      (input : Bytes) (pair : KeyPair) (config : FishConfig)
      → (length (nickname_of input) == 0) ≡ false
      → stored_keypair env config ≡ ok (some pair)
      → validate_keypair pair ≡ ok tt
      → (config' : FishConfig) × (exchange_key env call input free config
          ≡ (ret (format_public_key env pair.public_key), config'))
        × HasSame env config config'
  unfolding stored_keypair
  exchange_key-token input pair config named p v =
      let (generated, c1, e, same) = ensure_key_exists_lem (nickname_of input) config in
      (
        counted c1,
        after_ensure input generated pair config c1 named e (same.same_pair ∙ p) v,
        record { same_pair = same.same_pair; same_settings = same.same_settings },
      )

  -- For a nickname with no key, where the current network is known, a valid pair is stored, and the call
  -- is online, in time and writes the file, it answers its public key and also stores the random key
  -- that it drew: right behind it get_key gives that key for the nickname, where base64 and dates are
  -- read back and the configured life of keys is not negative and at most 2 ^ 63 - 301 seconds.
  pub exchange_key_placeholder :
      (input : Bytes) (pair : KeyPair) (config : FishConfig) {e : FishError}
      → IsEnv env
      → (length (nickname_of input) == 0) ≡ false
      → stored_keypair env config ≡ ok (some pair)
      → validate_keypair pair ≡ ok tt
      → get_key_internal env config (nickname_of input) none ≡ err e
      → IsReadable true config.fish11.key_ttl
      → (config' : FishConfig) × (exchange_key env call input free config
          ≡ (ret (format_public_key env pair.public_key), config'))
        × (get_key env (nickname_of input) none free config' ≡ (ret key, config'))
  unfolding stored_keypair
  exchange_key_placeholder input pair config laws named p v missing life =
      let nickname = nickname_of input in
      let c1 = stored env config (normalize_nick nickname) net key true in
      (
        counted c1,
        after_ensure input true pair config c1 named
            (ensure_key_exists-missing nickname config missing) p v,
        get_key-stored env laws nickname key net true (counted config) life,
      )
