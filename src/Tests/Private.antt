-- ===== src/Tests/Private.antt =====
-- Messages between two users, on examples.
use fish.Common.{
  ◌≡◌, refl, arith, true, false, ◌++◌, none, Bytes, codes, lookup, insert, to_lowercase, trim,
  starts_with, is_utf8, ◌-ℤ◌, ◌+ℤ◌,
}
use fish.Config.Models.{FishConfig}
use fish.Config.Access.{free, ret, with_config, with_config_mut}
use fish.Config.Access.Counters.{increment_encryption_counter}
use fish.Config.Channels.{is_channel}
use fish.Config.Keys.{set_key, get_key, get_key_internal}
use fish.Config.Keys.Expiry.{check_key_expiry}
use fish.Crypto.Chacha.{encrypt_message}
use fish.Dll.Decrypt.{get_private_key, decrypt_msg}
use fish.Dll.Encrypt.{encrypt_with, encrypt_private, encrypt_msg}
use fish.Dll.Encrypt.RoundTrip.{count_twice}
use fish.Dll.Encrypt.Private.{decrypt_msg-set_key}
use fish.Utils.{
  normalize_nick, normalize_private_target, normalize_target, parse_input, split_space,
}
use fish.Tests.World.{key, nonce, seal, empty}
use fish.Tests.Exchange.{online, online-IsEnv}

-- The configurations of "al", with a key for "bo", and of "bo", with the key for "al".
abbrev of_al : FishConfig
of_al = (set_key online (codes "Bo") key none true false free empty).1

abbrev of_bo : FishConfig
of_bo = (set_key online (codes " al") key none true true free empty).1

abbrev line : Bytes
line = codes "+FiSH " ++ (nonce ++ seal key (codes "hi"))

decrypt_msg-set_key_example :
    (encrypt_msg online nonce (codes "bo hi") free of_al ≡ (ret line, count_twice of_al))
    × ((decrypt_msg online (codes "AL " ++ line) free of_bo).0 ≡ ret (codes "hi"))
unfolding encrypt_msg encrypt_private encrypt_with encrypt_message get_private_key check_key_expiry
    get_key get_key_internal set_key is_channel normalize_nick normalize_private_target
    normalize_target parse_input split_space to_lowercase trim starts_with is_utf8 with_config
    with_config_mut lookup insert ◌-ℤ◌ ◌+ℤ◌ increment_encryption_counter
decrypt_msg-set_key_example =
    decrypt_msg-set_key online online-IsEnv (codes "net") refl key nonce (codes "hi") refl refl
      (omega arith) (omega arith) refl (codes "Bo") (codes " al") (codes "bo") (codes "AL")
      (codes "bo hi") (codes "AL " ++ line) false true empty empty (omega arith) (omega arith) refl
      refl refl refl refl refl refl refl refl
