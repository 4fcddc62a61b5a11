-- ===== src/Tests/Commands.antt =====
-- The commands of mIRC for the keys of nicknames, on examples.
use fish.Common.{
  ◌≡◌, refl, false, ◌++◌, Option, none, some, Bytes, codes, trim, to_lowercase, same_list, list_eq,
}
use fish.Env.{Env, IsEnv}
use fish.Config.Models.{FishConfig}
use fish.Config.Access.{free, ret}
use fish.Config.Keys.{validate_network_name, get_key}
use fish.Dll.Commands.{target_nick, two_or_three_parts, set_key_from_plaintext}
use fish.Dll.Commands.Plaintext.{IsCommand, salt_of, set_key_from_plaintext_sides}
use fish.Utils.{normalize_nick, normalize_target, split_space}
use fish.Tests.Exchange.{online, online-IsEnv}
use fish.Tests.World.{empty}

abbrev salted_by : Option Bytes → Bytes → Bytes
salted_by none material = material
salted_by (some salt) material = salt ++ material

-- A derivation that shows its salt.
abbrev salted : Env
salted = record online { hkdf = λ salt material info. some (salted_by salt material) }

salted-IsEnv : IsEnv salted
salted-IsEnv = record {
  base64_decode-encode = online-IsEnv.base64_decode-encode;
  encrypts = online-IsEnv.encrypts;
  decrypt-encrypt = online-IsEnv.decrypt-encrypt;
  parse_date-now = online-IsEnv.parse_date-now;
}

abbrev secret : Bytes
secret = codes "a secret"

bo-IsCommand : IsCommand (codes "net Bo a secret") (codes "net") (codes "bo") secret
unfolding two_or_three_parts target_nick normalize_nick normalize_target trim to_lowercase
    split_space
bo-IsCommand = record { target = codes "Bo"; parts = refl; names = refl; named = refl; long = refl }

al-IsCommand : IsCommand (codes "net Al a secret") (codes "net") (codes "al") secret
unfolding two_or_three_parts target_nick normalize_nick normalize_target trim to_lowercase
    split_space
al-IsCommand = record { target = codes "Al"; parts = refl; names = refl; named = refl; long = refl }

set_key_from_plaintext_sides_example :
    (after_a : FishConfig) × (after_b : FishConfig) × (set_key_from_plaintext salted
        (codes "net Bo a secret")
        free
        empty
      ≡ (ret (codes "1"), after_a))
    × (set_key_from_plaintext salted (codes "net Al a secret") free empty
        ≡ (ret (codes "1"), after_b))
    × (get_key salted (codes "bo") none free after_a ≡ (ret (codes "net:boa secret"), after_a))
    × (get_key salted (codes "al") none free after_b ≡ (ret (codes "net:ala secret"), after_b))
    × (same_list (salt_of (codes "net") (codes "al")) (salt_of (codes "net") (codes "bo")) ≡ false)
unfolding validate_network_name
set_key_from_plaintext_sides_example =
    set_key_from_plaintext_sides salted salted-IsEnv (codes "net") refl (codes "net Bo a secret")
      (codes "net Al a secret") (codes "al") (codes "bo") secret (codes "net:boa secret")
      (codes "net:ala secret") empty empty bo-IsCommand al-IsCommand refl refl refl
