-- ===== src/Dll/Commands/Plaintext.antt =====
-- fish_11_dll/src/dll_interface/fish11_setkeyfromplaintext.rs: the two sides of a conversation.
use fish.Common.{
  ◌≡◌, arith, false, [], ◌∷◌, ◌++◌, none, some, Bytes, codes, length, ◌==◌, ltb, same_list,
}
use fish.Env.{Env, IsEnv}
use fish.Errors.{ok}
use fish.Config.Models.{Key, FishConfig}
use fish.Config.Access.{free, ret}
use fish.Config.Keys.{validate_network_name, get_key, set_key}
use fish.Config.Keys.Store.{stored, append_ne, get_key-stored}
use fish.Utils.{normalize_nick}
use fish.Dll.Commands.{two_or_three_parts, target_nick, set_key_from_plaintext}

-- The salt of a key for a nickname.
abbrev pub salt_of : Bytes → Bytes → Bytes
salt_of network nick = network ++ (b':' ∷ nick)

-- A command that names a network, a nickname and a key of at least eight bytes.
pub record IsCommand (input network nick plaintext : Bytes) : Type 0 where
  pub target : Bytes
  pub parts : two_or_three_parts input ≡ some (some network, target, plaintext)
  pub names : target_nick target ≡ nick
  pub named : (length nick == 0) ≡ false
  pub long : ltb (length plaintext) 8 ≡ false

module _ (env : Env) (laws : IsEnv env) (network : Bytes)
    (allowed : validate_network_name network ≡ ok tt) where
  one_side :
      (input nick plaintext : Bytes) (key : Key) (config : FishConfig)
      → IsCommand input network nick plaintext
      → env.hkdf (some (salt_of network nick)) plaintext [] ≡ some key
      → set_key_from_plaintext env input free config
        ≡ (ret (codes "1"), stored env config (normalize_nick nick) network key false)
  unfolding set_key_from_plaintext set_key
  one_side input nick plaintext key config command derived =
      ground (arith, allowed, command.parts, command.names, command.named, command.long, derived)

  -- Two users who type the same text of at least eight bytes and the same network, each for the nickname
  -- of the other, store keys that HKDF derives under two different salts, each with the nickname of the
  -- other in it, and get_key gives each of them the key that was so derived.
  pub set_key_from_plaintext_sides :
      (input_a input_b nick_a nick_b plaintext : Bytes) (key_a key_b : Key)
      (config_a config_b : FishConfig)
      → IsCommand input_a network nick_b plaintext
      → IsCommand input_b network nick_a plaintext
      → same_list nick_a nick_b ≡ false
      → env.hkdf (some (salt_of network nick_b)) plaintext [] ≡ some key_a
      → env.hkdf (some (salt_of network nick_a)) plaintext [] ≡ some key_b
      → (after_a : FishConfig) × (after_b : FishConfig) × (set_key_from_plaintext env input_a free
            config_a
          ≡ (ret (codes "1"), after_a))
        × (set_key_from_plaintext env input_b free config_b ≡ (ret (codes "1"), after_b))
        × (get_key env nick_b none free after_a ≡ (ret key_a, after_a))
        × (get_key env nick_a none free after_b ≡ (ret key_b, after_b))
        × (same_list (salt_of network nick_a) (salt_of network nick_b) ≡ false)
  set_key_from_plaintext_sides input_a input_b nick_a nick_b plaintext key_a key_b config_a config_b
        of_a of_b other derived_a derived_b =
      (
        stored env config_a (normalize_nick nick_b) network key_a false,
        stored env config_b (normalize_nick nick_a) network key_b false,
        one_side input_a nick_b plaintext key_a config_a of_a derived_a,
        one_side input_b nick_a plaintext key_b config_b of_b derived_b,
        get_key-stored env laws nick_b key_a network false config_a tt,
        get_key-stored env laws nick_a key_b network false config_b tt,
        append_ne network (b':' ∷ nick_a) (b':' ∷ nick_b) (ground (arith, other)),
      )
