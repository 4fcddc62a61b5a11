-- ===== src/Dll/Commands/Nicknames.antt =====
-- fish_11_dll/src/dll_interface: setting, showing and deleting the key of a nickname.
use fish.Common.{
  ◌≡◌, refl, ◌∙◌, arith, true, false, [], ◌∷◌, none, some, Bytes, codes, length, ◌==◌, same_list,
  trim, contains_key, list_eq, lookup-insert, lookup-insert_self, lookup-remove, remove,
}
use fish.Env.{Env, IsEnv}
use fish.Errors.{from_fish_error, DllError}
use fish.Config.Models.{Key, FishConfig}
use fish.Config.Access.{free, ret, fail}
use fish.Config.Channels.{is_channel}
use fish.Config.Keys.{
  validate_network_name, entry_key_of, network_of, key_at, get_key, set_key, delete_key,
  default_network,
}
use fish.Config.Keys.Store.{
  IsReadable, stored, fresh_entry, entry_key_ne, set_key_current, key_at-stored, get_key_lem,
}
use fish.Utils.{three_parts, normalize_nick}
use fish.Dll.Commands.{target_nick, network_and_rest, set_key_command, file_del_key, file_get_key}

same_list_comm : (a b : Bytes) → same_list a b ≡ same_list b a
same_list_comm [] [] = refl
same_list_comm [] (y ∷ b) = refl
same_list_comm (x ∷ a) [] = refl
same_list_comm (x ∷ a) (y ∷ b) = ground (arith, same_list_comm a b)

module _ (env : Env) (laws : IsEnv env) where
  stores :
      (input target_raw key_raw : Bytes) (key : Key) (config : FishConfig)
      → three_parts input ≡ some (codes "default", target_raw, key_raw)
      → (length (target_nick target_raw) == 0) ≡ false
      → (length (trim key_raw) == 0) ≡ false
      → env.base64_decode (trim key_raw) ≡ some key
      → (length key == 32) ≡ true
      → set_key_command env input free config ≡ (
        ret (codes "1"),
        stored env config (normalize_nick (target_nick target_raw)) default_network key false,
      )
  unfolding set_key_command set_key validate_network_name
  stores input target_raw key_raw key config parts named given decoded size =
      ground (arith, parts, named, given, decoded, size)

  -- A key of 32 bytes that FiSH11_SetKey is given for a nickname on the default network is shown again
  -- by FiSH11_FileGetKey for that nickname, where base64 is read back.
  pub file_get_key-set_key_command :
      (input query target_raw key_raw : Bytes) (key : Key) (config : FishConfig)
      → three_parts input ≡ some (codes "default", target_raw, key_raw)
      → target_nick (trim query) ≡ target_nick target_raw
      → (length (target_nick target_raw) == 0) ≡ false
      → is_channel (target_nick target_raw) ≡ false
      → (length (trim key_raw) == 0) ≡ false
      → env.base64_decode (trim key_raw) ≡ some key
      → (length key == 32) ≡ true
      → (config' : FishConfig) × (set_key_command env input free config
          ≡ (ret (codes "1"), config'))
        × (file_get_key env query free config' ≡ (ret (env.base64_encode key), config'))
  unfolding network_of
  file_get_key-set_key_command input query target_raw key_raw key config parts same named plain
        given decoded size =
      let nick = target_nick target_raw in
      let config' = stored env config (normalize_nick nick) default_network key false in
      let get =
        get_key_lem env laws config' nick key (some default_network)
          (key_at-stored env laws config (normalize_nick nick) default_network key false tt) in
      (
        config',
        stores input target_raw key_raw key config parts named given decoded size,
        unfold file_get_key in rw (same, named, plain, get) refl,
      )

  -- What delete_key leaves of a configuration.
  abbrev deleted : FishConfig → Bytes → FishConfig
  deleted config nick = record config {
    entries = remove (entry_key_of nick default_network) config.entries;
    keys = remove nick config.keys;
  }

  file_del_key-missing :
      (input nick_raw : Bytes) (config : FishConfig)
      → let nick = target_nick nick_raw in
        network_and_rest (trim input) ≡ (default_network, nick_raw)
        → (length nick == 0) ≡ false
        → contains_key (entry_key_of (normalize_nick nick) default_network) config.entries ≡ false
        → contains_key (normalize_nick nick) config.keys ≡ false
        → file_del_key env input free config
          ≡ (fail DllError.key_not_found, deleted config (normalize_nick nick))
  unfolding file_del_key delete_key from_fish_error
  file_del_key-missing input nick_raw config parts named e k = rw (parts, named, e, k) refl

  get_key-deleted :
      (nick net : Bytes) (key : Key) (config : FishConfig)
      → same_list default_network net ≡ false
      → IsReadable true config.fish11.key_ttl
      → let c2 =
          deleted (stored env config (normalize_nick nick) net key true) (normalize_nick nick) in
        get_key env nick none free c2 ≡ (ret key, c2)
  unfolding network_of key_at
  get_key-deleted nick net key config other life =
      let name = normalize_nick nick in
      let c1 = stored env config name net key true in
      let kept =
        lookup-remove (entry_key_of name default_network) (entry_key_of name net) c1.entries in
      let there = key_at-stored env laws config name net key true life in
      get_key_lem env laws (deleted c1 name) nick key none (
        rw (lookup-insert_self name net config.nick_networks)
          (rw (kept, key_at) (rw (entry_key_ne name default_network net other, key_at) there)))

  -- A key that was exchanged on the current network, where that is not "default", is not deleted by
  -- FiSH11_FileDelKey with the nickname alone: the command fails, and get_key still gives the key, for
  -- a nickname with no entry and no old key on the default network, where base64 and dates are read
  -- back and the configured life of keys is not negative and leaves room for the grace period in an i64.
  pub file_del_key-exchanged :
      (input nick_raw net : Bytes) (key : Key) (config : FishConfig)
      → let nick = target_nick nick_raw in
        env.current_network ≡ some net
        → same_list net default_network ≡ false
        → network_and_rest (trim input) ≡ (default_network, nick_raw)
        → (length nick == 0) ≡ false
        → contains_key (entry_key_of (normalize_nick nick) default_network) config.entries ≡ false
        → contains_key (normalize_nick nick) config.keys ≡ false
        → IsReadable true config.fish11.key_ttl
        → (c1 : FishConfig) × (c2 : FishConfig) × (set_key env nick key none true true free config
            ≡ (ret tt, c1))
          × (file_del_key env input free c1 ≡ (fail DllError.key_not_found, c2))
          × (get_key env nick none free c2 ≡ (ret key, c2))
  unfolding contains_key
  file_del_key-exchanged input nick_raw net key config current other parts named e k life =
      let nick = target_nick nick_raw in
      let name = normalize_nick nick in
      let c1 = stored env config name net key true in
      let absent =
        lookup-insert (entry_key_of name net) (entry_key_of name default_network)
          (fresh_entry env key true) config.entries in
      let gone : contains_key (entry_key_of name default_network) c1.entries ≡ false =
        rw (absent, contains_key)
          (rw (entry_key_ne name net default_network other, contains_key) e) in
      (
        c1,
        deleted c1 name,
        set_key_current env nick key net true config current,
        file_del_key-missing input nick_raw c1 parts named gone k,
        get_key-deleted nick net key config (same_list_comm default_network net ∙ other) life,
      )
