-- ===== src/Config/Networks/Lost.antt =====
-- fish_11_dll/src/config/networks.rs and key_management.rs: the keys of a network that was renamed.
use fish.Common.{
  ◌≡◌, refl, ap, arith, inl, inr, false, [], ◌∷◌, none, some, Bytes, Bool-cases, lookup, same_list,
  same_list_iff, list_eq,
}
use fish.Env.{Env}
use fish.Errors.{err, FishError}
use fish.Config.Models.{FishConfig}
use fish.Config.Access.{free, lift, fail, with_config, with_config_mut}
use fish.Config.Keys.{default_network, entry_key_of, get_key, get_key_internal, key_at, network_of}
use fish.Config.Networks.{Mappings, rename_all, rename_network}
use fish.Utils.{normalize_nick}

lookup-rename_all :
    (old_name new_name n : Bytes) (m : Mappings)
    → lookup n m ≡ some old_name
    → lookup n (rename_all old_name new_name m).1 ≡ some new_name
unfolding rename_all lookup
lookup-rename_all old_name new_name n [] h = ground (arith, h)
lookup-rename_all old_name new_name n ((k, v) ∷ m) h = elim (Bool-cases (same_list v old_name)) [
  | inl e ↦ rw (e) (ground (arith, h, lookup-rename_all old_name new_name n m))
  | inr e ↦
      rw (e)
        (ground (arith, h, e, same_list_iff v old_name, lookup-rename_all old_name new_name n m))
]

get_key_internal-absent :
    (env : Env) (nickname network : Bytes) (config : FishConfig)
    → lookup (normalize_nick nickname) config.nick_networks ≡ some network
    → lookup (entry_key_of (normalize_nick nickname) network) config.entries ≡ none
    → lookup (entry_key_of (normalize_nick nickname) default_network) config.entries ≡ none
    → same_list network default_network ≡ false
    → get_key_internal env config nickname none ≡ err FishError.key_not_found
unfolding get_key_internal key_at network_of
get_key_internal-absent env nickname network config mapped no_entry no_default other =
    rw (mapped) (rw (other) (rw (no_entry, key_at) (rw (no_default, key_at) refl)))

-- Renaming a network does not move the keys: for a nickname of the network, where no key is stored
-- under the new name or the default network, get_key then finds none, though every entry is still
-- there.
pub get_key-rename_network :
    (env : Env) (nickname old_name new_name : Bytes) (config : FishConfig)
    → lookup (normalize_nick nickname) config.nick_networks ≡ some old_name
    → lookup (entry_key_of (normalize_nick nickname) new_name) config.entries ≡ none
    → lookup (entry_key_of (normalize_nick nickname) default_network) config.entries ≡ none
    → same_list new_name default_network ≡ false
    → let after = (rename_network old_name new_name free config).1 in
      (get_key env nickname none free after ≡ (fail FishError.key_not_found, after))
      × (after.entries ≡ config.entries)
unfolding rename_network with_config_mut with_config get_key
get_key-rename_network env nickname old_name new_name config mapped no_new no_default other =
    let absent =
      get_key_internal-absent env nickname new_name (rename_network old_name new_name free config).1
        (lookup-rename_all old_name new_name (normalize_nick nickname) config.nick_networks mapped)
        no_new no_default other in
    (ap (λ r. lift r free (rename_network old_name new_name free config).1) absent, refl)
