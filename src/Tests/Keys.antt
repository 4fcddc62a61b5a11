-- ===== src/Tests/Keys.antt =====
-- The keys of nicknames, the ratchet and the caches of nonces, on examples.
use fish.Common.{
  ◌≡◌, refl, arith, true, [], ◌∷◌, none, some, codes, list_eq, to_lowercase, trim, ◌≤◌, length,
  lookup, contains_key,
}
use fish.Config.Models.{FishConfig, new_cache, check_and_add, new_ratchet}
use fish.Config.Models.Ratchet.{advance_all, former_keys, previous_keys-advance_all}
use fish.Config.Models.Nonces.{check_and_add_replay, offer_all}
use fish.Config.Access.{free, ret}
use fish.Config.Keys.{validate_network_name, get_key, set_key, delete_key}
use fish.Config.Keys.Store.{get_key-set_key, lookup-delete_key}
use fish.Utils.{normalize_nick}
use fish.Tests.World.{world, world-IsEnv, key, nonce, empty, with_nick}

get_key-set_key_example :
    (config : FishConfig) × (set_key world
        (codes " Al ")
        key
        (some (codes "net"))
        true
        true
        free
        empty
      ≡ (ret tt, config))
    × (get_key world (codes " Al ") (some (codes "net")) free config ≡ (ret key, config))
    × (get_key world (codes " Al ") none free config ≡ (ret key, config))
unfolding validate_network_name
get_key-set_key_example =
    get_key-set_key world world-IsEnv (codes " Al ") key (codes "net") true empty refl
      (omega arith, omega arith)

check_and_add_replay_example :
    (check_and_add (offer_all (check_and_add new_cache nonce).1 (key ∷ [])) nonce).0 ≡ true
unfolding check_and_add new_cache
check_and_add_replay_example = check_and_add_replay nonce new_cache (key ∷ []) refl (omega arith)

previous_keys-advance_all_example :
    let state = advance_all (new_ratchet key) (nonce ∷ key ∷ []) in
    (state.previous_keys ≡ key ∷ nonce ∷ []) × (length state.previous_keys ≤ 5) × (state.epoch ≡ 2)
unfolding former_keys
previous_keys-advance_all_example = previous_keys-advance_all key (nonce ∷ key ∷ [])

lookup-delete_key_example :
    let (outcome, after) = delete_key world (codes "al") (some (codes "default")) free with_nick in
    (outcome ≡ ret tt)
    × (lookup (codes "al@default") after.entries ≡ none)
    × (lookup (codes "al") after.keys ≡ none)
    × (after.nick_networks ≡ [])
unfolding normalize_nick to_lowercase trim contains_key
lookup-delete_key_example =
    lookup-delete_key world (codes "al") (codes "default") (codes "al@default") with_nick
