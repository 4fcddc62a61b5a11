-- ===== src/Config/Keys/Listing/Counted.antt =====
-- fish_11_dll/src/config/mod.rs: the number of keys after a key is stored.
use fish.Common.{
  ℕ, ◌+◌, ◌≡◌, refl, arith, inl, inr, ◌==◌, Bool, true, false, ◌&&◌, ◌||◌, List, [], ◌∷◌, Option,
  none, some, Bytes, codes, length, insert, list_eq, same_list, same_list_iff, starts_with,
  Bool-cases, find_text,
}
use fish.Env.{Env}
use fish.Errors.{ok}
use fish.Config.Models.{EntryData, FishConfig}
use fish.Config.Access.{free, ret, with_config}
use fish.Config.Keys.{validate_network_name, entry_key_of, set_key}
use fish.Config.Keys.Store.{stored, fresh_entry, set_key_overwrites}
use fish.Config.Keys.Listing.{
  count_prefix, count_keys, Listed, listed, with_line, lines_of, list_keys,
}
use fish.Utils.{normalize_nick}

count_prefix-insert :
    (prefix entry_key : Bytes) (entry : EntryData) (entries : List (Bytes × EntryData))
    → starts_with prefix entry_key ≡ false
    → count_prefix prefix (insert entry_key entry entries) ≡ count_prefix prefix entries
unfolding count_prefix insert
count_prefix-insert prefix entry_key entry [] h = ground (arith, h)
count_prefix-insert prefix entry_key entry ((k, v) ∷ entries) h =
    let later = count_prefix-insert prefix entry_key entry entries h in
    elim (Bool-cases (same_list k entry_key)) [
      | inl e ↦
          (let same = (same_list_iff k entry_key).0 e in
            rw (e, count_prefix) (rw (same, count_prefix) (rw (h) refl)))
      | inr e ↦ rw (e, count_prefix) (rw (later) refl)
    ]

-- What set_key writes for a nickname is not counted: the number of keys is the same before and after,
-- unless the name of the entry begins with "key_" or "channel_key_".
pub count_keys-set_key :
    (env : Env) (nickname key net : Bytes) (is_exchange : Bool) (config : FishConfig)
    → validate_network_name net ≡ ok tt
    → starts_with (codes "key_") (entry_key_of (normalize_nick nickname) net) ≡ false
    → starts_with (codes "channel_key_") (entry_key_of (normalize_nick nickname) net) ≡ false
    → (n : ℕ) × (config' : FishConfig) × (set_key env nickname key
          (some net)
          true
          is_exchange
          free
          config
        ≡ (ret tt, config'))
      × (count_keys free config ≡ (ret n, config))
      × (count_keys free config' ≡ (ret n, config'))
unfolding count_keys with_config
count_keys-set_key env nickname key net is_exchange config v a b =
    let entry_key = entry_key_of (normalize_nick nickname) net in
    let entry = fresh_entry env key is_exchange in
    let first = count_prefix-insert (codes "key_") entry_key entry config.entries a in
    let second = count_prefix-insert (codes "channel_key_") entry_key entry config.entries b in
    (
      count_prefix (codes "key_") config.entries
          + length config.channel_keys
          + count_prefix (codes "channel_key_") config.entries,
      stored env config (normalize_nick nickname) net key is_exchange,
      set_key_overwrites env nickname key net is_exchange config v,
      refl,
      rw (first, second) refl,
    )

abbrev pub has_at : Bytes → Bool
has_at [] = false
has_at (c ∷ s) = (c == b'@') || has_at s

find_at :
    (nick net : Bytes)
    → has_at nick ≡ false
    → find_text (codes "@") (entry_key_of nick net) ≡ some (nick, net)
unfolding find_text starts_with
find_at [] net h = refl
find_at (c ∷ nick) net h = ground (arith, h, find_at nick net)

-- A line for the nickname on the network.
abbrev pub lists : Bytes → Bytes → List Listed → Bool
lists nick net [] = false
lists nick net (line ∷ lines) =
    (same_list line.name nick && same_list line.network net) || lists nick net lines

same_self : (s : Bytes) → same_list s s ≡ true
same_self s = (same_list_iff s s).1 refl

lists-with_line :
    (nick net : Bytes) (line : Option Listed) (lines : List Listed)
    → lists nick net lines ≡ true
    → lists nick net (with_line line lines) ≡ true
lists-with_line nick net none lines h = h
lists-with_line nick net (some line) lines h = ground (arith, h)

fresh-listed :
    (env : Env) (nick key net : Bytes) (is_exchange : Bool)
    → has_at nick ≡ false
    → (length nick == 0) ≡ false
    → (length net == 0) ≡ false
    → (rest : List (Bytes × EntryData))
    → lists nick net (lines_of ((entry_key_of nick net, fresh_entry env key is_exchange) ∷ rest))
      ≡ true
unfolding lines_of listed
fresh-listed env nick key net is_exchange plain named netted rest =
    rw (find_at nick net plain, listed)
      (rw (named, netted, listed) (rw (same_self nick, same_self net) refl))

lists-insert :
    (nick net : Bytes) (entry : EntryData) (entries : List (Bytes × EntryData))
    → (listing : (rest : List (Bytes × EntryData))
        → lists nick net (lines_of ((entry_key_of nick net, entry) ∷ rest)) ≡ true)
    → lists nick net (lines_of (insert (entry_key_of nick net) entry entries)) ≡ true
unfolding insert lines_of
lists-insert nick net entry [] listing = listing []
lists-insert nick net entry ((k, v) ∷ entries) listing =
    let later = lists-insert nick net entry entries listing in
    elim (Bool-cases (same_list k (entry_key_of nick net))) [
      | inl e ↦ rw (e, lines_of) (listing entries)
      | inr e ↦
          rw (e, lines_of)
            (lists-with_line nick net (listed k v)
              (lines_of (insert (entry_key_of nick net) entry entries)) later)
    ]

-- A key that set_key stores for a nickname without '@', on a network with a name, is in the list of
-- keys.
pub list_keys-set_key :
    (env : Env) (nickname key net : Bytes) (is_exchange : Bool) (config : FishConfig)
    → validate_network_name net ≡ ok tt
    → has_at (normalize_nick nickname) ≡ false
    → (length (normalize_nick nickname) == 0) ≡ false
    → (length net == 0) ≡ false
    → (lines : List Listed) × (config' : FishConfig) × (set_key env nickname key
          (some net)
          true
          is_exchange
          free
          config
        ≡ (ret tt, config'))
      × (list_keys free config' ≡ (ret lines, config'))
      × (lists (normalize_nick nickname) net lines ≡ true)
unfolding list_keys with_config
list_keys-set_key env nickname key net is_exchange config v plain named netted =
    let nick = normalize_nick nickname in
    let entry = fresh_entry env key is_exchange in
    let config' = stored env config nick net key is_exchange in
    (
      lines_of config'.entries,
      config',
      set_key_overwrites env nickname key net is_exchange config v,
      refl,
      lists-insert nick net entry config.entries
          (fresh-listed env nick key net is_exchange plain named netted),
    )
