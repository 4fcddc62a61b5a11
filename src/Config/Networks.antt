-- ===== src/Config/Networks.antt =====
-- fish_11_dll/src/config/networks.rs and topics.rs: the network of each nickname, and the topics. A
-- HashMap's order is unspecified; it is that of the list here.
pub mod Rename
pub mod Lost
use fish.Common.{
  ℕ, zero, suc, Bool, true, false, List, [], ◌∷◌, Option, none, some, Bytes, if◌then◌else◌, is_some,
  lookup, insert, remove, contains_key, same_list, list_eq, length, to_lowercase,
}
use fish.Errors.{Result, ok, err, FishError}
use fish.Config.Models.{FishConfig, contains}
use fish.Config.Access.{M, ret, fail, with_config, with_config_mut}

abbrev pub Mappings : Type 0
Mappings = List (Bytes × Bytes)

unfoldable pub get_network_for_nick : Bytes → M FishError (Option Bytes)
unfolding with_config
get_network_for_nick nickname = with_config (λ config. ok (lookup nickname config.nick_networks))

unfoldable pub remove_network_for_nick : Bytes → M FishError (Unit {0})
unfolding with_config_mut
remove_network_for_nick nickname =
    with_config_mut
      (λ _ config. (ret tt, record config { nick_networks = remove nickname config.nick_networks }))

-- `values()`, and what a HashSet keeps of a list.
unfoldable pub values : Mappings → List Bytes
values [] = []
values ((nickname, network) ∷ m) = network ∷ values m

unfoldable pub distinct : List Bytes → List Bytes
unfolding contains
distinct [] = []
distinct (x ∷ xs) = let rest = distinct xs in if contains xs x then rest else x ∷ rest

unfoldable pub get_all_networks : M FishError (List Bytes)
unfolding with_config values distinct
get_all_networks = with_config (λ config. ok (distinct (values config.nick_networks)))

-- The nicknames with a network, `filter` and `map`.
unfoldable pub nicknames_of : Bytes → Mappings → List Bytes
nicknames_of network [] = []
nicknames_of network ((nickname, v) ∷ m) =
    let rest = nicknames_of network m in if same_list v network then nickname ∷ rest else rest

unfoldable pub get_nicknames_by_network : Bytes → M FishError (List Bytes)
unfolding with_config nicknames_of
get_nicknames_by_network network =
    with_config (λ config. ok (nicknames_of network config.nick_networks))

unfoldable pub clear_all_network_mappings : M FishError (Unit {0})
unfolding with_config_mut
clear_all_network_mappings =
    with_config_mut (λ _ config. (ret tt, record config { nick_networks = [] }))

unfoldable pub has_network : Bytes → M FishError Bool
unfolding with_config
has_network nickname = with_config (λ config. ok (contains_key nickname config.nick_networks))

unfoldable pub count_network_mappings : M FishError ℕ
unfolding with_config
count_network_mappings = with_config (λ config. ok (length config.nick_networks))

unfoldable pub count_unique_networks : M FishError ℕ
unfolding with_config values distinct
count_unique_networks = with_config (λ config. ok (length (distinct (values config.nick_networks))))

-- `iter_mut` over the values, with the count.
unfoldable pub rename_all : Bytes → Bytes → Mappings → ℕ × Mappings
rename_all old_name new_name [] = (0, [])
rename_all old_name new_name ((nickname, network) ∷ m) =
    let (count, rest) = rename_all old_name new_name m in
    if same_list network old_name
    then (suc count, (nickname, new_name) ∷ rest)
    else (count, (nickname, network) ∷ rest)

unfoldable pub rename_network : Bytes → Bytes → M FishError ℕ
unfolding with_config_mut rename_all
rename_network old_name new_name = with_config_mut (λ _ config.
    (let (count, mappings) = rename_all old_name new_name config.nick_networks in
      (ret count, record config { nick_networks = mappings })))

unfoldable pub remove_all : List Bytes → Mappings → Mappings
remove_all [] m = m
remove_all (nickname ∷ ns) m = remove_all ns (remove nickname m)

unfoldable pub delete_network : Bytes → M FishError ℕ
unfolding with_config_mut nicknames_of remove_all
delete_network network = with_config_mut (λ _ config.
    (let nicknames_to_remove = nicknames_of network config.nick_networks in
      (
        ret (length nicknames_to_remove),
        record config { nick_networks = remove_all nicknames_to_remove config.nick_networks },
      )))

unfoldable pub insert_all : List Bytes → Bytes → Mappings → Mappings
insert_all [] network m = m
insert_all (nickname ∷ ns) network m = insert_all ns network (insert nickname network m)

unfoldable pub merge_networks : Bytes → Bytes → M FishError ℕ
unfolding with_config_mut nicknames_of insert_all
merge_networks source_network destination_network = with_config_mut (λ _ config.
    (let nicknames_to_update = nicknames_of source_network config.nick_networks in
      (
        ret (length nicknames_to_update),
        record config {
          nick_networks = insert_all nicknames_to_update destination_network config.nick_networks;
        },
      )))

abbrev is_empty_text : Bytes → Bool
is_empty_text [] = true
is_empty_text (c ∷ s) = false

-- The topics work on a configuration that the caller holds.
unfoldable pub set_topic : Bytes → Bytes → FishConfig → Result FishConfig FishError
set_topic channel topic config =
    if is_empty_text channel
    then err FishError.invalid_input
    else if is_empty_text topic
    then err FishError.invalid_input
    else ok (record config { topics = insert (to_lowercase channel) topic config.topics })

unfoldable pub get_topic : FishConfig → Bytes → Result (Option Bytes) FishError
get_topic config channel =
    if is_empty_text channel
    then err FishError.invalid_input
    else ok (lookup (to_lowercase channel) config.topics)

unfoldable pub remove_topic : Bytes → FishConfig → Result (Bool × FishConfig) FishError
remove_topic channel config =
    if is_empty_text channel
    then err FishError.invalid_input
    else ok (
      contains_key (to_lowercase channel) config.topics,
      record config { topics = remove (to_lowercase channel) config.topics },
    )

unfoldable pub list_topics : FishConfig → Result Mappings FishError
list_topics config = ok config.topics

unfoldable pub get_all_network_mappings : M FishError Mappings
unfolding with_config
get_all_network_mappings = with_config (λ config. ok config.nick_networks)
