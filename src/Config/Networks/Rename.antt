-- ===== src/Config/Networks/Rename.antt =====
-- fish_11_dll/src/config/networks.rs: renaming, merging and deleting networks.
use fish.Common.{
  suc, ◌≡◌, refl, ◌∙◌, ap, arith, inl, inr, Bool, true, false, List, [], ◌∷◌, none, some, Bytes,
  if◌then◌else◌, Bool-cases, lookup, insert, remove, same_list, same_list_iff, list_eq, length,
  lookup-remove,
}
use fish.Config.Models.{FishConfig, contains}
use fish.Config.Access.{Lock, free, reading, writing, ret, with_config_mut}
use fish.Config.Networks.{
  Mappings, nicknames_of, rename_all, rename_network, remove_all, delete_network, insert_all,
  merge_networks,
}

-- A HashMap has one entry for each key.
abbrev pub IsMap : Mappings → Type 0
IsMap [] = Unit
IsMap ((n, v) ∷ m) = (lookup n m ≡ none) × IsMap m

nicknames_of-absent :
    (network n : Bytes) (m : Mappings)
    → lookup n m ≡ none
    → contains (nicknames_of network m) n ≡ false
unfolding nicknames_of contains lookup
nicknames_of-absent network n [] h = refl
nicknames_of-absent network n ((k, v) ∷ m) h = ground (arith, h, nicknames_of-absent network n m)

insert_all_skip :
    (ns : List Bytes) (network n v : Bytes) (m : Mappings)
    → contains ns n ≡ false
    → insert_all ns network ((n, v) ∷ m) ≡ (n, v) ∷ insert_all ns network m
unfolding insert_all contains insert
insert_all_skip [] network n v m h = refl
insert_all_skip (k ∷ ns) network n v m h =
    let other : same_list n k ≡ false = ground (arith, h, same_list_iff n k, same_list_iff k n) in
    let later : contains ns n ≡ false = ground (arith, h) in
    rw (other) (insert_all_skip ns network n v (insert k network m) later)

insert_first : (n w v : Bytes) (m : Mappings) → insert n w ((n, v) ∷ m) ≡ (n, w) ∷ m
unfolding insert
insert_first n w v m =
    let self : same_list n n ≡ true = ground (arith, same_list_iff n n) in rw (self) refl

merge_all :
    (source destination : Bytes) (m : Mappings)
    → IsMap m
    → (length (nicknames_of source m), insert_all (nicknames_of source m) destination m)
      ≡ rename_all source destination m
unfolding nicknames_of insert_all rename_all
merge_all source destination [] h = refl
merge_all source destination ((n, v) ∷ m) h =
    let ns = nicknames_of source m in
    let absent = nicknames_of-absent source n m h.0 in
    elim (Bool-cases (same_list v source)) [
      | inl e ↦ rw (e) (
          ap (λ t. (suc (length ns), insert_all ns destination t)) (insert_first n destination v m)
          ∙ (ap (λ r. (suc (length ns), r)) (insert_all_skip ns destination n destination m absent)
              ∙ ap (λ r. (suc r.0, (n, destination) ∷ r.1)) (merge_all source destination m h.1)))
      | inr e ↦ rw (e) (
          ap (λ r. (length ns, r)) (insert_all_skip ns destination n v m absent)
          ∙ ap (λ r. (r.0, (n, v) ∷ r.1)) (merge_all source destination m h.1))
    ]

-- Merging does what renaming does: where each nickname has one network, both leave the same
-- configuration and return the same count, and both wait for a lock that the thread holds.
pub merge_networks-rename_network :
    (source destination : Bytes) (l : Lock) (config : FishConfig)
    → IsMap config.nick_networks
    → merge_networks source destination l config ≡ rename_network source destination l config
unfolding merge_networks rename_network with_config_mut
merge_networks-rename_network source destination free config h =
    ap (λ r. (ret r.0, record config { nick_networks = r.1 }))
      (merge_all source destination config.nick_networks h)
merge_networks-rename_network source destination reading config h = refl
merge_networks-rename_network source destination writing config h = refl

lookup-remove_all :
    (ns : List Bytes) (n : Bytes) (m : Mappings)
    → lookup n (remove_all ns m) ≡ (if contains ns n then none else lookup n m)
unfolding remove_all contains
lookup-remove_all [] n m = refl
lookup-remove_all (k ∷ ns) n m =
    ground (arith, lookup-remove_all ns n (remove k m), lookup-remove k n m)

-- Whether the network of a nickname is the given one.
abbrev pub is_on : Bytes → Bytes → Mappings → Bool
is_on network n m = elim (lookup n m) [ none ↦ false | some v ↦ same_list v network ]

contains-nicknames_of :
    (network n : Bytes) (m : Mappings)
    → IsMap m
    → contains (nicknames_of network m) n ≡ is_on network n m
unfolding nicknames_of contains lookup
contains-nicknames_of network n [] h = refl
contains-nicknames_of network n ((k, v) ∷ m) h = ground (
  arith,
  h,
  contains-nicknames_of network n m,
  nicknames_of-absent network n m,
  same_list_iff k n,
  nicknames_of-absent network k m h.0,
)

-- Where each nickname has one network, deleting a network leaves exactly the nicknames of the others,
-- with the networks that they had, and returns how many it removed.
pub delete_network_lem :
    (network : Bytes) (config : FishConfig)
    → IsMap config.nick_networks
    → let (result, after) = delete_network network free config in
      ((n : Bytes)
        → lookup n after.nick_networks
          ≡ (if is_on network n config.nick_networks then none else lookup n config.nick_networks))
      × (result ≡ ret (length (nicknames_of network config.nick_networks)))
unfolding delete_network with_config_mut
delete_network_lem network config h = (
  λ n.
      lookup-remove_all (nicknames_of network config.nick_networks) n config.nick_networks
      ∙ ap (λ b. if b then none else lookup n config.nick_networks)
          (contains-nicknames_of network n config.nick_networks h),
  refl,
)
