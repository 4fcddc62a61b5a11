-- ===== src/Inject/SslMapping.antt =====
-- fish_11_inject/src/ssl_mapping.rs: the two maps between the contexts of OpenSSL, by their address,
-- and the sockets. One thread runs alone. A DashMap waits for its shard: a removal waits for ever while
-- the same thread holds a reference to an entry of the shard, as to the entry of the same key.
pub mod Inverse
pub mod Repair
use fish.Common.{
  ℕ, zero, suc, ◌+◌, ◌==◌, Bool, true, false, not, ◌&&◌, List, [], ◌∷◌, Option, none, some,
  if◌then◌else◌, length, lookup, insert, remove, contains_key, nat_eq,
}

abbrev pub AddressMap : Type 0
AddressMap = List (ℕ × ℕ)

pub record SslMappings : Type 0 where
  pub ssl_to_socket : AddressMap
  pub socket_to_ssl : AddressMap

abbrev pub no_mappings : SslMappings
no_mappings = record { ssl_to_socket = []; socket_to_ssl = [] }

unfoldable pub associate : ℕ → ℕ → SslMappings → SslMappings
associate ssl socket_id m = if ssl == 0 then m else record {
  ssl_to_socket = insert ssl socket_id m.ssl_to_socket;
  socket_to_ssl = insert socket_id ssl m.socket_to_ssl;
}

unfoldable pub get_socket : ℕ → SslMappings → Option ℕ
get_socket ssl m = if ssl == 0 then none else lookup ssl m.ssl_to_socket

unfoldable pub get_ssl : ℕ → SslMappings → Option ℕ
get_ssl socket_id m = lookup socket_id m.socket_to_ssl

abbrev max_retries : ℕ
max_retries = 3

-- The attempts that are left; each looks the entry up and then removes it.
unfoldable pub remove_ssl_in : ℕ → ℕ → SslMappings → Option ℕ × SslMappings
remove_ssl_in zero ssl m = (none, m)
remove_ssl_in (suc attempts) ssl m =
    let rest = remove_ssl_in attempts ssl m in
    elim (lookup ssl m.ssl_to_socket) [
      | none ↦ (none, m)
      | some socket_id ↦ elim (lookup ssl m.ssl_to_socket) [
        | none ↦ rest
        | some removed_socket_id ↦
            if not (removed_socket_id == socket_id)
            then (
              some removed_socket_id,
              record {
                ssl_to_socket = remove ssl m.ssl_to_socket;
                socket_to_ssl = remove removed_socket_id (remove socket_id m.socket_to_ssl);
              },
            )
            else (
              some socket_id,
              record {
                ssl_to_socket = remove ssl m.ssl_to_socket;
                socket_to_ssl = remove socket_id m.socket_to_ssl;
              },
            )
      ]
    ]

unfoldable pub remove_ssl : ℕ → SslMappings → Option ℕ × SslMappings
unfolding remove_ssl_in
remove_ssl ssl m = if ssl == 0 then (none, m) else remove_ssl_in max_retries ssl m

unfoldable pub remove_socket_in : ℕ → ℕ → SslMappings → Option ℕ × SslMappings
remove_socket_in zero socket_id m = (none, m)
remove_socket_in (suc attempts) socket_id m =
    let rest = remove_socket_in attempts socket_id m in
    elim (lookup socket_id m.socket_to_ssl) [
      | none ↦ (none, m)
      | some ssl_ptr ↦ elim (lookup socket_id m.socket_to_ssl) [
        | none ↦ rest
        | some ssl ↦ (
          some ssl,
          record {
            ssl_to_socket = remove ssl m.ssl_to_socket;
            socket_to_ssl = remove socket_id m.socket_to_ssl;
          },
        )
      ]
    ]

unfoldable pub remove_socket : ℕ → SslMappings → Option ℕ × SslMappings
unfolding remove_socket_in
remove_socket socket_id m = remove_socket_in max_retries socket_id m

unfoldable pub contains_ssl : ℕ → SslMappings → Bool
contains_ssl ssl m = if ssl == 0 then false else contains_key ssl m.ssl_to_socket

unfoldable pub contains_socket : ℕ → SslMappings → Bool
contains_socket socket_id m = contains_key socket_id m.socket_to_ssl

abbrev pub mapping_count : SslMappings → ℕ
mapping_count m = length m.ssl_to_socket

unfoldable pub clear_mappings : SslMappings → SslMappings
clear_mappings m = no_mappings

-- The keys of a map, in the order of the list.
unfoldable pub keys_of : AddressMap → List ℕ
keys_of [] = []
keys_of ((k, v) ∷ m) = k ∷ keys_of m

-- A removal while a reference to the entry of a key is held: none where it waits.
unfoldable pub remove_holding : ℕ → ℕ → AddressMap → Option AddressMap
remove_holding held k m = if held == k then none else some (remove k m)

-- The two loops, with the number of repairs so far: none where a removal waits.
unfoldable pub repair_ssl : List ℕ → ℕ → SslMappings → Option (ℕ × SslMappings)
unfolding remove_holding
repair_ssl [] repaired m = some (repaired, m)
repair_ssl (ssl_key ∷ ks) repaired m = elim (lookup ssl_key m.ssl_to_socket) [
  | none ↦ repair_ssl ks repaired m
  | some socket_id ↦ elim (contains_key socket_id m.socket_to_ssl) [
    | true ↦ repair_ssl ks repaired m
    | false ↦ elim (remove_holding ssl_key ssl_key m.ssl_to_socket) [
      | none ↦ none
      | some left ↦ repair_ssl ks (repaired + 1) (record m { ssl_to_socket = left })
    ]
  ]
]

unfoldable pub repair_sockets : List ℕ → ℕ → SslMappings → Option (ℕ × SslMappings)
unfolding remove_holding
repair_sockets [] repaired m = some (repaired, m)
repair_sockets (socket_id ∷ ks) repaired m = elim (lookup socket_id m.socket_to_ssl) [
  | none ↦ repair_sockets ks repaired m
  | some ssl_key ↦ elim (contains_key ssl_key m.ssl_to_socket) [
    | true ↦ repair_sockets ks repaired m
    | false ↦ elim (remove_holding socket_id socket_id m.socket_to_ssl) [
      | none ↦ none
      | some left ↦ repair_sockets ks (repaired + 1) (record m { socket_to_ssl = left })
    ]
  ]
]

unfoldable pub check_and_repair_consistency : SslMappings → Option (ℕ × SslMappings)
unfolding keys_of repair_ssl repair_sockets
check_and_repair_consistency m =
    if (length m.ssl_to_socket == 0) && (length m.socket_to_ssl == 0)
    then some (0, m)
    else elim (repair_ssl (keys_of m.ssl_to_socket) 0 m) [
      | none ↦ none
      | some (repaired, after) ↦ repair_sockets (keys_of after.socket_to_ssl) repaired after
    ]
