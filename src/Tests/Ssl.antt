-- ===== src/Tests/Ssl.antt =====
-- The contexts of OpenSSL and their sockets, on examples.
use fish.Common.{ℕ, ◌≡◌, ◌↔◌, refl, [], ◌∷◌, none, some, lookup, contains_key, codes, true}
use fish.Inject.Engines.{new_engines}
use fish.Inject.SslHooks.{buffer, installed_ssl_write}
use fish.Inject.SslHooks.Write.{installed_ssl_write_lem}
use fish.Inject.SslMapping.{
  SslMappings, no_mappings, associate, get_socket, get_ssl, check_and_repair_consistency,
  contains_ssl, contains_socket,
}
use fish.Inject.SslMapping.Inverse.{start, associated, Mapped-inverse}
use fish.Inject.SslMapping.Repair.{check_and_repair_consistency_lem, is_covered}

abbrev one_mapping : SslMappings
one_mapping = associate 5 7 no_mappings

Mapped-inverse_example :
    ((ssl s : ℕ) → (get_socket ssl one_mapping ≡ some s) ↔ (get_ssl s one_mapping ≡ some ssl))
    × (check_and_repair_consistency one_mapping ≡ some (0, one_mapping))
unfolding lookup contains_ssl contains_socket contains_key
Mapped-inverse_example = Mapped-inverse one_mapping (associated 5 7 start refl refl)

-- A context whose socket has no entry.
abbrev orphaned : SslMappings
orphaned = record { ssl_to_socket = (5, 7) ∷ []; socket_to_ssl = [] }

check_and_repair_consistency_lem_example : check_and_repair_consistency orphaned ≡ none
unfolding is_covered lookup contains_key
check_and_repair_consistency_lem_example = check_and_repair_consistency_lem orphaned

installed_ssl_write_lem_example :
    installed_ssl_write 4 5
      (buffer (codes "PING"))
      (some true)
      new_engines
      (record { mappings = one_mapping; sockets = [] })
    ≡ none
installed_ssl_write_lem_example =
    installed_ssl_write_lem 3 5 (buffer (codes "PING")) (some true) new_engines
      (record { mappings = one_mapping; sockets = [] })
