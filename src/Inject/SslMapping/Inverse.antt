-- ===== src/Inject/SslMapping/Inverse.antt =====
-- fish_11_inject/src/ssl_mapping.rs: the two maps are inverse to each other while no pointer or socket
-- is taken twice.
use fish.Common.{
  ℕ, zero, suc, ◌==◌, ◌≡◌, ◌↔◌, refl, ◌∙◌, ap, arith, inl, inr, Bool-cases, true, false, List, [],
  ◌∷◌, none, some, if◌then◌else◌, lookup, remove, contains_key, nat_eq, lookup-insert,
  lookup-remove, ==_iff, Option-cases,
}
use fish.Inject.SslMapping.{
  AddressMap, SslMappings, no_mappings, associate, get_socket, get_ssl, remove_ssl, remove_ssl_in,
  remove_socket, remove_socket_in, contains_ssl, contains_socket, clear_mappings, keys_of,
  check_and_repair_consistency,
}
use fish.Inject.SslMapping.Repair.{
  remove_ssl_in-mapped, has_partner, have_partners, is_covered, check_and_repair_consistency_lem,
}

-- The mappings that come about while only pointers and sockets without a mapping are associated.
pub data Mapped : SslMappings → Type 0 where
  start : Mapped no_mappings
  associated :
      {m : SslMappings} (ssl s : ℕ)
      → Mapped m
      → contains_ssl ssl m ≡ false
      → contains_socket s m ≡ false
      → Mapped (associate ssl s m)
  ssl_removed : {m : SslMappings} (ssl : ℕ) → Mapped m → Mapped (remove_ssl ssl m).1
  socket_removed : {m : SslMappings} (s : ℕ) → Mapped m → Mapped (remove_socket s m).1
  cleared : {m : SslMappings} → Mapped m → Mapped (clear_mappings m)

-- A null pointer is never mapped, and the maps are inverse.
abbrev IsInverse : SslMappings → Type 0
IsInverse m =
    (lookup 0 m.ssl_to_socket ≡ none)
    × ((ssl s : ℕ) → (lookup ssl m.ssl_to_socket ≡ some s) ↔ (lookup s m.socket_to_ssl ≡ some ssl))

associate-IsInverse :
    (ssl s : ℕ) (m : SslMappings)
    → contains_ssl ssl m ≡ false
    → contains_socket s m ≡ false
    → IsInverse m
    → IsInverse (associate ssl s m)
unfolding associate contains_ssl contains_socket contains_key
associate-IsInverse ssl s m a b h = elim (Bool-cases (ssl == 0)) [
  | inl e ↦ rw (e) h
  | inr e ↦ rw (e) (
    ground (arith, e, h.0, lookup-insert ssl 0 s m.ssl_to_socket),
    λ x y. ground (
      arith,
      e,
      a,
      b,
      h.1 x y,
      lookup-insert ssl x s m.ssl_to_socket,
      lookup-insert s y ssl m.socket_to_ssl,
    ),
  )
]

-- The two maps without an entry and its counterpart.
abbrev without : ℕ → ℕ → SslMappings → SslMappings
without ssl s m = record {
  ssl_to_socket = remove ssl m.ssl_to_socket;
  socket_to_ssl = remove s m.socket_to_ssl;
}

without-IsInverse :
    (ssl s : ℕ) (m : SslMappings)
    → lookup ssl m.ssl_to_socket ≡ some s
    → IsInverse m
    → IsInverse (without ssl s m)
without-IsInverse ssl s m e h = (
  ground (arith, h.0, lookup-remove ssl 0 m.ssl_to_socket),
  λ x y. ground (
    arith,
    e,
    h.1 ssl s,
    h.1 x y,
    h.1 x s,
    h.1 ssl y,
    lookup-remove ssl x m.ssl_to_socket,
    lookup-remove s y m.socket_to_ssl,
  ),
)

remove_ssl_in-absent :
    (n ssl : ℕ) (m : SslMappings)
    → lookup ssl m.ssl_to_socket ≡ none
    → remove_ssl_in n ssl m ≡ (none, m)
unfolding remove_ssl_in
remove_ssl_in-absent zero ssl m h = refl
remove_ssl_in-absent (suc n) ssl m h = ground (arith, h)

remove_ssl-IsInverse : (ssl : ℕ) (m : SslMappings) → IsInverse m → IsInverse (remove_ssl ssl m).1
unfolding remove_ssl
remove_ssl-IsInverse ssl m h = elim (Bool-cases (ssl == 0)) [
  | inl e ↦ rw (e) h
  | inr e ↦ elim (Option-cases (lookup ssl m.ssl_to_socket)) [
    | inl absent ↦ rw (e, remove_ssl_in-absent 3 ssl m absent) h
    | inr (s, found) ↦
        rw (e, remove_ssl_in-mapped 2 ssl s m found) (without-IsInverse ssl s m found h)
  ]
]

remove_socket_in-absent :
    (n s : ℕ) (m : SslMappings)
    → lookup s m.socket_to_ssl ≡ none
    → remove_socket_in n s m ≡ (none, m)
unfolding remove_socket_in
remove_socket_in-absent zero s m h = refl
remove_socket_in-absent (suc n) s m h = ground (arith, h)

remove_socket_in-mapped :
    (n s ssl : ℕ) (m : SslMappings)
    → lookup s m.socket_to_ssl ≡ some ssl
    → remove_socket_in (suc n) s m ≡ (some ssl, without ssl s m)
unfolding remove_socket_in
remove_socket_in-mapped n s ssl m h = ground (arith, h)

remove_socket-IsInverse : (s : ℕ) (m : SslMappings) → IsInverse m → IsInverse (remove_socket s m).1
unfolding remove_socket
remove_socket-IsInverse s m h = elim (Option-cases (lookup s m.socket_to_ssl)) [
  | inl absent ↦ rw (remove_socket_in-absent 3 s m absent) h
  | inr (ssl, found) ↦
      rw (remove_socket_in-mapped 2 s ssl m found)
        (without-IsInverse ssl s m ((h.1 ssl s).1 found) h)
]

no_mappings-IsInverse : IsInverse no_mappings
unfolding lookup
no_mappings-IsInverse = (refl, λ x y. ground arith)

Mapped-IsInverse : (m : SslMappings) → Mapped m → IsInverse m
unfolding clear_mappings
Mapped-IsInverse m start = no_mappings-IsInverse
Mapped-IsInverse m (associated ssl s r a b) = associate-IsInverse ssl s _ a b (Mapped-IsInverse _ r)
Mapped-IsInverse m (ssl_removed ssl r) = remove_ssl-IsInverse ssl _ (Mapped-IsInverse _ r)
Mapped-IsInverse m (socket_removed s r) = remove_socket-IsInverse s _ (Mapped-IsInverse _ r)
Mapped-IsInverse m (cleared r) = no_mappings-IsInverse

has_partner-known :
    (k : ℕ) (m other : AddressMap)
    → ((v : ℕ) → lookup k m ≡ some v → lookup v other ≡ some k)
    → has_partner k m other ≡ true
unfolding has_partner contains_key
has_partner-known k m other h = elim (Option-cases (lookup k m)) [
  | inl absent ↦ ground (arith, absent)
  | inr (v, found) ↦ let back = h v found in ground (arith, found, back)
]

have_partners-all :
    (ks : List ℕ) (m other : AddressMap)
    → ((k : ℕ) → has_partner k m other ≡ true)
    → have_partners ks m other ≡ true
unfolding have_partners
have_partners-all [] m other h = refl
have_partners-all (k ∷ ks) m other h = ground (arith, h k, have_partners-all ks m other h)

-- While only pointers and sockets without a mapping are associated, whatever is removed in between,
-- the two maps are inverse to each other, and the check for consistency finds nothing to repair.
pub Mapped-inverse :
    (m : SslMappings)
    → Mapped m
    → ((ssl s : ℕ) → (get_socket ssl m ≡ some s) ↔ (get_ssl s m ≡ some ssl))
      × (check_and_repair_consistency m ≡ some (0, m))
unfolding get_socket get_ssl is_covered has_partner contains_key
Mapped-inverse m r =
    let h = Mapped-IsInverse m r in
    let s = m.ssl_to_socket in
    let t = m.socket_to_ssl in
    let left : (k : ℕ) → has_partner k s t ≡ true =
      λ k. has_partner-known k s t (λ v. (h.1 k v).0) in
    let right : (k : ℕ) → has_partner k t s ≡ true =
      λ k. has_partner-known k t s (λ v. (h.1 v k).1) in
    let covered : is_covered m ≡ true =
      ground
        (arith, have_partners-all (keys_of s) s t left, have_partners-all (keys_of t) t s right) in
    (
      λ x y. ground (arith, h.0, h.1 x y, ==_iff x 0),
      check_and_repair_consistency_lem m ∙ ap (λ b. if b then some (0, m) else none) covered,
    )
