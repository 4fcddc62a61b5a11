-- ===== src/Inject/SslMapping/Repair.antt =====
-- fish_11_inject/src/ssl_mapping.rs: what check_and_repair_consistency does with orphans, and how they
-- come about.
use fish.Common.{
  ℕ, ◌==◌, ◌≡◌, ◌≢◌, refl, ◌∙◌, ap, arith, inl, inr, Bool-cases, Bool, true, false, ◌&&◌, List, [],
  ◌∷◌, none, some, if◌then◌else◌, length, lookup, insert, remove, contains_key, nat_eq,
  lookup-insert, lookup-remove, lookup-insert_self, lookup-remove_self, suc, ==_iff,
}
use fish.Inject.SslMapping.{
  AddressMap, SslMappings, associate, get_socket, get_ssl, remove_ssl, remove_ssl_in, keys_of,
  remove_holding, repair_ssl, repair_sockets, check_and_repair_consistency,
}

-- Where the value of a key, if it has one, is a key of the other map.
unfoldable pub has_partner : ℕ → AddressMap → AddressMap → Bool
has_partner k m other = elim (lookup k m) [ none ↦ true | some v ↦ contains_key v other ]

-- The same of all keys in a list.
unfoldable pub have_partners : List ℕ → AddressMap → AddressMap → Bool
unfolding has_partner
have_partners [] m other = true
have_partners (k ∷ ks) m other = has_partner k m other && have_partners ks m other

-- No map has an orphan.
unfoldable pub is_covered : SslMappings → Bool
unfolding have_partners keys_of
is_covered m =
    have_partners (keys_of m.ssl_to_socket) m.ssl_to_socket m.socket_to_ssl
    && have_partners (keys_of m.socket_to_ssl) m.socket_to_ssl m.ssl_to_socket

repair_ssl_lem :
    (ks : List ℕ) (repaired : ℕ) (m : SslMappings)
    → repair_ssl ks repaired m
      ≡ (if have_partners ks m.ssl_to_socket m.socket_to_ssl then some (repaired, m) else none)
unfolding repair_ssl have_partners has_partner remove_holding
repair_ssl_lem [] repaired m = refl
repair_ssl_lem (k ∷ ks) repaired m = ground (arith, repair_ssl_lem ks repaired m)

repair_sockets_lem :
    (ks : List ℕ) (repaired : ℕ) (m : SslMappings)
    → repair_sockets ks repaired m
      ≡ (if have_partners ks m.socket_to_ssl m.ssl_to_socket then some (repaired, m) else none)
unfolding repair_sockets have_partners has_partner remove_holding
repair_sockets_lem [] repaired m = refl
repair_sockets_lem (k ∷ ks) repaired m = ground (arith, repair_sockets_lem ks repaired m)

covered-empty : (s t other : AddressMap) → length s ≡ 0 → have_partners (keys_of s) t other ≡ true
unfolding have_partners keys_of
covered-empty [] t other h = refl
covered-empty (x ∷ s) t other h = ground (arith, h)

-- The check never repairs anything: it reports no repair and changes nothing where every entry of one
-- map has its value as a key of the other, and waits for ever as soon as there is an orphan.
pub check_and_repair_consistency_lem :
    (m : SslMappings)
    → check_and_repair_consistency m ≡ (if is_covered m then some (0, m) else none)
unfolding check_and_repair_consistency is_covered
check_and_repair_consistency_lem m =
    let s = m.ssl_to_socket in
    let t = m.socket_to_ssl in
    ground (
      arith,
      repair_ssl_lem (keys_of s) 0 m,
      repair_sockets_lem (keys_of t) 0 m,
      covered-empty s s t,
      covered-empty t t s,
    )

have_partners-orphan :
    (s : AddressMap) (k v : ℕ) (m other : AddressMap)
    → contains_key k s ≡ true
    → lookup k m ≡ some v
    → lookup v other ≡ none
    → have_partners (keys_of s) m other ≡ false
unfolding have_partners has_partner keys_of contains_key lookup
have_partners-orphan [] k v m other within h absent = ground (arith, within)
have_partners-orphan ((j, w) ∷ s) k v m other within h absent = elim (Bool-cases (j == k)) [
  | inl e ↦
      let missing : has_partner k m other ≡ false = ground (arith, h, absent) in
      let first : has_partner j m other ≡ false =
        ap (λ i. has_partner i m other) ((==_iff j k).0 e) ∙ missing in
      ground (arith, first)
  | inr e ↦ ground (arith, e, within, have_partners-orphan s k v m other)
]

waits-orphan :
    (m : SslMappings) (k v : ℕ)
    → lookup k m.ssl_to_socket ≡ some v
    → lookup v m.socket_to_ssl ≡ none
    → check_and_repair_consistency m ≡ none
unfolding is_covered contains_key
waits-orphan m k v h absent =
    let s = m.ssl_to_socket in
    let within : contains_key k s ≡ true = rw (h) refl in
    let orphan = have_partners-orphan s k v s m.socket_to_ssl within h absent in
    check_and_repair_consistency_lem m
    ∙ ap
        (λ b.
          if b && have_partners (keys_of m.socket_to_ssl) m.socket_to_ssl s
          then some (0, m)
          else none)
        orphan

-- The maps after a socket was taken again by a new context and the old one was removed.
abbrev reused : ℕ → ℕ → ℕ → SslMappings → SslMappings
reused old new s m = record {
  ssl_to_socket = remove old (insert new s m.ssl_to_socket);
  socket_to_ssl = remove s (insert s new m.socket_to_ssl);
}

pub remove_ssl_in-mapped :
    (n ssl s : ℕ) (m : SslMappings)
    → lookup ssl m.ssl_to_socket ≡ some s
    → remove_ssl_in (suc n) ssl m ≡ (
      some s,
      record {
        ssl_to_socket = remove ssl m.ssl_to_socket;
        socket_to_ssl = remove s m.socket_to_ssl;
      },
    )
unfolding remove_ssl_in
remove_ssl_in-mapped n ssl s m h = ground (arith, h, ==_iff s s)

remove_ssl-associate :
    (old new s : ℕ) (m : SslMappings)
    → (old == 0) ≡ false
    → (new == 0) ≡ false
    → (new == old) ≡ false
    → get_socket old m ≡ some s
    → remove_ssl old (associate new s m) ≡ (some s, reused old new s m)
unfolding remove_ssl associate get_socket
remove_ssl-associate old new s m o n d h =
    let kept : lookup old (insert new s m.ssl_to_socket) ≡ some s =
      ground (arith, h, d, o, lookup-insert new old s m.ssl_to_socket) in
    let found =
      remove_ssl_in-mapped 2 old s
        (record {
          ssl_to_socket = insert new s m.ssl_to_socket;
          socket_to_ssl = insert s new m.socket_to_ssl;
        })
        kept in
    rw (o, n) found

-- A socket that is taken again before its old context is removed: removing the old context answers
-- with the socket and takes the entry of the new context with it, which is then an orphan, so that
-- the next check for consistency waits for ever.
pub remove_ssl_reused :
    (old new s : ℕ) (m : SslMappings)
    → old ≢ 0
    → new ≢ 0
    → old ≢ new
    → get_socket old m ≡ some s
    → let (removed, after) = remove_ssl old (associate new s m) in
      (removed ≡ some s)
      × (get_socket new after ≡ some s)
      × (get_ssl s after ≡ none)
      × (check_and_repair_consistency after ≡ none)
unfolding get_socket get_ssl
remove_ssl_reused old new s m o n d h =
    let olds : (old == 0) ≡ false = ground (arith, o) in
    let news : (new == 0) ≡ false = ground (arith, n) in
    let other : (new == old) ≡ false = ground (arith, d) in
    let t = insert new s m.ssl_to_socket in
    let u = insert s new m.socket_to_ssl in
    let after : remove_ssl old (associate new s m) ≡ (some s, reused old new s m) =
      remove_ssl-associate old new s m olds news other h in
    let mapped : lookup new (remove old t) ≡ some s =
      ground (arith, d, lookup-remove old new t, lookup-insert_self new s m.ssl_to_socket) in
    let absent : lookup s (remove s u) ≡ none = lookup-remove_self s u in
    rw (after)
      (refl, rw (news) mapped, absent, waits-orphan (reused old new s m) new s mapped absent)
