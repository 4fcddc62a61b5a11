-- ===== src/Config/Models/Nonces.antt =====
-- fish_11_dll/src/config/models.rs: how long the cache of nonces remembers one.
use fish.Common.{
  ℕ, ◌+◌, ◌-◌, ◌≤◌, ◌<◌, ◌≡◌, refl, arith, true, false, List, [], ◌∷◌, ◌++◌, length, tail,
  length-append, append_assoc, ◌==◌, if◌then◌else◌, Bool-cases, inl, inr, same_list_iff,
}
use fish.Config.Models.{Nonce, NonceCache, max_nonce_cache_size, contains, check_and_add}

-- A cache that has been offered each of the nonces in turn.
pub offer_all : NonceCache → List Nonce → NonceCache
unfolding check_and_add
offer_all cache [] = cache
offer_all cache (n ∷ ns) = offer_all (check_and_add cache n).1 ns

contains-middle : (a b : List Nonce) (n : Nonce) → contains (a ++ (n ∷ b)) n ≡ true
unfolding contains
contains-middle [] b n = ground (arith, same_list_iff n n)
contains-middle (x ∷ a) b n = ground (arith, contains-middle a b n)

-- The nonce stands in the cache with at most `behind` nonces behind it.
record Holds (n : Nonce) (behind : ℕ) (cache : NonceCache) : Type 0 where
  older : List Nonce
  newer : List Nonce
  splits : cache.recent_nonces ≡ older ++ (n ∷ newer)
  newer_few : length newer ≤ behind

abbrev evicted : List Nonce → List Nonce
evicted r = if length r == max_nonce_cache_size then tail r else r

Holds-evicted :
    (n m : Nonce) (older newer : List Nonce) (behind : ℕ)
    → length newer ≤ behind
    → behind < 99
    → Holds n (behind + 1) (record { recent_nonces = evicted (older ++ (n ∷ newer)) ++ (m ∷ []) })
Holds-evicted n m [] newer behind h few = record {
  older = [];
  newer = newer ++ (m ∷ []);
  splits = ground (arith, h, few);
  newer_few = omega (arith, length-append newer (m ∷ []));
}
Holds-evicted n m (x ∷ o) newer behind h few =
    elim (Bool-cases (length (x ∷ (o ++ (n ∷ newer))) == max_nonce_cache_size)) [
      | inl full ↦ rw full (record {
        older = o;
        newer = newer ++ (m ∷ []);
        splits = append_assoc o (n ∷ newer) (m ∷ []);
        newer_few = omega (arith, length-append newer (m ∷ []));
      })
      | inr room ↦ rw room (record {
        older = x ∷ o;
        newer = newer ++ (m ∷ []);
        splits = append_assoc (x ∷ o) (n ∷ newer) (m ∷ []);
        newer_few = omega (arith, length-append newer (m ∷ []));
      })
    ]

-- One more nonce pushes it back by one place at most.
check_and_add-Holds :
    (n m : Nonce) (behind : ℕ) (cache : NonceCache)
    → behind < 99
    → Holds n behind cache
    → Holds n (behind + 1) (check_and_add cache m).1
unfolding check_and_add
check_and_add-Holds n m behind cache few h = elim (Bool-cases (contains cache.recent_nonces m)) [
  | inl old ↦ rw old (record {
    older = h.older;
    newer = h.newer;
    splits = h.splits;
    newer_few = omega (arith, h.newer_few);
  })
  | inr new ↦ rw new (rw h.splits (Holds-evicted n m h.older h.newer behind h.newer_few few))
]

offer_all-Holds :
    (ns : List Nonce) (n : Nonce) (behind : ℕ) (cache : NonceCache)
    → behind + length ns < 100
    → Holds n behind cache
    → Holds n (behind + length ns) (offer_all cache ns)
unfolding offer_all
offer_all-Holds [] n behind cache few h = record {
  older = h.older;
  newer = h.newer;
  splits = h.splits;
  newer_few = omega (arith, h.newer_few);
}
offer_all-Holds (m ∷ ns) n behind cache few h =
    let step = check_and_add-Holds n m behind cache (omega arith) h in
    let later = offer_all-Holds ns n (behind + 1) (check_and_add cache m).1 (omega arith) step in
    record {
      older = later.older;
      newer = later.newer;
      splits = later.splits;
      newer_few = omega (arith, later.newer_few);
    }

check_and_add-Holds_self :
    (n : Nonce) (cache : NonceCache)
    → (check_and_add cache n).0 ≡ false
    → Holds n 0 (check_and_add cache n).1
unfolding check_and_add
check_and_add-Holds_self n cache fresh = elim (Bool-cases (contains cache.recent_nonces n)) [
  | inl old ↦ absurd (ground arith)
  | inr new ↦ rw new (record {
    older = evicted cache.recent_nonces;
    newer = [];
    splits = refl;
    newer_few = omega arith;
  })
]

Holds-contains :
    (n : Nonce) (behind : ℕ) (cache : NonceCache)
    → Holds n behind cache
    → contains cache.recent_nonces n ≡ true
Holds-contains n behind cache h = rw h.splits (contains-middle h.older h.newer n)

-- A nonce that a cache took as new is refused when it comes again, if fewer than 100 nonces were
-- offered in between.
pub check_and_add_replay :
    (n : Nonce) (cache : NonceCache) (between : List Nonce)
    → (check_and_add cache n).0 ≡ false
    → length between < 100
    → (check_and_add (offer_all (check_and_add cache n).1 between) n).0 ≡ true
check_and_add_replay n cache between fresh few =
    let held =
      offer_all-Holds between n 0 (check_and_add cache n).1 (omega arith)
        (check_and_add-Holds_self n cache fresh) in
    unfold check_and_add in
    rw (Holds-contains n (0 + length between) (offer_all (check_and_add cache n).1 between) held)
      refl

length-tail : (xs : List Nonce) → length (tail xs) ≡ length xs - 1
length-tail [] = omega arith
length-tail (x ∷ xs) = omega arith

length-evicted :
    (n : Nonce) (r : List Nonce) → length r ≤ 100 → length (evicted r ++ (n ∷ [])) ≤ 100
length-evicted n r h =
    ground (arith, length-append (tail r) (n ∷ []), length-append r (n ∷ []), length-tail r)

-- A cache of at most 100 nonces holds at most 100 after any nonce is offered.
pub length-check_and_add :
    (n : Nonce) (cache : NonceCache)
    → length cache.recent_nonces ≤ 100
    → length (check_and_add cache n).1.recent_nonces ≤ 100
unfolding check_and_add
length-check_and_add n cache h = elim (Bool-cases (contains cache.recent_nonces n)) [
  | inl old ↦ rw old h
  | inr new ↦ rw new (length-evicted n cache.recent_nonces h)
]
