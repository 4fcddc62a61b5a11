-- ===== src/Master/Encryption/NonceOrder.antt =====
-- fish_11_core/src/master_key/encryption.rs: a nonce is not given twice.
use fish.Common.{
  ℕ, zero, suc, ◌+◌, ◌-◌, ◌%◌, ◌^◌, ◌<◌, ◌≤◌, ◌≡◌, refl, arith, Bool, true, false, List, [], ◌∷◌,
  Bytes, if◌then◌else◌, ltb, ap, ◌∙◌, insert, list_eq, lookup-insert_self,
}
use fish.Errors.{Result, ok, err}
use fish.Master.Encryption.{
  MasterError, NonceManager, get_counter, set_counter, used_of, is_used, keep_above, with_nonce,
  nonce_of, step_of, get_next_nonce,
}

-- No nonce above the counter.
abbrev pub all_below_counter : ℕ → List ℕ → Bool
all_below_counter counter [] = true
all_below_counter counter (n ∷ ns) = if ltb counter n then false else all_below_counter counter ns

all_below_counter_weaken :
    (c d : ℕ) (ns : List ℕ) → c ≤ d → all_below_counter c ns ≡ true → all_below_counter d ns ≡ true
all_below_counter_weaken c d [] le h = refl
all_below_counter_weaken c d (n ∷ ns) le h = ground (arith, all_below_counter_weaken c d ns)

keep_above-below :
    (least c : ℕ) (ns : List ℕ)
    → all_below_counter c ns ≡ true
    → all_below_counter c (keep_above least ns) ≡ true
unfolding keep_above
keep_above-below least c [] h = refl
keep_above-below least c (n ∷ ns) h = ground (arith, keep_above-below least c ns)

unused_above :
    (c d : ℕ) (ns : List ℕ) → c < d → all_below_counter c ns ≡ true → is_used d ns ≡ false
unfolding is_used
unused_above c d [] lt h = refl
unused_above c d (n ∷ ns) lt h = ground (arith, unused_above c d ns)

with_nonce-below :
    (counter : ℕ) (used : List ℕ)
    → all_below_counter counter used ≡ true
    → all_below_counter counter (with_nonce counter used) ≡ true
unfolding with_nonce
with_nonce-below counter used h =
    grind (arith, keep_above-below ((counter + 2 ^ 64 - 10000) % 2 ^ 64) counter (counter ∷ used))

counter_of_stored :
    (key_id : Bytes) (counter : ℕ) (manager : NonceManager) (nonces : List (Bytes × List ℕ))
    → get_counter key_id
        (record { counters = insert key_id counter manager.counters; used_nonces = nonces })
      ≡ counter
unfolding get_counter
counter_of_stored key_id counter manager nonces =
    rw (lookup-insert_self key_id counter manager.counters, get_counter) refl

used_of_stored :
    (key_id : Bytes) (counter : ℕ) (used : List ℕ) (manager : NonceManager)
    → all_below_counter counter used ≡ true
    → all_below_counter counter (
        used_of key_id (record {
          counters = insert key_id counter manager.counters;
          used_nonces = insert key_id (with_nonce counter used) manager.used_nonces;
        }))
      ≡ true
unfolding used_of
used_of_stored key_id counter used manager h =
    rw (lookup-insert_self key_id (with_nonce counter used) manager.used_nonces, used_of)
      (with_nonce-below counter used h)

next_of_unused :
    (key_id : Bytes) (counter : ℕ) (manager : NonceManager)
    → (get_counter key_id manager + 1) % 2 ^ 64 ≡ counter
    → is_used counter (used_of key_id manager) ≡ false
    → get_next_nonce key_id manager ≡ (
      ok (nonce_of counter, counter),
      record {
        counters = insert key_id counter manager.counters;
        used_nonces =
            insert key_id (with_nonce counter (used_of key_id manager)) manager.used_nonces;
      },
    )
unfolding get_next_nonce
next_of_unused key_id counter manager next unused =
    ap (step_of key_id manager) next ∙ rw (unused, step_of) refl

-- While the counter has room, and no used nonce lies above it, the next nonce is given, its counter
-- is one more than before, and again no used nonce lies above the counter.
pub get_next_nonce_fresh :
    (key_id : Bytes) (manager : NonceManager)
    → get_counter key_id manager + 1 < 2 ^ 64
    → all_below_counter (get_counter key_id manager) (used_of key_id manager) ≡ true
    → let counter = get_counter key_id manager + 1 in
      ((get_next_nonce key_id manager).0 ≡ ok (nonce_of counter, counter))
      × (get_counter key_id (get_next_nonce key_id manager).1 ≡ counter)
      × (all_below_counter counter (used_of key_id (get_next_nonce key_id manager).1) ≡ true)
get_next_nonce_fresh key_id manager room below =
    let counter = get_counter key_id manager + 1 in
    let used = used_of key_id manager in
    let exact : counter % 2 ^ 64 ≡ counter = omega arith in
    let unused = unused_above (get_counter key_id manager) counter used (omega arith) below in
    let next = next_of_unused key_id counter manager exact unused in
    (
      ap (λ r. r.0) next,
      rw (next) (counter_of_stored key_id counter manager _),
      rw (next) (
          used_of_stored key_id counter used manager
            (all_below_counter_weaken _ counter used (omega arith) below)),
    )

-- A counter that is set back to before a nonce that is remembered as used is refused there, and that
-- nonce is not given again.
pub get_next_nonce-set_counter :
    (key_id : Bytes) (counter : ℕ) (manager : NonceManager)
    → counter + 1 < 2 ^ 64
    → is_used (counter + 1) (used_of key_id manager) ≡ true
    → (get_next_nonce key_id (set_counter key_id counter manager)).0
      ≡ err MasterError.nonce_collision
unfolding get_next_nonce set_counter
get_next_nonce-set_counter key_id counter manager room used =
    let exact : (counter + 1) % 2 ^ 64 ≡ counter + 1 = omega arith in
    rw (counter_of_stored key_id counter manager manager.used_nonces, get_next_nonce)
      (rw (exact, get_next_nonce) (rw (used, get_next_nonce) refl))

-- The results of `n` calls for one key.
pub run : ℕ → Bytes → NonceManager → List (Result (Bytes × ℕ) MasterError)
run zero key_id manager = []
run (suc n) key_id manager =
    let (result, after) = get_next_nonce key_id manager in result ∷ run n key_id after

-- The `n` counters after `c`, each with its nonce.
abbrev pub counted : ℕ → ℕ → List (Result (Bytes × ℕ) MasterError)
counted zero c = []
counted (suc n) c = ok (nonce_of (c + 1), c + 1) ∷ counted n (c + 1)

-- While the counter has room for `n` more, and no used nonce lies above it, `n` calls for one key all
-- give a nonce, and the counters are the `n` that follow, so that none is given twice.
pub run-counted :
    (n : ℕ) (key_id : Bytes) (manager : NonceManager)
    → get_counter key_id manager + n < 2 ^ 64
    → all_below_counter (get_counter key_id manager) (used_of key_id manager) ≡ true
    → run n key_id manager ≡ counted n (get_counter key_id manager)
unfolding run
run-counted zero key_id manager room below = refl
run-counted (suc n) key_id manager room below =
    let (given, moved, kept) = get_next_nonce_fresh key_id manager (omega arith) below in
    let after = (get_next_nonce key_id manager).1 in
    let rest = run-counted n key_id after (omega (arith, moved)) (rw (moved) kept) in
    rw (given) (
      ap (λ l. ok (nonce_of (get_counter key_id manager + 1), get_counter key_id manager + 1) ∷ l)
        (rest ∙ ap (counted n) moved))
