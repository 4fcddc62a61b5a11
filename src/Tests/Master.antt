-- ===== src/Tests/Master.antt =====
-- The master key's encryption, on examples.
use fish.Common.{◌≡◌, refl, arith, codes, lookup, list_eq, [], ◌∷◌, ◌+◌, ◌%◌, ◌^◌}
use fish.Master.Keystore.{get_nonce, counter_of, with_salt}
use fish.Master.Keystore.Counters.{ask_all, times, get_nonce-ask_all}
use fish.Master.Encryption.{new_manager, get_counter, used_of}
use fish.Master.Encryption.NonceOrder.{run, counted, run-counted}

run-counted_example : run 3 (codes "k") new_manager ≡ counted 3 0
unfolding new_manager get_counter used_of lookup
run-counted_example = run-counted 3 (codes "k") new_manager (omega arith) refl

get_nonce-ask_all_example :
    (get_nonce (codes "a") (ask_all (codes "a" ∷ codes "b" ∷ codes "a" ∷ []) (with_salt []))).0
      % 2 ^ 64
    ≡ (counter_of (codes "a") (with_salt []).nonce_counters
        + times (codes "a") (codes "a" ∷ codes "b" ∷ codes "a" ∷ []))
      % 2 ^ 64
get_nonce-ask_all_example =
    get_nonce-ask_all (codes "a" ∷ codes "b" ∷ codes "a" ∷ []) (codes "a") (with_salt [])
