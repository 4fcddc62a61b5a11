-- ===== src/Master/Keystore/Counters.antt =====
-- fish_11_core/src/master_key/keystore.rs and rotation.rs: what holds after any calls.
use fish.Common.{
  ℕ, suc, ◌+◌, ◌-◌, ◌%◌, ◌^◌, ◌≡◌, refl, sym, ◌∙◌, ap, arith, inl, inr, Bool, true, false, List, [],
  ◌∷◌, none, some, Bytes, All, if◌then◌else◌, Bool-cases, Option-cases, leb, same_list,
  same_list_iff, list_eq, lookup, insert, lookup-insert,
}
use fish.Master.Keystore.{
  KeyMetadata, Keystore, with_salt, default_metadata, counter_of, get_nonce, metadata_of,
  set_metadata, increment_key_usage, revoke_key, is_key_revoked, age_limit, max_key_age_seconds,
  should_rotate_key,
}

-- The calls of `get_nonce` for a list of contexts.
unfoldable pub ask_all : List Bytes → Keystore → Keystore
unfolding get_nonce
ask_all [] keystore = keystore
ask_all (context ∷ contexts) keystore = ask_all contexts (get_nonce context keystore).1

abbrev pub times : Bytes → List Bytes → ℕ
times context [] = 0
times context (c ∷ cs) = if same_list c context then suc (times context cs) else times context cs

counter_of-get_nonce :
    (context other : Bytes) (keystore : Keystore)
    → counter_of other (get_nonce context keystore).1.nonce_counters ≡ (
        if same_list context other
        then (counter_of context keystore.nonce_counters + 1) % 2 ^ 64
        else counter_of other keystore.nonce_counters)
unfolding get_nonce
counter_of-get_nonce context other keystore =
    let counter = counter_of context keystore.nonce_counters in
    ap (λ o. elim o [ none ↦ 0 | some n ↦ n ])
      (lookup-insert context other ((counter + 1) % 2 ^ 64) keystore.nonce_counters)
    ∙ elim (Bool-cases (same_list context other)) [ inl e ↦ rw (e) refl | inr e ↦ rw (e) refl ]

step_mod : (a t : ℕ) → ((a + 1) % 2 ^ 64 + t) % 2 ^ 64 ≡ (a + suc t) % 2 ^ 64
step_mod a t = omega arith

-- Whatever other contexts are asked for in between, a context is given its counter plus the number of
-- calls for it so far, modulo 2^64.
pub get_nonce-ask_all :
    (contexts : List Bytes) (context : Bytes) (keystore : Keystore)
    → (get_nonce context (ask_all contexts keystore)).0 % 2 ^ 64
      ≡ (counter_of context keystore.nonce_counters + times context contexts) % 2 ^ 64
unfolding ask_all get_nonce
get_nonce-ask_all [] context keystore = omega arith
get_nonce-ask_all (c ∷ contexts) context keystore =
    let next = (get_nonce c keystore).1 in
    let t = times context contexts in
    let counter = λ (x : Bytes). counter_of x keystore.nonce_counters in
    let stepped = λ (b : Bool). if b then (counter c + 1) % 2 ^ 64 else counter context in
    let counted = λ (b : Bool). (counter context + (if b then suc t else t)) % 2 ^ 64 in
    let later = get_nonce-ask_all contexts context next in
    let now = counter_of-get_nonce c context keystore in
    later ∙ elim (Bool-cases (same_list c context)) [
      | inl e ↦
          let same : c ≡ context = ground (arith, e, same_list_iff c context) in
          ap (λ n. (n + t) % 2 ^ 64) (now ∙ ap stepped e ∙ ap (λ x. (counter x + 1) % 2 ^ 64) same)
          ∙ step_mod (counter context) t
          ∙ ap counted (sym e)
      | inr e ↦ ap (λ n. (n + t) % 2 ^ 64) (now ∙ ap stepped e) ∙ ap counted (sym e)
    ]

-- A use of a key at some time, or its revocation.
pub data KeyCall : Type 0 where
  used : Bytes → ℕ → KeyCall
  revoked : Bytes → ℕ → KeyCall

unfoldable pub call_all : List KeyCall → Keystore → Keystore
unfolding increment_key_usage revoke_key
call_all [] keystore = keystore
call_all (used key_id now ∷ calls) keystore =
    call_all calls (increment_key_usage key_id now keystore)
call_all (revoked key_id now ∷ calls) keystore = call_all calls (revoke_key key_id now keystore)

is_key_revoked-set_metadata :
    (j key_id : Bytes) (m : KeyMetadata) (keystore : Keystore)
    → is_key_revoked key_id (set_metadata j m keystore)
      ≡ (if same_list j key_id then m.is_revoked else is_key_revoked key_id keystore)
unfolding is_key_revoked
is_key_revoked-set_metadata j key_id m keystore =
    ap (λ o. elim o [ none ↦ false | some m ↦ m.is_revoked ])
      (lookup-insert j key_id m keystore.key_metadata)
    ∙ elim (Bool-cases (same_list j key_id)) [ inl e ↦ rw (e) refl | inr e ↦ rw (e) refl ]

metadata_of-is_revoked :
    (key_id : Bytes) (now : ℕ) (keystore : Keystore)
    → is_key_revoked key_id keystore ≡ true
    → (metadata_of key_id now keystore).is_revoked ≡ true
unfolding is_key_revoked
metadata_of-is_revoked key_id now keystore h =
    elim (Option-cases (lookup key_id keystore.key_metadata)) [
      | inl e ↦ ground (arith, h, e)
      | inr (m, e) ↦ ground (arith, h, e)
    ]

still_revoked_used :
    (j key_id : Bytes) (now : ℕ) (keystore : Keystore)
    → is_key_revoked key_id keystore ≡ true
    → is_key_revoked key_id (increment_key_usage j now keystore) ≡ true
unfolding increment_key_usage
still_revoked_used j key_id now keystore h =
    is_key_revoked-set_metadata j key_id _ keystore ∙ elim (Bool-cases (same_list j key_id)) [
      | inl e ↦
          let same : j ≡ key_id = ground (arith, e, same_list_iff j key_id) in
          rw (e) (rw (same) (metadata_of-is_revoked key_id now keystore h))
      | inr e ↦ rw (e) h
    ]

still_revoked_revoked :
    (j key_id : Bytes) (now : ℕ) (keystore : Keystore)
    → is_key_revoked key_id keystore ≡ true
    → is_key_revoked key_id (revoke_key j now keystore) ≡ true
unfolding revoke_key
still_revoked_revoked j key_id now keystore h =
    is_key_revoked-set_metadata j key_id _ keystore
    ∙ elim (Bool-cases (same_list j key_id)) [ inl e ↦ rw (e) refl | inr e ↦ rw (e) h ]

-- A key that is revoked stays so, whatever keys are used or revoked after it.
pub is_key_revoked-call_all :
    (calls : List KeyCall) (key_id : Bytes) (keystore : Keystore)
    → is_key_revoked key_id keystore ≡ true
    → is_key_revoked key_id (call_all calls keystore) ≡ true
unfolding call_all
is_key_revoked-call_all [] key_id keystore h = h
is_key_revoked-call_all (used j now ∷ calls) key_id keystore h =
    is_key_revoked-call_all calls key_id (increment_key_usage j now keystore)
      (still_revoked_used j key_id now keystore h)
is_key_revoked-call_all (revoked j now ∷ calls) key_id keystore h =
    is_key_revoked-call_all calls key_id (revoke_key j now keystore)
      (still_revoked_revoked j key_id now keystore h)

-- No operation counts messages or bytes.
abbrev pub IsUncounted : KeyMetadata → Type 0
IsUncounted m = (m.message_count ≡ 0) × (m.data_size_bytes ≡ 0)

abbrev AllUncounted : Keystore → Type 0
AllUncounted keystore = All (λ entry. IsUncounted entry.1) keystore.key_metadata

All-insert :
    (key_id : Bytes) (m : KeyMetadata) (entries : List (Bytes × KeyMetadata))
    → IsUncounted m
    → All (λ entry. IsUncounted entry.1) entries
    → All (λ entry. IsUncounted entry.1) (insert key_id m entries)
unfolding insert
All-insert key_id m [] now all = (now, tt)
All-insert key_id m ((j, old) ∷ entries) now all = elim (Bool-cases (same_list j key_id)) [
  | inl e ↦ rw (e) (now, all.1)
  | inr e ↦ rw (e) (all.0, All-insert key_id m entries now all.1)
]

entry-IsUncounted :
    (key_id : Bytes) (now : ℕ) (entries : List (Bytes × KeyMetadata))
    → All (λ entry. IsUncounted entry.1) entries
    → IsUncounted (elim (lookup key_id entries) [ none ↦ default_metadata now | some m ↦ m ])
unfolding lookup default_metadata
entry-IsUncounted key_id now [] all = (refl, refl)
entry-IsUncounted key_id now ((j, m) ∷ entries) all = elim (Bool-cases (same_list j key_id)) [
  | inl e ↦ rw (e) all.0
  | inr e ↦ rw (e) (entry-IsUncounted key_id now entries all.1)
]

call_all-AllUncounted :
    (calls : List KeyCall) (keystore : Keystore)
    → AllUncounted keystore
    → AllUncounted (call_all calls keystore)
unfolding call_all increment_key_usage revoke_key
call_all-AllUncounted [] keystore all = all
call_all-AllUncounted (used key_id now ∷ calls) keystore all =
    let m = entry-IsUncounted key_id now keystore.key_metadata all in
    call_all-AllUncounted calls (increment_key_usage key_id now keystore)
      (All-insert key_id _ keystore.key_metadata m all)
call_all-AllUncounted (revoked key_id now ∷ calls) keystore all =
    let m = entry-IsUncounted key_id now keystore.key_metadata all in
    call_all-AllUncounted calls (revoke_key key_id now keystore)
      (All-insert key_id _ keystore.key_metadata m all)

should_rotate_key_age :
    (now : ℕ) (m : KeyMetadata)
    → IsUncounted m
    → should_rotate_key now m
      ≡ (if leb max_key_age_seconds (now - m.created_at) then some age_limit else none)
unfolding should_rotate_key
should_rotate_key_age now m (messages, bytes) =
    let few : leb 1000000 m.message_count ≡ false = ground (arith, messages) in
    let small : leb 107374182400 m.data_size_bytes ≡ false = ground (arith, bytes) in
    rw (few) (rw (small) refl)

-- In a store that began empty, after any uses and revocations, a key is due for rotation exactly when
-- it is 90 days old: no call counts the messages or the bytes that the other two limits are about.
pub should_rotate_key-call_all :
    (calls : List KeyCall) (salt key_id : Bytes) (now : ℕ)
    → let m = metadata_of key_id now (call_all calls (with_salt salt)) in
      should_rotate_key now m
      ≡ (if leb max_key_age_seconds (now - m.created_at) then some age_limit else none)
unfolding with_salt
should_rotate_key-call_all calls salt key_id now =
    let keystore = call_all calls (with_salt salt) in
    should_rotate_key_age now (metadata_of key_id now keystore) (
      entry-IsUncounted key_id now keystore.key_metadata
        (call_all-AllUncounted calls (with_salt salt) tt))
