-- ===== src/Dll/Decrypt/Ratchet.antt =====
-- fish_11_dll/src/dll_interface/fish11_decryptmsg.rs: a channel that has only a ratchet.
use fish.Common.{
  ◌≤◌, ◌≡◌, ◌⊎◌, inl, inr, refl, arith, Bool, true, false, leb, List, [], ◌∷◌, Option, none, some,
  Bytes, length, take, lookup, list_eq, to_lowercase, Option-cases, le→leb,
}
use mathlib.Core.List.{reverse}
use fish.Env.{Env}
use fish.Errors.{ok, FishError, DllError, from_fish_error}
use fish.Config.Models.{Key, Nonce, RatchetState, NonceCache, contains, FishConfig}
use fish.Config.Access.{
  M, Outcome, free, writing, ret, fail, blocked, next, expect, ◌>>=◌, ◌>>◌, pure,
}
use fish.Config.Access.Counters.{increment_decryption_counter}
use fish.Config.Channels.{
  is_channel, manual_entry_key, get_channel_key, has_channel_key, check_nonce, add_nonce,
  with_ratchet_state_mut,
}
use fish.Crypto.Chacha.{decrypt_message}
use fish.Dll.Decrypt.{payload_of, try_keys, decrypt_with_ratchet, decrypt_ratchet, decrypt_msg}
use fish.Dll.Decrypt.Replay.{is_channel-to_lowercase, manual_missing}
use fish.Utils.{parse_input}

module _ (env : Env) (cfg : FishConfig) where
  -- Under the write lock a message is refused or the thread waits.
  decrypt_message_locked :
      (key e : Bytes) (ad : Option Bytes)
      → (decrypt_message env key e ad writing cfg ≡ (fail FishError.crypto_error, cfg))
        ⊎ (decrypt_message env key e ad writing cfg ≡ (blocked, cfg))
  unfolding decrypt_message increment_decryption_counter
  decrypt_message_locked key e ad = ground arith

  try_keys_locked :
      (target e : Bytes) (ks : List Key)
      → (try_keys env target e ks writing cfg ≡ (ret none, cfg))
        ⊎ (try_keys env target e ks writing cfg ≡ (blocked, cfg))
  unfolding try_keys
  try_keys_locked target e [] = inl refl
  try_keys_locked target e (k ∷ ks) = elim (decrypt_message_locked k e (some target)) [
    | inl refused ↦ rw (refused, try_keys) (try_keys_locked target e ks)
    | inr waits ↦ inr (rw (waits, try_keys) refl)
  ]

  decrypt_with_ratchet_locked :
      (target e : Bytes) (nonce : Nonce) (state : RatchetState)
      → (decrypt_with_ratchet env target e nonce state writing cfg ≡ (ret (none, state), cfg))
        ⊎ (decrypt_with_ratchet env target e nonce state writing cfg ≡ (blocked, cfg))
  unfolding decrypt_with_ratchet
  decrypt_with_ratchet_locked target e nonce state =
      elim (decrypt_message_locked state.current_key e (some target)) [
        | inl refused ↦ elim (try_keys_locked target e (reverse state.previous_keys)) [
          | inl nothing ↦
              inl (rw (refused, decrypt_with_ratchet) (rw (nothing, decrypt_with_ratchet) refl))
          | inr waits ↦
              inr (rw (refused, decrypt_with_ratchet) (rw (waits, decrypt_with_ratchet) refl))
        ]
        | inr waits ↦ inr (rw (waits, decrypt_with_ratchet) refl)
      ]

  -- A nonce that the channel's cache holds is refused before any key is tried.
  decrypt_ratchet_replayed :
      (target e : Bytes) {bytes : Bytes} {cache : NonceCache}
      → env.base64_decode e ≡ some bytes
      → 24 ≤ length bytes
      → lookup (to_lowercase target) cfg.channel_nonce_caches ≡ some cache
      → contains cache.recent_nonces (take 24 bytes) ≡ true
      → decrypt_ratchet env target e free cfg ≡ (fail DllError.replay_attack_detected, cfg)
  unfolding decrypt_ratchet check_nonce
  decrypt_ratchet_replayed target e d size c held =
      rw (d, decrypt_ratchet)
        (rw (le→leb 24 _ size, decrypt_ratchet)
          (rw (c, decrypt_ratchet) (rw (held, decrypt_ratchet) refl)))

  -- What the closure on the ratchet state can come to: an error, no text, or no end.
  ratchet_closed :
      (target e : Bytes) (nonce : Nonce)
      → let outcome =
          (with_ratchet_state_mut target (decrypt_with_ratchet env target e nonce) free cfg).0 in
        (outcome ≡ fail DllError.config_malformed) ⊎ (outcome ≡ ret none) ⊎ (outcome ≡ blocked)
  unfolding with_ratchet_state_mut from_fish_error
  ratchet_closed target e nonce =
      elim (Option-cases (lookup (to_lowercase target) cfg.channel_ratchet_states)) [
        | inl missing ↦ inl (rw (missing, with_ratchet_state_mut) refl)
        | inr (state, there) ↦ elim (decrypt_with_ratchet_locked target e nonce state) [
          | inl nothing ↦
              inr (
                inl
                  (rw (there, with_ratchet_state_mut) (rw (nothing, with_ratchet_state_mut) refl)))
          | inr waits ↦
              inr
                (inr (rw (there, with_ratchet_state_mut) (rw (waits, with_ratchet_state_mut) refl)))
        ]
      ]

abbrev pub returns : {E : Type 0} {A : Type 0} → Outcome E A → Bool
returns (ret a) = true
returns (fail e) = false
returns blocked = false

le-or-short : (s : Bytes) → (24 ≤ length s) ⊎ (leb 24 (length s) ≡ false)
le-or-short s = ground arith

-- After such an outcome nothing that needs the text is run.
needs_text :
    {A B : Type 0} (x : Outcome DllError (Option A) × FishConfig) (k : A → M DllError B)
    → (x.0 ≡ fail DllError.config_malformed) ⊎ (x.0 ≡ ret none) ⊎ (x.0 ≡ blocked)
    → returns (next x (λ a. (expect a DllError.decryption_failed >>= k) free)).0 ≡ false
needs_text (o, c) k h = elim h [
  | inl bad ↦ rw (bad) refl
  | inr (inl nothing) ↦ rw (nothing) refl
  | inr (inr waits) ↦ rw (waits) refl
]

module _ (env : Env) (cfg : FishConfig) (target e : Bytes) where
  refuses_unseen :
      (bytes : Bytes)
      → env.base64_decode e ≡ some bytes
      → 24 ≤ length bytes
      → check_nonce target (take 24 bytes) free cfg ≡ (ret false, cfg)
      → returns (decrypt_ratchet env target e free cfg).0 ≡ false
  unfolding decrypt_ratchet
  refuses_unseen bytes d size fresh =
      rw (d, decrypt_ratchet)
        (rw (le→leb 24 _ size, decrypt_ratchet)
          (rw (fresh, decrypt_ratchet)
            (needs_text _
              (λ x.
                add_nonce target (take 24 bytes)
                >> (increment_decryption_counter {E = DllError}
                    >> pure {E = DllError} {A = Bytes} x))
              (ratchet_closed env cfg target e (take 24 bytes)))))

  refuses_seen :
      (bytes : Bytes)
      → env.base64_decode e ≡ some bytes
      → 24 ≤ length bytes
      → check_nonce target (take 24 bytes) free cfg ≡ (ret true, cfg)
      → returns (decrypt_ratchet env target e free cfg).0 ≡ false
  unfolding decrypt_ratchet
  refuses_seen bytes d size seen =
      rw (d, decrypt_ratchet)
        (rw (le→leb 24 _ size, decrypt_ratchet) (rw (seen, decrypt_ratchet) refl))

  refuses_short :
      (bytes : Bytes)
      → env.base64_decode e ≡ some bytes
      → leb 24 (length bytes) ≡ false
      → returns (decrypt_ratchet env target e free cfg).0 ≡ false
  unfolding decrypt_ratchet
  refuses_short bytes d short = rw (d, decrypt_ratchet) (rw (short, decrypt_ratchet) refl)

  refuses_undecoded :
      env.base64_decode e ≡ none → returns (decrypt_ratchet env target e free cfg).0 ≡ false
  unfolding decrypt_ratchet
  refuses_undecoded d = rw (d, decrypt_ratchet) refl

  -- Whether the nonce is known can be told without a change.
  check_nonce-cases :
      (nonce : Nonce)
      → (check_nonce target nonce free cfg ≡ (ret true, cfg))
        ⊎ (check_nonce target nonce free cfg ≡ (ret false, cfg))
  unfolding check_nonce
  check_nonce-cases nonce = ground arith

  refuses_decoded :
      (bytes : Bytes)
      → env.base64_decode e ≡ some bytes
      → returns (decrypt_ratchet env target e free cfg).0 ≡ false
  refuses_decoded bytes d = elim (le-or-short bytes) [
    | inr short ↦ refuses_short bytes d short
    | inl size ↦ elim (check_nonce-cases (take 24 bytes)) [
      | inl seen ↦ refuses_seen bytes d size seen
      | inr fresh ↦ refuses_unseen bytes d size fresh
    ]
  ]

  pub decrypt_ratchet-returns : returns (decrypt_ratchet env target e free cfg).0 ≡ false
  decrypt_ratchet-returns = elim (Option-cases (env.base64_decode e)) [
    | inl undecoded ↦ refuses_undecoded undecoded
    | inr (bytes, d) ↦ refuses_decoded bytes d
  ]

module _ (env : Env) (target : Bytes) (cfg : FishConfig) (channel : is_channel target ≡ true)
    (no_manual : lookup (manual_entry_key (to_lowercase target)) cfg.entries ≡ none)
    (no_key : lookup (to_lowercase target) cfg.channel_keys ≡ none) where
  no_stored_key : get_channel_key target free cfg ≡ (fail FishError.key_not_found, cfg)
  unfolding get_channel_key
  no_stored_key =
      rw (is_channel-to_lowercase target channel, get_channel_key)
        (rw (no_key, get_channel_key) refl)

  pub has_no_key : has_channel_key env target free cfg ≡ (ret false, cfg)
  unfolding has_channel_key
  has_no_key =
      rw (manual_missing env target cfg channel no_manual, has_channel_key)
        (rw (no_stored_key, has_channel_key) refl)

  takes_ratchet :
      (input message : Bytes)
      → parse_input input ≡ ok (record { target = target; message = message })
      → decrypt_msg env input free cfg ≡ decrypt_ratchet env target (payload_of message) free cfg
  unfolding decrypt_msg
  takes_ratchet input message parsed =
      rw (parsed, decrypt_msg) (rw (channel, decrypt_msg) (rw (has_no_key, decrypt_msg) refl))

  -- On a channel without a stored key and without a key set by hand, where only the ratchet is left,
  -- no input makes the handler return a text: it fails or waits for ever for the lock that it holds.
  pub decrypt_msg_never_returns :
      (input message : Bytes)
      → parse_input input ≡ ok (record { target = target; message = message })
      → returns (decrypt_msg env input free cfg).0 ≡ false
  decrypt_msg_never_returns input message parsed =
      rw (takes_ratchet input message parsed) (decrypt_ratchet-returns env cfg target _)

  -- On a channel without a stored key and without a key set by hand, a message of at least 24
  -- bytes whose nonce the channel's cache holds is refused as a replay, and nothing changes.
  pub decrypt_msg_replayed :
      (input message : Bytes) {bytes : Bytes} {cache : NonceCache}
      → parse_input input ≡ ok (record { target = target; message = message })
      → env.base64_decode (payload_of message) ≡ some bytes
      → 24 ≤ length bytes
      → lookup (to_lowercase target) cfg.channel_nonce_caches ≡ some cache
      → contains cache.recent_nonces (take 24 bytes) ≡ true
      → decrypt_msg env input free cfg ≡ (fail DllError.replay_attack_detected, cfg)
  decrypt_msg_replayed input message parsed d size c held =
      rw (takes_ratchet input message parsed)
        (decrypt_ratchet_replayed env cfg target _ d size c held)
