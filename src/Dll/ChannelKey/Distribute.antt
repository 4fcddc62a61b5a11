-- ===== src/Dll/ChannelKey/Distribute.antt =====
-- fish_11_dll/src/channel_encryption/init_key.rs: what the coordinator hands out to the members.
use fish.Common.{
  ◌==◌, ◌≡◌, refl, sym, ◌∙◌, arith, true, false, not, Bool-cases, inl, inr, List, [], ◌∷◌, ◌++◌,
  none, Bytes, length, same_list, All, All-append, subst,
}
use fish.Env.{Env}
use fish.Errors.{ok, err, FishError, DllError, Result-cases}
use fish.Config.Models.{Key, Nonce, FishConfig}
use fish.Config.Access.{M, Outcome, ◌>>◌, next, free, ret, fail, blocked, require, pure}
use fish.Config.Keys.{get_key, get_key_internal}
use fish.Crypto.Chacha.{wrap_key}
use fish.Dll.ChannelKey.{Handout, hand_out}

module _ (env : Env) (channel_key : Key) (self_nick : Bytes) (cfg : FishConfig) where
  -- A member and the channel key, wrapped under the key shared with the member.
  pub record IsOffer (offer : Bytes × Bytes) : Type 0 where
    pub shared_key : Key
    pub shared : get_key_internal env cfg offer.0 none ≡ ok shared_key
    pub shared_size : length shared_key ≡ 32
    pub nonce : Nonce
    pub nonce_size : length nonce ≡ 24
    pub wrapped : wrap_key env nonce channel_key shared_key ≡ ok offer.1

  module _ (member : Bytes) (nonce : Nonce) (members : List (Bytes × Nonce))
      (collected : Handout) where
    abbrev run : List (Bytes × Nonce) → Handout → Outcome DllError Handout × FishConfig
    run ms c = hand_out env channel_key self_nick ms c free cfg

    abbrev with_failed : Handout
    with_failed = record {
      commands = collected.commands;
      failed_members = collected.failed_members ++ (member ∷ []);
    }

    abbrev with_offer : Bytes → Handout
    with_offer wrapped_key = record {
      commands = collected.commands ++ ((member, wrapped_key) ∷ []);
      failed_members = collected.failed_members;
    }

    hand_out_self :
        same_list member self_nick ≡ true
        → run ((member, nonce) ∷ members) collected ≡ run members collected
    unfolding hand_out
    hand_out_self e = rw (e, hand_out) refl

    hand_out_failed :
        (e : FishError)
        → same_list member self_nick ≡ false
        → get_key_internal env cfg member none ≡ err e
        → run ((member, nonce) ∷ members) collected ≡ run members with_failed
    unfolding hand_out get_key
    hand_out_failed e other missing = rw (other, hand_out) (rw (missing, hand_out) refl)

    hand_out_offered :
        (shared_key : Key) (wrapped_key : Bytes)
        → same_list member self_nick ≡ false
        → get_key_internal env cfg member none ≡ ok shared_key
        → length shared_key ≡ 32
        → wrap_key env nonce channel_key shared_key ≡ ok wrapped_key
        → run ((member, nonce) ∷ members) collected ≡ run members (with_offer wrapped_key)
    unfolding hand_out get_key
    hand_out_offered shared_key wrapped_key other shared size wrapped =
        rw (other, hand_out)
          (rw (shared, hand_out) (rw (size, hand_out) (rw (wrapped, hand_out) refl)))

  -- The ways in which the loop gives up.
  hand_out_size :
      (member : Bytes) (nonce : Nonce) (members : List (Bytes × Nonce)) (collected h : Handout)
      (shared_key : Key) (cfg' : FishConfig)
      → same_list member self_nick ≡ false
      → get_key_internal env cfg member none ≡ ok shared_key
      → hand_out env channel_key self_nick ((member, nonce) ∷ members) collected free cfg
        ≡ (ret h, cfg')
      → (length shared_key ≡ 32)
        × ((wrapped_key : Bytes) × (wrap_key env nonce channel_key shared_key ≡ ok wrapped_key))
  unfolding hand_out get_key
  hand_out_size member nonce members collected h shared_key cfg' other shared gave =
      ground (arith, other, shared, gave)

  -- Every wrapped key that the loop over the members collects is an offer, and the loop changes
  -- nothing.
  pub hand_out-IsOffer :
      (members : List (Bytes × Nonce)) (collected h : Handout) (cfg' : FishConfig)
      → All (λ m. length m.1 ≡ 24) members
      → All IsOffer collected.commands
      → hand_out env channel_key self_nick members collected free cfg ≡ (ret h, cfg')
      → All IsOffer h.commands × (cfg' ≡ cfg)
  unfolding hand_out
  hand_out-IsOffer [] collected h cfg' sizes offers gave =
      let same : collected ≡ h = ground (arith, gave) in
      (subst (λ x. All IsOffer x.commands) same offers, ground (arith, gave))
  hand_out-IsOffer ((member, nonce) ∷ members) collected h cfg' (size, sizes) offers gave =
      elim (Bool-cases (same_list member self_nick)) [
        | inl own ↦
            hand_out-IsOffer members collected h cfg' sizes offers
              (sym (hand_out_self member nonce members collected own) ∙ gave)
        | inr other ↦ elim (Result-cases (get_key_internal env cfg member none)) [
          | inr (e, missing) ↦
              hand_out-IsOffer members (with_failed member nonce members collected) h cfg' sizes
                offers (sym (hand_out_failed member nonce members collected e other missing) ∙ gave)
          | inl (shared_key, shared) ↦
              let (shared_size, (wrapped_key, wrapped)) =
                hand_out_size member nonce members collected h shared_key cfg' other shared gave in
              let offer : IsOffer (member, wrapped_key) = record {
                shared_key = shared_key;
                shared = shared;
                shared_size = shared_size;
                nonce = nonce;
                nonce_size = size;
                wrapped = wrapped;
              } in
              hand_out-IsOffer members (with_offer member nonce members collected wrapped_key) h
                cfg' sizes
                (All-append IsOffer collected.commands ((member, wrapped_key) ∷ []) offers
                  (offer, tt))
                (sym (
                    hand_out_offered member nonce members collected shared_key wrapped_key other
                      shared shared_size wrapped)
                  ∙ gave)
        ]
      ]

abbrev pub nothing : Handout
nothing = record { commands = []; failed_members = [] }

-- The last two checks.
abbrev pub close : Handout → M DllError (List (Bytes × Bytes))
close handout = do
  require (length handout.failed_members == 0) DllError.config_error
  require (not (length handout.commands == 0)) DllError.invalid_input
  pure handout.commands

pub close-ret :
    (r : Outcome DllError Handout × FishConfig) (commands : List (Bytes × Bytes))
    (cfg' : FishConfig)
    → next r (λ h. close h free) ≡ (ret commands, cfg')
    → (h : Handout) × (r ≡ (ret h, cfg')) × (h.commands ≡ commands)
close-ret (ret h, c) commands cfg' gave = (h, ground (arith, gave), ground (arith, gave))
close-ret (fail e, c) commands cfg' gave = absurd (ground (arith, gave))
close-ret (blocked, c) commands cfg' gave = absurd (ground (arith, gave))
