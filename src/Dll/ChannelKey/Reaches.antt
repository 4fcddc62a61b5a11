-- ===== src/Dll/ChannelKey/Reaches.antt =====
-- fish_11_dll/src/channel_encryption/init_key.rs and process_key.rs together: a channel key from its
-- coordinator to a member.
use fish.Common.{
  ◌<◌, ◌≤◌, codes, trim, is_utf8, ◌≡◌, refl, sym, ◌∙◌, arith, true, List, ◌∷◌, ◌++◌, none, some,
  Bytes, length, All, to_lowercase, lookup, list_eq, lookup-insert_self, subst, ap, All-middle,
}
use fish.Env.{Env, IsEnv}
use fish.Errors.{ok}
use fish.Config.Models.{Key, Nonce, FishConfig}
use fish.Config.Access.{next, free, ret, with_config, with_config_mut}
use fish.Config.Channels.{manual_entry_key, valid_channel, set_channel_key, init_ratchet_state}
use fish.Config.Channels.Names.{is_channel-original}
use fish.Config.Keys.{get_key_internal}
use fish.Config.Keys.Frame.{get_key_internal-with_channels}
use fish.Dll.Decrypt.{decrypt_msg}
use fish.Dll.Encrypt.{encrypt_msg}
use fish.Dll.Encrypt.RoundTrip.{text_of, count_twice, encrypt_msg_channel, decrypt_msg-encrypt_msg}
use fish.Utils.{parse_input}
use fish.Dll.ChannelKey.{
  process_args, wrapped_key_only, process_channel_key, hand_out, init_channel_key,
}
use fish.Dll.ChannelKey.Process.{with_channel_key, process_wrapped}
use fish.Dll.ChannelKey.Distribute.{nothing, close, close-ret, IsOffer, hand_out-IsOffer}

module _ (env : Env) (channel_key : Key) (channel : Bytes) (members : List (Bytes × Nonce))
    (cfg cfg' : FishConfig) (commands : List (Bytes × Bytes)) where
  init_valid :
      init_channel_key env channel_key channel members free cfg ≡ (ret commands, cfg')
      → valid_channel (to_lowercase channel) ≡ true
  unfolding init_channel_key set_channel_key with_config
  init_valid gave = ground (arith, gave)

  init_handed_out :
      init_channel_key env channel_key channel members free cfg ≡ (ret commands, cfg')
      → next
          (hand_out env channel_key cfg.fish11.nickname members nothing free
            (with_channel_key env channel channel_key cfg))
          (λ h. close h free)
        ≡ (ret commands, cfg')
  unfolding init_channel_key set_channel_key init_ratchet_state with_channel_key with_config
      with_config_mut
  init_handed_out gave = ground (arith, gave, init_valid gave)

  -- The keys of nicknames are the same before and behind the new channel key.
  same_shared :
      (member : Bytes) {shared_key : Key}
      → get_key_internal env (with_channel_key env channel channel_key cfg) member none
        ≡ ok shared_key
      → get_key_internal env cfg member none ≡ ok shared_key
  unfolding with_channel_key
  same_shared member shared = sym (get_key_internal-with_channels env _ _ cfg member none) ∙ shared

  lookup-with_channel_key :
      (config : FishConfig)
      → lookup (to_lowercase channel) (with_channel_key env channel channel_key config).channel_keys
        ≡ some channel_key
  unfolding with_channel_key
  lookup-with_channel_key config =
      lookup-insert_self (to_lowercase channel) channel_key config.channel_keys

  offers :
      All (λ m. length m.1 ≡ 24) members
      → init_channel_key env channel_key channel members free cfg ≡ (ret commands, cfg')
      → All
          (IsOffer env channel_key cfg.fish11.nickname
            (with_channel_key env channel channel_key cfg))
          commands
        × (cfg' ≡ with_channel_key env channel channel_key cfg)
  offers sizes gave =
      let self_nick = cfg.fish11.nickname in
      let with_key = with_channel_key env channel channel_key cfg in
      let (h, handed, same) =
        close-ret (hand_out env channel_key self_nick members nothing free with_key) commands cfg'
          (init_handed_out gave) in
      let (found, kept) =
        hand_out-IsOffer env channel_key self_nick with_key members nothing h cfg' sizes tt
          handed in
      (subst (All (IsOffer env channel_key self_nick with_key)) same found, kept)

  module _ (laws : IsEnv env) (key_size : length channel_key ≡ 32)
      (sizes : All (λ m. length m.1 ≡ 24) members)
      (gave : init_channel_key env channel_key channel members free cfg
        ≡ (ret commands, cfg')) where
    module _ (before after : List (Bytes × Bytes)) (member : Bytes) (input b64_wrapped_key : Bytes)
        (receiver : FishConfig)
        (given : commands ≡ before ++ ((member, wrapped_key_only b64_wrapped_key) ∷ after))
        (split : process_args input
          ≡ some (record {
            channel_name = channel;
            coordinator_nick = cfg.fish11.nickname;
            actual_sender = cfg.fish11.nickname;
            b64_wrapped_key = b64_wrapped_key;
          }))
        (agreed : get_key_internal env receiver cfg.fish11.nickname none
          ≡ get_key_internal env cfg member none) where
      accepted :
          process_channel_key env input free receiver
          ≡ (ret tt, with_channel_key env channel channel_key receiver)
      accepted =
          let self_nick = cfg.fish11.nickname in
          let with_key = with_channel_key env channel channel_key cfg in
          let (found, kept) = offers sizes gave in
          let offer =
            All-middle (IsOffer env channel_key self_nick with_key) before
              (member, wrapped_key_only b64_wrapped_key) after
              (subst (All (IsOffer env channel_key self_nick with_key)) given found) in
          let (result, stored) =
            process_wrapped env laws input _ receiver offer.shared_key channel_key offer.nonce
              offer.nonce_size key_size split refl (agreed ∙ same_shared member offer.shared)
              offer.shared_size offer.wrapped (init_valid gave) in
          result

      -- A coordinator's call to make a key of 32 bytes for a channel succeeded, with nonces of 24
      -- bytes and a lawful cipher. Each of the wrapped keys that it gave for the members, received
      -- by its member from the coordinator, is accepted by the handler of a member who has the same
      -- key for the coordinator as the coordinator has for that member, and then both have the new
      -- key stored for the channel.
      pub process_channel_key-init_channel_key :
          let (outcome, receiver') = process_channel_key env input free receiver in
          (outcome ≡ ret tt)
          × (lookup (to_lowercase channel) cfg'.channel_keys ≡ some channel_key)
          × (lookup (to_lowercase channel) receiver'.channel_keys ≡ some channel_key)
      process_channel_key-init_channel_key = (
        ap (λ r. r.0) accepted,
        rw (offers sizes gave).1 (lookup-with_channel_key cfg),
        rw (ap (λ r. r.1) accepted) (lookup-with_channel_key receiver),
      )

      module _ (nonce message sent received : Bytes) (nonce_size : length nonce ≡ 24)
          (nonempty : 0 < length message) (small : length message ≤ 4096)
          (text : is_utf8 message ≡ true)
          (no_manual : lookup (manual_entry_key (to_lowercase channel)) cfg.entries ≡ none)
          (no_manual_there : lookup (manual_entry_key (to_lowercase channel)) receiver.entries
            ≡ none)
          (parsed : parse_input sent ≡ ok (record { target = channel; message = message })) where
        -- What the coordinator's handler answers for the message.
        abbrev sent_text : Bytes
        sent_text = text_of (encrypt_msg env nonce sent free cfg').0

        encrypted :
            (s : Bytes) × (encrypt_msg env nonce sent free cfg'
              ≡ (ret (codes "+FiSH " ++ s), count_twice cfg'))
        unfolding with_channel_key
        encrypted =
            let named = is_channel-original channel (init_valid gave) in
            let sender = with_channel_key env channel channel_key cfg in
            let receiver' = with_channel_key env channel channel_key receiver in
            let (s, sealed, opened) =
              encrypt_msg_channel env laws channel channel_key nonce sender receiver' nonce_size
                key_size named no_manual (lookup-with_channel_key cfg) no_manual_there
                (lookup-with_channel_key receiver) message nonempty small text sent parsed in
            (
              s,
              subst
                  (λ c.
                    encrypt_msg env nonce sent free c ≡ (ret (codes "+FiSH " ++ s), count_twice c))
                  (sym (offers sizes gave).1) sealed,
            )

        -- After a coordinator made a channel key and a member accepted it, a message of the
        -- coordinator for the channel is encrypted, and the member decrypts it: the key has 32
        -- bytes, all nonces have 24, the cipher is lawful, the member has the same key for the
        -- coordinator as the coordinator for the member, neither set a key by hand for the channel,
        -- the message is UTF-8 of 1 to 4096 bytes, and what was encrypted arrives unchanged and
        -- begins and ends with no white space.
        pub decrypt_msg-process_channel_key :
            trim sent_text ≡ sent_text
            → parse_input received ≡ ok (record { target = channel; message = sent_text })
            → (encrypt_msg env nonce sent free cfg' ≡ (ret sent_text, count_twice cfg'))
              × ((decrypt_msg env received free (process_channel_key env input free receiver).1).0
                  ≡ ret message)
        unfolding with_channel_key
        decrypt_msg-process_channel_key trimmed arrived =
            let named = is_channel-original channel (init_valid gave) in
            let sender = with_channel_key env channel channel_key cfg in
            let receiver' = with_channel_key env channel channel_key receiver in
            let (s, sealed) = encrypted in
            let same : sent_text ≡ codes "+FiSH " ++ s = ap (λ r. text_of r.0) sealed in
            (
              sealed ∙ ap (λ t. (ret t, count_twice cfg')) (sym same),
              rw (ap (λ r. r.1) accepted) (
                  ap (λ r. r.0)
                    (decrypt_msg-encrypt_msg env laws channel channel_key nonce sender receiver'
                      nonce_size key_size named no_manual (lookup-with_channel_key cfg)
                      no_manual_there (lookup-with_channel_key receiver) message nonempty small text
                      sent parsed s received (count_twice sender)
                      (subst
                        (λ c.
                          encrypt_msg env nonce sent free c
                          ≡ (ret (codes "+FiSH " ++ s), count_twice c))
                        (offers sizes gave).1 sealed)
                      (subst (λ t. trim t ≡ t) same trimmed)
                      (subst
                        (λ t. parse_input received ≡ ok (record { target = channel; message = t }))
                        same arrived))),
            )
