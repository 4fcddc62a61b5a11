-- ===== src/Dll/ChannelKey/Process.antt =====
-- fish_11_dll/src/channel_encryption/process_key.rs: what a member makes of a key that it is sent.
use fish.Common.{
  ◌≡◌, ◌⊎◌, refl, arith, true, none, some, Bytes, length, if◌then◌else◌, same_list_iff, lookup,
  insert, list_eq, contains_key, to_lowercase, lookup-insert_self,
}
use fish.Env.{Env, IsEnv}
use fish.Errors.{ok}
use fish.Config.Models.{Key, Nonce, RatchetState, new_ratchet, FishConfig}
use fish.Config.Access.{free, ret}
use fish.Config.Channels.{valid_channel, set_channel_key, init_ratchet_state}
use fish.Config.Keys.{get_key, get_key_internal}
use fish.Crypto.Chacha.{wrap_key, unwrap_key}
use fish.Crypto.Chacha.RoundTrip.{unwrap_key-wrap_key}
use fish.Dll.ChannelKey.{
  ProcessArgs, process_args, wrapped_key_only, process_args_key, process_channel_key,
}

module _ (env : Env) where
  unfoldable pub with_channel_key : Bytes → Key → FishConfig → FishConfig
  with_channel_key channel key cfg = record cfg {
    channel_keys = insert (to_lowercase channel) key cfg.channel_keys;
    channel_ratchet_states =
        if contains_key (to_lowercase channel) cfg.channel_ratchet_states
        then cfg.channel_ratchet_states
        else insert (to_lowercase channel) (new_ratchet key) cfg.channel_ratchet_states;
  }

  process_accepted :
      (args : ProcessArgs) (cfg : FishConfig) {shared_key channel_key : Key}
      → args.coordinator_nick ≡ args.actual_sender
      → get_key_internal env cfg args.coordinator_nick none ≡ ok shared_key
      → length shared_key ≡ 32
      → unwrap_key env (wrapped_key_only args.b64_wrapped_key) shared_key ≡ ok channel_key
      → valid_channel (to_lowercase args.channel_name) ≡ true
      → process_args_key env args free cfg
        ≡ (ret tt, with_channel_key args.channel_name channel_key cfg)
  unfolding process_args_key get_key set_channel_key init_ratchet_state with_channel_key
  process_accepted args cfg claimed shared size unwrapped valid =
      rw ((same_list_iff args.coordinator_nick args.actual_sender).1 claimed, process_args_key)
        (rw (shared, process_args_key)
          (rw (size, process_args_key)
            (rw (unwrapped, process_args_key) (rw (valid, process_args_key) refl))))

  -- Either the input is accepted or the configuration is left as it was.
  pub process_channel_key_atomic :
      (input : Bytes) (cfg : FishConfig)
      → (process_channel_key env input free cfg
          ≡ (ret tt, (process_channel_key env input free cfg).1))
        ⊎ ((process_channel_key env input free cfg).1 ≡ cfg)
  unfolding process_channel_key process_args_key get_key set_channel_key init_ratchet_state
  process_channel_key_atomic input cfg = ground arith

  -- Where an input that can be split is accepted, the sender is the coordinator that it names, the
  -- key that it carries was unwrapped with the key shared with that nick, and it is now the key
  -- stored for the channel.
  pub process_channel_key-accepts :
      (input : Bytes) (args : ProcessArgs) (cfg : FishConfig)
      → process_args input ≡ some args
      → (process_channel_key env input free cfg).0 ≡ ret tt
      → (args.coordinator_nick ≡ args.actual_sender)
        × ((shared : Key) × (key : Key) × (get_key_internal env cfg args.coordinator_nick none
              ≡ ok shared)
            × (unwrap_key env (wrapped_key_only args.b64_wrapped_key) shared ≡ ok key)
            × (lookup
                  (to_lowercase args.channel_name)
                  (process_channel_key env input free cfg).1.channel_keys
                ≡ some key))
  unfolding process_channel_key process_args_key get_key set_channel_key init_ratchet_state
  process_channel_key-accepts input args cfg split accepted =
      grind (arith, same_list_iff args.coordinator_nick args.actual_sender, lookup-insert_self)

  -- Under a lawful cipher, a channel key of 32 bytes that was wrapped, with a nonce of 24 bytes, under
  -- the 32 bytes of the key shared with the coordinator, and that comes from the coordinator itself for
  -- a valid channel, is accepted and stored for the channel.
  pub process_wrapped :
      (laws : IsEnv env) (input : Bytes) (args : ProcessArgs) (cfg : FishConfig)
      (shared channel_key : Key) (nonce : Nonce)
      → length nonce ≡ 24
      → length channel_key ≡ 32
      → process_args input ≡ some args
      → args.coordinator_nick ≡ args.actual_sender
      → get_key_internal env cfg args.coordinator_nick none ≡ ok shared
      → length shared ≡ 32
      → wrap_key env nonce channel_key shared ≡ ok (wrapped_key_only args.b64_wrapped_key)
      → valid_channel (to_lowercase args.channel_name) ≡ true
      → (process_channel_key env input free cfg
          ≡ (ret tt, with_channel_key args.channel_name channel_key cfg))
        × (lookup
              (to_lowercase args.channel_name)
              (with_channel_key args.channel_name channel_key cfg).channel_keys
            ≡ some channel_key)
  unfolding process_channel_key with_channel_key
  process_wrapped laws input args cfg shared channel_key nonce n24 k32 split claimed sh s32 wrapped
        valid =
      let (s, made, back) = unwrap_key-wrap_key env laws shared nonce n24 channel_key k32 in
      (
        rw (split, process_channel_key)
            (process_accepted args cfg claimed sh s32 (ground (arith, made, back, wrapped)) valid),
        lookup-insert_self _ _ _,
      )

  -- For a channel that has a ratchet, an input that can be split leaves all ratchets as they were,
  -- accepted or not: a new channel key does not restart the ratchet.
  pub process_channel_key_keeps_ratchet :
      (input : Bytes) (args : ProcessArgs) (cfg : FishConfig) {state : RatchetState}
      → process_args input ≡ some args
      → lookup (to_lowercase args.channel_name) cfg.channel_ratchet_states ≡ some state
      → (process_channel_key env input free cfg).1.channel_ratchet_states
        ≡ cfg.channel_ratchet_states
  unfolding process_channel_key process_args_key get_key set_channel_key init_ratchet_state
      contains_key
  process_channel_key_keeps_ratchet input args cfg split there = ground arith
