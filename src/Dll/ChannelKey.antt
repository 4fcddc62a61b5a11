-- ===== src/Dll/ChannelKey.antt =====
-- fish_11_dll/src/channel_encryption/process_key.rs and init_key.rs: a channel key is received from
-- its coordinator, or made and handed out to the members.
pub mod Process
pub mod Distribute
pub mod Reaches
use fish.Common.{
  ℕ, ◌==◌, zero, suc, Bool, true, false, not, List, [], ◌∷◌, ◌++◌, Option, none, some, Bytes, codes,
  if◌then◌else◌, length, drop, same_list, starts_with,
}
use fish.Env.{Env}
use fish.Errors.{Result, ok, err, DllError, FishError}
use fish.Config.Models.{Key, Nonce, FishConfig}
use fish.Config.Access.{
  M, ◌>>=◌, ◌>>◌, pure, throw, lift, require, attempt, into_dll, with_config, ret, map_err,
}
use fish.Config.Channels.{set_channel_key, init_ratchet_state}
use fish.Config.Keys.{get_key}
use fish.Crypto.Chacha.{wrap_key, unwrap_key}
use fish.Utils.{split_space}

-- The four parts of `splitn(4, ' ')`.
pub record ProcessArgs : Type 0 where
  pub channel_name : Bytes
  pub coordinator_nick : Bytes
  pub actual_sender : Bytes
  pub b64_wrapped_key : Bytes

unfoldable pub process_args : Bytes → Option ProcessArgs
process_args input =
    let (channel, r1) = split_space input in
    elim r1 [
      | none ↦ none
      | some s1 ↦
          let (coordinator, r2) = split_space s1 in
          elim r2 [
            | none ↦ none
            | some s2 ↦
                let (sender, r3) = split_space s2 in
                elim r3 [
                  | none ↦ none
                  | some wrapped ↦ some (record {
                    channel_name = channel;
                    coordinator_nick = coordinator;
                    actual_sender = sender;
                    b64_wrapped_key = wrapped;
                  })
                ]
          ]
    ]

abbrev pub wrapped_key_only : Bytes → Bytes
wrapped_key_only b64 = if starts_with (codes "+FiSH ") b64 then drop 6 b64 else b64

-- What the loop over the members collects: the wrapped keys to send, in order, and the members
-- with whom no key is shared.
pub record Handout : Type 0 where
  pub commands : List (Bytes × Bytes)
  pub failed_members : List Bytes

module _ (env : Env) where
  -- FiSH11_ProcessChannelKey, behind the splitting of its input.
  unfoldable pub process_args_key : ProcessArgs → M DllError (Unit {0})
  process_args_key args = do
    require (same_list args.coordinator_nick args.actual_sender) DllError.invalid_input
    shared_key ← into_dll (get_key env args.coordinator_nick none)
    require (length shared_key == 32) DllError.config_error
    channel_key ←
        into_dll (lift (unwrap_key env (wrapped_key_only args.b64_wrapped_key) shared_key))
    into_dll (set_channel_key args.channel_name channel_key)
    init_ratchet_state args.channel_name channel_key

  unfoldable pub process_channel_key : Bytes → M DllError (Unit {0})
  unfolding process_args process_args_key
  process_channel_key input = elim (process_args input) [
    | none ↦ throw DllError.invalid_input
    | some args ↦ process_args_key args
  ]

  -- One nonce for each member stands for the random ones.
  unfoldable pub hand_out : Key → Bytes → List (Bytes × Nonce) → Handout → M DllError Handout
  hand_out channel_key self_nick [] collected = pure collected
  hand_out channel_key self_nick ((member, nonce) ∷ members) collected =
      elim (same_list member self_nick) [
        | true ↦ hand_out channel_key self_nick members collected
        | false ↦ do
          found ← attempt {E = DllError} (get_key env member none)
          elim found [
            | none ↦ hand_out channel_key self_nick members (record {
              commands = collected.commands;
              failed_members = collected.failed_members ++ (member ∷ []);
            })
            | some shared_key ↦ do
              require (length shared_key == 32) DllError.config_error
              wrapped_key ← into_dll (lift (wrap_key env nonce channel_key shared_key))
              hand_out channel_key self_nick members (record {
                commands = collected.commands ++ ((member, wrapped_key) ∷ []);
                failed_members = collected.failed_members;
              })
          ]
      ]

  -- FiSH11_InitChannelKey, at the new channel key and the channel and members of its input; the
  -- result is the list of notices to send.
  unfoldable pub init_channel_key :
      Key → Bytes → List (Bytes × Nonce) → M DllError (List (Bytes × Bytes))
  unfolding hand_out with_config
  init_channel_key channel_key channel_name members = do
    require (not (length members == 0)) DllError.invalid_input
    section ← into_dll (with_config (λ config. ok config.fish11))
    require (not (length section.nickname == 0)) DllError.config_error
    into_dll (set_channel_key channel_name channel_key)
    init_ratchet_state channel_name channel_key
    handout ←
        hand_out channel_key section.nickname members
          (record { commands = []; failed_members = [] })
    require (length handout.failed_members == 0) DllError.config_error
    require (not (length handout.commands == 0)) DllError.invalid_input
    pure handout.commands
