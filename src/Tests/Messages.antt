-- ===== src/Tests/Messages.antt =====
-- Messages and channel keys, on examples.
use fish.Common.{
  ◌≡◌, refl, arith, false, [], ◌∷◌, ◌++◌, none, some, Bytes, codes, replicate, lookup, list_eq,
  is_utf8, starts_with, to_lowercase, trim, ◌-ℤ◌, ◌+ℤ◌, wrap_i64,
}
use fish.Errors.{ok}
use fish.Config.Models.{FishConfig}
use fish.Config.Access.{free, ret}
use fish.Config.Access.Counters.{
  count_encryption, count_decryption, increment_encryption_counter, increment_decryption_counter,
}
use fish.Config.Channels.{is_channel, safe_channel_name, set_channel_key, init_ratchet_state}
use fish.Config.Keys.{get_key, get_key_internal}
use fish.Crypto.Chacha.{encrypt_message, decrypt_message, unwrap_key}
use fish.Crypto.Chacha.RoundTrip.{decrypt_message-encrypt_message}
use fish.Crypto.Chacha.Rejects.{Opened, decrypt_message-Opened}
use fish.Dll.ChannelKey.{ProcessArgs, process_args, process_channel_key}
use fish.Dll.ChannelKey.Process.{process_channel_key-accepts}
use fish.Dll.Decrypt.{payload_of, decrypt_msg}
use fish.Dll.Decrypt.Ratchet.{returns, decrypt_msg_never_returns}
use fish.Dll.Decrypt.Replay.{decrypt_msg_accepts_replay}
use fish.Dll.Encrypt.{encrypt_msg}
use fish.Dll.Encrypt.RoundTrip.{count_twice, decrypt_msg-encrypt_msg}
use fish.Tests.World.{world, world-IsEnv, seal, key, nonce, empty, keyed, with_nick}
use fish.Utils.{parse_input, split_space, normalize_nick}

abbrev sealed_hi : Bytes
sealed_hi = nonce ++ seal key (codes "hi")

decrypt_message-encrypt_message_example :
    (s : Bytes) × (encrypt_message world key nonce (codes "hi") none free empty
      ≡ (ret s, (count_encryption free empty).1))
    × (decrypt_message world key s none free keyed
        ≡ (ret (codes "hi"), (count_decryption free keyed).1))
unfolding is_utf8
decrypt_message-encrypt_message_example =
    decrypt_message-encrypt_message world world-IsEnv key nonce refl (codes "hi") none empty keyed
      (omega arith) (omega arith) refl

decrypt_message-Opened_example :
    Opened world key sealed_hi none (codes "hi")
    × ((count_decryption free empty).1 ≡ (count_decryption free empty).1)
unfolding decrypt_message is_utf8 increment_decryption_counter
decrypt_message-Opened_example =
    decrypt_message-Opened world key sealed_hi none empty {text = codes "hi"}
      {cfg' = (count_decryption free empty).1} refl

decrypt_msg-encrypt_msg_example :
    decrypt_msg world (codes "#c +FiSH " ++ sealed_hi) free keyed
    ≡ (ret (codes "hi"), (count_decryption free keyed).1)
unfolding is_utf8 is_channel lookup to_lowercase parse_input safe_channel_name trim encrypt_msg
    encrypt_message increment_encryption_counter
decrypt_msg-encrypt_msg_example =
    decrypt_msg-encrypt_msg world world-IsEnv (codes "#c") key nonce keyed keyed refl refl refl refl
      refl refl refl (codes "hi") (omega arith) (omega arith) refl (codes "#c hi") refl sealed_hi
      (codes "#c +FiSH " ++ sealed_hi) (count_twice keyed) refl refl refl

decrypt_msg_accepts_replay_example :
    (once : FishConfig) × (twice : FishConfig) × (decrypt_msg world
        (codes "#c +FiSH " ++ sealed_hi)
        free
        keyed
      ≡ (ret (codes "hi"), once))
    × (decrypt_msg world (codes "#c +FiSH " ++ sealed_hi) free once ≡ (ret (codes "hi"), twice))
    × (twice.channel_nonce_caches ≡ [])
unfolding is_utf8 is_channel lookup to_lowercase parse_input safe_channel_name trim payload_of
    starts_with
decrypt_msg_accepts_replay_example =
    decrypt_msg_accepts_replay world (codes "#c") keyed refl refl refl refl refl (omega arith)
      (omega arith) refl refl (codes "#c +FiSH " ++ sealed_hi) (codes "+FiSH " ++ sealed_hi) refl
      refl

-- A channel that has only a ratchet, with the current key that the message is encrypted under.
abbrev ratcheted : FishConfig
ratcheted = record empty {
  channel_ratchet_states =
      (codes "#c", record { current_key = key; epoch = 0; previous_keys = [] }) ∷ [];
}

decrypt_msg_never_returns_example :
    returns (decrypt_msg world (codes "#c +FiSH " ++ sealed_hi) free ratcheted).0 ≡ false
unfolding is_channel lookup to_lowercase parse_input safe_channel_name trim
decrypt_msg_never_returns_example =
    decrypt_msg_never_returns world (codes "#c") ratcheted refl refl refl
      (codes "#c +FiSH " ++ sealed_hi) (codes "+FiSH " ++ sealed_hi) refl

-- A notice in which the coordinator hands out the key of a channel.
abbrev new_key : Bytes
new_key = replicate 32 6

abbrev notice : Bytes
notice = codes "#c al al " ++ (nonce ++ seal key new_key)

abbrev notice_args : ProcessArgs
notice_args = record {
  channel_name = codes "#c";
  coordinator_nick = codes "al";
  actual_sender = codes "al";
  b64_wrapped_key = nonce ++ seal key new_key;
}

process_channel_key-accepts_example :
    (codes "al" ≡ codes "al")
    × ((shared : Bytes) × (key : Bytes) × (get_key_internal world with_nick (codes "al") none
          ≡ ok shared)
        × (unwrap_key world (nonce ++ seal (replicate 32 5) new_key) shared ≡ ok key)
        × (lookup (codes "#c") (process_channel_key world notice free with_nick).1.channel_keys
            ≡ some key))
unfolding process_args process_channel_key split_space get_key lookup normalize_nick to_lowercase
    trim ◌-ℤ◌ ◌+ℤ◌ wrap_i64 unwrap_key starts_with set_channel_key init_ratchet_state
process_channel_key-accepts_example =
    process_channel_key-accepts world notice notice_args with_nick refl refl
