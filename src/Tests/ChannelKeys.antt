-- ===== src/Tests/ChannelKeys.antt =====
-- The keys of channels, on examples.
use fish.Common.{
  ◌≡◌, ◌≢◌, refl, arith, true, false, [], ◌∷◌, ◌++◌, none, codes, length, list_eq, to_lowercase,
  is_utf8, lookup, contains_key, Bytes, replicate, trim, starts_with, insert, some, ◌-ℤ◌, ◌+ℤ◌,
  wrap_i64,
}
use fish.Config.Models.{FishConfig}
use fish.Config.Access.{free, ret, with_config, with_config_mut}
use fish.Config.Access.Counters.{count_decryption}
use fish.Config.Channels.{
  is_channel, valid_channel, stored_keypair, storage_key_of, manual_entry, safe_channel_name,
  get_channel_key, get_manual_channel_key, get_channel_key_with_fallback,
}
use fish.Config.Channels.Size.{get_channel_key_with_fallback-size}
use fish.Config.Manual.{set_manual_channel_key}
use fish.Config.Manual.Stored.{get_channel_key_with_fallback-set_manual_channel_key}
use fish.Config.Manual.Kept.{set_manual_channel_key_kept}
use fish.Crypto.Chacha.{wrap_key}
use fish.Config.Keys.{get_key, get_key_internal}
use fish.Config.Channels.{set_channel_key, init_ratchet_state}
use fish.Dll.ChannelKey.{process_args, process_channel_key, hand_out, init_channel_key}
use fish.Dll.ChannelKey.Process.{with_channel_key}
use fish.Dll.ChannelKey.Reaches.{
  process_channel_key-init_channel_key, decrypt_msg-process_channel_key,
}
use fish.Dll.Encrypt.{encrypt_msg, encrypt_with}
use fish.Dll.Encrypt.RoundTrip.{count_twice}
use fish.Dll.Decrypt.{decrypt_msg}
use fish.Config.Access.Counters.{increment_encryption_counter}
use fish.Config.Channels.{safe_channel_name}
use fish.Utils.{parse_input, normalize_target}
use fish.Crypto.Chacha.{encrypt_message}
use fish.Utils.{normalize_nick, split_space}
use fish.Tests.World.{with_nick, seal, world, world-IsEnv, key, nonce, empty, keyed, exchanged}

-- The channel has a stored key, and no key pair is there yet.
get_channel_key_with_fallback-set_manual_channel_key_example :
    (config' : FishConfig) × (set_manual_channel_key world nonce (codes "#C") key true free keyed
      ≡ (ret tt, config'))
    × (get_channel_key_with_fallback world (codes "#C") free config'
        ≡ (ret key, (count_decryption free config').1))
unfolding valid_channel stored_keypair storage_key_of to_lowercase is_utf8
get_channel_key_with_fallback-set_manual_channel_key_example =
    get_channel_key_with_fallback-set_manual_channel_key world world-IsEnv nonce (codes "#C") key
      refl refl refl (omega arith) (omega arith) refl world.fresh_private_key none refl refl refl
      keyed refl

get_channel_key_with_fallback-size_example : length key ≡ 32
unfolding get_channel_key_with_fallback get_manual_channel_key get_channel_key manual_entry
    is_channel to_lowercase with_config lookup
get_channel_key_with_fallback-size_example =
    get_channel_key_with_fallback-size world (codes "#c") free keyed keyed key refl

set_manual_channel_key_kept_example :
    let config = record empty { entries = (codes "channel_key_hash_c", exchanged) ∷ [] } in
    let (outcome, after) = set_manual_channel_key world nonce (codes "#c") key false free config in
    (outcome ≢ ret tt) × (after.entries ≡ config.entries)
unfolding to_lowercase safe_channel_name contains_key
set_manual_channel_key_kept_example =
    set_manual_channel_key_kept world nonce (codes "#c") key
      (record empty { entries = (codes "channel_key_hash_c", exchanged) ∷ [] }) refl

-- A coordinator "me" and a member "al" who share a key, and what the coordinator gives for "al".
abbrev fresh : Bytes
fresh = replicate 32 6

abbrev wrapped : Bytes
wrapped = nonce ++ seal key fresh

abbrev member : FishConfig
member = record empty { entries = (codes "me@default", exchanged) ∷ [] }

abbrev coordinator : FishConfig
coordinator = with_channel_key world (codes "#c") fresh with_nick

process_channel_key-init_channel_key_example :
    let (outcome, after) = process_channel_key world (codes "#c me me " ++ wrapped) free member in
    (outcome ≡ ret tt)
    × (lookup (codes "#c") coordinator.channel_keys ≡ some fresh)
    × (lookup (codes "#c") after.channel_keys ≡ some fresh)
unfolding init_channel_key hand_out get_key get_key_internal set_channel_key init_ratchet_state
    valid_channel wrap_key process_args with_channel_key with_config with_config_mut starts_with
    to_lowercase normalize_nick trim split_space lookup ◌-ℤ◌ ◌+ℤ◌ wrap_i64
process_channel_key-init_channel_key_example =
    process_channel_key-init_channel_key world fresh (codes "#c") ((codes "al", nonce) ∷ [])
      with_nick coordinator ((codes "al", wrapped) ∷ []) world-IsEnv refl (refl, tt) refl [] []
      (codes "al") (codes "#c me me " ++ wrapped) wrapped member refl refl refl

-- What the coordinator then sends for "hi".
abbrev line : Bytes
line = codes "+FiSH " ++ (nonce ++ seal fresh (codes "hi"))

decrypt_msg-process_channel_key_example :
    let after = (process_channel_key world (codes "#c me me " ++ wrapped) free member).1 in
    (encrypt_msg world nonce (codes "#c hi") free coordinator ≡ (ret line, count_twice coordinator))
    × ((decrypt_msg world (codes "#c " ++ line) free after).0 ≡ ret (codes "hi"))
unfolding init_channel_key hand_out get_key get_key_internal set_channel_key init_ratchet_state
    valid_channel wrap_key process_args with_channel_key with_config with_config_mut starts_with
    to_lowercase normalize_nick trim split_space lookup ◌-ℤ◌ ◌+ℤ◌ wrap_i64 encrypt_msg encrypt_with
    encrypt_message get_channel_key_with_fallback get_manual_channel_key get_channel_key
    manual_entry is_channel parse_input normalize_target increment_encryption_counter
    safe_channel_name is_utf8 insert
decrypt_msg-process_channel_key_example =
    decrypt_msg-process_channel_key world fresh (codes "#c") ((codes "al", nonce) ∷ []) with_nick
      coordinator ((codes "al", wrapped) ∷ []) world-IsEnv refl (refl, tt) refl [] [] (codes "al")
      (codes "#c me me " ++ wrapped) wrapped member refl refl refl nonce (codes "hi")
      (codes "#c hi") (codes "#c " ++ line) refl (omega arith) (omega arith) refl refl refl refl
      refl refl
