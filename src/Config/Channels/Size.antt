-- ===== src/Config/Channels/Size.antt =====
-- fish_11_dll/src/config/channel_key_utils.rs: what a caller gets as the key of a channel.
use fish.Common.{◌≡◌, arith, Bytes, length}
use fish.Env.{Env}
use fish.Config.Models.{Key, FishConfig}
use fish.Config.Access.{Lock, ret, with_config}
use fish.Config.Channels.{
  get_channel_key, decrypt_channel_key_from_storage, get_manual_channel_key,
  get_channel_key_with_fallback,
}

get_channel_key-size :
    (channel : Bytes) (l : Lock) (config config' : FishConfig) (key : Key)
    → get_channel_key channel l config ≡ (ret key, config')
    → length key ≡ 32
unfolding get_channel_key with_config
get_channel_key-size channel l config config' key h = ground arith

module _ (env : Env) where
  get_manual_channel_key-size :
      (channel : Bytes) (l : Lock) (config config' : FishConfig) (key : Key)
      → get_manual_channel_key env channel l config ≡ (ret key, config')
      → length key ≡ 32
  unfolding get_manual_channel_key decrypt_channel_key_from_storage with_config
  get_manual_channel_key-size channel l config config' key h = ground arith

  -- Whichever key a channel has, set by hand or stored, and whatever text stands for it in the
  -- configuration, a key that is given for the channel has 32 bytes.
  pub get_channel_key_with_fallback-size :
      (channel : Bytes) (l : Lock) (config config' : FishConfig) (key : Key)
      → get_channel_key_with_fallback env channel l config ≡ (ret key, config')
      → length key ≡ 32
  unfolding get_channel_key_with_fallback
  get_channel_key_with_fallback-size channel l config config' key h =
      ground (arith, get_manual_channel_key-size channel l config, get_channel_key-size channel l)
