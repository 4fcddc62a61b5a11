-- ===== src/Config/Models.antt =====
-- fish_11_dll/src/config/models.rs: the configuration that the DLL keeps behind one lock. The
-- `dirty` flag only steers the writing of the file, and is left out with it.
pub mod Ratchet
pub mod Nonces
use fish.Common.{
  ℕ, ◌+◌, ◌%◌, ◌^◌, Bool, true, false, List, [], ◌∷◌, ◌++◌, Option, none, some, Bytes, codes,
  length, tail, ◌==◌, if◌then◌else◌, same_list, ℤ,
}

-- A key of 32 bytes, and a nonce of 24.
abbrev pub Key : Type 0
Key = Bytes

-- `X25519KeyPair` of fish_11_dll/src/crypto/x25519.rs, without the time at which it was generated.
pub record KeyPair : Type 0 where
  pub private_key : Key
  pub public_key : Key

abbrev pub Nonce : Type 0
Nonce = Bytes

abbrev pub max_previous_keys : ℕ
max_previous_keys = 5

abbrev pub max_nonce_cache_size : ℕ
max_nonce_cache_size = 100

pub record EntryData : Type 0 where
  pub key : Option Bytes
  pub date : Option Bytes
  pub is_exchange : Option Bool

pub record Fish11Section : Type 0 where
  pub nickname : Bytes
  pub process_incoming : Bool
  pub process_outgoing : Bool
  pub plain_prefix : Bytes
  pub encrypt_notice : Bool
  pub encrypt_action : Bool
  pub mark_position : ℕ
  pub mark_encrypted : Bytes
  pub no_fish10_legacy : Bool
  pub key_ttl : Option ℤ
  pub encryption_prefix : Bytes
  pub fish_prefix : Bool

unfoldable pub default_section : Fish11Section
default_section = record {
  nickname = [];
  process_incoming = true;
  process_outgoing = true;
  plain_prefix = codes "+p ";
  encrypt_notice = false;
  encrypt_action = false;
  mark_position = 1;
  mark_encrypted = codes " 12$chr(183)";
  no_fish10_legacy = false;
  key_ttl = none;
  encryption_prefix = codes "+FiSH";
  fish_prefix = false;
}

pub record RatchetState : Type 0 where
  pub current_key : Key
  pub epoch : ℕ
  -- A VecDeque, its front first.
  pub previous_keys : List Key

unfoldable pub new_ratchet : Key → RatchetState
new_ratchet initial_key = record { current_key = initial_key; epoch = 0; previous_keys = [] }

-- The oldest key goes when the window is full; the epoch is a u64.
unfoldable pub advance : RatchetState → Key → RatchetState
advance state next_key =
    let kept =
      if length state.previous_keys == max_previous_keys
      then tail state.previous_keys
      else state.previous_keys in
    record {
      current_key = next_key;
      epoch = (state.epoch + 1) % 2 ^ 64;
      previous_keys = kept ++ (state.current_key ∷ []);
    }

unfoldable pub contains : List Bytes → Bytes → Bool
contains [] n = false
contains (m ∷ ms) n = if same_list m n then true else contains ms n

pub record NonceCache : Type 0 where
  pub recent_nonces : List Nonce

unfoldable pub new_cache : NonceCache
new_cache = record { recent_nonces = [] }

-- The flag tells a nonce that was there already.
unfoldable pub check_and_add : NonceCache → Nonce → Bool × NonceCache
unfolding contains
check_and_add cache nonce =
    if contains cache.recent_nonces nonce
    then (true, cache)
    else let kept =
        if length cache.recent_nonces == max_nonce_cache_size
        then tail cache.recent_nonces
        else cache.recent_nonces in
      (false, record { recent_nonces = kept ++ (nonce ∷ []) })

pub record EncryptionMetrics : Type 0 where
  pub encryption_count : ℕ
  pub decryption_count : ℕ
  pub key_exchange_count : ℕ

pub record FishConfig : Type 0 where
  pub keys : List (Bytes × Bytes)
  pub nick_networks : List (Bytes × Bytes)
  pub our_private_key : Option Bytes
  pub our_public_key : Option Bytes
  pub keypair_creation_time : Option Bytes
  pub fish11 : Fish11Section
  pub startup_date : Option ℕ
  pub entries : List (Bytes × EntryData)
  pub channel_keys : List (Bytes × Bytes)
  pub channel_ratchet_states : List (Bytes × RatchetState)
  pub channel_nonce_caches : List (Bytes × NonceCache)
  pub topics : List (Bytes × Bytes)
  pub metrics : EncryptionMetrics

-- `FishConfig::new`, at the time `now`.
unfoldable pub new_config : ℕ → FishConfig
unfolding default_section
new_config now = record {
  keys = [];
  nick_networks = [];
  our_private_key = none;
  our_public_key = none;
  keypair_creation_time = none;
  fish11 = default_section;
  startup_date = some now;
  entries = [];
  channel_keys = [];
  channel_ratchet_states = [];
  channel_nonce_caches = [];
  topics = [];
  metrics = record { encryption_count = 0; decryption_count = 0; key_exchange_count = 0 };
}
