-- ===== src/Tests/World.antt =====
-- Small stand-ins for the third-party crates, and a configuration with a key.
use fish.Common.{
  ℕ, ◌≡◌, refl, arith, true, false, [], ◌∷◌, ◌++◌, Option, none, some, Bytes, codes, if◌then◌else◌,
  same_list, same_list_iff, length, take, drop, replicate, take-append, drop-append, length-append,
  length-take, length-replicate, ℤ, pos,
}
use fish.Env.{Env, IsEnv}
use fish.Config.Models.{EntryData, FishConfig}

abbrev tag_of : Bytes → Bytes
tag_of key = take 16 (key ++ replicate 16 0)

length-tag_of : (key : Bytes) → length (tag_of key) ≡ 16
length-tag_of key = omega (
  arith,
  length-take 16 (key ++ replicate 16 0),
  length-append key (replicate 16 0),
  length-replicate {A = ℕ} 16 0,
)

-- A cipher that puts the start of the key in front.
abbrev pub seal : Bytes → Bytes → Bytes
seal key text = tag_of key ++ text

abbrev pub unseal : Bytes → Bytes → Option Bytes
unseal key c = if same_list (take 16 c) (tag_of key) then some (drop 16 c) else none

pub unseal-seal : (key text : Bytes) → unseal key (seal key text) ≡ some text
unseal-seal key text = rw (take-append 16 (tag_of key) text (length-tag_of key)) (
    rw ((same_list_iff (tag_of key) (tag_of key)).1 refl)
      (rw (drop-append 16 (tag_of key) text (length-tag_of key)) refl))

pub sealed_text : (key text c : Bytes) → some (seal key text) ≡ some c → unseal key c ≡ some text
sealed_text key text c sealed =
    let same : seal key text ≡ c = ground (arith, sealed) in rw (← same) (unseal-seal key text)

-- Base64 that changes nothing, and a clock that stands at 1000.
abbrev pub world_at : ℤ → Env
world_at date = record {
  base64_encode = λ s. s;
  base64_decode = λ s. some s;
  aead_encrypt = λ key nonce aad text. some (seal key text);
  aead_decrypt = λ key nonce aad c. unseal key c;
  hkdf = λ salt key info. some (take 32 key);
  now = pos 1000;
  now_text = codes "now";
  parse_date = λ s. some date;
  current_network = none;
  fresh_private_key = replicate 32 7;
  fresh_public_key = replicate 32 8;
  creation_time = codes "then";
}

abbrev pub world : Env
world = world_at (pos 1000)

pub world-IsEnv : IsEnv world
world-IsEnv = record {
  base64_decode-encode = λ s. refl;
  encrypts = λ key nonce aad text small.
      (seal key text, refl, omega (arith, length-append (tag_of key) text, length-tag_of key));
  decrypt-encrypt = λ key nonce aad text c sealed. sealed_text key text c sealed;
  parse_date-now = refl;
}

abbrev pub key : Bytes
key = replicate 32 5

abbrev pub nonce : Bytes
nonce = replicate 24 9

abbrev pub empty : FishConfig
empty = record {
  keys = [];
  nick_networks = [];
  our_private_key = none;
  our_public_key = none;
  keypair_creation_time = none;
  fish11 = record {
    nickname = codes "me";
    process_incoming = true;
    process_outgoing = true;
    plain_prefix = codes "+p ";
    encrypt_notice = false;
    encrypt_action = false;
    mark_position = 1;
    mark_encrypted = [];
    no_fish10_legacy = false;
    key_ttl = none;
    encryption_prefix = codes "+FiSH";
    fish_prefix = false;
  };
  startup_date = none;
  entries = [];
  channel_keys = [];
  channel_ratchet_states = [];
  channel_nonce_caches = [];
  topics = [];
  metrics = record { encryption_count = 0; decryption_count = 0; key_exchange_count = 0 };
}

-- A channel with a stored key.
abbrev pub keyed : FishConfig
keyed = record empty { channel_keys = (codes "#c", key) ∷ [] }

abbrev pub exchanged : EntryData
exchanged = record { key = some key; date = some (codes "d"); is_exchange = some true }

-- A nickname with an exchanged key on the default network.
abbrev pub with_nick : FishConfig
with_nick = record empty { entries = (codes "al@default", exchanged) ∷ [] }
