-- ===== src/Master/Keystore.antt =====
-- fish_11_core/src/master_key/keystore.rs and rotation.rs: counters of nonces, what is known of keys,
-- and the text that is written to the file. The INI and JSON crates and the file are left out; u64
-- counters wrap as in a release build, and the time is an argument.
pub mod Counters
pub mod Stored
use fish.Common.{
  ℕ, zero, suc, ◌+◌, ◌-◌, ◌*◌, ◌%◌, ◌^◌, ◌==◌, Bool, true, false, not, ◌&&◌, ◌||◌, List, [], ◌∷◌,
  ◌++◌, Option, none, some, Bytes, codes, if◌then◌else◌, length, take, drop, ltb, leb, same_list,
  lookup, insert, list_eq, is_utf8, in_range,
}
use fish.Master.Encryption.{Cipher}

pub record KeyMetadata : Type 0 where
  pub created_at : ℕ
  pub last_used : ℕ
  pub usage_count : ℕ
  pub message_count : ℕ
  pub data_size_bytes : ℕ
  pub description : Bytes
  pub is_revoked : Bool

unfoldable pub default_metadata : ℕ → KeyMetadata
default_metadata now = record {
  created_at = now;
  last_used = now;
  usage_count = 0;
  message_count = 0;
  data_size_bytes = 0;
  description = codes "New key";
  is_revoked = false;
}

unfoldable pub new_metadata : ℕ → ℕ → KeyMetadata
unfolding default_metadata
new_metadata initial_message_count now = record (default_metadata now) {
  message_count = initial_message_count;
}

pub record Keystore : Type 0 where
  pub master_key_salt : Bytes
  pub password_verifier : Option Bytes
  pub nonce_counters : List (Bytes × ℕ)
  pub key_metadata : List (Bytes × KeyMetadata)

unfoldable pub with_salt : Bytes → Keystore
with_salt salt = record {
  master_key_salt = salt;
  password_verifier = none;
  nonce_counters = [];
  key_metadata = [];
}

abbrev pub counter_of : Bytes → List (Bytes × ℕ) → ℕ
counter_of context counters = elim (lookup context counters) [ none ↦ 0 | some n ↦ n ]

unfoldable pub get_nonce : Bytes → Keystore → ℕ × Keystore
get_nonce context keystore =
    let counter = counter_of context keystore.nonce_counters in
    (
      counter,
      record keystore {
        nonce_counters = insert context ((counter + 1) % 2 ^ 64) keystore.nonce_counters;
      },
    )

-- `entry(..).or_insert_with(KeyMetadata::default)`.
abbrev pub metadata_of : Bytes → ℕ → Keystore → KeyMetadata
metadata_of key_id now keystore = elim (lookup key_id keystore.key_metadata) [
  | none ↦ default_metadata now
  | some m ↦ m
]

abbrev pub set_metadata : Bytes → KeyMetadata → Keystore → Keystore
set_metadata key_id m keystore = record keystore {
  key_metadata = insert key_id m keystore.key_metadata;
}

unfoldable pub increment_key_usage : Bytes → ℕ → Keystore → Keystore
unfolding default_metadata
increment_key_usage key_id now keystore =
    let m = metadata_of key_id now keystore in
    set_metadata key_id (record m { usage_count = (m.usage_count + 1) % 2 ^ 64; last_used = now })
      keystore

unfoldable pub revoke_key : Bytes → ℕ → Keystore → Keystore
unfolding default_metadata
revoke_key key_id now keystore =
    set_metadata key_id (record (metadata_of key_id now keystore) { is_revoked = true }) keystore

unfoldable pub is_key_revoked : Bytes → Keystore → Bool
is_key_revoked key_id keystore = elim (lookup key_id keystore.key_metadata) [
  | none ↦ false
  | some m ↦ m.is_revoked
]

abbrev pub set_password_verifier : Bytes → Keystore → Keystore
set_password_verifier verifier keystore = record keystore { password_verifier = some verifier }

abbrev pub clear_password_verifier : Keystore → Keystore
clear_password_verifier keystore = record keystore { password_verifier = none }

-- rotation.rs.
abbrev pub max_messages_per_key : ℕ
max_messages_per_key = 1000000

abbrev pub max_data_size_per_key : ℕ
max_data_size_per_key = 100 * 1024 * 1024 * 1024

abbrev pub max_key_age_seconds : ℕ
max_key_age_seconds = 90 * 24 * 60 * 60

pub data RotationReason : Type 0 where
  message_limit data_size_limit age_limit manual : RotationReason

unfoldable pub should_rotate_key : ℕ → KeyMetadata → Option RotationReason
should_rotate_key now metadata =
    if leb max_messages_per_key metadata.message_count
    then some message_limit
    else if leb max_data_size_per_key metadata.data_size_bytes
    then some data_size_limit
    else if leb max_key_age_seconds (now - metadata.created_at)
    then some age_limit
    else none

-- `split(':')`, as the first part and the others.
unfoldable pub split_colon : Bytes → Bytes × List Bytes
split_colon [] = ([], [])
split_colon (c ∷ s) =
    let (first, others) = split_colon s in
    if c == b':' then ([], first ∷ others) else (c ∷ first, others)

-- `parts[5..].join(":")`.
abbrev pub join_colon : Bytes → List Bytes → Bytes
join_colon first [] = first
join_colon first (x ∷ xs) = first ++ (b':' ∷ join_colon x xs)

-- `parse::<u64>()`: digits after at most one plus sign, within 64 bits.
digits : ℕ → Bytes → Option ℕ
digits n [] = if ltb n (2 ^ 64) then some n else none
digits n (c ∷ s) =
    let rest = digits (n * 10 + (c - 48)) s in if in_range b'0' b'9' c then rest else none

abbrev unsigned : Bytes → Option ℕ
unsigned [] = none
unsigned (c ∷ s) = digits 0 (c ∷ s)

unfoldable pub parse_u64 : Bytes → Option ℕ
unfolding digits
parse_u64 [] = none
parse_u64 (c ∷ s) = if c == b'+' then unsigned s else unsigned (c ∷ s)

unfoldable pub parse_bool : Bytes → Option Bool
parse_bool s =
    if same_list s (codes "true")
    then some true
    else if same_list s (codes "false")
    then some false
    else none

-- `?` on an Option.
infixl 5 ◌>>=◌
abbrev ◌>>=◌ : {A B : Type 0} → Option A → (A → Option B) → Option B
none >>= k = none
(some a) >>= k = k a

abbrev pub legacy_of : Bytes × List Bytes → Option KeyMetadata
legacy_of (p0, (p1 ∷ p2 ∷ p3 ∷ p4 ∷ p5 ∷ p6 ∷ more)) = do
  created_at ← parse_u64 p0
  last_used ← parse_u64 p1
  usage_count ← parse_u64 p2
  message_count ← parse_u64 p3
  data_size_bytes ← parse_u64 p4
  is_revoked ← parse_bool p6
  some (record {
    created_at = created_at;
    last_used = last_used;
    usage_count = usage_count;
    message_count = message_count;
    data_size_bytes = data_size_bytes;
    description = join_colon p5 (p6 ∷ more);
    is_revoked = is_revoked;
  })
legacy_of _ = none

unfoldable pub parse_legacy_metadata : Bytes → Option KeyMetadata
unfolding split_colon parse_u64 parse_bool
parse_legacy_metadata s = legacy_of (split_colon s)

-- The file: a nonce of 12 bytes and the text under the key of this system.
module _ (cipher : Cipher) (system_key : Bytes) where
  unfoldable pub encrypt_keystore_data : Bytes → Bytes → Option Bytes
  encrypt_keystore_data nonce text = elim (cipher.encrypt system_key nonce text) [
    | none ↦ none
    | some ciphertext ↦ some (nonce ++ ciphertext)
  ]

  unfoldable pub decrypt_keystore_data : Bytes → Option Bytes
  decrypt_keystore_data bytes =
      if ltb (length bytes) 12
      then none
      else elim (cipher.decrypt system_key (take 12 bytes) (drop 12 bytes)) [
        | none ↦ none
        | some text ↦ if is_utf8 text then some text else none
      ]

  abbrev pub all_zero : Bytes → Bool
  all_zero [] = true
  all_zero (c ∷ s) = (c == 0) && all_zero s

  unfoldable pub is_encrypted_data : Bytes → Bool
  is_encrypted_data bytes = if ltb (length bytes) 12 then false else not (all_zero (take 12 bytes))

  -- `load_from_file` up to the INI text: what cannot be decrypted is tried as it is.
  unfoldable pub text_of_file : Bytes → Option Bytes
  unfolding is_encrypted_data decrypt_keystore_data
  text_of_file content =
      let plain = if is_utf8 content then some content else none in
      if is_encrypted_data content
      then elim (decrypt_keystore_data content) [ none ↦ plain | some text ↦ some text ]
      else plain
