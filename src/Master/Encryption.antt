-- ===== src/Master/Encryption.antt =====
-- fish_11_core/src/master_key/encryption.rs: data encrypted under nonces that are counted. The cipher
-- is a parameter; the mutex of the one manager is never poisoned here.
pub mod Blob
pub mod NonceOrder
use fish.Common.{
  ℕ, ◌+◌, ◌-◌, ◌*◌, ◌/◌, ◌%◌, ◌^◌, ◌==◌, Bool, true, false, ◌||◌, List, [], ◌∷◌, ◌++◌, Option, none,
  some, Bytes, if◌then◌else◌, length, take, drop, ltb, lookup, insert, list_eq, replicate, ◌≡◌,
}
use fish.Errors.{Result, ok, err}

-- `u32::to_be_bytes`, `u64::to_be_bytes` and their inverses.
pub u32_bytes : ℕ → Bytes
u32_bytes w = w / 2 ^ 24 % 256 ∷ w / 2 ^ 16 % 256 ∷ w / 2 ^ 8 % 256 ∷ w % 256 ∷ []

pub u64_bytes : ℕ → Bytes
unfolding u32_bytes
u64_bytes w = u32_bytes (w / 2 ^ 32) ++ u32_bytes (w % 2 ^ 32)

pub from_be_bytes : ℕ → Bytes → ℕ
from_be_bytes w [] = w
from_be_bytes w (b ∷ s) = from_be_bytes (w * 256 + b) s

pub record EncryptedBlob : Type 0 where
  pub version : ℕ
  pub generation : ℕ
  pub nonce_counter : ℕ
  pub ciphertext : Bytes

unfoldable pub new_blob : ℕ → ℕ → Bytes → EncryptedBlob
new_blob generation nonce_counter ciphertext = record {
  version = 1;
  generation = generation;
  nonce_counter = nonce_counter;
  ciphertext = ciphertext;
}

unfoldable pub to_bytes : EncryptedBlob → Bytes
unfolding u32_bytes u64_bytes
to_bytes blob =
    (blob.version ∷ [])
    ++ (u32_bytes blob.generation ++ (u64_bytes blob.nonce_counter ++ blob.ciphertext))

unfoldable pub from_bytes : Bytes → Option EncryptedBlob
unfolding from_be_bytes
from_bytes data_bytes =
    if ltb (length data_bytes) 13
    then none
    else some (record {
      version = from_be_bytes 0 (take 1 data_bytes);
      generation = from_be_bytes 0 (take 4 (drop 1 data_bytes));
      nonce_counter = from_be_bytes 0 (take 8 (drop 5 data_bytes));
      ciphertext = drop 13 data_bytes;
    })

pub data MasterError : Type 0 where
  nonce_collision encryption_failed decryption_failed : MasterError

pub record NonceManager : Type 0 where
  pub counters : List (Bytes × ℕ)
  pub used_nonces : List (Bytes × List ℕ)

unfoldable pub new_manager : NonceManager
new_manager = record { counters = []; used_nonces = [] }

unfoldable pub get_counter : Bytes → NonceManager → ℕ
unfolding lookup
get_counter key_id manager = elim (lookup key_id manager.counters) [
  | none ↦ 0
  | some counter ↦ counter
]

unfoldable pub set_counter : Bytes → ℕ → NonceManager → NonceManager
set_counter key_id counter manager = record manager {
  counters = insert key_id counter manager.counters;
}

unfoldable pub used_of : Bytes → NonceManager → List ℕ
unfolding lookup
used_of key_id manager = elim (lookup key_id manager.used_nonces) [ none ↦ [] | some used ↦ used ]

unfoldable pub is_used : ℕ → List ℕ → Bool
is_used n [] = false
is_used n (m ∷ ms) = (m == n) || is_used n ms

-- `retain(|&n| n > min_to_keep)`.
unfoldable pub keep_above : ℕ → List ℕ → List ℕ
keep_above least [] = []
keep_above least (m ∷ ms) = let rest = keep_above least ms in if ltb least m then m ∷ rest else rest

-- The set with one more nonce, cut to a window when it grows large.
unfoldable pub with_nonce : ℕ → List ℕ → List ℕ
unfolding keep_above
with_nonce counter used =
    if ltb 10000 (length (counter ∷ used))
    then keep_above ((counter + 2 ^ 64 - 10000) % 2 ^ 64) (counter ∷ used)
    else counter ∷ used

-- Four zero bytes, then the counter.
unfoldable pub nonce_of : ℕ → Bytes
unfolding u64_bytes
nonce_of counter = replicate 4 0 ++ u64_bytes counter

-- `get_next_nonce` at the new value of the counter, which moves before the check.
unfoldable pub step_of : Bytes → NonceManager → ℕ → Result (Bytes × ℕ) MasterError × NonceManager
unfolding used_of is_used with_nonce nonce_of set_counter
step_of key_id manager counter =
    let counted = set_counter key_id counter manager in
    let used = used_of key_id manager in
    if is_used counter used
    then (
      err MasterError.nonce_collision,
      record counted { used_nonces = insert key_id used manager.used_nonces },
    )
    else (
      ok (nonce_of counter, counter),
      record counted { used_nonces = insert key_id (with_nonce counter used) manager.used_nonces },
    )

unfoldable pub get_next_nonce : Bytes → NonceManager → Result (Bytes × ℕ) MasterError × NonceManager
unfolding get_counter step_of
get_next_nonce key_id manager = step_of key_id manager ((get_counter key_id manager + 1) % 2 ^ 64)

-- The cipher: key, nonce, text.
pub record Cipher : Type 0 where
  pub encrypt : Bytes → Bytes → Bytes → Option Bytes
  pub decrypt : Bytes → Bytes → Bytes → Option Bytes

pub record IsCipher (cipher : Cipher) : Type 0 where
  pub decrypt-encrypt :
      (key nonce text c : Bytes)
      → cipher.encrypt key nonce text ≡ some c
      → cipher.decrypt key nonce c ≡ some text

module _ (cipher : Cipher) where
  unfoldable pub encrypt_data :
      Bytes → Bytes → Bytes → ℕ → NonceManager → Result EncryptedBlob MasterError × NonceManager
  unfolding get_next_nonce new_blob
  encrypt_data text key key_id generation manager =
      let (next, manager') = get_next_nonce key_id manager in
      elim next [
        | err e ↦ (err e, manager')
        | ok (nonce, counter) ↦ elim (cipher.encrypt key nonce text) [
          | none ↦ (err MasterError.encryption_failed, manager')
          | some ciphertext ↦ (ok (new_blob generation counter ciphertext), manager')
        ]
      ]

  unfoldable pub decrypt_data : EncryptedBlob → Bytes → Result Bytes MasterError
  unfolding nonce_of
  decrypt_data blob key = elim (cipher.decrypt key (nonce_of blob.nonce_counter) blob.ciphertext) [
    | none ↦ err MasterError.decryption_failed
    | some plaintext ↦ ok plaintext
  ]
