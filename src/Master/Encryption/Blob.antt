-- ===== src/Master/Encryption/Blob.antt =====
-- fish_11_core/src/master_key/encryption.rs: blobs as bytes, and the text that they hold.
use fish.Common.{
  ℕ, ◌+◌, ◌*◌, ◌/◌, ◌%◌, ◌^◌, ◌<◌, ◌≡◌, refl, arith, [], ◌∷◌, ◌++◌, some, Bytes, ◌⊎◌, inl, inr,
  Bool-cases, Option-cases, list_eq,
}
use fish.Errors.{ok, err}
use fish.Master.Encryption.{
  u32_bytes, u64_bytes, from_be_bytes, EncryptedBlob, new_blob, to_bytes, from_bytes, MasterError,
  NonceManager, get_next_nonce, nonce_of, Cipher, IsCipher, encrypt_data, decrypt_data, get_counter,
  is_used, used_of,
}

from_be_bytes-u32_bytes : (w : ℕ) → w < 2 ^ 32 → from_be_bytes 0 (u32_bytes w) ≡ w
unfolding from_be_bytes u32_bytes
from_be_bytes-u32_bytes w h = omega arith

from_be_bytes-append :
    (a : ℕ) (s t : Bytes) → from_be_bytes a (s ++ t) ≡ from_be_bytes (from_be_bytes a s) t
unfolding from_be_bytes
from_be_bytes-append a [] t = refl
from_be_bytes-append a (b ∷ s) t = from_be_bytes-append (a * 256 + b) s t

from_be_bytes_high : (a w : ℕ) → w < 2 ^ 32 → from_be_bytes a (u32_bytes w) ≡ a * 2 ^ 32 + w
unfolding from_be_bytes u32_bytes
from_be_bytes_high a w h = omega arith

from_be_bytes-u64_bytes : (w : ℕ) → w < 2 ^ 64 → from_be_bytes 0 (u64_bytes w) ≡ w
unfolding u64_bytes
from_be_bytes-u64_bytes w h =
    rw (from_be_bytes-append 0 (u32_bytes (w / 2 ^ 32)) (u32_bytes (w % 2 ^ 32))) (
      rw (from_be_bytes-u32_bytes (w / 2 ^ 32) (omega arith))
        (rw (from_be_bytes_high (w / 2 ^ 32) (w % 2 ^ 32) (omega arith)) (omega arith)))

-- A blob whose numbers fit their machine widths is read back from its bytes.
pub from_bytes-to_bytes :
    (blob : EncryptedBlob)
    → blob.generation < 2 ^ 32
    → blob.nonce_counter < 2 ^ 64
    → from_bytes (to_bytes blob) ≡ some blob
unfolding from_bytes to_bytes u32_bytes u64_bytes
from_bytes-to_bytes blob g n =
    grind (
      arith,
      from_be_bytes-u32_bytes blob.generation g,
      from_be_bytes-u64_bytes blob.nonce_counter n,
    )

-- The nonce that is given stands for its counter.
get_next_nonce-nonce_of :
    (key_id : Bytes) (manager : NonceManager)
    → ((e : MasterError) × ((get_next_nonce key_id manager).0 ≡ err e))
      ⊎ ((counter : ℕ) × ((get_next_nonce key_id manager).0 ≡ ok (nonce_of counter, counter)))
unfolding get_next_nonce
get_next_nonce-nonce_of key_id manager =
    let counter = (get_counter key_id manager + 1) % 2 ^ 64 in
    elim (Bool-cases (is_used counter (used_of key_id manager))) [
      | inl used ↦ inl (MasterError.nonce_collision, rw (used, get_next_nonce) refl)
      | inr unused ↦ inr (counter, rw (unused, get_next_nonce) refl)
    ]

-- With a cipher that decrypts what it encrypted, data for which `encrypt_data` returned a blob is
-- what `decrypt_data` gives for the blob and the same key, whatever nonces were given before.
pub decrypt_data-encrypt_data :
    (cipher : Cipher)
    → IsCipher cipher
    → (text key key_id : Bytes) (generation : ℕ) (manager after : NonceManager)
      (blob : EncryptedBlob)
    → encrypt_data cipher text key key_id generation manager ≡ (ok blob, after)
    → decrypt_data cipher blob key ≡ ok text
unfolding encrypt_data decrypt_data new_blob
decrypt_data-encrypt_data cipher laws text key key_id generation manager after blob sealed =
    elim (get_next_nonce-nonce_of key_id manager) [
      | inl (e, refused) ↦ ground (arith, refused)
      | inr (counter, given) ↦ elim (Option-cases (cipher.encrypt key (nonce_of counter) text)) [
        | inl failed ↦ ground (arith, given, failed)
        | inr (c, made) ↦
            ground (arith, given, made, laws.decrypt-encrypt key (nonce_of counter) text c made)
      ]
    ]
