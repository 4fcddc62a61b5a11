-- ===== src/Legacy/Blowfish.antt =====
-- fish_11_dll/src/crypto/blowfish.rs: messages under Blowfish, in ECB and in CBC mode. The key
-- schedule and the block functions are a parameter.
pub mod Blocks
pub mod RoundTrip
use fish.Common.{
  ℕ, zero, suc, ◌+◌, ◌-◌, ◌/◌, ◌%◌, bit_xor, Bool, List, [], ◌∷◌, ◌++◌, Option, none, some, Bytes,
  length, take, drop, replicate, leb, ◌==◌, if◌then◌else◌, is_utf8, from_utf8_lossy,
}
use fish.Errors.{Result, ok, err, DllError, ◌>>=◌}
use fish.Legacy.Base64.{fish10_b64_encode, fish10_b64_decode}
use fish.Legacy.Cipher.{BlockCipher}

-- Null padding to blocks of 8 bytes.
pad_len : Bytes → ℕ
pad_len bytes = (8 - length bytes % 8) % 8

pub padded : Bytes → Bytes
unfolding pad_len
padded bytes = bytes ++ replicate (pad_len bytes) 0

-- `iter().rposition(|&x| x != 0)`.
rposition_nonzero : Bytes → Option ℕ
rposition_nonzero [] = none
rposition_nonzero (x ∷ xs) = elim (rposition_nonzero xs) [
  | some i ↦ some (suc i)
  | none ↦ if x == 0 then none else some 0
]

-- `truncate` behind the last byte that is not null.
pub without_trailing_nulls : Bytes → Bytes
unfolding rposition_nonzero
without_trailing_nulls bytes =
    take (elim (rposition_nonzero bytes) [ none ↦ 0 | some i ↦ i + 1 ]) bytes

-- `String::from_utf8`, and the lossy reading where that refuses.
pub to_text : Bytes → Bytes
to_text bytes = if is_utf8 bytes then bytes else from_utf8_lossy bytes

-- The first 8 bytes of the key, or the key with zeros behind it.
pub iv_of_key : Bytes → Bytes
iv_of_key key = if leb 8 (length key) then take 8 key else key ++ replicate (8 - length key) 0

pub xor_bytes : Bytes → Bytes → Bytes
xor_bytes [] ys = []
xor_bytes (x ∷ xs) [] = x ∷ xs
xor_bytes (x ∷ xs) (y ∷ ys) = bit_xor x y ∷ xor_bytes xs ys

-- `block.resize(8, 0)` where the block is shorter.
pub resized : Bytes → Bytes
resized block = block ++ replicate (8 - length block) 0

-- `for chunk in bytes.chunks_exact(8)`, with `n` chunks left.
pub ecb : (Bytes → Bytes) → ℕ → Bytes → Bytes
ecb block_fn zero bytes = []
ecb block_fn (suc n) bytes = block_fn (take 8 bytes) ++ ecb block_fn n (drop 8 bytes)

-- `for chunk in bytes.chunks(8)`, with `n` chunks left.
pub cbc_encrypt : (Bytes → Bytes) → ℕ → Bytes → Bytes → Bytes
unfolding xor_bytes resized
cbc_encrypt encrypt zero previous bytes = []
cbc_encrypt encrypt (suc n) previous bytes =
    let output = encrypt (xor_bytes (resized (take 8 bytes)) previous) in
    output ++ cbc_encrypt encrypt n output (drop 8 bytes)

pub cbc_decrypt : (Bytes → Bytes) → ℕ → Bytes → Bytes → Bytes
unfolding xor_bytes
cbc_decrypt decrypt zero previous bytes = []
cbc_decrypt decrypt (suc n) previous bytes =
    xor_bytes (decrypt (take 8 bytes)) previous
    ++ cbc_decrypt decrypt n (take 8 bytes) (drop 8 bytes)

module _ (c : BlockCipher) where
  open c use {new_from_slice, encrypt_block, decrypt_block}

  pub encrypt_message : Bytes → Bytes → Result Bytes DllError
  unfolding padded ecb
  encrypt_message key plaintext = elim (new_from_slice key) [
    | none ↦ err DllError.legacy_error
    | some bf ↦
        let bytes = padded plaintext in
        fish10_b64_encode (ecb (encrypt_block bf) (length bytes / 8) bytes)
  ]

  pub decrypt_message : Bytes → Bytes → Result Bytes DllError
  unfolding without_trailing_nulls to_text ecb
  decrypt_message key ciphertext_b64 = elim (new_from_slice key) [
    | none ↦ err DllError.legacy_error
    | some bf ↦ do
      ciphertext ← fish10_b64_decode ciphertext_b64
      ok (
          to_text
            (without_trailing_nulls (ecb (decrypt_block bf) (length ciphertext / 8) ciphertext)))
  ]

  pub encrypt_message_cbc : Bytes → Bytes → Result Bytes DllError
  unfolding padded iv_of_key cbc_encrypt
  encrypt_message_cbc key plaintext = elim (new_from_slice key) [
    | none ↦ err DllError.legacy_error
    | some cipher ↦
        let bytes = padded plaintext in
        fish10_b64_encode
          (cbc_encrypt (encrypt_block cipher) ((length bytes + 7) / 8) (iv_of_key key) bytes)
  ]

  pub decrypt_message_cbc : Bytes → Bytes → Result Bytes DllError
  unfolding without_trailing_nulls to_text iv_of_key cbc_decrypt
  decrypt_message_cbc key ciphertext_b64 = do
    ciphertext ← fish10_b64_decode ciphertext_b64
    elim (new_from_slice key) [
      | none ↦ err DllError.legacy_error
      | some cipher ↦ ok (
          to_text (
            without_trailing_nulls (
              cbc_decrypt (decrypt_block cipher) ((length ciphertext + 7) / 8) (iv_of_key key)
                ciphertext)))
    ]
