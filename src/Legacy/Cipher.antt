-- ===== src/Legacy/Cipher.antt =====
-- The `blowfish` crate as fish_11_dll/src/crypto/blowfish.rs uses it: a block cipher on blocks of
-- 8 bytes, with the laws that the round trips rely on. It is not code of this repository.
use fish.Common.{ℕ, ◌<◌, ◌≡◌, Option, Bytes, length, All}

abbrev pub IsByte : ℕ → Type 0
IsByte c = c < 256

-- A slice of 8 bytes.
pub record IsBlock (b : Bytes) : Type 0 where
  pub eight : length b ≡ 8
  pub bytes : All IsByte b

pub record BlockCipher : Type 1 where
  pub Schedule : Type 0
  -- `new_from_slice`: refuses a key of a length that Blowfish does not take.
  pub new_from_slice : Bytes → Option Schedule
  pub encrypt_block : Schedule → Bytes → Bytes
  pub decrypt_block : Schedule → Bytes → Bytes

pub record IsBlockCipher (c : BlockCipher) : Type 0 where
  pub encrypt_block-IsBlock :
      (k : c.Schedule) (b : Bytes) → IsBlock b → IsBlock (c.encrypt_block k b)
  pub decrypt-encrypt :
      (k : c.Schedule) (b : Bytes) → IsBlock b → c.decrypt_block k (c.encrypt_block k b) ≡ b
