-- ===== src/Env.antt =====
-- What the code takes from third-party crates and from its surroundings, as one parameter: the
-- base64, chacha20poly1305 and hkdf crates, the clock and the dates of chrono, the random source
-- and the network that mIRC reports as current. The laws state what their documents promise.
use fish.Common.{◌+◌, ◌≤◌, ◌≡◌, Option, some, Bytes, length, ℤ}

pub record Env : Type 0 where
  -- `base64::engine::general_purpose::STANDARD`.
  pub base64_encode : Bytes → Bytes
  pub base64_decode : Bytes → Option Bytes
  -- `XChaCha20Poly1305`: key, nonce, associated data, text.
  pub aead_encrypt : Bytes → Bytes → Bytes → Bytes → Option Bytes
  pub aead_decrypt : Bytes → Bytes → Bytes → Bytes → Option Bytes
  -- `Hkdf::<Sha256>` expanded to 32 bytes: salt, key material, info.
  pub hkdf : Option Bytes → Bytes → Bytes → Option Bytes
  -- `Local::now()`, in seconds, and printed as "%Y-%m-%d %H:%M:%S"; the reading of such a text.
  pub now : ℤ
  pub now_text : Bytes
  pub parse_date : Bytes → Option ℤ
  -- The network that `get_current_network` gives.
  pub current_network : Option Bytes
  -- The X25519 key pair that a call would generate, private key first, and its time as RFC 3339.
  pub fresh_private_key : Bytes
  pub fresh_public_key : Bytes
  pub creation_time : Bytes

pub record IsEnv (env : Env) : Type 0 where
  pub base64_decode-encode : (s : Bytes) → env.base64_decode (env.base64_encode s) ≡ some s
  -- A text of the size that a message may have is encrypted, with a tag of 16 bytes.
  pub encrypts :
      (key nonce aad text : Bytes)
      → length text ≤ 4096
      → (c : Bytes) × (env.aead_encrypt key nonce aad text ≡ some c) × (length c ≡ length text + 16)
  pub decrypt-encrypt :
      (key nonce aad text c : Bytes)
      → env.aead_encrypt key nonce aad text ≡ some c
      → env.aead_decrypt key nonce aad c ≡ some text
  pub parse_date-now : env.parse_date env.now_text ≡ some env.now
