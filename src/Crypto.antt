-- ===== src/Crypto.antt =====
-- The XChaCha20-Poly1305 layer and the key exchange of fish_11_dll/src/crypto.
pub mod Chacha
pub mod X25519
