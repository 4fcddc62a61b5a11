-- ===== src/Legacy.antt =====
-- The FiSH 10 compatibility code of fish_11_dll/src/crypto and fish_11_dll/src/legacy.
pub mod Base64
pub mod Cipher
pub mod Blowfish
pub mod Dh1080
pub mod Detection
pub mod Keys
pub mod Engine
pub mod Commands
pub mod Topics
