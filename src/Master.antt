-- ===== src/Master.antt =====
-- fish_11_core/src/master_key: the system of the master key.
pub mod Encryption
pub mod Password
pub mod Keystore
