-- ===== src/Config.antt =====
-- The configuration of fish_11_dll/src/config: its data, its lock, and the operations on keys.
pub mod Models
pub mod Access
pub mod Keys
pub mod Networks
pub mod Channels
pub mod Manual
pub mod Settings
