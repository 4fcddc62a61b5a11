-- ===== src/Dll.antt =====
-- The handlers that mIRC calls, of fish_11_dll/src/dll_interface and
-- fish_11_dll/src/channel_encryption. A handler takes the text that mIRC passed; the copying of
-- that text and of the answer through mIRC's buffers is left out.
pub mod Decrypt
pub mod Encrypt
pub mod ChannelKey
pub mod Engine
pub mod Exchange
pub mod PublicKey
pub mod Commands
