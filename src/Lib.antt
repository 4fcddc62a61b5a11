-- ===== src/Lib.antt =====
-- FiSH 11: encrypted IRC messages for mIRC. The DLL (fish_11_dll) encrypts and decrypts messages
-- under keys that its configuration holds, the inject DLL (fish_11_inject) passes the lines of mIRC's
-- sockets through registered engines, and the core (fish_11_core) holds what they share.
--
-- What models what:
--   Errors: fish_11_dll/src/error.rs and unified_error.rs, the kinds of errors without their texts.
--   Env: the crates base64, chacha20poly1305, hkdf and chrono, the random source and the current
--     network, as a record of functions; IsEnv holds the laws that their documents promise.
--   Config.Models: config/models.rs of fish_11_dll/src: FishConfig, RatchetState, NonceCache.
--   Config.Access: config/config_access.rs: an operation is told what its thread holds of the one
--     RwLock and takes the configuration to an outcome and the configuration left behind; `blocked`
--     is a thread that waits for its own lock. Counters: the counters of config/mod.rs.
--   Config.Keys: config/key_management.rs with networks.rs: set_key, get_key, delete_key, lives of keys.
--   Config.Networks: config/networks.rs and topics.rs: renaming, merging and deleting networks.
--   Config.Channels, Config.Manual: channel_keys.rs, channel_key_utils.rs, state_management.rs,
--     manual_channel_keys.rs and the removals of config/mod.rs.
--   Crypto.Chacha: crypto/chacha20.rs; a random nonce is an argument.
--   Crypto.X25519: crypto/x25519.rs, over the curve with its laws.
--   Legacy: crypto/blowfish.rs, the messages and the base64 of FiSH 10, over any block cipher.
--   Legacy.Dh1080: crypto/dh1080.rs, over the functions of num_bigint, base64 and sha2 with their laws.
--   Utils: utils.rs and dll_interface/utility.rs, normalisation and parsing of targets.
--   Dll.Decrypt, Dll.Encrypt: dll_interface/fish11_decryptmsg.rs and fish11_encryptmsg.rs, from the
--     parsed input to the outcome, which call Utils, Config and Crypto as the handlers do.
--   Dll.Engine: engine_registration.rs: the lines of IRC that the inject DLL hands over, in both directions
--     (Outgoing, Incoming), with the ciphers and the keys of Crypto, Legacy and Config.
--   Dll.Exchange, Dll.PublicKey: dll_interface/fish11_exchangekey.rs and key_management.rs, the two ends of an
--     exchange of keys. Dll.Commands: the other commands for keys, topics and the prefix.
--   Legacy.Detection: legacy/fish10_message_detection.rs. Legacy.Keys: legacy/fish10_key_management.rs and
--     fish10_encryption.rs. Legacy.Engine: legacy/fish10_engine.rs. Legacy.Commands, Legacy.Topics:
--     dll_interface/fish_10 and legacy/fish10_topics.rs.
--   Config.Settings: config/settings.rs.
--   Dll.ChannelKey: channel_encryption/init_key.rs and process_key.rs.
--   Inject.Engines, Inject.BufferPool: fish_11_inject/src/engines.rs and buffer_pool.rs.
--   Inject.Socket: fish_11_inject/src/socket: the state of a socket (Buffers, Detection, Tls), the lines on
--     their way to the engines and back (Outgoing, Incoming), and hook_socket.rs (Hooks), whose detours
--     go through the table of sockets; the original functions of Winsock are arguments.
--   Inject.SslHooks: fish_11_inject/src/hook_ssl.rs, the detours of SSL_read, SSL_write and
--     SSL_set_fd, which use Inject.SslMapping and the lines of Inject.Socket.
--   Inject.SslMapping: fish_11_inject/src/ssl_mapping.rs, with DashMap waiting for itself where a removal
--     meets a reference that the thread holds.
--   Master.Encryption: fish_11_core/src/master_key/encryption.rs.
--   Master.Password: master_key/password_validation.rs, over the tables of Unicode.
--   Master.Keystore: master_key/keystore.rs and rotation.rs: counters, what is known of keys, and the
--     encrypted file, over the cipher.
--   Tests: each theorem on a concrete input, with small stand-ins for the crates.
--
-- How it is modelled: a text is the list of its bytes, and `trim` and `to_lowercase` are those of
-- ASCII; a HashMap is an association list; machine integers wrap where the source lets them, and
-- seconds in an i64 are integers whose sums wrap as in a release build; loops are structural recursion,
-- over the number of whole blocks for the ciphers, which is the number that the source computes, so no fuel can run out; the
-- loop over TLS records has as many rounds as bytes, and is proved to end before;
-- SSL_write, which calls itself, is given a bound on such calls, and what is said holds for every bound. One thread runs alone: what
-- another thread does between two calls is not modelled.
-- Left out are logging, the clearing of memory, the writing of files, the texts of errors and notices,
-- and whole parts of the program: the INI files, the derivation of the master key, the loading of the DLLs,
--   and the commands for the master key.
pub mod Common
pub mod Errors
pub mod Env
pub mod Utils
pub mod Legacy
pub mod Config
pub mod Crypto
pub mod Dll
pub mod Inject
pub mod Master
pub mod Tests
