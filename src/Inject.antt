-- ===== src/Inject.antt =====
-- fish_11_inject: the DLL that stands between mIRC and its sockets.
pub mod BufferPool
pub mod Socket
pub mod Engines
pub mod SslMapping
pub mod SslHooks
