-- ===== src/Tests.antt =====
-- Examples: each theorem on a concrete input.
mod World
mod Keys
mod Messages
mod Legacy
mod LegacyEngine
mod Dh1080
mod Inject
mod Master
mod Socket
mod Ssl
mod Curve
mod Engine
mod Exchange
mod Commands
mod ChannelKeys
mod Private
