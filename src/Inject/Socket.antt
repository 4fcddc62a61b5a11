-- ===== src/Inject/Socket.antt =====
-- fish_11_inject/src/socket/state.rs, info.rs and dispatcher.rs: what is kept for a socket. One thread
-- runs alone, so every lock is free when it is asked for.
pub mod Buffers
pub mod Detection
pub mod Tls
pub mod Outgoing
pub mod Incoming
pub mod Hooks
use fish.Common.{ℕ, ◌+◌, ◌%◌, ◌^◌, Bool, true, false, List, [], Option, none, some, Bytes}
use fish.Inject.Engines.{InjectEngines}

pub data SocketState : Type 0 where
  initializing : SocketState
  tls_handshake : SocketState
  connected : SocketState
  irc_identified : SocketState
  closed : SocketState

pub record SocketFlags : Type 0 where
  pub is_ssl : Bool
  pub ssl_handshake_complete : Bool
  pub used_starttls : Bool

pub record SocketStats : Type 0 where
  pub bytes_sent : ℕ
  pub lines_sent : ℕ
  pub lines_encrypted : ℕ
  pub bytes_received : ℕ
  pub lines_received : ℕ
  pub lines_decrypted : ℕ

pub record SocketInfo : Type 0 where
  pub socket : ℕ
  pub engines : InjectEngines
  pub network_name : Option Bytes
  pub state : SocketState
  pub flags : SocketFlags
  pub stats : SocketStats
  pub received_buffer : Bytes
  pub processed_incoming_buffer : Bytes
  pub incoming_line_buffer : Bytes
  pub outgoing_line_buffer : Bytes
  pub tls_handshake_buffer : Bytes

-- `SocketInfo::new`.
unfoldable pub new_socket : ℕ → InjectEngines → SocketInfo
new_socket socket engines = record {
  socket = socket;
  engines = engines;
  network_name = none;
  state = SocketState.initializing;
  flags = record { is_ssl = false; ssl_handshake_complete = false; used_starttls = false };
  stats = record {
    bytes_sent = 0;
    lines_sent = 0;
    lines_encrypted = 0;
    bytes_received = 0;
    lines_received = 0;
    lines_decrypted = 0;
  };
  received_buffer = [];
  processed_incoming_buffer = [];
  incoming_line_buffer = [];
  outgoing_line_buffer = [];
  tls_handshake_buffer = [];
}

-- A `usize` of the 32-bit target, which a release build lets wrap.
abbrev pub add_usize : ℕ → ℕ → ℕ
add_usize a b = (a + b) % 2 ^ 32

abbrev pub set_network_name : Bytes → SocketInfo → SocketInfo
set_network_name name info = record info { network_name = some name }

abbrev pub set_state : SocketState → SocketInfo → SocketInfo
set_state state info = record info { state = state }

abbrev pub set_ssl : Bool → SocketInfo → SocketInfo
set_ssl is_ssl info = record info { flags = record info.flags { is_ssl = is_ssl } }

abbrev pub set_ssl_handshake_complete : Bool → SocketInfo → SocketInfo
set_ssl_handshake_complete complete info = record info {
  flags = record info.flags { ssl_handshake_complete = complete };
}

-- `_notify_close`; the engines' callbacks for a closed socket are called in between and leave
-- nothing behind here. `tls_handshake_buffer` is not among what is cleared.
unfoldable pub notify_close : SocketInfo → SocketInfo
notify_close info = record (set_state SocketState.closed info) {
  received_buffer = [];
  processed_incoming_buffer = [];
  incoming_line_buffer = [];
  outgoing_line_buffer = [];
}
