-- ===== src/Inject/Socket/Hooks.antt =====
-- fish_11_inject/src/hook_socket.rs: the detours of recv, send, connect and closesocket, over the table
-- of active sockets. The original function is what the detour leads to: none where its mutex is not
-- got in time or no detour is installed. What a debug build does more is left out.
pub mod Receive
pub mod Plain
pub mod Send
pub mod Login
pub mod Invariant
use fish.Common.{
  ℕ, zero, suc, ◌-◌, min, ◌==◌, Bool, true, false, not, ◌&&◌, ◌||◌, List, [], ◌∷◌, ◌++◌, Option,
  none, some, Bytes, if◌then◌else◌, length, take, drop, lookup, insert, remove, nat_eq, ℤ, ltb,
}
use fish.Inject.Engines.{InjectEngines}
use fish.Inject.Socket.{SocketInfo, SocketState, new_socket, set_state, set_ssl}
use fish.Inject.Socket.Buffers.{write_received_data, get_processed_buffer, clear_processed_buffer}
use fish.Inject.Socket.Detection.{is_initial_irc_command, is_tls_handshake_packet}
use fish.Inject.Socket.Incoming.{process_received_lines}
use fish.Inject.Socket.Outgoing.{Sent, on_sending}

abbrev pub Sockets : Type 0
Sockets = List (ℕ × SocketInfo)

unfoldable pub get_or_create_socket : ℕ → InjectEngines → Sockets → SocketInfo
get_or_create_socket socket_id engines sockets = elim (lookup socket_id sockets) [
  | none ↦ new_socket socket_id engines
  | some info ↦ info
]

-- What the original recv returns: bytes in the caller's buffer, or a code that is not positive.
pub data Received : Type 0 where
  bytes_received : (c : ℕ) (s : Bytes) → Received
  no_bytes : ℤ → Received

-- What mIRC gets from the detour: the failure of `wsa_fail`, the original's answer, or a text that was
-- copied over its buffer, with its length as the answer.
pub data RecvResult : Type 0 where
  wsa_failed : RecvResult
  as_received : Received → RecvResult
  copied : Bytes → RecvResult

abbrev pub is_initializing : SocketState → Bool
is_initializing SocketState.initializing = true
is_initializing _ = false

abbrev pub is_line_feed : Bytes → Bool
is_line_feed [] = false
is_line_feed (c ∷ s) = c == 10

-- The index behind the last CR LF, 0 without one.
unfoldable pub last_boundary : Bytes → ℕ
last_boundary [] = 0
last_boundary (c ∷ s) =
    let rest = last_boundary s in
    if rest == 0 then (if (c == 13) && is_line_feed s then 2 else 0) else suc rest

-- Behind the original recv of a plain socket; `size` is `len`, a negative one counted as 0. The bytes
-- behind the boundary are stored, and cleared with the rest at the end.
unfoldable pub give_lines : ℕ → SocketInfo → RecvResult × SocketInfo
unfolding last_boundary
give_lines size info =
    let processed = get_processed_buffer info in
    let boundary = last_boundary (take (min size (length processed)) processed) in
    let kept = record info {
      processed_incoming_buffer =
          if ltb 0 boundary && ltb boundary (length processed)
          then drop boundary processed
          else processed;
    } in
    (copied (take boundary processed), clear_processed_buffer kept)

unfoldable pub receive_on : ℕ → Received → SocketInfo → RecvResult × SocketInfo
unfolding give_lines
receive_on size (bytes_received c s) info =
    if info.flags.is_ssl
    then (as_received (bytes_received c s), info)
    else give_lines size (process_received_lines (write_received_data (c ∷ s) info))
receive_on size (no_bytes code) info = (as_received (no_bytes code), info)

unfoldable pub hooked_recv :
    ℕ → ℕ → Option Received → InjectEngines → Sockets → RecvResult × Sockets
unfolding receive_on
hooked_recv s size original engines sockets =
    let info = get_or_create_socket s engines sockets in
    elim original [
      | none ↦ (wsa_failed, insert s info sockets)
      | some received ↦
          let (result, info') = receive_on size received info in (result, insert s info' sockets)
    ]

-- The look at the first packet, before it is handed to `on_sending`.
unfoldable pub identify : Bytes → SocketInfo → SocketInfo
identify bytes info =
    if (info.stats.bytes_sent == 0) && is_initializing info.state
    then (if is_initial_irc_command bytes
        then set_state SocketState.irc_identified info
        else if is_tls_handshake_packet bytes
        then set_state SocketState.tls_handshake (set_ssl true info)
        else info)
    else info

-- One socket: what is left of it, and the calls to the engines.
unfoldable pub send_on : Bytes → SocketInfo → SocketInfo × List Bytes
unfolding identify
send_on bytes info =
    if info.flags.is_ssl
    then (info, [])
    else let sent = on_sending bytes (identify bytes info) in (sent.info, sent.handed)

-- What goes out to the network: the caller's buffer, as it was given, where the original is there.
unfoldable pub hooked_send :
    ℕ → Bytes → Bool → InjectEngines → Sockets → Option Bytes × (List Bytes × Sockets)
unfolding send_on
hooked_send s buf original engines sockets =
    let info = get_or_create_socket s engines sockets in
    let (info', handed) = send_on buf info in
    (if original then some buf else none, (handed, insert s info' sockets))

-- What the original connect returns: 0, or SOCKET_ERROR with WSAGetLastError, or some other code.
pub data Connected : Type 0 where
  connect_ok : Connected
  socket_error : ℕ → Connected
  other_code : ℤ → Connected

abbrev pub wsaeintr : ℕ
wsaeintr = 10004

unfoldable pub connect_on : Connected → SocketInfo → SocketInfo
connect_on connect_ok info =
    if is_initializing info.state then set_state SocketState.connected info else info
connect_on (socket_error code) info =
    if code == wsaeintr then info else set_state SocketState.closed info
connect_on (other_code code) info = info

unfoldable pub hooked_connect : ℕ → Option Connected → InjectEngines → Sockets → Sockets
unfolding connect_on
hooked_connect s original engines sockets =
    let info = get_or_create_socket s engines sockets in
    elim original [
      | none ↦ insert s info sockets
      | some result ↦ insert s (connect_on result info) sockets
    ]

-- The engines are told, which leaves nothing behind here.
unfoldable pub hooked_closesocket : ℕ → Sockets → Sockets
hooked_closesocket s sockets = remove s sockets
