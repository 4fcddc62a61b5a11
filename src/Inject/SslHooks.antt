-- ===== src/Inject/SslHooks.antt =====
-- fish_11_inject/src/hook_ssl.rs: the detours of OpenSSL, over the map of contexts and the table of
-- sockets. What an original function returns is an argument, none where it is not to be had; whether
-- SSL_is_init_finished says that the handshake is over is one too. What a debug build does more is left
-- out.
pub mod Write
pub mod Lines
use fish.Common.{
  ℕ, zero, suc, ◌==◌, Bool, true, false, ◌&&◌, List, [], ◌∷◌, Option, none, some, Bytes,
  if◌then◌else◌, insert, nat_eq, ℤ, pos, negsuc, ltb, ltb_ℤ, not, ◌++◌,
}
use fish.Inject.Engines.{InjectEngines}
use fish.Inject.SslMapping.{SslMappings, associate, get_socket}
use fish.Inject.Socket.{SocketInfo, SocketState, set_state, set_ssl}
use fish.Inject.Socket.Buffers.{write_received_data}
use fish.Inject.Socket.Hooks.{
  Sockets, Received, bytes_received, no_bytes, RecvResult, wsa_failed, as_received, copied,
  get_or_create_socket, give_lines,
}
use fish.Inject.Socket.Incoming.{process_received_lines}
use fish.Inject.Socket.Outgoing.{on_sending}

pub record SslState : Type 0 where
  pub mappings : SslMappings
  pub sockets : Sockets

-- An answer of SSL_read: -1, what the original gave, or lines copied over it with their length.
pub data SslRead : Type 0 where
  read_failed : SslRead
  as_read : Received → SslRead
  lines_read : Bytes → SslRead

abbrev pub is_tls_handshake : SocketState → Bool
is_tls_handshake SocketState.tls_handshake = true
is_tls_handshake _ = false

-- The look at SSL_is_init_finished: none where it is not known.
unfoldable pub note_handshake : ℕ → Option Bool → InjectEngines → Sockets → Sockets
note_handshake socket_id none engines sockets = sockets
note_handshake socket_id (some false) engines sockets = sockets
note_handshake socket_id (some true) engines sockets =
    let info = get_or_create_socket socket_id engines sockets in
    insert socket_id
      (if is_tls_handshake info.state then set_state SocketState.connected info else info) sockets

-- Behind the original SSL_read of a context with a socket; give_lines is the code that hooked_recv
-- ends with, repeated here.
abbrev pub ssl_read_of : RecvResult → SslRead
ssl_read_of (copied s) = lines_read s
ssl_read_of (as_received r) = as_read r
ssl_read_of wsa_failed = read_failed

unfoldable pub read_on :
    ℕ → ℕ → Received → Option Bool → InjectEngines → Sockets → SslRead × Sockets
unfolding note_handshake give_lines
read_on socket_id num (no_bytes code) finished engines sockets =
    (as_read (no_bytes code), note_handshake socket_id finished engines sockets)
read_on socket_id num (bytes_received c s) finished engines sockets =
    let noted = note_handshake socket_id finished engines sockets in
    let info = get_or_create_socket socket_id engines noted in
    let (result, info') =
      give_lines num (process_received_lines (write_received_data (c ∷ s) info)) in
    (ssl_read_of result, insert socket_id info' noted)

-- A negative `num` is counted as 0. `original` is none where the lock or the detour is missing.
unfoldable pub hooked_ssl_read :
    ℕ → Bool → ℕ → Option Received → Option Bool → InjectEngines → SslState → SslRead × SslState
unfolding read_on
hooked_ssl_read ssl buf_is_null num original finished engines state =
    if ssl == 0
    then (read_failed, state)
    else if buf_is_null
    then (read_failed, state)
    else elim original [
      | none ↦ (read_failed, state)
      | some received ↦ elim (get_socket ssl state.mappings) [
        | none ↦ (as_read received, state)
        | some socket_id ↦
            let (result, sockets) = read_on socket_id num received finished engines state.sockets in
            (result, record state { sockets = sockets })
      ]
    ]

-- What SSL_write is called with: a null pointer with `num`, or bytes.
pub data Written : Type 0 where
  null_buffer : ℕ → Written
  buffer : Bytes → Written

-- The calls to the engines, and the socket afterwards; nothing is done with no bytes.
unfoldable pub note_written : ℕ → Written → InjectEngines → Sockets → List Bytes × Sockets
note_written socket_id (buffer (c ∷ s)) engines sockets =
    let sent = on_sending (c ∷ s) (get_or_create_socket socket_id engines sockets) in
    (sent.handed, insert socket_id sent.info sockets)
note_written socket_id _ engines sockets = ([], sockets)

abbrev is_bad_buffer : Written → Bool
is_bad_buffer (null_buffer num) = ltb 0 num
is_bad_buffer (buffer s) = false

-- What a call of SSL_write comes to: the code that it returns, the calls to the engines that were made
-- on the way, and the state; none if it does not return.
abbrev pub WriteResult : Type 0
WriteResult = Option (ℤ × (List Bytes × SslState))

-- Behind the function of ORIGINAL_SSL_WRITE: the end of the handshake is noted.
abbrev pub after_write : ℕ → Option Bool → InjectEngines → List Bytes → WriteResult → WriteResult
after_write ssl finished engines handed none = none
after_write ssl finished engines handed (some (code, (more, state))) =
    elim (get_socket ssl state.mappings) [
      | none ↦ some (code, (handed ++ more, state))
      | some socket_id ↦
          let sockets = note_handshake socket_id finished engines state.sockets in
          some (code, (handed ++ more, record state { sockets = sockets }))
    ]

-- `original` is the function that ORIGINAL_SSL_WRITE points to, on the same context and bytes, none
-- where it is not set.
unfoldable pub hooked_ssl_write :
    Option (SslState → WriteResult)
    → ℕ
    → Written
    → Option Bool
    → InjectEngines
    → SslState
    → WriteResult
unfolding note_written note_handshake
hooked_ssl_write original ssl buf finished engines state =
    if ssl == 0
    then some (negsuc 0, ([], state))
    else if is_bad_buffer buf
    then some (negsuc 0, ([], state))
    else elim (get_socket ssl state.mappings) [
      | none ↦ elim original [
        | none ↦ some (negsuc 0, ([], state))
        | some original_fn ↦ original_fn state
      ]
      | some socket_id ↦
          let (handed, sockets) = note_written socket_id buf engines state.sockets in
          let sent = record state { sockets = sockets } in
          elim original [
            | none ↦ some (negsuc 0, (handed, sent))
            | some original_fn ↦ after_write ssl finished engines handed (original_fn sent)
          ]
    ]

-- SSL_write as install_ssl_hooks leaves it: ORIGINAL_SSL_WRITE is the address that the detour is then
-- laid over, and not the trampoline, so the detour calls itself. With at most this many calls inside
-- one another.
unfoldable pub installed_ssl_write :
    ℕ → ℕ → Written → Option Bool → InjectEngines → SslState → WriteResult
unfolding hooked_ssl_write
installed_ssl_write zero ssl buf finished engines state = none
installed_ssl_write (suc n) ssl buf finished engines state =
    hooked_ssl_write (some (installed_ssl_write n ssl buf finished engines)) ssl buf finished
      engines state

-- The static ORIGINAL_SSL_SET_FD stands inside the function, and nothing sets it.
abbrev original_ssl_set_fd : Option (ℕ → ℕ → ℤ)
original_ssl_set_fd = none

-- What the function does with the original that it found.
unfoldable pub set_fd_with : Option (ℕ → ℕ → ℤ) → ℕ → ℕ → InjectEngines → SslState → ℤ × SslState
set_fd_with none ssl fd engines state = (negsuc 0, state)
set_fd_with (some func) ssl fd engines state =
    let result = func ssl fd in
    if ltb_ℤ (pos 0) result && not (ssl == 0)
    then (
      result,
      record {
        mappings = associate ssl fd state.mappings;
        sockets =
            insert fd (set_ssl true (get_or_create_socket fd engines state.sockets)) state.sockets;
      },
    )
    else (result, state)

unfoldable pub hooked_ssl_set_fd : ℕ → ℕ → InjectEngines → SslState → ℤ × SslState
unfolding set_fd_with
hooked_ssl_set_fd = set_fd_with original_ssl_set_fd

unfoldable pub store_ssl_mapping : ℕ → ℕ → Bool → SslState → SslState
store_ssl_mapping ssl socket has_get_fd state =
    if has_get_fd then record state { mappings = associate ssl socket state.mappings } else state
