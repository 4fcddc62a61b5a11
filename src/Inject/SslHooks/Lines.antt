-- ===== src/Inject/SslHooks/Lines.antt =====
-- fish_11_inject/src/hook_ssl.rs and hook_socket.rs: what SSL_read gives to mIRC from a context that
-- is associated with a socket.
use fish.Common.{
  ℕ, ◌==◌, ◌≡◌, ◌≤◌, ◌⊎◌, refl, ◌∙◌, ap, arith, Bool, true, false, [], ◌∷◌, Option, none, some,
  Bytes, if◌then◌else◌, length, lookup, insert, nat_eq, lookup-insert_self,
}
use fish.Inject.Engines.{InjectEngines}
use fish.Inject.SslMapping.{get_socket}
use fish.Inject.Socket.{SocketInfo, SocketState, set_state}
use fish.Inject.Socket.Buffers.{write_received_data}
use fish.Inject.Socket.Hooks.{
  Sockets, Received, bytes_received, no_bytes, as_received, get_or_create_socket, give_lines,
  receive_on,
}
use fish.Inject.Socket.Hooks.Receive.{give_lines_lem}
use fish.Inject.Socket.Incoming.{process_received_lines, ends_with_crlf}
use fish.Inject.Socket.Incoming.Frame.{process_received_lines-frame}
use fish.Inject.SslHooks.{
  SslState, SslRead, lines_read, note_handshake, ssl_read_of, read_on, is_tls_handshake,
  hooked_ssl_read,
}

abbrev is_ssl_on : ℕ → InjectEngines → Sockets → Bool
is_ssl_on fd engines sockets = (get_or_create_socket fd engines sockets).flags.is_ssl

get_or_create_socket-insert :
    (fd : ℕ) (info : SocketInfo) (engines : InjectEngines) (sockets : Sockets)
    → get_or_create_socket fd engines (insert fd info sockets) ≡ info
unfolding get_or_create_socket
get_or_create_socket-insert fd info engines sockets =
    ground (arith, lookup-insert_self fd info sockets)

connected-is_ssl :
    (b : Bool) (info : SocketInfo)
    → (if b then set_state SocketState.connected info else info).flags.is_ssl ≡ info.flags.is_ssl
connected-is_ssl true info = refl
connected-is_ssl false info = refl

note_handshake-is_ssl :
    (fd : ℕ) (finished : Option Bool) (engines : InjectEngines) (sockets : Sockets)
    → is_ssl_on fd engines (note_handshake fd finished engines sockets)
      ≡ is_ssl_on fd engines sockets
unfolding note_handshake
note_handshake-is_ssl fd none engines sockets = refl
note_handshake-is_ssl fd (some false) engines sockets = refl
note_handshake-is_ssl fd (some true) engines sockets =
    let info = get_or_create_socket fd engines sockets in
    let b = is_tls_handshake info.state in
    ap (λ i. i.flags.is_ssl) (get_or_create_socket-insert fd _ engines sockets)
    ∙ connected-is_ssl b info

give_lines-is_ssl :
    (size : ℕ) (info : SocketInfo) → (give_lines size info).1.flags.is_ssl ≡ info.flags.is_ssl
unfolding give_lines
give_lines-is_ssl size info = refl

write_received_data-is_ssl :
    (s : Bytes) (info : SocketInfo) → (write_received_data s info).flags.is_ssl ≡ info.flags.is_ssl
unfolding write_received_data
write_received_data-is_ssl s info = refl

receive_on-ssl :
    (size : ℕ) (r : Received) (info : SocketInfo)
    → info.flags.is_ssl ≡ true
    → receive_on size r info ≡ (as_received r, info)
unfolding receive_on
receive_on-ssl size (bytes_received c s) info h = rw (h) refl
receive_on-ssl size (no_bytes code) info h = refl

-- What an answer of SSL_read and the socket that it leaves promise: the answer is whole lines that fit,
-- the socket holds nothing back for the next answer, and recv passes the encrypted bytes as they are.
abbrev pub IsAnswered : ℕ → ℕ → SslRead × Sockets → Type 0
IsAnswered fd num (result, sockets) =
    ((given : Bytes) × (result ≡ lines_read given)
      × (length given ≤ num)
      × ((given ≡ []) ⊎ (ends_with_crlf given ≡ true)))
    × ((info : SocketInfo) × (lookup fd sockets ≡ some info)
        × (info.processed_incoming_buffer ≡ [])
        × ((size : ℕ) (r : Received) → receive_on size r info ≡ (as_received r, info)))

read_on-IsAnswered :
    (fd num c : ℕ) (s : Bytes) (finished : Option Bool) (engines : InjectEngines)
    (sockets : Sockets)
    → is_ssl_on fd engines sockets ≡ true
    → IsAnswered fd num (read_on fd num (bytes_received c s) finished engines sockets)
unfolding read_on
read_on-IsAnswered fd num c s finished engines sockets h =
    let noted = note_handshake fd finished engines sockets in
    let info = get_or_create_socket fd engines noted in
    let stored = write_received_data (c ∷ s) info in
    let done = process_received_lines stored in
    let left = (give_lines num done).1 in
    let kept : left.flags.is_ssl ≡ true =
      give_lines-is_ssl num done
      ∙ (ap (λ f. f.1.1.0) (process_received_lines-frame stored)
          ∙ (write_received_data-is_ssl (c ∷ s) info
              ∙ (note_handshake-is_ssl fd finished engines sockets ∙ h))) in
    let (given, result, fits, whole, lost, nothing) = give_lines_lem num done in
    (
      (given, ap ssl_read_of result, fits, whole),
      (left, lookup-insert_self fd left noted, nothing, λ size r. receive_on-ssl size r left kept),
    )

hooked_ssl_read-tied :
    (ssl fd num : ℕ) (r : Received) (finished : Option Bool) (engines : InjectEngines)
    (state : SslState)
    → (ssl == 0) ≡ false
    → get_socket ssl state.mappings ≡ some fd
    → let (result, sockets) = read_on fd num r finished engines state.sockets in
      hooked_ssl_read ssl false num (some r) finished engines state
      ≡ (result, record state { sockets = sockets })
unfolding hooked_ssl_read
hooked_ssl_read-tied ssl fd num r finished engines state h k = ground (arith, h, k)

-- For a context that is associated with a socket marked as using SSL, SSL_read answers a chunk with
-- whole lines that fit the buffer of mIRC, or with none; nothing is left for the next answer, and recv
-- on the socket passes on whatever it receives.
pub hooked_ssl_read-mapped :
    (ssl fd num c : ℕ) (s : Bytes) (finished : Option Bool) (engines : InjectEngines)
    (state : SslState)
    → (ssl == 0) ≡ false
    → get_socket ssl state.mappings ≡ some fd
    → is_ssl_on fd engines state.sockets ≡ true
    → let (result, after) =
        hooked_ssl_read ssl false num (some (bytes_received c s)) finished engines state in
      IsAnswered fd num (result, after.sockets)
hooked_ssl_read-mapped ssl fd num c s finished engines state given mapped marked =
    let r = bytes_received c s in
    rw (hooked_ssl_read-tied ssl fd num r finished engines state given mapped)
      (read_on-IsAnswered fd num c s finished engines state.sockets marked)
