-- ===== src/Tests/Socket.antt =====
-- The sockets, on examples.
use fish.Common.{
  ◌≤◌, ◌≡◌, refl, arith, ◌⊎◌, true, List, [], ◌∷◌, ◌++◌, none, Bytes, codes, crlf, length,
  split_crlf, scan, is_utf8, lookup, nat_eq,
}
use fish.Inject.Engines.{new_engines, on_incoming_irc_line}
use fish.Inject.Socket.{SocketInfo, new_socket}
use fish.Inject.Socket.Detection.{byte_at}
use fish.Inject.Socket.Tls.{on_receiving}
use fish.Inject.Socket.Tls.Stream.{on_receiving-append, on_receiving-ends}
use fish.Inject.Socket.Tls.{whole_record}
use fish.Inject.Socket.Hooks.{
  bytes_received, copied, get_or_create_socket, give_lines, receive_on, hooked_send,
}
use fish.Inject.Socket.Hooks.Invariant.{AllQuiet, start, later, Step, Reach-AllQuiet}
use fish.Inject.Socket.Hooks.Plain.{receive_on-lines, made_of}
use fish.Inject.Socket.Hooks.Receive.{give_lines_lem}
use fish.Inject.Socket.Hooks.Send.{send_run, send_run_lem}
use fish.Inject.Socket.Incoming.{ends_with_crlf}
use fish.Inject.Socket.Incoming.Lines.{incoming_all}
use fish.Inject.Socket.Incoming.Frame.{frame}
use fish.Inject.Socket.Outgoing.{full_lines}
use fish.Inject.Socket.Outgoing.Stream.{concat}

abbrev socket : SocketInfo
socket = new_socket 1 new_engines

abbrev chunks : List Bytes
chunks = codes "NICK" ∷ (codes " a" ++ crlf ++ codes "US") ∷ []

send_run_lem_example :
    ((send_run 1 chunks new_engines []).0 ≡ concat chunks)
    × ((send_run 1 chunks new_engines []).1.0
        ≡ full_lines (split_crlf (socket.outgoing_line_buffer ++ concat chunks)).ended)
    × ((get_or_create_socket 1 new_engines
          (send_run 1 chunks new_engines []).1.1).outgoing_line_buffer
        ≡ (split_crlf (socket.outgoing_line_buffer ++ concat chunks)).last)
unfolding new_socket get_or_create_socket lookup split_crlf scan is_utf8 byte_at
send_run_lem_example =
    send_run_lem 1 chunks new_engines [] refl refl ((refl, refl), ((refl, refl), tt))

-- A line that fits, and the beginning of one that does not.
abbrev unread : SocketInfo
unread = record socket { processed_incoming_buffer = 97 ∷ 13 ∷ 10 ∷ 98 ∷ 13 ∷ 10 ∷ [] }

give_lines_lem_example :
    (given : Bytes) × ((give_lines 3 unread).0 ≡ copied given)
    × (length given ≤ 3)
    × ((given ≡ []) ⊎ (ends_with_crlf given ≡ true))
    × ((lost : Bytes) × (given ++ lost ≡ unread.processed_incoming_buffer))
    × ((give_lines 3 unread).1.processed_incoming_buffer ≡ [])
give_lines_lem_example = give_lines_lem 3 unread

receive_on-lines_example :
    ((receive_on 9 (bytes_received 97 crlf) socket).0 ≡ copied (made_of socket (97 ∷ crlf)))
    × ((receive_on 9 (bytes_received 97 crlf) socket).1.received_buffer
        ≡ (split_crlf (97 ∷ crlf)).last)
    × ((receive_on 9 (bytes_received 97 crlf) socket).1.processed_incoming_buffer ≡ [])
    × (frame (receive_on 9 (bytes_received 97 crlf) socket).1 ≡ frame socket)
unfolding new_socket split_crlf scan is_utf8 incoming_all full_lines ends_with_crlf
    on_incoming_irc_line new_engines
receive_on-lines_example =
    receive_on-lines 9 97 crlf (97 ∷ crlf) socket refl refl refl (omega arith) refl (omega arith)
      refl

Reach-AllQuiet_example : AllQuiet (hooked_send 1 (codes "NICK") true new_engines []).1.1
Reach-AllQuiet_example = Reach-AllQuiet (later start (Step.send 1 (codes "NICK") true))

abbrev handshake : Bytes
handshake = 22 ∷ 3 ∷ 1 ∷ 0 ∷ 1 ∷ 1 ∷ []

on_receiving-ends_example : whole_record (on_receiving handshake socket).tls_handshake_buffer ≡ none
on_receiving-ends_example = on_receiving-ends handshake socket

on_receiving-append_example :
    on_receiving handshake (on_receiving handshake socket)
    ≡ on_receiving (handshake ++ handshake) socket
on_receiving-append_example = on_receiving-append handshake handshake socket
