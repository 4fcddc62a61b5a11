-- ===== src/Inject/Socket/Hooks/Login.antt =====
-- fish_11_inject/src/hook_socket.rs: the state of a socket after the commands to log in.
use fish.Common.{
  ◌==◌, ◌≡◌, refl, ◌∙◌, ap, arith, inl, inr, Bool, true, false, ◌||◌, List, [], ◌∷◌, ◌++◌, Bytes,
  is_utf8, Bool-cases, length, ltb, starts_with, codes, split_crlf,
}
use fish.Inject.Socket.{SocketInfo, SocketState}
use fish.Inject.Socket.Detection.{
  byte_at, handle_protocol_detection, is_initial_irc_command, is_login,
}
use fish.Inject.Socket.Hooks.{identify, send_on, is_initializing}
use fish.Inject.Socket.Hooks.Send.{send_on_plain}
use fish.Inject.Socket.Outgoing.{on_sending, count_sent, process_outgoing, full_lines, send_lines}

login_first :
    (bytes : Bytes)
    → is_login bytes ≡ true
    → ((byte_at 0 bytes == 0x16) || (byte_at 0 bytes == 0x80)) ≡ false
unfolding starts_with byte_at
login_first [] h = ground (arith, h)
login_first (c ∷ s) h = ground (arith, h)

detection_login :
    (bytes : Bytes) (info : SocketInfo)
    → ltb 4 (length bytes) ≡ true
    → is_login bytes ≡ true
    → (handle_protocol_detection bytes info).state ≡ SocketState.connected
unfolding handle_protocol_detection
detection_login bytes info long login = ground (arith, long, login, login_first bytes login)

identify-bytes_sent :
    (bytes : Bytes) (info : SocketInfo)
    → (identify bytes info).stats.bytes_sent ≡ info.stats.bytes_sent
unfolding identify
identify-bytes_sent bytes info = ground arith

send_lines-state :
    (lines : List Bytes) (info : SocketInfo) → (send_lines lines info).state ≡ info.state
unfolding send_lines
send_lines-state [] info = refl
send_lines-state (line ∷ lines) info = send_lines-state lines _

count_sent-login :
    (bytes : Bytes) (info : SocketInfo)
    → info.stats.bytes_sent ≡ 0
    → ltb 4 (length bytes) ≡ true
    → is_login bytes ≡ true
    → (count_sent bytes info).state ≡ SocketState.connected
unfolding count_sent
count_sent-login bytes info first long login =
    let none_sent : (info.stats.bytes_sent == 0) ≡ true = ground (arith, first) in
    rw (none_sent) (detection_login bytes _ long login)

on_sending-login :
    (bytes : Bytes) (info : SocketInfo)
    → info.stats.bytes_sent ≡ 0
    → ltb 4 (length bytes) ≡ true
    → is_login bytes ≡ true
    → (on_sending bytes info).info.state ≡ SocketState.connected
unfolding on_sending process_outgoing
on_sending-login bytes info first long login =
    let counted = count_sent bytes info in
    let connected = count_sent-login bytes info first long login in
    let lines = full_lines (split_crlf (counted.outgoing_line_buffer ++ bytes)).ended in
    elim (Bool-cases (is_utf8 bytes)) [
      | inl e ↦ rw (e) (send_lines-state lines counted ∙ connected)
      | inr e ↦ rw (e) connected
    ]

starts_with-more : (p q s : Bytes) → starts_with (p ++ q) s ≡ true → starts_with p s ≡ true
unfolding starts_with
starts_with-more [] q s h = refl
starts_with-more (c ∷ p) q [] h = h
starts_with-more (c ∷ p) q (d ∷ s) h = ground (arith, h, starts_with-more p q s)

abbrev pub is_command : Bytes → Bool
is_command bytes =
    starts_with (codes "NICK ") bytes
    || starts_with (codes "USER ") bytes
    || starts_with (codes "PASS ") bytes
    || starts_with (codes "CAP ") bytes

command-login : (bytes : Bytes) → is_command bytes ≡ true → is_login bytes ≡ true
command-login bytes h =
    let space : Bytes = 32 ∷ [] in
    ground (
      arith,
      h,
      starts_with-more (codes "NICK") space bytes,
      starts_with-more (codes "USER") space bytes,
      starts_with-more (codes "PASS") space bytes,
    )

command-initial :
    (bytes : Bytes)
    → ltb 4 (length bytes) ≡ true
    → is_command bytes ≡ true
    → is_initial_irc_command bytes ≡ true
unfolding is_initial_irc_command
command-initial bytes long h = ground (arith, long, h)

identify-fresh :
    (bytes : Bytes) (info : SocketInfo)
    → info.stats.bytes_sent ≡ 0
    → info.state ≡ SocketState.initializing
    → is_initial_irc_command bytes ≡ true
    → (identify bytes info).state ≡ SocketState.irc_identified
unfolding identify
identify-fresh bytes info first fresh initial =
    let none_sent : (info.stats.bytes_sent == 0) ≡ true = ground (arith, first) in
    rw (initial) (rw (none_sent) (rw (ap is_initializing fresh) refl))

-- When the first bytes on a plain socket are NICK, USER, PASS or CAP and a space, the detour of send
-- notes IRC (where the socket was Initializing), and is left with the state Connected: the detection in
-- `on_sending` writes over what was noted.
pub send_on-login :
    (bytes : Bytes) (info : SocketInfo)
    → info.flags.is_ssl ≡ false
    → info.stats.bytes_sent ≡ 0
    → info.state ≡ SocketState.initializing
    → ltb 4 (length bytes) ≡ true
    → is_command bytes ≡ true
    → ((identify bytes info).state ≡ SocketState.irc_identified)
      × ((send_on bytes info).0.state ≡ SocketState.connected)
send_on-login bytes info plain first fresh long command = (
  identify-fresh bytes info first fresh (command-initial bytes long command),
  ap (λ r. r.0.state) (send_on_plain bytes info plain)
      ∙ on_sending-login bytes (identify bytes info) (identify-bytes_sent bytes info ∙ first) long
          (command-login bytes command),
)
