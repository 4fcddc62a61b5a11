-- ===== src/Inject/Socket/Hooks/Send.antt =====
-- fish_11_inject/src/hook_socket.rs: what goes out when mIRC sends on a plain socket.
use fish.Common.{
  ℕ, ◌==◌, ◌≡◌, refl, ◌∙◌, ap, arith, inl, inr, true, false, ◌||◌, List, [], ◌∷◌, ◌++◌, none, some,
  Bytes, All, is_utf8, Bool-cases, split_crlf, if◌then◌else◌, lookup-insert_self, nat_eq,
}
use fish.Inject.Engines.{InjectEngines}
use fish.Inject.Socket.{SocketInfo, new_socket}
use fish.Inject.Socket.Detection.{byte_at, handle_protocol_detection, is_tls_handshake_packet}
use fish.Inject.Socket.Hooks.{Sockets, get_or_create_socket, identify, send_on, hooked_send}
use fish.Inject.Socket.Outgoing.{on_sending, count_sent, process_outgoing, full_lines, send_lines}
use fish.Inject.Socket.Outgoing.Stream.{
  concat, on_sending-lines, waiting-IsSettled, stream_step, stream_end, IsSettled,
}

-- UTF-8 that does not begin as TLS does.
abbrev pub IsText : Bytes → Type 0
IsText bytes =
    (is_utf8 bytes ≡ true) × (((byte_at 0 bytes == 0x16) || (byte_at 0 bytes == 0x80)) ≡ false)

identify_text :
    (bytes : Bytes) (info : SocketInfo)
    → IsText bytes
    → ((identify bytes info).flags.is_ssl ≡ info.flags.is_ssl)
      × ((identify bytes info).outgoing_line_buffer ≡ info.outgoing_line_buffer)
unfolding identify is_tls_handshake_packet
identify_text bytes info (valid, text) = ground (arith, text)

detection_text :
    (bytes : Bytes) (info : SocketInfo)
    → IsText bytes
    → (handle_protocol_detection bytes info).flags.is_ssl ≡ info.flags.is_ssl
unfolding handle_protocol_detection
detection_text bytes info (valid, text) = ground (arith, text)

-- The sends of several chunks on one socket: what went out, the calls to the engines, the table.
unfoldable pub send_run : ℕ → List Bytes → InjectEngines → Sockets → Bytes × (List Bytes × Sockets)
send_run s [] engines sockets = ([], ([], sockets))
send_run s (chunk ∷ chunks) engines sockets =
    let (sent, (handed, sockets')) = hooked_send s chunk true engines sockets in
    let (later, (handed', sockets'')) = send_run s chunks engines sockets' in
    (elim sent [ none ↦ later | some buf ↦ buf ++ later ], (handed ++ handed', sockets''))

send_lines-ssl :
    (lines : List Bytes) (info : SocketInfo)
    → (send_lines lines info).flags.is_ssl ≡ info.flags.is_ssl
unfolding send_lines
send_lines-ssl [] info = refl
send_lines-ssl (line ∷ lines) info = send_lines-ssl lines _

count_sent-ssl :
    (bytes : Bytes) (info : SocketInfo)
    → IsText bytes
    → (count_sent bytes info).flags.is_ssl ≡ info.flags.is_ssl
unfolding count_sent
count_sent-ssl bytes info text = elim (Bool-cases (info.stats.bytes_sent == 0)) [
  | inl e ↦ rw (e) (detection_text bytes _ text)
  | inr e ↦ rw (e) refl
]

on_sending-ssl :
    (bytes : Bytes) (info : SocketInfo)
    → IsText bytes
    → (on_sending bytes info).info.flags.is_ssl ≡ info.flags.is_ssl
unfolding on_sending process_outgoing
on_sending-ssl bytes info text = rw (text.0) (
    send_lines-ssl
      (full_lines (split_crlf ((count_sent bytes info).outgoing_line_buffer ++ bytes)).ended)
      (count_sent bytes info)
    ∙ count_sent-ssl bytes info text)

pub send_on_plain :
    (bytes : Bytes) (info : SocketInfo)
    → info.flags.is_ssl ≡ false
    → let sent = on_sending bytes (identify bytes info) in
      send_on bytes info ≡ (sent.info, sent.handed)
unfolding send_on
send_on_plain bytes info plain =
    let sent = on_sending bytes (identify bytes info) in
    ap (λ b. if b then (info, []) else (sent.info, sent.handed)) plain

-- One chunk of text on a plain socket.
send_on_text :
    (bytes : Bytes) (info : SocketInfo)
    → info.flags.is_ssl ≡ false
    → IsText bytes
    → let (info', handed) = send_on bytes info in
      let lines = split_crlf (info.outgoing_line_buffer ++ bytes) in
      (info'.flags.is_ssl ≡ false)
      × (handed ≡ full_lines lines.ended)
      × (info'.outgoing_line_buffer ≡ lines.last)
send_on_text bytes info plain text =
    let seen = identify bytes info in
    let (still_plain, same) = identify_text bytes info text in
    let (handed, waiting) = on_sending-lines bytes seen text.0 in
    let by_buffer = ap (λ b. split_crlf (b ++ bytes)) same in
    rw (send_on_plain bytes info plain) (
      on_sending-ssl bytes seen text ∙ still_plain ∙ plain,
      handed ∙ ap (λ l. full_lines l.ended) by_buffer,
      waiting ∙ ap (λ l. l.last) by_buffer,
    )

hooked_send-socket :
    (s : ℕ) (buf : Bytes) (engines : InjectEngines) (sockets : Sockets)
    → let info = get_or_create_socket s engines sockets in
      let (sent, (handed, sockets')) = hooked_send s buf true engines sockets in
      (sent ≡ some buf)
      × (handed ≡ (send_on buf info).1)
      × (get_or_create_socket s engines sockets' ≡ (send_on buf info).0)
unfolding hooked_send get_or_create_socket
hooked_send-socket s buf engines sockets = (
  refl,
  refl,
  ap (λ o. elim o [ none ↦ new_socket s engines | some info ↦ info ])
      (lookup-insert_self s _ sockets),
)

-- On a plain socket, text that mIRC sends in any chunks goes out byte for byte as mIRC gave it, though
-- the engines are called with its lines: with the non-empty lines of what was waiting and all the
-- chunks together, in order; what follows the last end of line waits.
pub send_run_lem :
    (s : ℕ) (chunks : List Bytes) (engines : InjectEngines) (sockets : Sockets)
    → (get_or_create_socket s engines sockets).flags.is_ssl ≡ false
    → IsSettled (get_or_create_socket s engines sockets).outgoing_line_buffer
    → All IsText chunks
    → let info = get_or_create_socket s engines sockets in
      let (sent, (handed, sockets')) = send_run s chunks engines sockets in
      let stream = split_crlf (info.outgoing_line_buffer ++ concat chunks) in
      (sent ≡ concat chunks)
      × (handed ≡ full_lines stream.ended)
      × ((get_or_create_socket s engines sockets').outgoing_line_buffer ≡ stream.last)
unfolding send_run
send_run_lem s [] engines sockets plain settled texts =
    let waiting = (get_or_create_socket s engines sockets).outgoing_line_buffer in
    let (handed, left) = stream_end waiting settled in (refl, handed, left)
send_run_lem s (chunk ∷ chunks) engines sockets plain settled texts =
    let info = get_or_create_socket s engines sockets in
    let sockets' = (hooked_send s chunk true engines sockets).1.1 in
    let info' = get_or_create_socket s engines sockets' in
    let (sent, is_handed, is_info) = hooked_send-socket s chunk engines sockets in
    let (still_plain, handed, left) = send_on_text chunk info plain texts.0 in
    let waiting = ap (λ i. i.outgoing_line_buffer) is_info ∙ left in
    let (sent', handed', left') =
      send_run_lem s chunks engines sockets' (ap (λ i. i.flags.is_ssl) is_info ∙ still_plain)
        (waiting-IsSettled info'.outgoing_line_buffer (info.outgoing_line_buffer ++ chunk) waiting)
        texts.1 in
    let later = (send_run s chunks engines sockets').0 in
    let (lines, at_end) =
      stream_step info.outgoing_line_buffer chunk (concat chunks) info'.outgoing_line_buffer _ _ _
        (is_handed ∙ handed) waiting handed' left' in
    (
      ap (λ o. elim o [ none ↦ later | some buf ↦ buf ++ later ]) sent ∙ ap (chunk ++◌) sent',
      lines,
      at_end,
    )
