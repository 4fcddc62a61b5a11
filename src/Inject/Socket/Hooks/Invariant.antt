-- ===== src/Inject/Socket/Hooks/Invariant.antt =====
-- fish_11_inject/src/hook_socket.rs: what holds of every socket between two calls of the detours, in
-- whatever order mIRC and the network bring them about.
use fish.Common.{
  ℕ, ◌==◌, ◌≡◌, refl, ◌∙◌, ap, arith, inl, inr, Bool, false, List, [], ◌∷◌, ◌++◌, Option, none,
  some, Bytes, All, is_utf8, Bool-cases, split_crlf, scan, split_crlf-last, if◌then◌else◌, lookup,
  insert, remove, nat_eq,
}
use fish.Inject.Engines.{InjectEngines}
use fish.Inject.Socket.{SocketInfo, new_socket}
use fish.Inject.Socket.Hooks.{
  Sockets, Received, Connected, get_or_create_socket, receive_on, send_on, connect_on, identify,
  give_lines, hooked_recv, hooked_send, hooked_connect, hooked_closesocket, bytes_received,
  no_bytes, connect_ok, socket_error, other_code, is_initializing, wsaeintr, as_received,
  RecvResult,
}
use fish.Inject.Socket.Incoming.{is_empty, process_received_lines}
use fish.Inject.Socket.Incoming.Frame.{
  process_received_lines-frame, process_received_lines-IsSettled,
}
use fish.Inject.Socket.Hooks.Plain.{append-some}
use fish.Inject.Socket.Outgoing.{on_sending, count_sent, process_outgoing, full_lines, send_lines}
use fish.Inject.Socket.Outgoing.Stream.{IsSettled}
use fish.Inject.Socket.Buffers.{write_received_data}
use fish.Inject.Socket.Detection.{handle_protocol_detection}

-- One call of a detour.
pub data Step (engines : InjectEngines) (sockets : Sockets) : Sockets → Type 0 where
  recv :
      (s size : ℕ) (original : Option Received)
      → Step engines sockets (hooked_recv s size original engines sockets).1
  send :
      (s : ℕ) (buf : Bytes) (original : Bool)
      → Step engines sockets (hooked_send s buf original engines sockets).1.1
  connect :
      (s : ℕ) (original : Option Connected)
      → Step engines sockets (hooked_connect s original engines sockets)
  close : (s : ℕ) → Step engines sockets (hooked_closesocket s sockets)

-- The tables that come about, from the empty one.
pub data Reach (engines : InjectEngines) : Sockets → Type 0 where
  start : Reach engines []
  later :
      {sockets next : Sockets}
      → Reach engines sockets
      → Step engines sockets next
      → Reach engines next

-- No text with an end of line is held back in either direction, and nothing waits to be read.
abbrev pub IsQuiet : SocketInfo → Type 0
IsQuiet info =
    IsSettled info.outgoing_line_buffer
    × IsSettled info.received_buffer
    × (info.processed_incoming_buffer ≡ [])

abbrev pub AllQuiet : Sockets → Type 0
AllQuiet sockets = All (λ entry. IsQuiet entry.1) sockets

IsSettled-nil : IsSettled []
unfolding split_crlf scan
IsSettled-nil = refl

get_or_create_socket-IsQuiet :
    (s : ℕ) (engines : InjectEngines) (sockets : Sockets)
    → AllQuiet sockets
    → IsQuiet (get_or_create_socket s engines sockets)
unfolding get_or_create_socket lookup new_socket
get_or_create_socket-IsQuiet s engines [] quiet = (IsSettled-nil, IsSettled-nil, refl)
get_or_create_socket-IsQuiet s engines ((t, info) ∷ sockets) quiet = elim (Bool-cases (t == s)) [
  | inl e ↦ rw (e, get_or_create_socket) quiet.0
  | inr e ↦ rw (e, get_or_create_socket) (get_or_create_socket-IsQuiet s engines sockets quiet.1)
]

insert-AllQuiet :
    (s : ℕ) (info : SocketInfo) (sockets : Sockets)
    → AllQuiet sockets
    → IsQuiet info
    → AllQuiet (insert s info sockets)
unfolding insert
insert-AllQuiet s info [] quiet now = (now, tt)
insert-AllQuiet s info ((t, old) ∷ sockets) quiet now = elim (Bool-cases (t == s)) [
  | inl e ↦ rw (e) (now, quiet.1)
  | inr e ↦ rw (e) (quiet.0, insert-AllQuiet s info sockets quiet.1 now)
]

remove-AllQuiet : (s : ℕ) (sockets : Sockets) → AllQuiet sockets → AllQuiet (remove s sockets)
unfolding remove
remove-AllQuiet s [] quiet = tt
remove-AllQuiet s ((t, old) ∷ sockets) quiet = elim (Bool-cases (t == s)) [
  | inl e ↦ rw (e) (remove-AllQuiet s sockets quiet.1)
  | inr e ↦ rw (e) (quiet.0, remove-AllQuiet s sockets quiet.1)
]

-- What the handlers of lines read and leave of a socket's texts.
abbrev Held : Type 0
Held = Bytes × (Bytes × Bytes)

abbrev held : SocketInfo → Held
held info = (info.outgoing_line_buffer, (info.received_buffer, info.processed_incoming_buffer))

same_held : (i j : SocketInfo) → held j ≡ held i → IsQuiet i → IsQuiet j
same_held i j same (outgoing, received, none_waiting) = (
  rw (ap (λ h. h.0) same) outgoing,
  rw (ap (λ h. h.1.0) same) received,
  ap (λ h. h.1.1) same ∙ none_waiting,
)

give_lines-IsQuiet :
    (size : ℕ) (info : SocketInfo)
    → IsSettled info.outgoing_line_buffer
    → IsSettled info.received_buffer
    → IsQuiet (give_lines size info).1
unfolding give_lines
give_lines-IsQuiet size info outgoing received = (outgoing, received, refl)

write_received_data-kept :
    (c : ℕ) (s : Bytes) (info : SocketInfo)
    → let info' = write_received_data (c ∷ s) info in
      (info'.outgoing_line_buffer ≡ info.outgoing_line_buffer)
      × (is_empty info'.received_buffer ≡ false)
unfolding write_received_data
write_received_data-kept c s info = (refl, append-some _ s c)

receive_on-IsQuiet :
    (size : ℕ) (original : Received) (info : SocketInfo)
    → IsQuiet info
    → IsQuiet (receive_on size original info).1
unfolding receive_on
receive_on-IsQuiet size (bytes_received c s) info quiet =
    let stored = write_received_data (c ∷ s) info in
    let processed = process_received_lines stored in
    let given = give_lines size processed in
    let (same, some_text) = write_received_data-kept c s info in
    let framed = ap (λ f. f.1.1.1) (process_received_lines-frame stored) ∙ same in
    let plain : IsQuiet given.1 =
      give_lines-IsQuiet size processed (rw (framed) quiet.0)
        (process_received_lines-IsSettled stored some_text) in
    let answer : Bool → RecvResult × SocketInfo =
      λ b. if b then (as_received (bytes_received c s), info) else given in
    elim (Bool-cases info.flags.is_ssl) [
      | inl e ↦ same_held info (answer info.flags.is_ssl).1 (ap (λ b. held (answer b).1) e) quiet
      | inr e ↦ same_held given.1 (answer info.flags.is_ssl).1 (ap (λ b. held (answer b).1) e) plain
    ]
receive_on-IsQuiet size (no_bytes code) info quiet = quiet

handle_protocol_detection-held :
    (bytes : Bytes) (info : SocketInfo) → held (handle_protocol_detection bytes info) ≡ held info
unfolding handle_protocol_detection
handle_protocol_detection-held bytes info = ground arith

identify-held : (bytes : Bytes) (info : SocketInfo) → held (identify bytes info) ≡ held info
unfolding identify
identify-held bytes info = ground arith

count_sent-held : (bytes : Bytes) (info : SocketInfo) → held (count_sent bytes info) ≡ held info
unfolding count_sent
count_sent-held bytes info = elim (Bool-cases (info.stats.bytes_sent == 0)) [
  | inl e ↦ rw (e) (handle_protocol_detection-held bytes _)
  | inr e ↦ rw (e) refl
]

send_lines-held :
    (lines : List Bytes) (info : SocketInfo) → held (send_lines lines info) ≡ held info
unfolding send_lines
send_lines-held [] info = refl
send_lines-held (line ∷ lines) info = send_lines-held lines _

process_outgoing-IsQuiet :
    (buf : Bytes) (info : SocketInfo) → IsQuiet info → IsQuiet (process_outgoing buf info).info
unfolding process_outgoing
process_outgoing-IsQuiet buf info (outgoing, received, none_waiting) =
    let handed = full_lines (split_crlf buf).ended in
    (
      split_crlf-last buf,
      rw (ap (λ h. h.1.0) (send_lines-held handed info)) received,
      ap (λ h. h.1.1) (send_lines-held handed info) ∙ none_waiting,
    )

on_sending-IsQuiet :
    (buf : Bytes) (info : SocketInfo) → IsQuiet info → IsQuiet (on_sending buf info).info
unfolding on_sending
on_sending-IsQuiet buf info quiet =
    let counted = count_sent buf info in
    let still = same_held info counted (count_sent-held buf info) quiet in
    elim (Bool-cases (is_utf8 buf)) [
      | inl e ↦
          rw (e) (process_outgoing-IsQuiet (counted.outgoing_line_buffer ++ buf) counted still)
      | inr e ↦ rw (e) still
    ]

send_on-IsQuiet : (buf : Bytes) (info : SocketInfo) → IsQuiet info → IsQuiet (send_on buf info).0
unfolding send_on
send_on-IsQuiet buf info quiet =
    let seen = identify buf info in
    let sent = on_sending buf seen in
    let plain = on_sending-IsQuiet buf seen (same_held info seen (identify-held buf info) quiet) in
    let answer : Bool → SocketInfo × List Bytes =
      λ b. if b then (info, []) else (sent.info, sent.handed) in
    elim (Bool-cases info.flags.is_ssl) [
      | inl e ↦ same_held info (answer info.flags.is_ssl).0 (ap (λ b. held (answer b).0) e) quiet
      | inr e ↦
          same_held sent.info (answer info.flags.is_ssl).0 (ap (λ b. held (answer b).0) e) plain
    ]

connect_on-held :
    (result : Connected) (info : SocketInfo) → held (connect_on result info) ≡ held info
unfolding connect_on
connect_on-held connect_ok info = elim (Bool-cases (is_initializing info.state)) [
  | inl e ↦ rw (e) refl
  | inr e ↦ rw (e) refl
]
connect_on-held (socket_error code) info = elim (Bool-cases (code == wsaeintr)) [
  | inl e ↦ rw (e) refl
  | inr e ↦ rw (e) refl
]
connect_on-held (other_code code) info = refl

connect_on-IsQuiet :
    (result : Connected) (info : SocketInfo) → IsQuiet info → IsQuiet (connect_on result info)
connect_on-IsQuiet result info =
    same_held info (connect_on result info) (connect_on-held result info)

Step-AllQuiet :
    {engines : InjectEngines} {sockets next : Sockets}
    → Step engines sockets next
    → AllQuiet sockets
    → AllQuiet next
unfolding hooked_recv hooked_send hooked_connect hooked_closesocket
Step-AllQuiet {engines} {sockets} (recv s size none) quiet =
    insert-AllQuiet s _ sockets quiet (get_or_create_socket-IsQuiet s engines sockets quiet)
Step-AllQuiet {engines} {sockets} (recv s size (some original)) quiet =
    insert-AllQuiet s _ sockets quiet (
      receive_on-IsQuiet size original (get_or_create_socket s engines sockets)
        (get_or_create_socket-IsQuiet s engines sockets quiet))
Step-AllQuiet {engines} {sockets} (send s buf original) quiet = insert-AllQuiet s _ sockets quiet (
    send_on-IsQuiet buf (get_or_create_socket s engines sockets)
      (get_or_create_socket-IsQuiet s engines sockets quiet))
Step-AllQuiet {engines} {sockets} (connect s none) quiet =
    insert-AllQuiet s _ sockets quiet (get_or_create_socket-IsQuiet s engines sockets quiet)
Step-AllQuiet {engines} {sockets} (connect s (some result)) quiet =
    insert-AllQuiet s _ sockets quiet (
      connect_on-IsQuiet result (get_or_create_socket s engines sockets)
        (get_or_create_socket-IsQuiet s engines sockets quiet))
Step-AllQuiet (close s) quiet = remove-AllQuiet s _ quiet

-- Between two calls of the detours, in whatever order they come, every socket holds back only text
-- with no end of line in it, in both directions, and no processed text waits to be read: what a call
-- of recv could not give to mIRC is gone.
pub Reach-AllQuiet :
    {engines : InjectEngines} {sockets : Sockets} → Reach engines sockets → AllQuiet sockets
Reach-AllQuiet start = tt
Reach-AllQuiet (later reach step) = Step-AllQuiet step (Reach-AllQuiet reach)
