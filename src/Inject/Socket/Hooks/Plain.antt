-- ===== src/Inject/Socket/Hooks/Plain.antt =====
-- fish_11_inject/src/hook_socket.rs: a chunk on a plain socket, from recv to what mIRC reads.
use fish.Common.{
  ℕ, zero, suc, ◌+◌, ◌≤◌, ◌≡◌, refl, sym, ◌∙◌, ap, arith, true, false, [], ◌∷◌, ◌++◌, append-nil,
  Bytes, is_utf8, split_crlf, Lines, crlf, length, min, take, length-append, ltb, if◌then◌else◌,
}
use fish.Inject.Engines
use fish.Inject.Engines.{InjectEngines}
use fish.Inject.Socket.{SocketInfo}
use fish.Inject.Socket.Buffers.{received_limit, make_room, write_received_data}
use fish.Inject.Socket.Hooks.{
  bytes_received, as_received, copied, last_boundary, give_lines, receive_on,
}
use fish.Inject.Socket.Hooks.Receive.{last_boundary-whole}
use fish.Inject.Socket.Incoming.{is_empty, ends_with_crlf, process_received_lines}
use fish.Inject.Socket.Incoming.Frame.{frame, process_received_lines-frame}
use fish.Inject.Socket.Incoming.Lines.{incoming_all, process_received_lines_lem}
use fish.Inject.Socket.Outgoing.{full_lines}

take-all : (n : ℕ) (s : Bytes) → length s ≤ n → take n s ≡ s
take-all zero [] h = refl
take-all zero (c ∷ s) h = absurd (omega arith)
take-all (suc n) [] h = refl
take-all (suc n) (c ∷ s) h = ap (◌∷◌ c) (take-all n s (omega arith))

give_lines-whole :
    (size : ℕ) (info : SocketInfo)
    → length info.processed_incoming_buffer ≤ size
    → ends_with_crlf info.processed_incoming_buffer ≡ true
    → give_lines size info
      ≡ (copied info.processed_incoming_buffer, record info { processed_incoming_buffer = [] })
unfolding give_lines
give_lines-whole size info fits ends =
    let processed = info.processed_incoming_buffer in
    let whole : take (min size (length processed)) processed ≡ processed =
      take-all _ processed (omega arith) in
    let boundary = ap last_boundary whole ∙ last_boundary-whole processed ends in
    ap (λ n. (copied (take n processed), record info { processed_incoming_buffer = [] })) boundary
    ∙ ap (λ s. (copied s, record info { processed_incoming_buffer = [] }))
        (take-all (length processed) processed (omega arith))

make_room-none :
    (added : ℕ) (buffer : Bytes)
    → length buffer + added ≤ received_limit
    → make_room added buffer ≡ buffer
unfolding make_room
make_room-none added buffer h =
    let fits : ltb received_limit (length buffer + added) ≡ false = ground arith in rw (fits) refl

pub append-some : (x s : Bytes) (c : ℕ) → is_empty (x ++ (c ∷ s)) ≡ false
append-some [] s c = refl
append-some (d ∷ x) s c = refl

-- The chunk is stored behind what waited.
stored :
    (c : ℕ) (s : Bytes) (info : SocketInfo)
    → length (info.received_buffer ++ (c ∷ s)) ≤ received_limit
    → write_received_data (c ∷ s) info
      ≡ record info { received_buffer = info.received_buffer ++ (c ∷ s) }
unfolding write_received_data
stored c s info room =
    ap (λ b. record info { received_buffer = b ++ (c ∷ s) })
      (make_room-none (length (c ∷ s)) info.received_buffer
        (omega (arith, length-append info.received_buffer (c ∷ s))))

receive_on-stored :
    (size c : ℕ) (s : Bytes) (info : SocketInfo)
    → info.flags.is_ssl ≡ false
    → length (info.received_buffer ++ (c ∷ s)) ≤ received_limit
    → receive_on size (bytes_received c s) info
      ≡ give_lines size (
          process_received_lines
            (record info { received_buffer = info.received_buffer ++ (c ∷ s) }))
unfolding receive_on
receive_on-stored size c s info plain room =
    let given = give_lines size (process_received_lines (write_received_data (c ∷ s) info)) in
    ap (λ b. if b then (as_received (bytes_received c s), info) else given) plain
    ∙ ap (λ i. give_lines size (process_received_lines i)) (stored c s info room)

-- What the engines make of the pieces of a text, the last one included.
abbrev pub made_of : SocketInfo → Bytes → Bytes
made_of info text =
    let lines = split_crlf text in
    incoming_all info.socket info.engines (full_lines (lines.ended ++ (lines.last ∷ [])))

-- On a plain socket where nothing waits to be read, a chunk that makes UTF-8 with what was left of the
-- last one is answered by what the engines make of all its pieces, the last one included, if that fits
-- and ends with an end of line; the last piece is kept as well, to be put in front of the next chunk.
pub receive_on-lines :
    (size c : ℕ) (s text : Bytes) (info : SocketInfo)
    → info.flags.is_ssl ≡ false
    → info.processed_incoming_buffer ≡ []
    → info.received_buffer ++ (c ∷ s) ≡ text
    → length text ≤ received_limit
    → is_utf8 text ≡ true
    → length (made_of info text) ≤ size
    → ends_with_crlf (made_of info text) ≡ true
    → let (result, info') = receive_on size (bytes_received c s) info in
      (result ≡ copied (made_of info text))
      × (info'.received_buffer ≡ (split_crlf text).last)
      × (info'.processed_incoming_buffer ≡ [])
      × (frame info' ≡ frame info)
receive_on-lines size c s text info plain none_waiting is_text room valid fits ends =
    let some_text : is_empty text ≡ false =
      ap is_empty (sym is_text) ∙ append-some info.received_buffer s c in
    let taken : SocketInfo = record info { received_buffer = text } in
    let (made, left) = process_received_lines_lem taken some_text valid in
    let done = process_received_lines taken in
    let made' : done.processed_incoming_buffer ≡ made_of info text =
      made ∙ ap (◌++ made_of info text) none_waiting in
    let whole =
      receive_on-stored size c s info plain (omega (arith, ap length is_text, room))
      ∙ ap (λ t. give_lines size (process_received_lines (record info { received_buffer = t })))
          is_text
      ∙ give_lines-whole size done (omega (arith, ap length made', fits))
          (ap ends_with_crlf made' ∙ ends) in
    rw (whole) (ap copied made', left, refl, process_received_lines-frame taken)

-- With engines that change nothing, one line comes out as it went in.
incoming_all-one :
    (socket : ℕ) (engines : InjectEngines) (line : Bytes)
    → ((l : Bytes) → (Engines.on_incoming_irc_line socket l engines).1 ≡ l)
    → incoming_all socket engines (line ∷ []) ≡ line
unfolding incoming_all
incoming_all-one socket engines line same = append-nil _ ∙ same line

full_lines-one : (c : ℕ) (s : Bytes) → full_lines ((c ∷ s) ∷ []) ≡ ((c ∷ s) ++ crlf) ∷ []
unfolding full_lines
full_lines-one c s = refl

full_lines-two : (c : ℕ) (s : Bytes) → full_lines ((c ∷ s) ∷ ([] ∷ [])) ≡ ((c ∷ s) ++ crlf) ∷ []
unfolding full_lines
full_lines-two c s = refl

ends_with_crlf-crlf : (s : Bytes) → ends_with_crlf (s ++ crlf) ≡ true
unfolding ends_with_crlf
ends_with_crlf-crlf [] = refl
ends_with_crlf-crlf (c ∷ s) = ground (arith, ends_with_crlf-crlf s)

-- A chunk that makes one line, under engines that change nothing.
receive_on-one :
    (size c : ℕ) (s : Bytes) (info : SocketInfo) (text line : Bytes) (lines : Lines)
    → info.flags.is_ssl ≡ false
    → info.processed_incoming_buffer ≡ []
    → ((l : Bytes) → (Engines.on_incoming_irc_line info.socket l info.engines).1 ≡ l)
    → info.received_buffer ++ (c ∷ s) ≡ text
    → split_crlf text ≡ lines
    → full_lines (lines.ended ++ (lines.last ∷ [])) ≡ (line ++ crlf) ∷ []
    → length text ≤ received_limit
    → is_utf8 text ≡ true
    → length (line ++ crlf) ≤ size
    → let (result, info') = receive_on size (bytes_received c s) info in
      (result ≡ copied (line ++ crlf))
      × (info'.received_buffer ≡ lines.last)
      × (info'.processed_incoming_buffer ≡ [])
      × (frame info' ≡ frame info)
receive_on-one size c s info text line lines plain none_waiting same is_text are_lines is_line room
      valid fits =
    let out : made_of info text ≡ line ++ crlf =
      ap (λ x. incoming_all info.socket info.engines (full_lines (x.ended ++ (x.last ∷ []))))
        are_lines
      ∙ ap (incoming_all info.socket info.engines) is_line
      ∙ incoming_all-one info.socket info.engines (line ++ crlf) same in
    let (result, left, waiting, framed) =
      receive_on-lines size c s text info plain none_waiting is_text room valid
        (omega (arith, ap length out, fits)) (ap ends_with_crlf out ∙ ends_with_crlf-crlf line) in
    (result ∙ ap copied out, left ∙ ap (λ x. x.last) are_lines, waiting, framed)

-- A line that comes in two chunks is read twice: with engines that change nothing and room enough,
-- mIRC first reads the part that came as a line of its own, and then the whole line.
pub receive_on_partial_twice :
    (size c d e : ℕ) (p q l : Bytes) (info : SocketInfo)
    → info.flags.is_ssl ≡ false
    → info.processed_incoming_buffer ≡ []
    → info.received_buffer ≡ []
    → ((line : Bytes) → (Engines.on_incoming_irc_line info.socket line info.engines).1 ≡ line)
    → split_crlf (c ∷ p) ≡ record { ended = []; last = c ∷ p }
    → split_crlf ((c ∷ p) ++ (d ∷ q)) ≡ record { ended = (e ∷ l) ∷ []; last = [] }
    → is_utf8 (c ∷ p) ≡ true
    → is_utf8 ((c ∷ p) ++ (d ∷ q)) ≡ true
    → length ((c ∷ p) ++ (d ∷ q)) + 2 ≤ received_limit
    → length ((c ∷ p) ++ crlf) ≤ size
    → length ((e ∷ l) ++ crlf) ≤ size
    → let (first, info1) = receive_on size (bytes_received c p) info in
      let (second, info2) = receive_on size (bytes_received d q) info1 in
      (first ≡ copied ((c ∷ p) ++ crlf)) × (second ≡ copied ((e ∷ l) ++ crlf))
receive_on_partial_twice size c d e p q l info plain none_waiting none_left same first_piece
      both_pieces valid1 valid2 room fits1 fits2 =
    let partial = c ∷ p in
    let whole = (c ∷ p) ++ (d ∷ q) in
    let (first, left, waiting, framed) =
      receive_on-one size c p info partial partial (record { ended = []; last = partial }) plain
        none_waiting same (ap (◌++ partial) none_left) first_piece (full_lines-one c p)
        (omega (arith, length-append partial (d ∷ q), room)) valid1 fits1 in
    let info1 = (receive_on size (bytes_received c p) info).1 in
    let same1 : (line : Bytes)
        → (Engines.on_incoming_irc_line info1.socket line info1.engines).1 ≡ line =
      λ line. ap (λ f. (Engines.on_incoming_irc_line f.0 line f.1.0).1) framed ∙ same line in
    let (second, _, _, _) =
      receive_on-one size d q info1 whole (e ∷ l) (record { ended = (e ∷ l) ∷ []; last = [] })
        (ap (λ f. f.1.1.0) framed ∙ plain) waiting same1 (ap (◌++ (d ∷ q)) left) both_pieces
        (full_lines-two e l) (omega (arith, room)) valid2 fits2 in
    (first, second)
