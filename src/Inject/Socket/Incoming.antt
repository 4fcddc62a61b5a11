-- ===== src/Inject/Socket/Incoming.antt =====
-- fish_11_inject/src/socket/handlers/incoming_irc.rs: received bytes on their way through the engines.
pub mod Lines
pub mod Frame
use fish.Common.{
  ℕ, ◌==◌, Bool, true, false, not, ◌&&◌, ◌||◌, List, [], ◌∷◌, ◌++◌, Bytes, if◌then◌else◌, is_utf8,
  from_utf8_lossy, split_crlf, crlf,
}
use fish.Inject.Engines
use fish.Inject.Socket.{SocketInfo, SocketStats, add_usize}

abbrev pub is_empty {ℓ} : {A : Type ℓ} → List A → Bool
is_empty [] = true
is_empty (x ∷ xs) = false

unfoldable pub on_incoming_irc_line : Bytes → SocketInfo → Bytes
on_incoming_irc_line line info = (Engines.on_incoming_irc_line info.socket line info.engines).1

abbrev pub is_lf : Bytes → Bool
is_lf [] = false
is_lf (c ∷ s) = (c == 10) && is_empty s

-- `ends_with("\r\n")`.
unfoldable pub ends_with_crlf : Bytes → Bool
ends_with_crlf [] = false
ends_with_crlf (c ∷ s) = ((c == 13) && is_lf s) || ends_with_crlf s

abbrev pub count_received : SocketStats → SocketStats
count_received stats = record stats { lines_received = add_usize stats.lines_received 1 }

-- What the engines make of one line is what mIRC may read.
abbrev pub deliver : Bytes → SocketInfo → SocketInfo
deliver line info = record info {
  processed_incoming_buffer = info.processed_incoming_buffer ++ on_incoming_irc_line line info;
}

-- The loop over the pieces of text, the last one included; `stop` is whether it ends at an empty
-- piece, which is so where the last piece is empty and the text does not end with an end of line.
unfoldable pub receive_pieces : Bool → List Bytes → SocketInfo → SocketInfo
unfolding on_incoming_irc_line
receive_pieces stop [] info = info
receive_pieces stop ([] ∷ pieces) info =
    let rest = receive_pieces stop pieces info in if stop then info else rest
receive_pieces stop ((c ∷ piece) ∷ pieces) info =
    let delivered = deliver ((c ∷ piece) ++ crlf) info in
    receive_pieces stop pieces (record delivered { stats = count_received delivered.stats })

-- A last piece with no end of line behind it goes back to the received bytes.
abbrev pub restore : Bytes → Bytes → SocketInfo → SocketInfo
restore bytes last info =
    if not (ends_with_crlf bytes) && not (is_empty last)
    then record info { received_buffer = info.received_buffer ++ last }
    else info

unfoldable pub process_text : Bytes → SocketInfo → SocketInfo
unfolding ends_with_crlf receive_pieces
process_text bytes info =
    let lines = split_crlf bytes in
    let stop = is_empty lines.last && not (ends_with_crlf bytes) in
    restore bytes lines.last (receive_pieces stop (lines.ended ++ (lines.last ∷ [])) info)

-- `split(|&b| b == b'\r')`, as the first piece and the others.
unfoldable pub split_cr : Bytes → Bytes × List Bytes
split_cr [] = ([], [])
split_cr (c ∷ s) =
    let (first, others) = split_cr s in
    if c == 13 then ([], first ∷ others) else (c ∷ first, others)

abbrev pub last_piece : Bytes → List Bytes → Bytes
last_piece first [] = first
last_piece first (x ∷ xs) = last_piece x xs

-- A piece without the line feed at its end.
unfoldable pub without_lf : Bytes → Bytes
without_lf [] = []
without_lf (c ∷ s) = if is_lf (c ∷ s) then [] else c ∷ without_lf s

unfoldable pub salvage_pieces : List Bytes → SocketInfo → SocketInfo
unfolding on_incoming_irc_line without_lf
salvage_pieces [] info = info
salvage_pieces (piece ∷ pieces) info =
    let line = without_lf piece in
    let next = (if is_empty line then info else deliver (from_utf8_lossy line ++ crlf) info) in
    salvage_pieces pieces next

unfoldable pub process_binary : Bytes → SocketInfo → SocketInfo
unfolding ends_with_crlf split_cr salvage_pieces
process_binary bytes info =
    let (first, others) = split_cr bytes in
    restore bytes (last_piece first others) (salvage_pieces (first ∷ others) info)

unfoldable pub process_received_lines : SocketInfo → SocketInfo
unfolding process_text process_binary
process_received_lines info =
    let bytes = info.received_buffer in
    let taken = record info { received_buffer = [] } in
    if is_empty bytes
    then info
    else if is_utf8 bytes
    then process_text bytes taken
    else process_binary bytes taken
