-- ===== src/Inject/Socket/Outgoing.antt =====
-- fish_11_inject/src/socket/handlers/outgoing_irc.rs: lines of mIRC on their way to the engines.
pub mod Stream
use fish.Common.{
  ℕ, ◌==◌, Bool, true, false, not, ◌||◌, List, [], ◌∷◌, ◌++◌, Bytes, if◌then◌else◌, length, is_utf8,
  from_utf8_lossy, split_crlf, crlf,
}
use fish.Inject.Engines
use fish.Inject.Engines.{SafeEngine, InjectEngines, get_engines, call_engine}
use fish.Inject.Socket.{SocketInfo, SocketStats, add_usize}
use fish.Inject.Socket.Detection.{handle_protocol_detection}

-- `Result<(), SocketError>` of `on_sending`: the one error is that of text that is not UTF-8.
pub data Sending : Type 0 where
  sending_ok : Sending
  utf8_error : Sending

-- What `on_sending` leaves: its result, the socket, and the calls that it made to the engines, as the
-- lines they were called with.
pub record Sent : Type 0 where
  pub result : Sending
  pub info : SocketInfo
  pub handed : List Bytes

abbrev count_line : Bool → SocketStats → SocketStats
count_line modified stats = record stats {
  lines_sent = add_usize stats.lines_sent 1;
  lines_encrypted = if modified then add_usize stats.lines_encrypted 1 else stats.lines_encrypted;
}

-- The pieces that are not empty, each with its end of line.
unfoldable pub full_lines : List Bytes → List Bytes
full_lines [] = []
full_lines ([] ∷ lines) = full_lines lines
full_lines ((c ∷ line) ∷ lines) = ((c ∷ line) ++ crlf) ∷ full_lines lines

-- With no end of line in the text there is no line and the text stays, which is the early return of
-- the source. Each line goes through the engines; what they make of it is dropped, and only whether they changed
-- it is counted.
unfoldable pub send_lines : List Bytes → SocketInfo → SocketInfo
send_lines [] info = info
send_lines (line ∷ lines) info =
    let (modified, buffer) = Engines.on_outgoing_irc_line info.socket line info.engines in
    send_lines lines (record info { stats = count_line modified info.stats })

unfoldable pub process_outgoing : Bytes → SocketInfo → Sent
unfolding full_lines send_lines
process_outgoing line_buf info =
    let lines = split_crlf line_buf in
    let handed = full_lines lines.ended in
    record {
      result = sending_ok;
      info = record (send_lines handed info) { outgoing_line_buffer = lines.last };
      handed = handed;
    }

-- The bytes are counted, and the first ones looked at.
unfoldable pub count_sent : Bytes → SocketInfo → SocketInfo
count_sent bytes info =
    let stats = record info.stats { bytes_sent = add_usize info.stats.bytes_sent (length bytes) } in
    let counted = record info { stats = stats } in
    if info.stats.bytes_sent == 0 then handle_protocol_detection bytes counted else counted

unfoldable pub on_sending : Bytes → SocketInfo → Sent
unfolding count_sent process_outgoing
on_sending bytes info =
    let counted = count_sent bytes info in
    if is_utf8 bytes
    then process_outgoing (counted.outgoing_line_buffer ++ bytes) counted
    else record { result = utf8_error; info = counted; handed = [] }

-- The two passes of `SocketInfo::on_outgoing_irc_line`, over the engines with one value of the flag.
unfoldable pub pass : Bool → ℕ → List SafeEngine → Bool × Bytes → Bool × Bytes
pass post socket [] so_far = so_far
pass post socket (e ∷ es) (modified, line) =
    let chosen = (if post then e.is_postprocessor else not e.is_postprocessor) in
    let (changed, line') = call_engine e.outgoing_line socket line in
    let next = if chosen then (changed || modified, line') else (modified, line) in
    pass post socket es next

unfoldable pub on_outgoing_irc_line : ℕ → Bytes → SocketInfo → Bool × Bytes
unfolding pass
on_outgoing_irc_line socket line info =
    let es = get_engines info.engines in pass true socket es (pass false socket es (false, line))

unfoldable pub prepare_outgoing_data : Bytes → SocketInfo → Bytes
prepare_outgoing_data bytes info =
    let (modified, output) =
      Engines.on_outgoing_irc_line info.socket (from_utf8_lossy bytes) info.engines in
    if modified then output else bytes
