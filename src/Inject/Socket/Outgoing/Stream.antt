-- ===== src/Inject/Socket/Outgoing/Stream.antt =====
-- fish_11_inject/src/socket/handlers/outgoing_irc.rs: what the engines see of a stream that comes in
-- any chunks.
use fish.Common.{
  ◌==◌, ◌≡◌, refl, sym, ◌∙◌, ap, arith, inl, inr, true, List, [], ◌∷◌, ◌++◌, append_assoc,
  append-nil, Bytes, is_utf8, Bool-cases, split_crlf, crlf, split_crlf-append, split_crlf-last,
  after,
}
use fish.Inject.Socket.{SocketInfo}
use fish.Inject.Socket.Detection.{handle_protocol_detection}
use fish.Inject.Socket.Outgoing.{full_lines, process_outgoing, count_sent, on_sending}

abbrev pub concat : List Bytes → Bytes
concat [] = []
concat (x ∷ xs) = x ++ concat xs

full_lines-append : (xs ys : List Bytes) → full_lines (xs ++ ys) ≡ full_lines xs ++ full_lines ys
unfolding full_lines
full_lines-append [] ys = refl
full_lines-append ([] ∷ xs) ys = full_lines-append xs ys
full_lines-append ((c ∷ x) ∷ xs) ys = ap (◌∷◌ ((c ∷ x) ++ crlf)) (full_lines-append xs ys)

handle_protocol_detection-buffer :
    (bytes : Bytes) (info : SocketInfo)
    → (handle_protocol_detection bytes info).outgoing_line_buffer ≡ info.outgoing_line_buffer
unfolding handle_protocol_detection
handle_protocol_detection-buffer bytes info = ground arith

count_sent-buffer :
    (bytes : Bytes) (info : SocketInfo)
    → (count_sent bytes info).outgoing_line_buffer ≡ info.outgoing_line_buffer
unfolding count_sent
count_sent-buffer bytes info = elim (Bool-cases (info.stats.bytes_sent == 0)) [
  | inl e ↦ rw (e) (handle_protocol_detection-buffer bytes _)
  | inr e ↦ rw (e) refl
]

-- One chunk that is UTF-8.
pub on_sending-lines :
    (bytes : Bytes) (info : SocketInfo)
    → is_utf8 bytes ≡ true
    → let sent = on_sending bytes info in
      let lines = split_crlf (info.outgoing_line_buffer ++ bytes) in
      (sent.handed ≡ full_lines lines.ended) × (sent.info.outgoing_line_buffer ≡ lines.last)
unfolding on_sending process_outgoing
on_sending-lines bytes info h = rw (h) (rw (count_sent-buffer bytes info) (refl, refl))

-- No end of line in it.
abbrev pub IsSettled : Bytes → Type 0
IsSettled buf = split_crlf buf ≡ record { ended = []; last = buf }

-- What waits after a chunk holds no end of line.
pub waiting-IsSettled : (buf text : Bytes) → buf ≡ (split_crlf text).last → IsSettled buf
waiting-IsSettled buf text waiting =
    ap split_crlf waiting
    ∙ split_crlf-last text
    ∙ ap (λ l. record { ended = []; last = l }) (sym waiting)

-- The lines of a chunk and those of what follows are the lines of both together.
pub stream_step :
    (buf chunk rest buf' at_end : Bytes) (handed later : List Bytes)
    → handed ≡ full_lines (split_crlf (buf ++ chunk)).ended
    → buf' ≡ (split_crlf (buf ++ chunk)).last
    → later ≡ full_lines (split_crlf (buf' ++ rest)).ended
    → at_end ≡ (split_crlf (buf' ++ rest)).last
    → let stream = split_crlf (buf ++ (chunk ++ rest)) in
      (handed ++ later ≡ full_lines stream.ended) × (at_end ≡ stream.last)
stream_step buf chunk rest buf' at_end handed later now waiting next last =
    let lines = split_crlf (buf ++ chunk) in
    let whole : split_crlf (buf ++ (chunk ++ rest))
        ≡ after lines.ended (split_crlf (buf' ++ rest)) =
      ap split_crlf (sym (append_assoc buf chunk rest))
      ∙ split_crlf-append (buf ++ chunk) rest
      ∙ ap (λ l. after lines.ended (split_crlf (l ++ rest))) (sym waiting) in
    (
      ap (◌++ later) now
          ∙ ap (full_lines lines.ended ++◌) next
          ∙ sym (full_lines-append lines.ended _)
          ∙ ap (λ l. full_lines l.ended) (sym whole),
      last ∙ ap (λ l. l.last) (sym whole),
    )

-- With nothing more to come, the lines of what waits are none.
pub stream_end :
    (buf : Bytes)
    → IsSettled buf
    → let stream = split_crlf (buf ++ []) in ([] ≡ full_lines stream.ended) × (buf ≡ stream.last)
unfolding full_lines
stream_end buf settled = rw (append-nil buf) (rw (settled) (refl, refl))
