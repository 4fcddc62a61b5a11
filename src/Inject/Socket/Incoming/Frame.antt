-- ===== src/Inject/Socket/Incoming/Frame.antt =====
-- fish_11_inject/src/socket/handlers/incoming_irc.rs: what received lines leave as it was.
use fish.Common.{
  ℕ, ◌≡◌, refl, ◌∙◌, ap, ◌==◌, scan, push, inl, inr, Bool, true, false, not, ◌&&◌, List, [], ◌∷◌,
  ◌++◌, Bytes, is_utf8, Bool-cases, split_crlf,
}
use fish.Inject.Engines.{InjectEngines}
use fish.Inject.Socket.{SocketInfo}
use fish.Inject.Socket.Incoming.Lines.{process_received_lines_lem}
use fish.Inject.Socket.Outgoing.Stream.{IsSettled, waiting-IsSettled}
use fish.Inject.Socket.Incoming.{
  is_empty, ends_with_crlf, receive_pieces, restore, process_text, process_binary, salvage_pieces,
  split_cr, last_piece, process_received_lines, without_lf,
}

-- What a socket is that no line changes.
abbrev pub Frame : Type 0
Frame = ℕ × (InjectEngines × (Bool × Bytes))

abbrev pub frame : SocketInfo → Frame
frame info = (info.socket, (info.engines, (info.flags.is_ssl, info.outgoing_line_buffer)))

receive_pieces-frame :
    (stop : Bool) (pieces : List Bytes) (info : SocketInfo)
    → frame (receive_pieces stop pieces info) ≡ frame info
unfolding receive_pieces
receive_pieces-frame stop [] info = refl
receive_pieces-frame true ([] ∷ pieces) info = refl
receive_pieces-frame false ([] ∷ pieces) info = receive_pieces-frame false pieces info
receive_pieces-frame stop ((c ∷ piece) ∷ pieces) info = receive_pieces-frame stop pieces _

restore-frame :
    (bytes last : Bytes) (info : SocketInfo) → frame (restore bytes last info) ≡ frame info
restore-frame bytes last info =
    elim (Bool-cases (not (ends_with_crlf bytes) && not (is_empty last))) [
      | inl e ↦ rw (e) refl
      | inr e ↦ rw (e) refl
    ]

process_text-frame :
    (bytes : Bytes) (info : SocketInfo) → frame (process_text bytes info) ≡ frame info
unfolding process_text
process_text-frame bytes info =
    let lines = split_crlf bytes in
    let stop = is_empty lines.last && not (ends_with_crlf bytes) in
    let pieces = lines.ended ++ (lines.last ∷ []) in
    restore-frame bytes lines.last (receive_pieces stop pieces info)
    ∙ receive_pieces-frame stop pieces info

salvage_pieces-frame :
    (pieces : List Bytes) (info : SocketInfo) → frame (salvage_pieces pieces info) ≡ frame info
unfolding salvage_pieces
salvage_pieces-frame [] info = refl
salvage_pieces-frame (piece ∷ pieces) info =
    salvage_pieces-frame pieces _
    ∙ elim (Bool-cases (is_empty (without_lf piece))) [ inl e ↦ rw (e) refl | inr e ↦ rw (e) refl ]

process_binary-frame :
    (bytes : Bytes) (info : SocketInfo) → frame (process_binary bytes info) ≡ frame info
unfolding process_binary
process_binary-frame bytes info =
    let (first, others) = split_cr bytes in
    restore-frame bytes (last_piece first others) (salvage_pieces (first ∷ others) info)
    ∙ salvage_pieces-frame (first ∷ others) info

pub process_received_lines-frame :
    (info : SocketInfo) → frame (process_received_lines info) ≡ frame info
unfolding process_received_lines
process_received_lines-frame info = elim (Bool-cases (is_empty info.received_buffer)) [
  | inl e ↦ rw (e) refl
  | inr e ↦ elim (Bool-cases (is_utf8 info.received_buffer)) [
    | inl k ↦ rw (e) (rw (k) (process_text-frame info.received_buffer _))
    | inr k ↦ rw (e) (rw (k) (process_binary-frame info.received_buffer _))
  ]
]

-- The pieces themselves put nothing back.
salvage_pieces-received :
    (pieces : List Bytes) (info : SocketInfo)
    → (salvage_pieces pieces info).received_buffer ≡ info.received_buffer
unfolding salvage_pieces
salvage_pieces-received [] info = refl
salvage_pieces-received (piece ∷ pieces) info =
    salvage_pieces-received pieces _
    ∙ elim (Bool-cases (is_empty (without_lf piece))) [ inl e ↦ rw (e) refl | inr e ↦ rw (e) refl ]

scan_plain : (c : ℕ) (s : Bytes) → (c == 13) ≡ false → IsSettled s → IsSettled (c ∷ s)
unfolding split_crlf scan
scan_plain c s e settled = rw (e) (ap (push c) settled)

IsSettled-nil : IsSettled []
unfolding split_crlf scan
IsSettled-nil = refl

longer_first :
    (c : ℕ) (first : Bytes) (others : List Bytes)
    → IsSettled (c ∷ first)
    → IsSettled (last_piece first others)
    → IsSettled (last_piece (c ∷ first) others)
longer_first c first [] one last = one
longer_first c first (x ∷ xs) one last = last

split_cr-IsSettled :
    (s : Bytes)
    → let (first, others) = split_cr s in IsSettled first × IsSettled (last_piece first others)
unfolding split_cr
split_cr-IsSettled [] = (IsSettled-nil, IsSettled-nil)
split_cr-IsSettled (c ∷ s) =
    let (first, last) = split_cr-IsSettled s in
    elim (Bool-cases (c == 13)) [
      | inl e ↦ rw (e) (IsSettled-nil, last)
      | inr e ↦
          let one = scan_plain c (split_cr s).0 e first in
          rw (e) (one, longer_first c (split_cr s).0 (split_cr s).1 one last)
    ]

process_binary-IsSettled :
    (bytes : Bytes) (info : SocketInfo)
    → info.received_buffer ≡ []
    → IsSettled (process_binary bytes info).received_buffer
unfolding process_binary
process_binary-IsSettled bytes info empty =
    let (first, others) = split_cr bytes in
    let salvaged = salvage_pieces (first ∷ others) info in
    let last = last_piece first others in
    let kept = salvage_pieces-received (first ∷ others) info ∙ empty in
    elim (Bool-cases (not (ends_with_crlf bytes) && not (is_empty last))) [
      | inl e ↦ rw (e) (rw (kept) ((split_cr-IsSettled bytes).1))
      | inr e ↦ rw (e) (rw (kept) IsSettled-nil)
    ]

-- What is put back in front of the next chunk holds no end of line.
pub process_received_lines-IsSettled :
    (info : SocketInfo)
    → is_empty info.received_buffer ≡ false
    → IsSettled (process_received_lines info).received_buffer
unfolding process_received_lines
process_received_lines-IsSettled info e = elim (Bool-cases (is_utf8 info.received_buffer)) [
  | inl k ↦
      waiting-IsSettled (process_received_lines info).received_buffer info.received_buffer
        ((process_received_lines_lem info e k).1)
  | inr k ↦ rw (e) (rw (k) (process_binary-IsSettled info.received_buffer _ refl))
]
