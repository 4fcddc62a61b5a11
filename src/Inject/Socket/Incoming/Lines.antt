-- ===== src/Inject/Socket/Incoming/Lines.antt =====
-- fish_11_inject/src/socket/handlers/incoming_irc.rs: the lines that the engines see.
use fish.Common.{
  ℕ, ◌==◌, ◌≡◌, refl, sym, ◌∙◌, ap, arith, inl, inr, Bool, true, false, List, [], ◌∷◌, ◌++◌, ◌⊎◌,
  append_assoc, append-nil, Bytes, is_utf8, Bool-cases, split_crlf, with_ends, with_ends-split_crlf,
  scan, push, Lines, crlf,
}
use fish.Inject.Engines
use fish.Inject.Engines.{InjectEngines}
use fish.Inject.Socket.{SocketInfo}
use fish.Inject.Socket.Incoming.{
  is_empty, is_lf, deliver, count_received, on_incoming_irc_line, ends_with_crlf, receive_pieces,
  process_text, process_received_lines,
}
use fish.Inject.Socket.Outgoing.{full_lines}

-- What the engines of a socket make of the lines, one after the other.
unfoldable pub incoming_all : ℕ → InjectEngines → List Bytes → Bytes
incoming_all socket engines [] = []
incoming_all socket engines (line ∷ lines) =
    (Engines.on_incoming_irc_line socket line engines).1 ++ incoming_all socket engines lines

push-ends :
    (c : ℕ) (s : Lines)
    → is_empty s.ended ≡ false
    → (is_empty (push c s).ended ≡ false) × ((push c s).last ≡ s.last)
push-ends c s = go s.ended s.last
  where
    go :
        (xs : List Bytes) (l : Bytes)
        → is_empty xs ≡ false
        → let pushed = push c (record { ended = xs; last = l }) in
          (is_empty pushed.ended ≡ false) × (pushed.last ≡ l)
    go [] l h = ground arith
    go (x ∷ xs) l h = (refl, refl)

pub is_lf_iff : (s : Bytes) → is_lf s ≡ true → s ≡ 10 ∷ []
is_lf_iff [] h = ground arith
is_lf_iff (c ∷ []) h = ground arith
is_lf_iff (c ∷ d ∷ s) h = ground arith

scan_more :
    (c : ℕ) (s : Bytes) (pending : Bool)
    → (is_empty (scan false s).ended ≡ false) × ((scan false s).last ≡ [])
    → (is_empty (scan true s).ended ≡ false) × ((scan true s).last ≡ [])
    → (is_empty (scan pending (c ∷ s)).ended ≡ false) × ((scan pending (c ∷ s)).last ≡ [])
unfolding scan
scan_more c s false plain open_cr = elim (Bool-cases (c == 13)) [
  | inl e ↦ rw (e) open_cr
  | inr e ↦ let (more, same) = push-ends c (scan false s) plain.0 in rw (e) (more, same ∙ plain.1)
]
scan_more c s true plain open_cr = elim (Bool-cases (c == 10)) [
  | inl e ↦ let k : (c == 13) ≡ false = ground arith in rw (e) (rw (k) (refl, plain.1))
  | inr e ↦ elim (Bool-cases (c == 13)) [
    | inl k ↦
        let (more, same) = push-ends 13 (scan true s) open_cr.0 in
        rw (e) (rw (k) (more, same ∙ open_cr.1))
    | inr k ↦
        let (more, same) = push-ends c (scan false s) plain.0 in
        let (more', same') = push-ends 13 (push c (scan false s)) more in
        rw (e) (rw (k) (more', same' ∙ same ∙ plain.1))
  ]
]

scan_crlf :
    (pending : Bool)
    → let lines = scan pending (13 ∷ 10 ∷ []) in (is_empty lines.ended ≡ false) × (lines.last ≡ [])
unfolding scan
scan_crlf true = (refl, refl)
scan_crlf false = (refl, refl)

-- A text that ends with an end of line has an empty last piece.
scan_ends :
    (pending : Bool) (s : Bytes)
    → ends_with_crlf s ≡ true
    → (is_empty (scan pending s).ended ≡ false) × ((scan pending s).last ≡ [])
unfolding scan ends_with_crlf
scan_ends pending [] h = ground arith
scan_ends pending (c ∷ s) h = elim (Bool-cases (ends_with_crlf s)) [
  | inl later ↦ scan_more c s pending (scan_ends false s later) (scan_ends true s later)
  | inr here ↦
      let lf : s ≡ 10 ∷ [] = is_lf_iff s (ground (arith, h, here)) in
      let cr : c ≡ 13 = ground (arith, h, here) in rw (cr) (rw (lf) (scan_crlf pending))
]

-- With pieces that are ended by an end of line, the text ends with one.
with_ends_end : (x : Bytes) (xs : List Bytes) → ends_with_crlf (with_ends (x ∷ xs)) ≡ true
unfolding with_ends ends_with_crlf
with_ends_end [] [] = refl
with_ends_end [] (y ∷ xs) = ground (arith, with_ends_end y xs)
with_ends_end (c ∷ x) xs = ground (arith, with_ends_end x xs)

ended_ends :
    (s : Bytes) (xs : List Bytes)
    → is_empty s ≡ false
    → with_ends xs ++ [] ≡ s
    → ends_with_crlf s ≡ true
unfolding with_ends
ended_ends s [] some_text whole = absurd (ground (arith, ap is_empty whole, some_text))
ended_ends s (x ∷ xs) some_text whole =
    let whole' : with_ends (x ∷ xs) ≡ s = sym (append-nil (with_ends (x ∷ xs))) ∙ whole in
    ap ends_with_crlf (sym whole') ∙ with_ends_end x xs

last_empty_ends :
    (s : Bytes) → is_empty s ≡ false → (split_crlf s).last ≡ [] → ends_with_crlf s ≡ true
last_empty_ends s some_text last_empty =
    ended_ends s (split_crlf s).ended some_text
      (ap (with_ends (split_crlf s).ended ++◌) (sym last_empty) ∙ with_ends-split_crlf s)

receive_pieces_lem :
    (pieces : List Bytes) (info : SocketInfo)
    → let info' = receive_pieces false pieces info in
      (info'.processed_incoming_buffer
        ≡ info.processed_incoming_buffer
          ++ incoming_all info.socket info.engines (full_lines pieces))
      × (info'.received_buffer ≡ info.received_buffer)
unfolding receive_pieces incoming_all full_lines on_incoming_irc_line
receive_pieces_lem [] info = (sym (append-nil _), refl)
receive_pieces_lem ([] ∷ pieces) info = receive_pieces_lem pieces info
receive_pieces_lem ((c ∷ piece) ∷ pieces) info =
    let line = on_incoming_irc_line ((c ∷ piece) ++ crlf) info in
    let delivered = deliver ((c ∷ piece) ++ crlf) info in
    let (processed, received) =
      receive_pieces_lem pieces (record delivered { stats = count_received info.stats }) in
    (processed ∙ append_assoc info.processed_incoming_buffer line _, received)

is_empty_nil : (s : Bytes) → is_empty s ≡ true → s ≡ []
is_empty_nil [] h = refl
is_empty_nil (c ∷ s) h = ground arith

-- The text ends with an end of line, or its last piece is not empty.
text_ends :
    (s : Bytes)
    → is_empty s ≡ false
    → ((is_empty (split_crlf s).last ≡ true) × (ends_with_crlf s ≡ true))
      ⊎ ((is_empty (split_crlf s).last ≡ false) × (ends_with_crlf s ≡ false))
unfolding split_crlf
text_ends s some_text = elim (Bool-cases (is_empty (scan false s).last)) [
  | inl e ↦ inl (e, last_empty_ends s some_text (is_empty_nil (scan false s).last e))
  | inr e ↦ elim (Bool-cases (ends_with_crlf s)) [
    | inl k ↦ absurd (ground (arith, e, ap is_empty ((scan_ends false s k).1)))
    | inr k ↦ inr (e, k)
  ]
]

process_text_lem :
    (bytes : Bytes) (info : SocketInfo)
    → is_empty bytes ≡ false
    → let lines = split_crlf bytes in
      let info' = process_text bytes info in
      (info'.processed_incoming_buffer
        ≡ info.processed_incoming_buffer
          ++ incoming_all info.socket info.engines (full_lines (lines.ended ++ (lines.last ∷ []))))
      × (info'.received_buffer ≡ info.received_buffer ++ lines.last)
unfolding process_text
process_text_lem bytes info some_text =
    let pieces = (split_crlf bytes).ended ++ ((split_crlf bytes).last ∷ []) in
    let (processed, received) = receive_pieces_lem pieces info in
    elim (text_ends bytes some_text) [
      | inl (e, k) ↦
          let nothing = is_empty_nil (split_crlf bytes).last e in
          rw (e) (
            rw (k) (
              processed,
              received
                  ∙ sym (append-nil info.received_buffer)
                  ∙ ap (info.received_buffer ++◌) (sym nothing),
            ))
      | inr (e, k) ↦ rw (e) (rw (k) (processed, ap (◌++ (split_crlf bytes).last) received))
    ]

-- Every piece of a UTF-8 text goes through the engines.
pub process_received_lines_lem :
    (info : SocketInfo)
    → is_empty info.received_buffer ≡ false
    → is_utf8 info.received_buffer ≡ true
    → let lines = split_crlf info.received_buffer in
      let info' = process_received_lines info in
      (info'.processed_incoming_buffer
        ≡ info.processed_incoming_buffer
          ++ incoming_all info.socket info.engines (full_lines (lines.ended ++ (lines.last ∷ []))))
      × (info'.received_buffer ≡ lines.last)
unfolding process_received_lines process_text
process_received_lines_lem info some_text valid = rw (some_text) (
    rw (valid)
      (process_text_lem info.received_buffer (record info { received_buffer = [] }) some_text))
