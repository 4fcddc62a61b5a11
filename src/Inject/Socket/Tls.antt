-- ===== src/Inject/Socket/Tls.antt =====
-- fish_11_inject/src/socket/handlers/tls.rs: the records of a TLS handshake in what is received.
pub mod Stream
use fish.Common.{
  ℕ, zero, suc, ◌+◌, ◌==◌, Bool, true, false, ◌&&◌, List, [], ◌∷◌, ◌++◌, Option, none, some, Bytes,
  if◌then◌else◌, length, take, drop, leb,
}
use fish.Inject.Socket.{SocketInfo, SocketState, set_state}
use fish.Inject.Socket.Detection.{RecordInfo, byte_at, parse_tls_record_info}

-- The size of the first record, where it is complete.
unfoldable pub whole_record : Bytes → Option ℕ
unfolding parse_tls_record_info
whole_record buffer = elim (parse_tls_record_info buffer) [
  | none ↦ none
  | some info ↦
      if leb (5 + info.record_length) (length buffer) then some (5 + info.record_length) else none
]

pub record Drained : Type 0 where
  pub buffer : Bytes
  pub records : List Bytes

-- The loop that drains complete records, at most `fuel` of them.
unfoldable pub drain_records : ℕ → Bytes → Drained
unfolding whole_record
drain_records zero buffer = record { buffer = buffer; records = [] }
drain_records (suc fuel) buffer = elim (whole_record buffer) [
  | none ↦ record { buffer = buffer; records = [] }
  | some size ↦
      let rest = drain_records fuel (drop size buffer) in
      record { buffer = rest.buffer; records = take size buffer ∷ rest.records }
]

-- A handshake record sets the state.
unfoldable pub note_record : Bytes → SocketInfo → SocketInfo
note_record r info = if byte_at 0 r == 22 then set_state SocketState.tls_handshake info else info

unfoldable pub note_records : List Bytes → SocketInfo → SocketInfo
unfolding note_record
note_records [] info = info
note_records (r ∷ rs) info = note_records rs (note_record r info)

-- A record has at least five bytes, so as many rounds as bytes are enough.
unfoldable pub drain_all : Bytes → Drained
unfolding drain_records
drain_all buffer = drain_records (length buffer) buffer

unfoldable pub on_receiving : Bytes → SocketInfo → SocketInfo
unfolding drain_all note_records
on_receiving bytes info =
    let drained = drain_all (info.tls_handshake_buffer ++ bytes) in
    note_records drained.records (record info { tls_handshake_buffer = drained.buffer })
