-- ===== src/Inject/Socket/Buffers/Bounds.antt =====
-- fish_11_inject/src/socket/buffers.rs: how much is kept, and that it is the newest.
use fish.Common.{
  ℕ, ◌+◌, ◌-◌, ◌≤◌, ◌≡◌, refl, sym, ◌∙◌, ap, arith, inl, inr, max, [], ◌++◌, Bytes, length, ltb,
  take, take-append-drop, length-drop, length-append, append_assoc, append-nil, min, length-take,
  Bool-cases,
}
use fish.Inject.Socket.{SocketInfo}
use fish.Inject.Socket.Buffers.{received_limit, make_room, write_received_data, read_processed_data}

make_room-length :
    (added : ℕ) (buffer : Bytes)
    → length (make_room added buffer) + added ≤ max received_limit added
unfolding make_room
make_room-length added buffer =
    ground (arith, length-drop ((length buffer + added) - 990000) buffer)

make_room-suffix :
    (added : ℕ) (buffer : Bytes) → (old : Bytes) × (old ++ make_room added buffer ≡ buffer)
unfolding make_room
make_room-suffix added buffer =
    let over = (length buffer + added) - 990000 in
    elim (Bool-cases (ltb received_limit (length buffer + added))) [
      | inl e ↦ elim (Bool-cases (ltb over (length buffer))) [
        | inl k ↦ (take over buffer, rw (e) (rw (k) (take-append-drop over buffer)))
        | inr k ↦ (buffer, rw (e) (rw (k) (append-nil buffer)))
      ]
      | inr e ↦ ([], rw (e) refl)
    ]

-- However the bytes came in, the buffer of received bytes holds at most a million bytes, or else the
-- last chunk alone; it is the newest part of what was there and the chunk.
pub write_received_data-bounded :
    (bytes : Bytes) (info : SocketInfo)
    → let buffer = (write_received_data bytes info).received_buffer in
      (length buffer ≤ max received_limit (length bytes))
      × ((lost : Bytes) × (lost ++ buffer ≡ info.received_buffer ++ bytes))
unfolding write_received_data
write_received_data-bounded bytes info =
    let room = make_room (length bytes) info.received_buffer in
    let (lost, whole) = make_room-suffix (length bytes) info.received_buffer in
    (
      omega (arith, length-append room bytes, make_room-length (length bytes) info.received_buffer),
      (lost, sym (append_assoc lost room bytes) ∙ ap (◌++ bytes) whole),
    )

-- What mIRC is given and what is kept for later are the processed bytes, and it is given as much as
-- its buffer holds.
pub read_processed_data-append :
    (size : ℕ) (info : SocketInfo)
    → let (given, info') = read_processed_data size info in
      (given ++ info'.processed_incoming_buffer ≡ info.processed_incoming_buffer)
      × (length given ≡ min size (length info.processed_incoming_buffer))
unfolding read_processed_data
read_processed_data-append size info =
    let n = min size (length info.processed_incoming_buffer) in
    (
      take-append-drop n info.processed_incoming_buffer,
      omega (arith, length-take n info.processed_incoming_buffer),
    )
