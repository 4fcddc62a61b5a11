-- ===== src/Inject/Socket/Buffers.antt =====
-- fish_11_inject/src/socket/buffers.rs: received bytes, and the processed bytes that mIRC reads.
pub mod Bounds
use fish.Common.{
  ℕ, ◌+◌, ◌-◌, min, Bool, List, [], ◌∷◌, ◌++◌, Bytes, if◌then◌else◌, length, ltb, take, drop,
}
use fish.Inject.Socket.{SocketInfo}

abbrev pub received_limit : ℕ
received_limit = 1000000

-- What is left of the old bytes where `added` bytes would go over the limit.
unfoldable pub make_room : ℕ → Bytes → Bytes
make_room added buffer =
    if ltb received_limit (length buffer + added)
    then (let overflow_amount = (length buffer + added) - 990000 in
        if ltb overflow_amount (length buffer) then drop overflow_amount buffer else [])
    else buffer

unfoldable pub write_received_data : Bytes → SocketInfo → SocketInfo
unfolding make_room
write_received_data bytes info = record info {
  received_buffer = make_room (length bytes) info.received_buffer ++ bytes;
}

-- The bytes copied to the caller's buffer of `size` bytes.
unfoldable pub read_processed_data : ℕ → SocketInfo → Bytes × SocketInfo
read_processed_data size info =
    let bytes_to_copy = min size (length info.processed_incoming_buffer) in
    (
      take bytes_to_copy info.processed_incoming_buffer,
      record info { processed_incoming_buffer = drop bytes_to_copy info.processed_incoming_buffer },
    )

abbrev pub get_processed_buffer : SocketInfo → Bytes
get_processed_buffer info = info.processed_incoming_buffer

abbrev pub clear_processed_buffer : SocketInfo → SocketInfo
clear_processed_buffer info = record info { processed_incoming_buffer = [] }
