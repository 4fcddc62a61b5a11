-- ===== src/Inject/Socket/Detection.antt =====
-- fish_11_inject/src/socket/handlers/protocol_detection.rs and tls.rs: what the first bytes of a
-- connection say, and the records of a TLS handshake. Texts that are only logged are left out.
use fish.Common.{
  ℕ, zero, suc, ◌+◌, ◌-◌, ◌*◌, ◌==◌, Bool, true, false, ◌&&◌, ◌||◌, [], ◌∷◌, map, Option, none,
  some, Bytes, codes, if◌then◌else◌, length, take, leb, ltb, starts_with, trim, is_utf8,
}
use fish.Inject.Socket.{SocketInfo, SocketState, set_state, set_ssl}

-- A byte of a slice, 0 behind its end; the source asks only after a check of the length.
unfoldable pub byte_at : ℕ → Bytes → ℕ
byte_at n [] = 0
byte_at zero (c ∷ s) = c
byte_at (suc n) (c ∷ s) = byte_at n s

abbrev pub ascii_upper : ℕ → ℕ
ascii_upper c = if leb b'a' c && leb c b'z' then c - 32 else c

-- `NICK`, `USER`, `PASS` or `CAP ` in the first four bytes.
abbrev pub is_login : Bytes → Bool
is_login s =
    starts_with (codes "NICK") s
    || starts_with (codes "USER") s
    || starts_with (codes "PASS") s
    || starts_with (codes "CAP ") s

unfoldable pub handle_protocol_detection : Bytes → SocketInfo → SocketInfo
unfolding byte_at
handle_protocol_detection bytes info =
    if ltb 0 (length bytes) && ((byte_at 0 bytes == 0x16) || (byte_at 0 bytes == 0x80))
    then set_state SocketState.tls_handshake (set_ssl true info)
    else if ltb 4 (length bytes)
    then (if is_login bytes
        then set_state SocketState.connected info
        else if is_utf8 (take 4 bytes) && is_login (map ascii_upper (take 4 bytes))
        then set_state SocketState.connected info
        else info)
    else info

abbrev is_tls_version : Bytes → Bool
is_tls_version bytes = (byte_at 1 bytes == 3) && leb 1 (byte_at 2 bytes) && leb (byte_at 2 bytes) 4

unfoldable pub is_tls_handshake_packet : Bytes → Bool
unfolding byte_at
is_tls_handshake_packet bytes =
    leb 5 (length bytes) && (byte_at 0 bytes == 22) && is_tls_version bytes

-- The commands with a fast path, then those of the trimmed text.
unfoldable pub is_initial_irc_command : Bytes → Bool
is_initial_irc_command bytes =
    if leb 5 (length bytes)
      && (starts_with (codes "NICK ") bytes
          || starts_with (codes "USER ") bytes
          || starts_with (codes "PASS ") bytes
          || starts_with (codes "PING ") bytes
          || starts_with (codes "PONG ") bytes
          || starts_with (codes "CAP ") bytes)
    then true
    else if is_utf8 bytes
    then (let trimmed = trim bytes in
        starts_with (codes "NICK ") trimmed
        || starts_with (codes "USER ") trimmed
        || starts_with (codes "PASS ") trimmed
        || starts_with (codes "CAP ") trimmed
        || starts_with (codes "PONG ") trimmed
        || starts_with (codes "PING ") trimmed)
    else false

abbrev pub u16_at : ℕ → Bytes → ℕ
u16_at n bytes = byte_at n bytes * 256 + byte_at (n + 1) bytes

pub record RecordInfo : Type 0 where
  pub record_type : ℕ
  pub version : ℕ
  pub record_length : ℕ

unfoldable pub parse_tls_record_info : Bytes → Option RecordInfo
unfolding byte_at
parse_tls_record_info bytes =
    if leb 5 (length bytes) && is_tls_version bytes
    then some (record {
      record_type = byte_at 0 bytes;
      version = u16_at 1 bytes;
      record_length = u16_at 3 bytes;
    })
    else none

unfoldable pub parse_tls_handshake_type : Bytes → Option ℕ
unfolding byte_at
parse_tls_handshake_type bytes =
    if leb 6 (length bytes) && (byte_at 0 bytes == 22) && is_tls_version bytes
    then some (byte_at 5 bytes)
    else none
