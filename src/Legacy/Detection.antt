-- ===== src/Legacy/Detection.antt =====
-- fish_11_dll/src/legacy/fish10_message_detection.rs: messages of FiSH 10, of mircryption and of the
-- DH1080 exchange.
use fish.Common.{
  Bool, ◌||◌, ◌==◌, Option, none, some, Bytes, codes, if◌then◌else◌, length, drop, ltb, trim,
  starts_with,
}
use fish.Errors.{Result, ok, err, DllError}
use fish.Utils.{split_space}

abbrev pub fish10_prefix : Bytes
fish10_prefix = codes "+OK "

abbrev pub mcps_prefix : Bytes
mcps_prefix = codes "mcps "

unfoldable pub is_fish10_message : Bytes → Bool
is_fish10_message message =
    let trimmed = trim message in
    starts_with fish10_prefix trimmed || starts_with mcps_prefix trimmed

abbrev not_empty : Bytes → Result Bytes DllError
not_empty payload = if length payload == 0 then err DllError.legacy_error else ok payload

unfoldable pub extract_fish10_payload : Bytes → Result Bytes DllError
extract_fish10_payload message =
    let trimmed = trim message in
    if starts_with fish10_prefix trimmed
    then not_empty (trim (drop (length fish10_prefix) trimmed))
    else if starts_with mcps_prefix trimmed
    then not_empty (trim (drop (length mcps_prefix) trimmed))
    else err DllError.legacy_error

unfoldable pub is_dh1080_message : Bytes → Bool
is_dh1080_message message = starts_with (codes "DH1080_") (trim message)

unfoldable pub parse_dh1080_message_type : Bytes → Option Bytes
unfolding split_space
parse_dh1080_message_type message =
    let trimmed = trim message in
    let command_part = (split_space trimmed).0 in
    if starts_with (codes "DH1080_") trimmed
    then (if ltb 7 (length command_part) then some (drop 7 command_part) else none)
    else none

abbrev trimmed_part : Option Bytes → Option Bytes
trimmed_part none = none
trimmed_part (some part) = some (trim part)

unfoldable pub extract_dh1080_public_key : Bytes → Option Bytes
unfolding split_space
extract_dh1080_public_key message =
    let trimmed = trim message in
    if starts_with (codes "DH1080_") trimmed then trimmed_part (split_space trimmed).1 else none
