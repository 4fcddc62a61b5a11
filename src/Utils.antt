-- ===== src/Utils.antt =====
-- fish_11_dll/src/utils.rs and the input parsing of fish_11_dll/src/dll_interface/utility.rs.
pub mod Target
use fish.Common.{
  ℕ, zero, suc, ◌+◌, Bool, true, false, ◌&&◌, ◌||◌, List, [], ◌∷◌, ◌++◌, Option, none, some, Bytes,
  length, drop, ltb, ◌==◌, if◌then◌else◌, trim, to_lowercase,
}
use fish.Errors.{Result, ok, err, DllError}

unfoldable pub normalize_nick : Bytes → Bytes
normalize_nick nick = to_lowercase (trim nick)

-- `['@', '+', '%', '~'].contains(&ch)`.
abbrev pub is_status : ℕ → Bool
is_status c = (c == b'@') || (c == b'+') || (c == b'%') || (c == b'~')

abbrev pub is_channel_char : ℕ → Bool
is_channel_char c = (c == b'#') || (c == b'&')

-- The loop over `char_indices`: `channel_start`, if it was set, with `seen_status`.
channel_scan : ℕ → Bool → Bytes → Option (ℕ × Bool)
channel_scan idx seen [] = none
channel_scan idx seen (c ∷ s) =
    let rest = channel_scan (idx + 1) true s in
    if is_channel_char c then some (idx, seen) else if is_status c then rest else none

unfoldable pub normalize_target : Bytes → Bytes
unfolding channel_scan
normalize_target target =
    let trimmed = trim target in
    elim (channel_scan 0 false trimmed) [
      | none ↦ trimmed
      | some (idx, seen) ↦ if seen && ltb 0 idx then drop idx trimmed else trimmed
    ]

unfoldable pub normalize_target_lowercase : Bytes → Bytes
unfolding normalize_nick normalize_target
normalize_target_lowercase target = normalize_nick (normalize_target target)

-- `splitn(2, ' ')`: what stands before the first space, and what behind it, if there is one.
unfoldable pub split_space : Bytes → Bytes × Option Bytes
split_space [] = ([], none)
split_space (c ∷ s) =
    let (first, second) = split_space s in if c == b' ' then ([], some s) else (c ∷ first, second)

-- `splitn(3, ' ')` of three parts.
unfoldable pub three_parts : Bytes → Option (Bytes × Bytes × Bytes)
unfolding split_space
three_parts input = elim (split_space input).1 [
  | none ↦ none
  | some rest ↦ elim (split_space rest).1 [
    | none ↦ none
    | some third ↦ some ((split_space input).0, (split_space rest).0, third)
  ]
]

pub record ParsedInput : Type 0 where
  pub target : Bytes
  pub message : Bytes

unfoldable pub parse_input : Bytes → Result ParsedInput DllError
unfolding normalize_target split_space
parse_input input =
    let (target_raw, rest) = split_space input in
    elim rest [
      | none ↦ err DllError.invalid_input
      | some message ↦
          let target = normalize_target target_raw in
          if length target == 0
          then err DllError.missing_parameter
          else if length message == 0
          then err DllError.missing_parameter
          else ok (record { target = target; message = message })
    ]

unfoldable pub normalize_private_target : Bytes → Result Bytes DllError
unfolding normalize_nick
normalize_private_target target =
    let nickname = normalize_nick target in
    if length nickname == 0 then err DllError.missing_parameter else ok nickname
