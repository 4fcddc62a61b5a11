-- ===== src/Utils/Target.antt =====
-- fish_11_dll/src/utils.rs: `normalize_target` against a description with no indices.
use fish.Common.{
  ℕ, zero, suc, ◌+◌, ◌≡◌, refl, arith, Bool, true, false, ◌&&◌, [], ◌∷◌, Option, none, some, Bytes,
  drop, ltb, if◌then◌else◌, trim,
}
use fish.Utils.{is_status, is_channel_char, channel_scan, normalize_target}

-- The text behind its leading status characters.
abbrev pub without_status : Bytes → Bytes
without_status [] = []
without_status (c ∷ s) = if is_status c then without_status s else c ∷ s

abbrev pub names_channel : Bytes → Bool
names_channel [] = false
names_channel (c ∷ s) = is_channel_char c

-- A channel behind status characters stands for itself; all else is left as it is.
abbrev pub target_of : Bytes → Bytes
target_of s = if names_channel (without_status s) then without_status s else s

-- What a result of the scan picks out of the text.
abbrev picked : Bytes → Option (ℕ × Bool) → Option Bytes
picked s none = none
picked s (some (idx, seen)) = if seen && ltb 0 idx then some (drop idx s) else none

drop_more :
    (k : ℕ) (whole : Bytes) {c : ℕ} {s : Bytes} → drop k whole ≡ c ∷ s → drop (suc k) whole ≡ s
drop_more zero [] e = cc
drop_more zero (x ∷ xs) e = cc
drop_more (suc k) [] e = cc
drop_more (suc k) (x ∷ xs) e = drop_more k xs e

channel_scan-target :
    (k : ℕ) (s whole : Bytes)
    → drop (suc k) whole ≡ s
    → picked whole (channel_scan (suc k) true s)
      ≡ (if names_channel (without_status s) then some (without_status s) else none)
unfolding channel_scan
channel_scan-target k [] whole e = refl
channel_scan-target k (c ∷ s) whole e =
    let ih = channel_scan-target (suc k) s whole (drop_more (suc k) whole e) in
    let more : suc k + 1 ≡ suc (suc k) = omega arith in rw more (ground (arith, ih))

-- Without the white space round it, a target that is a channel name behind status characters is
-- read as the channel name, and every other target stays as it is.
pub normalize_target-target_of : (t : Bytes) → normalize_target t ≡ target_of (trim t)
unfolding normalize_target
normalize_target-target_of t = chosen (trim t)
  where
    chosen :
        (s : Bytes)
        → (elim (channel_scan 0 false s) [
          | none ↦ s
          | some (idx, seen) ↦ if seen && ltb 0 idx then drop idx s else s
        ])
          ≡ target_of s
    chosen [] = refl
    chosen (c ∷ s) =
        let later = channel_scan-target 0 s (c ∷ s) refl in
        let one : 0 + 1 ≡ 1 = omega arith in ground (arith, later)
