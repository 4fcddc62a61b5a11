-- ===== src/Common/Find.antt =====
-- Searching a text: Rust's `find` and `contains` of a pattern that is not empty, `split_whitespace`
-- and the trimming of end-of-line characters, on ASCII white space.
use Prim.Native.Nat.{ℕ}
use mathlib.Core.Bool.{Bool, ◌||◌}
use mathlib.Core.List.{List, [], ◌∷◌, ◌++◌, reverse}
use mathlib.Core.Option.{Option, none, some}
use fish.Common.Tests.{◌==◌, if◌then◌else◌, is_some}
use fish.Common.Lists.{length, drop}
use fish.Common.Text.{Bytes, starts_with, is_whitespace}

abbrev in_front : ℕ → Option (Bytes × Bytes) → Option (Bytes × Bytes)
in_front c none = none
in_front c (some (before, after)) = some (c ∷ before, after)

-- What stands before the first occurrence, and what behind it.
unfoldable pub find_text : Bytes → Bytes → Option (Bytes × Bytes)
unfolding starts_with
find_text p [] = none
find_text p (c ∷ s) =
    let rest = in_front c (find_text p s) in
    if starts_with p (c ∷ s) then some ([], drop (length p) (c ∷ s)) else rest

abbrev pub has_text : Bytes → Bytes → Bool
has_text p s = is_some (find_text p s)

abbrev ended_word : Bytes → List Bytes → List Bytes
ended_word [] rest = rest
ended_word (c ∷ w) rest = (c ∷ w) ∷ rest

-- With the word that is being read.
unfoldable pub words_from : Bytes → Bytes → List Bytes
unfolding is_whitespace
words_from w [] = ended_word w []
words_from w (c ∷ s) =
    let ended = words_from [] s in
    let longer = words_from (w ++ (c ∷ [])) s in
    if is_whitespace c then ended_word w ended else longer

unfoldable pub split_whitespace : Bytes → List Bytes
unfolding words_from
split_whitespace s = words_from [] s

-- `trim_start_matches` of a character.
unfoldable pub trim_start_of : ℕ → Bytes → Bytes
trim_start_of x [] = []
trim_start_of x (c ∷ s) = if c == x then trim_start_of x s else c ∷ s

unfoldable pub drop_newlines : Bytes → Bytes
drop_newlines [] = []
drop_newlines (c ∷ s) = if (c == 13) || (c == 10) then drop_newlines s else c ∷ s

-- `trim_end_matches(|c| c == '\r' || c == '\n')`.
unfoldable pub trim_newlines : Bytes → Bytes
unfolding drop_newlines
trim_newlines s = reverse (drop_newlines (reverse s))
