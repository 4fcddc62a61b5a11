-- ===== src/Common/Text.antt =====
-- Text as the list of its bytes. Rust's `trim`, `to_lowercase` and `char::is_whitespace` are
-- modelled on ASCII text, where a byte is a character.
use Prim.Native.Nat.{ℕ, ◌+◌}
use Prim.Native.Char.{code}
use Prim.Native.String.{String}
use mathlib.Core.Path.{◌≡◌, refl}
use mathlib.Core.Bool.{Bool, true, false, ◌&&◌, ◌||◌}
use mathlib.Core.List.{List, [], ◌∷◌, map, reverse}
use native.Mathlib.Omega.{arith}
use fish.Common.Tests.{◌==◌, leb, if◌then◌else◌}

abbrev pub Bytes : Type 0
Bytes = List ℕ

abbrev pub codes : String → Bytes
codes String.[] = []
codes (String.◌∷◌ c s) = code c ∷ codes s

-- `\t \n \v \f \r` and the space.
unfoldable pub is_whitespace : ℕ → Bool
is_whitespace c = (c == 32) || (leb 9 c && leb c 13)

unfoldable pub trim_start : Bytes → Bytes
unfolding is_whitespace
trim_start [] = []
trim_start (c ∷ s) = if is_whitespace c then trim_start s else c ∷ s

unfoldable pub trim : Bytes → Bytes
unfolding trim_start
trim s = reverse (trim_start (reverse (trim_start s)))

unfoldable pub lower : ℕ → ℕ
lower c = if leb b'A' c && leb c b'Z' then c + 32 else c

unfoldable pub to_lowercase : Bytes → Bytes
unfolding lower
to_lowercase s = map lower s

unfoldable pub starts_with : Bytes → Bytes → Bool
starts_with [] s = true
starts_with (p ∷ ps) [] = false
starts_with (p ∷ ps) (c ∷ s) = (p == c) && starts_with ps s

pub lower_twice : (c : ℕ) → lower (lower c) ≡ lower c
unfolding lower
lower_twice c = ground arith

pub to_lowercase_twice : (s : Bytes) → to_lowercase (to_lowercase s) ≡ to_lowercase s
unfolding to_lowercase
to_lowercase_twice [] = refl
to_lowercase_twice (c ∷ s) = ground (arith, lower_twice c, to_lowercase_twice s)
