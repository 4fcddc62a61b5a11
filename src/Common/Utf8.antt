-- ===== src/Common/Utf8.antt =====
-- Rust's UTF-8 decoding of bytes: the test behind `String::from_utf8`, and `from_utf8_lossy`,
-- which writes EF BF BD for every maximal piece that is not UTF-8.
use Prim.Native.Nat.{ℕ, zero, suc, ◌+◌}
use mathlib.Core.Path.{◌≡◌, refl}
use mathlib.Core.Logic.{inl, inr}
use mathlib.Core.Bool.{Bool, true, false, ◌&&◌}
use mathlib.Core.List.{[], ◌∷◌, ◌++◌}
use native.Mathlib.Omega.{arith}
use fish.Common.Tests.{◌==◌, leb, if◌then◌else◌, Bool-cases}
use fish.Common.Lists.{length, take, drop, take-append-drop}
use fish.Common.Text.{Bytes}

-- The size of the first piece, and whether it is one encoded character.
pub record Piece : Type 0 where
  pub size : ℕ
  pub good : Bool

abbrev pub in_range : ℕ → ℕ → ℕ → Bool
in_range lo hi c = leb lo c && leb c hi

-- `k` more bytes in 80..BF, after `n` bytes of the piece.
continuation : ℕ → ℕ → Bytes → Piece
continuation zero n s = record { size = n; good = true }
continuation (suc k) n [] = record { size = n; good = false }
continuation (suc k) n (c ∷ s) =
    let rest = continuation k (n + 1) s in
    if in_range 0x80 0xbf c then rest else record { size = n; good = false }

-- A second byte in lo..hi, then `k` more.
second : ℕ → ℕ → ℕ → Bytes → Piece
unfolding continuation
second lo hi k [] = record { size = 1; good = false }
second lo hi k (c ∷ s) =
    if in_range lo hi c then continuation k 2 s else record { size = 1; good = false }

first_piece : ℕ → Bytes → Piece
unfolding second
first_piece c s =
    if leb c 0x7f
    then record { size = 1; good = true }
    else if in_range 0xc2 0xdf c
    then second 0x80 0xbf 0 s
    else if c == 0xe0
    then second 0xa0 0xbf 1 s
    else if c == 0xed
    then second 0x80 0x9f 1 s
    else if in_range 0xe1 0xef c
    then second 0x80 0xbf 1 s
    else if c == 0xf0
    then second 0x90 0xbf 2 s
    else if in_range 0xf1 0xf3 c
    then second 0x80 0xbf 2 s
    else if c == 0xf4
    then second 0x80 0x8f 2 s
    else record { size = 1; good = false }

-- One piece for each round; a piece has at least one byte, so `length s` rounds are enough.
utf8_from : ℕ → Bytes → Bool
unfolding first_piece
utf8_from zero s = true
utf8_from (suc k) [] = true
utf8_from (suc k) (c ∷ s) = let p = first_piece c s in p.good && utf8_from k (drop p.size (c ∷ s))

lossy_from : ℕ → Bytes → Bytes
unfolding first_piece
lossy_from zero s = s
lossy_from (suc k) [] = []
lossy_from (suc k) (c ∷ s) =
    let p = first_piece c s in
    (if p.good then take p.size (c ∷ s) else 0xef ∷ 0xbf ∷ 0xbd ∷ [])
    ++ lossy_from k (drop p.size (c ∷ s))

unfoldable pub is_utf8 : Bytes → Bool
unfolding utf8_from
is_utf8 s = utf8_from (length s) s

unfoldable pub from_utf8_lossy : Bytes → Bytes
unfolding lossy_from
from_utf8_lossy s = lossy_from (length s) s

lossy_from-eq_self : (k : ℕ) (s : Bytes) → utf8_from k s ≡ true → lossy_from k s ≡ s
unfolding utf8_from lossy_from
lossy_from-eq_self zero s h = refl
lossy_from-eq_self (suc k) [] h = refl
lossy_from-eq_self (suc k) (c ∷ s) h = elim (Bool-cases (first_piece c s).good) [
  | inl good ↦
      let rest = drop (first_piece c s).size (c ∷ s) in
      let later : utf8_from k rest ≡ true = ground (arith, good) in
      rw good
        (rw (lossy_from-eq_self k rest later) (take-append-drop (first_piece c s).size (c ∷ s)))
  | inr bad ↦ ground (arith, bad)
]

-- On UTF-8 the lossy reading changes nothing.
pub from_utf8_lossy-eq_self : (s : Bytes) → is_utf8 s ≡ true → from_utf8_lossy s ≡ s
unfolding is_utf8 from_utf8_lossy
from_utf8_lossy-eq_self s = lossy_from-eq_self (length s) s
