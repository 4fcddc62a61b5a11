-- ===== src/Legacy/Base64.antt =====
-- fish_11_dll/src/crypto/blowfish.rs: `fish10_b64_encode` and `fish10_b64_decode`, the base64 of
-- FiSH 10. A block of 8 bytes is two big-endian words; each word is six symbols of six bits, the
-- lowest first, the right word before the left. `|` joins bits that do not meet, so it is a sum.
pub mod RoundTrip
use fish.Common.{
  ℕ, zero, suc, ◌+◌, ◌*◌, ◌/◌, ◌%◌, ◌^◌, Bool, List, [], ◌∷◌, ◌++◌, Option, none, some, Bytes,
  codes, length, take, drop, ◌==◌, if◌then◌else◌,
}
use fish.Errors.{Result, ok, err, DllError}

abbrev pub fish10_b64_abc : Bytes
fish10_b64_abc = codes "./0123456789abcdefghijklmnopqrstuvwxyzABCDEFGHIJKLMNOPQRSTUVWXYZ"

symbol_at : Bytes → ℕ → ℕ
symbol_at [] i = 0
symbol_at (c ∷ cs) zero = c
symbol_at (c ∷ cs) (suc i) = symbol_at cs i

-- `iter().position(|&x| x == c)`.
position : ℕ → Bytes → Option ℕ
position c [] = none
position c (x ∷ xs) =
    if x == c then some 0 else elim (position c xs) [ none ↦ none | some i ↦ some (suc i) ]

-- The word of four bytes.
be_word : ℕ → ℕ → ℕ → ℕ → ℕ
be_word a b c d = a * 2 ^ 24 + b * 2 ^ 16 + c * 2 ^ 8 + d

-- `u32::to_be_bytes`.
to_be_bytes : ℕ → Bytes
to_be_bytes w = w / 2 ^ 24 % 256 ∷ w / 2 ^ 16 % 256 ∷ w / 2 ^ 8 % 256 ∷ w % 256 ∷ []

-- `for _ in 0..n { push ABC[w & 0x3F]; w >>= 6 }`.
symbols : ℕ → ℕ → Bytes
unfolding symbol_at
symbols zero w = []
symbols (suc n) w = symbol_at fish10_b64_abc (w % 64) ∷ symbols n (w / 64)

-- The loop over blocks of 8 bytes, `n` of them left. The second clause is not met: the length
-- has been checked.
encode_blocks : ℕ → Bytes → Bytes
unfolding be_word symbols
encode_blocks zero data_left = []
encode_blocks (suc n) (a ∷ b ∷ c ∷ d ∷ e ∷ f ∷ g ∷ h ∷ rest) =
    symbols 6 (be_word e f g h) ++ (symbols 6 (be_word a b c d) ++ encode_blocks n rest)
encode_blocks (suc n) _ = []

pub fish10_b64_encode : Bytes → Result Bytes DllError
unfolding encode_blocks
fish10_b64_encode bytes =
    if length bytes % 8 == 0
    then ok (encode_blocks (length bytes / 8) bytes)
    else err DllError.legacy_error

-- `for j in j..j+n { w |= val << (j * 6) }`, a shift of a u32; `none` for a byte that is no symbol.
word : ℕ → ℕ → Bytes → Option ℕ
unfolding position
word zero j s = some 0
word (suc n) j [] = none
word (suc n) j (c ∷ s) = elim (position c fish10_b64_abc) [
  | none ↦ none
  | some val ↦ elim (word n (j + 1) s) [
    | none ↦ none
    | some later ↦ some (val * 2 ^ (6 * j) % 2 ^ 32 + later)
  ]
]

decode_block : Bytes → Result Bytes DllError
unfolding word to_be_bytes
decode_block s = elim (word 6 0 s) [
  | none ↦ err DllError.legacy_error
  | some right ↦ elim (word 6 0 (drop 6 s)) [
    | none ↦ err DllError.legacy_error
    | some left ↦ ok (to_be_bytes left ++ to_be_bytes right)
  ]
]

-- The loop over blocks of 12 symbols, `n` of them left.
decode_blocks : ℕ → Bytes → Result Bytes DllError
unfolding decode_block
decode_blocks zero s = ok []
decode_blocks (suc n) s = elim (decode_block s) [
  | err e ↦ err e
  | ok block ↦ elim (decode_blocks n (drop 12 s)) [ err e ↦ err e | ok rest ↦ ok (block ++ rest) ]
]

pub fish10_b64_decode : Bytes → Result Bytes DllError
unfolding decode_blocks
fish10_b64_decode s =
    if length s % 12 == 0 then decode_blocks (length s / 12) s else err DllError.legacy_error
