-- ===== src/Legacy/Base64/RoundTrip.antt =====
-- `fish10_b64_decode` reads back what `fish10_b64_encode` writes, and the sizes of both.
use fish.Common.{
  ℕ, zero, suc, ◌+◌, ◌*◌, ◌/◌, ◌%◌, ◌^◌, ◌<◌, ◌≡◌, refl, ap, sym, ◌∙◌, arith, Bool, true, false, [],
  ◌∷◌, ◌++◌, Option, none, some, Bytes, length, drop, All, ◌==◌, holds_below, holds_below_at,
  length-append, drop-append, append_assoc,
}
use fish.Legacy.Cipher.{IsByte}
use fish.Errors.{ok}
use fish.Legacy.Base64.{
  fish10_b64_abc, symbol_at, position, be_word, to_be_bytes, symbols, encode_blocks,
  fish10_b64_encode, word, decode_block, decode_blocks, fish10_b64_decode,
}

-- Every symbol of the alphabet is found at its own place.
found_at : ℕ → Bool
found_at i = elim (position (symbol_at fish10_b64_abc i) fish10_b64_abc) [
  | none ↦ false
  | some j ↦ j == i
]

table : holds_below 64 found_at ≡ true
unfolding holds_below found_at symbol_at position
table = refl

position-symbol_at :
    (i : ℕ) → i < 64 → position (symbol_at fish10_b64_abc i) fish10_b64_abc ≡ some i
unfolding found_at
position-symbol_at i h =
    found (position (symbol_at fish10_b64_abc i) fish10_b64_abc)
      (holds_below_at found_at 64 i h table)
  where
    found : (p : Option ℕ) → (elim p [ none ↦ false | some j ↦ j == i ]) ≡ true → p ≡ some i
    found none e = cc
    found (some j) e = ground arith

length-symbols : (n w : ℕ) → length (symbols n w) ≡ n
unfolding symbols
length-symbols zero w = refl
length-symbols (suc n) w = ap suc (length-symbols n (w / 64))

-- What `word` makes of `n` symbols of `w`, from place `j` on.
value : ℕ → ℕ → ℕ → ℕ
value zero j w = 0
value (suc n) j w = w % 64 * 2 ^ (6 * j) % 2 ^ 32 + value n (j + 1) (w / 64)

word-symbols : (n j w : ℕ) (rest : Bytes) → word n j (symbols n w ++ rest) ≡ some (value n j w)
unfolding word symbols value
word-symbols zero j w rest = refl
word-symbols (suc n) j w rest =
    rw (position-symbol_at (w % 64) (omega arith), word)
      (rw (word-symbols n (j + 1) (w / 64) rest, word) refl)

-- Six symbols hold the 32 bits.
value_of_word : (w : ℕ) → w < 2 ^ 32 → value 6 0 w ≡ w
unfolding value
value_of_word w h = omega arith

word-symbols_six : (w : ℕ) (rest : Bytes) → w < 2 ^ 32 → word 6 0 (symbols 6 w ++ rest) ≡ some w
word-symbols_six w rest h = word-symbols 6 0 w rest ∙ ap some (value_of_word w h)

be_word_bound : (a b c d : ℕ) → IsByte a → IsByte b → IsByte c → IsByte d → be_word a b c d < 2 ^ 32
unfolding be_word
be_word_bound a b c d ha hb hc hd = omega arith

cons_eq : {x y : ℕ} {xs ys : Bytes} → x ≡ y → xs ≡ ys → x ∷ xs ≡ y ∷ ys
cons_eq p q = cc

to_be_bytes-be_word :
    (a b c d : ℕ) (rest : Bytes)
    → IsByte a
    → IsByte b
    → IsByte c
    → IsByte d
    → to_be_bytes (be_word a b c d) ++ rest ≡ a ∷ b ∷ c ∷ d ∷ rest
unfolding to_be_bytes be_word
to_be_bytes-be_word a b c d rest ha hb hc hd =
    cons_eq (omega arith)
      (cons_eq (omega arith) (cons_eq (omega arith) (cons_eq (omega arith) refl)))

-- One block of the decoder, at two words' symbols.
decode_block-symbols :
    (l r : ℕ) (rest : Bytes)
    → l < 2 ^ 32
    → r < 2 ^ 32
    → decode_block (symbols 6 r ++ (symbols 6 l ++ rest)) ≡ ok (to_be_bytes l ++ to_be_bytes r)
unfolding decode_block
decode_block-symbols l r rest hl hr =
    rw (word-symbols_six r (symbols 6 l ++ rest) hr, decode_block)
      (rw (drop-append 6 (symbols 6 r) (symbols 6 l ++ rest) (length-symbols 6 r), decode_block)
        (rw (word-symbols_six l rest hl, decode_block) refl))

drop_block : (l r : ℕ) (rest : Bytes) → drop 12 (symbols 6 r ++ (symbols 6 l ++ rest)) ≡ rest
drop_block l r rest =
    ap (drop 12) (sym (append_assoc (symbols 6 r) (symbols 6 l) rest))
    ∙ drop-append 12 (symbols 6 r ++ symbols 6 l) rest (
        length-append (symbols 6 r) (symbols 6 l)
        ∙ (let p = length-symbols 6 r in let q = length-symbols 6 l in omega arith))

decode_blocks_step :
    (n : ℕ) (s block rest : Bytes)
    → decode_block s ≡ ok block
    → decode_blocks n (drop 12 s) ≡ ok rest
    → decode_blocks (suc n) s ≡ ok (block ++ rest)
unfolding decode_blocks
decode_blocks_step n s block rest p q = rw (p, decode_blocks) (rw (q, decode_blocks) refl)

block_bytes :
    (a b c d e f g h : ℕ) (rest : Bytes)
    → IsByte a
    → IsByte b
    → IsByte c
    → IsByte d
    → IsByte e
    → IsByte f
    → IsByte g
    → IsByte h
    → (to_be_bytes (be_word a b c d) ++ to_be_bytes (be_word e f g h)) ++ rest
      ≡ a ∷ b ∷ c ∷ d ∷ e ∷ f ∷ g ∷ h ∷ rest
block_bytes a b c d e f g h rest ha hb hc hd he hf hg hh =
    append_assoc (to_be_bytes (be_word a b c d)) (to_be_bytes (be_word e f g h)) rest
    ∙ to_be_bytes-be_word a b c d (to_be_bytes (be_word e f g h) ++ rest) ha hb hc hd
    ∙ ap (λ t. a ∷ b ∷ c ∷ d ∷ t) (to_be_bytes-be_word e f g h rest he hf hg hh)

decode_blocks-encode_blocks :
    (n : ℕ) (bytes : Bytes)
    → length bytes ≡ n * 8
    → All IsByte bytes
    → decode_blocks n (encode_blocks n bytes) ≡ ok bytes
unfolding decode_blocks encode_blocks
decode_blocks-encode_blocks zero [] e hs = refl
decode_blocks-encode_blocks zero (x ∷ xs) e hs = absurd (omega arith)
decode_blocks-encode_blocks (suc n) (a ∷ b ∷ c ∷ d ∷ e ∷ f ∷ g ∷ h ∷ rest) len
      (ha, (hb, (hc, (hd, (he, (hf, (hg, (hh, hr)))))))) =
    let left = be_word a b c d in
    let right = be_word e f g h in
    decode_blocks_step n (symbols 6 right ++ (symbols 6 left ++ encode_blocks n rest))
      (to_be_bytes left ++ to_be_bytes right) rest
      (decode_block-symbols left right (encode_blocks n rest) (be_word_bound a b c d ha hb hc hd)
        (be_word_bound e f g h he hf hg hh))
      (ap (decode_blocks n) (drop_block left right (encode_blocks n rest))
        ∙ decode_blocks-encode_blocks n rest (omega arith) hr)
    ∙ ap ok (block_bytes a b c d e f g h rest ha hb hc hd he hf hg hh)
decode_blocks-encode_blocks (suc n) _ e h = absurd (omega arith)

length-encode_blocks :
    (n : ℕ) (bytes : Bytes) → length bytes ≡ n * 8 → length (encode_blocks n bytes) ≡ n * 12
unfolding encode_blocks
length-encode_blocks zero bytes e = refl
length-encode_blocks (suc n) (a ∷ b ∷ c ∷ d ∷ e ∷ f ∷ g ∷ h ∷ rest) len = omega (
  arith,
  length-append (symbols 6 (be_word e f g h)) (symbols 6 (be_word a b c d) ++ encode_blocks n rest),
  length-append (symbols 6 (be_word a b c d)) (encode_blocks n rest),
  length-symbols 6 (be_word e f g h),
  length-symbols 6 (be_word a b c d),
  length-encode_blocks n rest (omega arith),
)
length-encode_blocks (suc n) _ e = absurd (omega arith)

-- A number of bytes that is a multiple of eight is encoded, with twelve symbols for eight bytes,
-- and decoding the symbols gives the bytes back.
pub fish10_b64_decode-encode :
    (bytes : Bytes)
    → All IsByte bytes
    → length bytes % 8 ≡ 0
    → (s : Bytes) × (fish10_b64_encode bytes ≡ ok s)
      × (length s ≡ length bytes / 8 * 12)
      × (fish10_b64_decode s ≡ ok bytes)
unfolding fish10_b64_encode fish10_b64_decode
fish10_b64_decode-encode bytes hb hl =
    let n = length bytes / 8 in
    let s = encode_blocks n bytes in
    let whole : length bytes ≡ n * 8 = omega arith in
    let size = length-encode_blocks n bytes whole in
    let rounds : length s / 12 ≡ n = omega arith in
    let fits : length s % 12 ≡ 0 = omega arith in
    (s, rw hl, size, rw fits (rw rounds (decode_blocks-encode_blocks n bytes whole hb)))
