-- ===== src/Legacy/Blowfish/Blocks.antt =====
-- fish_11_dll/src/crypto/blowfish.rs: padding, xor and the two modes on whole blocks.
use fish.Common.{
  ℕ, zero, suc, ◌+◌, ◌-◌, ◌*◌, ◌%◌, ◌<◌, bit_xor, ◌≡◌, ◌≢◌, refl, ap, sym, ◌∙◌, arith, Bool, true,
  ◌&&◌, [], ◌∷◌, ◌++◌, none, some, Bytes, length, take, drop, replicate, All, All-append, All-take,
  All-drop, ◌==◌, ltb, leb, leb→le, Bool-cases, inl, inr, length-append, length-take, length-drop,
  length-replicate, take-append, drop-append, take-append-drop, append-nil, holds_below,
  holds_below_at,
}
use fish.Legacy.Cipher.{IsByte, IsBlock}
use fish.Legacy.Blowfish.{
  pad_len, padded, rposition_nonzero, without_trailing_nulls, xor_bytes, resized, iv_of_key, ecb,
  cbc_encrypt, cbc_decrypt,
}

-- Texts that do not end in a null byte.
abbrev pub NoTrailingNull : Bytes → Type 0
NoTrailingNull [] = Unit
NoTrailingNull (x ∷ []) = x ≢ 0
NoTrailingNull (x ∷ y ∷ ys) = NoTrailingNull (y ∷ ys)

rposition_nonzero-replicate : (n : ℕ) → rposition_nonzero (replicate n 0) ≡ none
unfolding rposition_nonzero
rposition_nonzero-replicate zero = refl
rposition_nonzero-replicate (suc n) = rw (rposition_nonzero-replicate n, rposition_nonzero) refl

rposition_nonzero-append :
    (x : ℕ) (xs : Bytes) (n : ℕ)
    → NoTrailingNull (x ∷ xs)
    → rposition_nonzero ((x ∷ xs) ++ replicate n 0) ≡ some (length xs)
unfolding rposition_nonzero
rposition_nonzero-append x [] n h = ground (arith, rposition_nonzero-replicate n)
rposition_nonzero-append x (y ∷ ys) n h =
    rw (rposition_nonzero-append y ys n h, rposition_nonzero) refl

pub without_trailing_nulls-append :
    (p : Bytes) (n : ℕ) → NoTrailingNull p → without_trailing_nulls (p ++ replicate n 0) ≡ p
unfolding without_trailing_nulls
without_trailing_nulls-append [] n h = rw (rposition_nonzero-replicate n) refl
without_trailing_nulls-append (x ∷ xs) n h =
    rw (rposition_nonzero-append x xs n h)
      (take-append (length xs + 1) (x ∷ xs) (replicate n 0) (omega arith))

pub length-padded : (p : Bytes) → length (padded p) % 8 ≡ 0
unfolding padded pad_len
length-padded p =
    omega (arith, length-append p (replicate (pad_len p) 0), length-replicate {A = ℕ} (pad_len p) 0)

All-replicate : (n : ℕ) → All IsByte (replicate n 0)
All-replicate zero = tt
All-replicate (suc n) = (omega arith, All-replicate n)

pub All-padded : (p : Bytes) → All IsByte p → All IsByte (padded p)
unfolding padded
All-padded p h = All-append IsByte p (replicate (pad_len p) 0) h (All-replicate (pad_len p))

-- xor on bytes, by evaluation of every pair.
xor_holds : ℕ → ℕ → Bool
xor_holds a b = (bit_xor (bit_xor a b) b == a) && ltb (bit_xor a b) 256

xor_table : holds_below 256 (λ a. holds_below 256 (xor_holds a)) ≡ true
unfolding holds_below xor_holds
xor_table = refl

xor_twice : (a b : ℕ) → IsByte a → IsByte b → xor_holds a b ≡ true
xor_twice a b ha hb =
    holds_below_at (xor_holds a) 256 b hb
      (holds_below_at (λ a. holds_below 256 (xor_holds a)) 256 a ha xor_table)

xor_byte : (a b : ℕ) → IsByte a → IsByte b → (bit_xor (bit_xor a b) b ≡ a) × (bit_xor a b < 256)
unfolding xor_holds
xor_byte a b ha hb = ground (arith, xor_twice a b ha hb)

pub xor_bytes_twice :
    (xs ys : Bytes)
    → length xs ≡ length ys
    → All IsByte xs
    → All IsByte ys
    → xor_bytes (xor_bytes xs ys) ys ≡ xs
unfolding xor_bytes
xor_bytes_twice [] ys e hx hy = refl
xor_bytes_twice (x ∷ xs) [] e hx hy = absurd (omega arith)
xor_bytes_twice (x ∷ xs) (y ∷ ys) e hx hy =
    cc ((xor_byte x y hx.0 hy.0).0, xor_bytes_twice xs ys (omega arith) hx.1 hy.1)

length-xor_bytes : (xs ys : Bytes) → length (xor_bytes xs ys) ≡ length xs
unfolding xor_bytes
length-xor_bytes [] ys = refl
length-xor_bytes (x ∷ xs) [] = refl
length-xor_bytes (x ∷ xs) (y ∷ ys) = ap suc (length-xor_bytes xs ys)

All-xor_bytes : (xs ys : Bytes) → All IsByte xs → All IsByte ys → All IsByte (xor_bytes xs ys)
unfolding xor_bytes
All-xor_bytes [] ys hx hy = tt
All-xor_bytes (x ∷ xs) [] hx hy = hx
All-xor_bytes (x ∷ xs) (y ∷ ys) hx hy = ((xor_byte x y hx.0 hy.0).1, All-xor_bytes xs ys hx.1 hy.1)

pub xor_bytes-IsBlock : {b v : Bytes} → IsBlock b → IsBlock v → IsBlock (xor_bytes b v)
xor_bytes-IsBlock {b} {v} hb hv = record {
  eight = length-xor_bytes b v ∙ hb.eight;
  bytes = All-xor_bytes b v hb.bytes hv.bytes;
}

pub iv_of_key-IsBlock : (key : Bytes) → All IsByte key → IsBlock (iv_of_key key)
unfolding iv_of_key
iv_of_key-IsBlock key h = elim (Bool-cases (leb 8 (length key))) [
  | inl long ↦ rw long (record {
    eight = omega (arith, length-take 8 key, leb→le 8 (length key) long);
    bytes = All-take IsByte 8 key h;
  })
  | inr short ↦ rw short (record {
    eight = ground (
      arith,
      length-append key (replicate (8 - length key) 0),
      length-replicate {A = ℕ} (8 - length key) 0,
    );
    bytes = All-append IsByte key (replicate (8 - length key) 0) h (All-replicate (8 - length key));
  })
]

pub resized-IsBlock : (b : Bytes) → IsBlock b → resized b ≡ b
unfolding resized
resized-IsBlock b h = let e : 8 - length b ≡ 0 = omega (arith, h.eight) in rw e (append-nil b)

pub take-IsBlock : (n : ℕ) (s : Bytes) → length s ≡ suc n * 8 → All IsByte s → IsBlock (take 8 s)
take-IsBlock n s e h = record {
  eight = omega (arith, length-take 8 s);
  bytes = All-take IsByte 8 s h;
}

pub rest_whole : (n : ℕ) (s : Bytes) → length s ≡ suc n * 8 → length (drop 8 s) ≡ n * 8
rest_whole n s e = omega (arith, length-drop 8 s)

module _ (encrypt decrypt : Bytes → Bytes) (keeps : (b : Bytes) → IsBlock b → IsBlock (encrypt b))
    (back : (b : Bytes) → IsBlock b → decrypt (encrypt b) ≡ b) where
  pub ecb-encrypt-IsWhole :
      (n : ℕ) (s : Bytes)
      → length s ≡ n * 8
      → All IsByte s
      → (length (ecb encrypt n s) ≡ n * 8) × All IsByte (ecb encrypt n s)
  unfolding ecb
  ecb-encrypt-IsWhole zero s e h = (refl, tt)
  ecb-encrypt-IsWhole (suc n) s e h =
      let block = keeps (take 8 s) (take-IsBlock n s e h) in
      let (size, bytes) =
        ecb-encrypt-IsWhole n (drop 8 s) (rest_whole n s e) (All-drop IsByte 8 s h) in
      (
        omega (
          arith,
          length-append (encrypt (take 8 s)) (ecb encrypt n (drop 8 s)),
          block.eight,
          size,
        ),
        All-append IsByte (encrypt (take 8 s)) (ecb encrypt n (drop 8 s)) block.bytes bytes,
      )

  pub ecb-decrypt-encrypt :
      (n : ℕ) (s : Bytes) → length s ≡ n * 8 → All IsByte s → ecb decrypt n (ecb encrypt n s) ≡ s
  unfolding ecb
  ecb-decrypt-encrypt zero [] e h = refl
  ecb-decrypt-encrypt zero (x ∷ xs) e h = absurd (omega arith)
  ecb-decrypt-encrypt (suc n) s e h =
      let block = keeps (take 8 s) (take-IsBlock n s e h) in
      let later = ecb encrypt n (drop 8 s) in
      rw (take-append 8 (encrypt (take 8 s)) later block.eight) (
        rw (drop-append 8 (encrypt (take 8 s)) later block.eight) (
          rw
            (
              back (take 8 s) (take-IsBlock n s e h),
              ecb-decrypt-encrypt n (drop 8 s) (rest_whole n s e) (All-drop IsByte 8 s h),
            )
            (take-append-drop 8 s)))

  pub cbc_encrypt-IsWhole :
      (n : ℕ) (v s : Bytes)
      → IsBlock v
      → length s ≡ n * 8
      → All IsByte s
      → (length (cbc_encrypt encrypt n v s) ≡ n * 8) × All IsByte (cbc_encrypt encrypt n v s)
  unfolding cbc_encrypt
  cbc_encrypt-IsWhole zero v s hv e h = (refl, tt)
  cbc_encrypt-IsWhole (suc n) v s hv e h =
      let first = take-IsBlock n s e h in
      let output = encrypt (xor_bytes (resized (take 8 s)) v) in
      let block : IsBlock output =
        rw (resized-IsBlock (take 8 s) first)
          (keeps (xor_bytes (take 8 s) v) (xor_bytes-IsBlock first hv)) in
      let later = cbc_encrypt encrypt n output (drop 8 s) in
      let (size, bytes) =
        cbc_encrypt-IsWhole n output (drop 8 s) block (rest_whole n s e) (All-drop IsByte 8 s h) in
      (
        omega (arith, length-append output later, block.eight, size),
        All-append IsByte output later block.bytes bytes,
      )

  pub cbc_decrypt-encrypt :
      (n : ℕ) (v s : Bytes)
      → IsBlock v
      → length s ≡ n * 8
      → All IsByte s
      → cbc_decrypt decrypt n v (cbc_encrypt encrypt n v s) ≡ s
  unfolding cbc_encrypt cbc_decrypt
  cbc_decrypt-encrypt zero v [] hv e h = refl
  cbc_decrypt-encrypt zero v (x ∷ xs) hv e h = absurd (omega arith)
  cbc_decrypt-encrypt (suc n) v s hv e h =
      let first = take-IsBlock n s e h in
      let mixed = xor_bytes-IsBlock first hv in
      let output = encrypt (xor_bytes (take 8 s) v) in
      let block = keeps (xor_bytes (take 8 s) v) mixed in
      let later = cbc_encrypt encrypt n output (drop 8 s) in
      rw (resized-IsBlock (take 8 s) first) (
        rw (take-append 8 output later block.eight) (
          rw (drop-append 8 output later block.eight) (
            rw
              (
                back (xor_bytes (take 8 s) v) mixed,
                xor_bytes_twice (take 8 s) v (first.eight ∙ sym hv.eight) first.bytes hv.bytes,
                cbc_decrypt-encrypt n output (drop 8 s) block (rest_whole n s e)
                    (All-drop IsByte 8 s h),
              )
              (take-append-drop 8 s))))
