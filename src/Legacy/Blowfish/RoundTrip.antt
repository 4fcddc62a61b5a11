-- ===== src/Legacy/Blowfish/RoundTrip.antt =====
-- fish_11_dll/src/crypto/blowfish.rs: a message is read back under the key that it was written
-- under, in both modes.
use fish.Common.{◌+◌, ◌*◌, ◌/◌, ◌≡◌, refl, ap, arith, true, some, Bytes, length, All, is_utf8}
use fish.Errors.{ok}
use fish.Legacy.Base64.RoundTrip.{fish10_b64_decode-encode}
use fish.Legacy.Cipher.{IsByte, BlockCipher, IsBlockCipher}
use fish.Legacy.Blowfish.{
  padded, pad_len, without_trailing_nulls, to_text, iv_of_key, ecb, cbc_encrypt, encrypt_message,
  decrypt_message, encrypt_message_cbc, decrypt_message_cbc,
}
use fish.Legacy.Blowfish.Blocks.{
  NoTrailingNull, without_trailing_nulls-append, length-padded, All-padded, iv_of_key-IsBlock,
  ecb-encrypt-IsWhole, ecb-decrypt-encrypt, cbc_encrypt-IsWhole, cbc_decrypt-encrypt,
}

-- What is left of the padded text is the text.
unpadded :
    (p : Bytes)
    → is_utf8 p ≡ true
    → NoTrailingNull p
    → to_text (without_trailing_nulls (padded p)) ≡ p
unfolding padded to_text
unpadded p u h = rw (without_trailing_nulls-append p (pad_len p) h) (rw u refl)

module _ (c : BlockCipher) (laws : IsBlockCipher c) (key p : Bytes) {bf : c.Schedule}
    (accepted : c.new_from_slice key ≡ some bf) (bytes : All IsByte p) (text : is_utf8 p ≡ true)
    (no_null : NoTrailingNull p) where
  -- For a lawful block cipher that accepts the key, a UTF-8 text of bytes with no null at its end is
  -- encrypted in ECB mode, and what was written is decrypted to the text.
  pub decrypt-encrypt :
      (s : Bytes) × (encrypt_message c key p ≡ ok s) × (decrypt_message c key s ≡ ok p)
  unfolding encrypt_message decrypt_message
  decrypt-encrypt =
      let n = length (padded p) / 8 in
      let whole : length (padded p) ≡ n * 8 = omega (arith, length-padded p) in
      let cipher = ecb (c.encrypt_block bf) n (padded p) in
      let (size, cs) =
        ecb-encrypt-IsWhole (c.encrypt_block bf) (c.decrypt_block bf)
          (laws.encrypt_block-IsBlock bf) (laws.decrypt-encrypt bf) n (padded p) whole
          (All-padded p bytes) in
      let (s, encoded, _, decoded) = fish10_b64_decode-encode cipher cs (omega (arith, size)) in
      let blocks : length cipher / 8 ≡ n = omega (arith, size) in
      (
        s,
        rw (accepted, encrypt_message) encoded,
        rw (accepted, decrypt_message)
            (rw (decoded, decrypt_message)
              (rw blocks (
                rw
                  (ecb-decrypt-encrypt (c.encrypt_block bf) (c.decrypt_block bf)
                    (laws.encrypt_block-IsBlock bf) (laws.decrypt-encrypt bf) n (padded p) whole
                    (All-padded p bytes))
                  (ap ok (unpadded p text no_null))))),
      )

  -- The same in CBC mode, whose first block is mixed with the start of the key: for a lawful block
  -- cipher that accepts the key, a UTF-8 text of bytes with no null at its end is encrypted, and what
  -- was written is decrypted to the text.
  pub decrypt-encrypt_cbc :
      All IsByte key
      → (s : Bytes) × (encrypt_message_cbc c key p ≡ ok s) × (decrypt_message_cbc c key s ≡ ok p)
  unfolding encrypt_message_cbc decrypt_message_cbc
  decrypt-encrypt_cbc key_bytes =
      let n = (length (padded p) + 7) / 8 in
      let v = iv_of_key-IsBlock key key_bytes in
      let whole : length (padded p) ≡ n * 8 = omega (arith, length-padded p) in
      let cipher = cbc_encrypt (c.encrypt_block bf) n (iv_of_key key) (padded p) in
      let (size, cs) =
        cbc_encrypt-IsWhole (c.encrypt_block bf) (c.decrypt_block bf)
          (laws.encrypt_block-IsBlock bf) (laws.decrypt-encrypt bf) n (iv_of_key key) (padded p) v
          whole (All-padded p bytes) in
      let (s, encoded, _, decoded) = fish10_b64_decode-encode cipher cs (omega (arith, size)) in
      let blocks : (length cipher + 7) / 8 ≡ n = omega (arith, size) in
      (
        s,
        rw (accepted, encrypt_message_cbc) encoded,
        rw (decoded, decrypt_message_cbc)
            (rw (accepted, decrypt_message_cbc)
              (rw blocks (
                rw
                  (cbc_decrypt-encrypt (c.encrypt_block bf) (c.decrypt_block bf)
                    (laws.encrypt_block-IsBlock bf) (laws.decrypt-encrypt bf) n (iv_of_key key)
                    (padded p) v whole (All-padded p bytes))
                  (ap ok (unpadded p text no_null))))),
      )
