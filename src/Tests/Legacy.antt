-- ===== src/Tests/Legacy.antt =====
-- The ciphers of FiSH 10 and the parsing of targets, on examples.
use fish.Common.{◌≡◌, refl, arith, some, Bytes, codes, length, is_utf8, trim}
use fish.Errors.{ok}
use fish.Legacy.Base64.{fish10_b64_encode, fish10_b64_decode}
use fish.Legacy.Base64.RoundTrip.{fish10_b64_decode-encode}
use fish.Legacy.Blowfish.{
  encrypt_message, decrypt_message, encrypt_message_cbc, decrypt_message_cbc,
}
use fish.Legacy.Blowfish.RoundTrip.{decrypt-encrypt, decrypt-encrypt_cbc}
use fish.Legacy.Cipher.{BlockCipher, IsBlockCipher}
use fish.Utils.{normalize_target}
use fish.Utils.Target.{normalize_target-target_of}

-- A block cipher that leaves each block as it is.
abbrev pub open_cipher : BlockCipher
open_cipher = record {
  Schedule = Unit {0};
  new_from_slice = λ key. some tt;
  encrypt_block = λ k b. b;
  decrypt_block = λ k b. b;
}

open_cipher-IsBlockCipher : IsBlockCipher open_cipher
open_cipher-IsBlockCipher = record {
  encrypt_block-IsBlock = λ k b h. h;
  decrypt-encrypt = λ k b h. refl;
}

fish10_b64_decode-encode_example :
    (s : Bytes) × (fish10_b64_encode (codes "abcdefgh") ≡ ok s)
    × (length s ≡ 12)
    × (fish10_b64_decode s ≡ ok (codes "abcdefgh"))
fish10_b64_decode-encode_example =
    fish10_b64_decode-encode (codes "abcdefgh")
      (
        omega arith,
        (
          omega arith,
          (
            omega arith,
            (omega arith, (omega arith, (omega arith, (omega arith, (omega arith, tt))))),
          ),
        ),
      )
      refl

decrypt-encrypt_example :
    (s : Bytes) × (encrypt_message open_cipher (codes "key") (codes "hi") ≡ ok s)
    × (decrypt_message open_cipher (codes "key") s ≡ ok (codes "hi"))
unfolding is_utf8
decrypt-encrypt_example =
    decrypt-encrypt open_cipher open_cipher-IsBlockCipher (codes "key") (codes "hi") refl
      (omega arith, (omega arith, tt)) refl (λ same. ground arith)

normalize_target-target_of_example : normalize_target (codes " @#c ") ≡ codes "#c"
unfolding trim
normalize_target-target_of_example = normalize_target-target_of (codes " @#c ")

decrypt-encrypt_cbc_example :
    (s : Bytes) × (encrypt_message_cbc open_cipher (codes "key") (codes "hi") ≡ ok s)
    × (decrypt_message_cbc open_cipher (codes "key") s ≡ ok (codes "hi"))
unfolding is_utf8
decrypt-encrypt_cbc_example =
    decrypt-encrypt_cbc open_cipher open_cipher-IsBlockCipher (codes "key") (codes "hi") refl
      (omega arith, (omega arith, tt)) refl (λ same. ground arith)
      (omega arith, (omega arith, (omega arith, tt)))
