-- ===== src/Master/Keystore/Stored.antt =====
-- fish_11_core/src/master_key/keystore.rs: what was written to the file is read back, and the old form
-- of the metadata.
use fish.Common.{
  ℕ, ◌==◌, ◌≡◌, refl, sym, ◌∙◌, ap, arith, inl, inr, true, false, not, List, [], ◌∷◌, ◌++◌, some,
  Bytes, All, Bool-cases, Option-cases, length, length-append, take-append, drop-append, is_utf8,
}
use fish.Master.Encryption.{Cipher, IsCipher}
use fish.Master.Keystore.{
  KeyMetadata, split_colon, join_colon, legacy_of, parse_legacy_metadata, encrypt_keystore_data,
  decrypt_keystore_data, is_encrypted_data, all_zero, text_of_file,
}

module _ (cipher : Cipher) (laws : IsCipher cipher) (system_key : Bytes) where
  decrypt-encrypt_keystore_data :
      (nonce text content : Bytes)
      → length nonce ≡ 12
      → is_utf8 text ≡ true
      → encrypt_keystore_data cipher system_key nonce text ≡ some content
      → (decrypt_keystore_data cipher system_key content ≡ some text)
        × (is_encrypted_data cipher system_key content ≡ not (all_zero cipher system_key nonce))
  unfolding encrypt_keystore_data decrypt_keystore_data is_encrypted_data
  decrypt-encrypt_keystore_data nonce text content size valid written =
      elim (Option-cases (cipher.encrypt system_key nonce text)) [
        | inl e ↦ ground (arith, e, written)
        | inr (c, e) ↦ ground (
          arith,
          e,
          written,
          valid,
          laws.decrypt-encrypt system_key nonce text c e,
          take-append 12 nonce c size,
          drop-append 12 nonce c size,
          length-append nonce c,
          size,
        )
      ]

  -- With a cipher that decrypts what it encrypted, the UTF-8 text that was written under a nonce of
  -- 12 bytes that are not all zero is the text that is read from the file.
  pub text_of_file-encrypt_keystore_data :
      (nonce text content : Bytes)
      → length nonce ≡ 12
      → all_zero cipher system_key nonce ≡ false
      → is_utf8 text ≡ true
      → encrypt_keystore_data cipher system_key nonce text ≡ some content
      → text_of_file cipher system_key content ≡ some text
  unfolding text_of_file
  text_of_file-encrypt_keystore_data nonce text content size some_nonce valid written =
      let (read, sealed) = decrypt-encrypt_keystore_data nonce text content size valid written in
      rw (sealed) (rw (some_nonce) (rw (read) refl))

-- A part with no colon in it.
abbrev pub IsPart : Bytes → Type 0
IsPart s = split_colon s ≡ (s, [])

IsPart-tail : (c : ℕ) (x : Bytes) → IsPart (c ∷ x) → ((c == b':') ≡ false) × IsPart x
unfolding split_colon
IsPart-tail c x part = elim (Bool-cases (c == b':')) [
  | inl e ↦ absurd (ground (arith, e, ap (λ r. r.0) part))
  | inr e ↦ (e, ground (arith, e, ap (λ r. r.0) part, ap (λ r. r.1) part))
]

split_colon-append :
    (x y : Bytes)
    → IsPart x
    → split_colon (x ++ (b':' ∷ y)) ≡ (x, (split_colon y).0 ∷ (split_colon y).1)
unfolding split_colon
split_colon-append [] y part = refl
split_colon-append (c ∷ x) y part =
    let (plain, rest) = IsPart-tail c x part in
    rw (plain) (ap (λ r. (c ∷ r.0, r.1)) (split_colon-append x y rest))

split_colon-join_colon :
    (x : Bytes) (xs : List Bytes) → All IsPart (x ∷ xs) → split_colon (join_colon x xs) ≡ (x, xs)
split_colon-join_colon x [] parts = parts.0
split_colon-join_colon x (y ∷ xs) parts =
    split_colon-append x (join_colon y xs) parts.0
    ∙ ap (λ r. (x, r.0 ∷ r.1)) (split_colon-join_colon y xs parts.1)

-- The old form of the metadata, seven parts with colons between them, gives a description that has
-- the last part, the flag of revocation, behind it.
pub parse_legacy_metadata-description :
    (p0 p1 p2 p3 p4 description revoked : Bytes) (m : KeyMetadata)
    → All IsPart (p0 ∷ p1 ∷ p2 ∷ p3 ∷ p4 ∷ description ∷ revoked ∷ [])
    → parse_legacy_metadata (join_colon p0 (p1 ∷ p2 ∷ p3 ∷ p4 ∷ description ∷ revoked ∷ []))
      ≡ some m
    → m.description ≡ description ++ (b':' ∷ revoked)
unfolding parse_legacy_metadata
parse_legacy_metadata-description p0 p1 p2 p3 p4 description revoked m parts parsed =
    let split = split_colon-join_colon p0 (p1 ∷ p2 ∷ p3 ∷ p4 ∷ description ∷ revoked ∷ []) parts in
    let read = ap legacy_of (sym split) ∙ parsed in ground (arith, read)
