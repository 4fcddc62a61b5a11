-- ===== src/Dll/PublicKey/Raw.antt =====
-- fish_11_dll/src/dll_interface/key_management.rs: FiSH11_ProcessPublicKey with a key that has no prefix.
use fish.Common.{
  ℕ, ◌≡◌, refl, arith, inl, inr, Bool, true, false, not, ◌||◌, [], ◌∷◌, Bytes, length, ◌==◌, ltb,
  take, if◌then◌else◌, starts_with, same_list, trim, split_whitespace, Bool-cases, ==_iff,
}
use fish.Env.{Env}
use fish.Errors.{DllError}
use fish.Config.Models.{FishConfig}
use fish.Config.Access.{Lock, fail}
use fish.Crypto.X25519.{Curve, prefix, extract_public_key}
use fish.Utils.{normalize_nick}
use fish.Dll.PublicKey.{
  is_base64_char, all_of, all_base64, looks_like_token, token_of, process_public_key,
}

-- What a text of such characters begins with is of such characters.
starts_with-all_of :
    (test : ℕ → Bool) (p s : Bytes)
    → all_of test s ≡ true
    → starts_with p s ≡ true
    → all_of test p ≡ true
unfolding starts_with
starts_with-all_of test [] s h e = refl
starts_with-all_of test (x ∷ p) [] h e = ground (arith, e)
starts_with-all_of test (x ∷ p) (c ∷ s) h e =
    ground (arith, h, e, (==_iff x c).0, starts_with-all_of test p s)

not_prefixed : (s : Bytes) → all_base64 s ≡ true → starts_with prefix s ≡ false
not_prefixed s h = elim (Bool-cases (starts_with prefix s)) [
  | inl e ↦ ground (arith, starts_with-all_of is_base64_char prefix s h e)
  | inr e ↦ e
]

-- The test of extract_public_key for the prefix.
lacks_prefix :
    (p s : Bytes)
    → starts_with p s ≡ false
    → (ltb (length s) (length p) || not (same_list (take (length p) s) p)) ≡ true
unfolding starts_with
lacks_prefix [] s h = ground (arith, h)
lacks_prefix (x ∷ p) [] h = ground arith
lacks_prefix (x ∷ p) (c ∷ s) h = ground (arith, h, lacks_prefix p s)

raw_token :
    (raw : Bytes) → all_base64 raw ≡ true → (length raw == 44) ≡ true → looks_like_token raw ≡ true
unfolding looks_like_token
raw_token raw chars size = rw (not_prefixed raw chars, size) chars

-- A public key without the prefix, in 44 characters of base64 behind a nickname, is taken for the key,
-- and then always refused: with key_invalid where there is a nickname, and nothing changes.
pub process_public_key-raw :
    (env : Env) (curve : Curve) (input nick raw : Bytes) (l : Lock) (config : FishConfig)
    → split_whitespace (trim input) ≡ nick ∷ raw ∷ []
    → looks_like_token nick ≡ false
    → (length raw == 44) ≡ true
    → all_base64 raw ≡ true
    → trim raw ≡ raw
    → process_public_key env curve input l config ≡ (
      fail (
          if length (normalize_nick nick) == 0
          then DllError.missing_parameter
          else DllError.key_invalid),
      config,
    )
process_public_key-raw env curve input nick raw l config words plain size chars tight =
    let named = not_prefixed raw chars in
    let token = raw_token raw chars size in
    let lacks = lacks_prefix prefix raw named in
    unfold process_public_key token_of extract_public_key in
    rw (words, plain, token, tight, lacks) (ground (arith, size))
