-- ===== src/Errors.antt =====
-- fish_11_dll/src/error.rs and fish_11_dll/src/unified_error.rs: the errors as values. The texts
-- that a variant carries are left out; the names and keys that a caller may act on are kept out
-- too, since every message is only printed.

use fish.Common.{◌≡◌, refl, ◌⊎◌, inl, inr}

pub data FishError : Type 0 where
  config_error crypto_error io_error invalid_input key_not_found duplicate_entry : FishError
  invalid_network_name malformed_entry invalid_key_length base64_error : FishError
  null_byte_in_string non_ascii_character authentication_failed nonce_reuse : FishError
  oversized_message invalid_ciphertext key_expired : FishError

pub data DllError : Type 0 where
  legacy_error config_malformed config_error key_not_found key_expired key_invalid : DllError
  encryption_failed decryption_failed authentication_failed replay_attack_detected : DllError
  message_too_large invalid_input malformed_input missing_parameter io base64 : DllError
  duplicate_entry invalid_network null_byte_in_string non_ascii_character : DllError
  not_connected timeout key_exchange_failed rng_failed invalid_key_size base64_decode_failed :
      DllError
  key_derivation_failed : DllError

-- `impl From<FishError> for DllError`.
unfoldable pub from_fish_error : FishError → DllError
from_fish_error FishError.config_error = DllError.config_malformed
from_fish_error FishError.crypto_error = DllError.encryption_failed
from_fish_error FishError.io_error = DllError.io
from_fish_error FishError.invalid_input = DllError.invalid_input
from_fish_error FishError.key_not_found = DllError.key_not_found
from_fish_error FishError.duplicate_entry = DllError.duplicate_entry
from_fish_error FishError.invalid_network_name = DllError.invalid_network
from_fish_error FishError.malformed_entry = DllError.malformed_input
from_fish_error FishError.invalid_key_length = DllError.key_invalid
from_fish_error FishError.base64_error = DllError.base64
from_fish_error FishError.null_byte_in_string = DllError.null_byte_in_string
from_fish_error FishError.non_ascii_character = DllError.non_ascii_character
from_fish_error FishError.authentication_failed = DllError.authentication_failed
from_fish_error FishError.nonce_reuse = DllError.replay_attack_detected
from_fish_error FishError.oversized_message = DllError.message_too_large
from_fish_error FishError.invalid_ciphertext = DllError.decryption_failed
from_fish_error FishError.key_expired = DllError.key_expired

-- `std::result::Result`.
pub data Result {ℓ κ} (A : Type ℓ) (E : Type κ) : Type (ℓ ⊔ κ) where
  ok : A → Result A E
  err : E → Result A E

infixl 5 ◌>>=◌ ◌>>◌
abbrev pub ◌>>=◌ {ℓ κ λ₁} :
    {A : Type ℓ} {B : Type κ} {E : Type λ₁} → Result A E → (A → Result B E) → Result B E
ok a >>= f = f a
err e >>= f = err e

abbrev pub ◌>>◌ {κ λ₁} : {B : Type κ} {E : Type λ₁} → Result (Unit {0}) E → Result B E → Result B E
m >> k = m >>= λ _. k

pub Result-cases {ℓ κ} :
    {A : Type ℓ} {E : Type κ} (r : Result A E) → ((a : A) × (r ≡ ok a)) ⊎ ((e : E) × (r ≡ err e))
Result-cases (ok a) = inl (a, refl)
Result-cases (err e) = inr (e, refl)
