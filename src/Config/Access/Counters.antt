-- ===== src/Config/Access/Counters.antt =====
-- fish_11_dll/src/config/mod.rs: the counters of the metrics, which saturate at `usize::MAX`.
use fish.Common.{ℕ, ◌+◌, ◌-◌, ◌^◌, min}
use fish.Errors.{ok, FishError}
use fish.Config.Access.{M, ret, with_config, with_config_mut, forget_of}

-- `saturating_add(1)` on a 32-bit usize: the DLL is built for 32-bit mIRC.
abbrev pub saturating_suc : ℕ → ℕ
saturating_suc n = min (n + 1) (2 ^ 32 - 1)

abbrev pub count_encryption : M FishError (Unit {0})
count_encryption l cfg = (
  ret tt,
  record cfg {
    metrics = record (cfg.metrics) {
      encryption_count = saturating_suc cfg.metrics.encryption_count;
    };
  },
)

abbrev pub count_decryption : M FishError (Unit {0})
count_decryption l cfg = (
  ret tt,
  record cfg {
    metrics = record (cfg.metrics) {
      decryption_count = saturating_suc cfg.metrics.decryption_count;
    };
  },
)

-- `.ok()` behind the call drops the result.
unfoldable pub increment_encryption_counter : {E : Type 0} → M E (Unit {0})
unfolding with_config_mut
increment_encryption_counter l c = forget_of (with_config_mut count_encryption l c)

unfoldable pub increment_decryption_counter : {E : Type 0} → M E (Unit {0})
unfolding with_config_mut
increment_decryption_counter l c = forget_of (with_config_mut count_decryption l c)

abbrev pub count_key_exchange : M FishError (Unit {0})
count_key_exchange l cfg = (
  ret tt,
  record cfg {
    metrics = record (cfg.metrics) {
      key_exchange_count = saturating_suc cfg.metrics.key_exchange_count;
    };
  },
)

unfoldable pub increment_key_exchange_counter : {E : Type 0} → M E (Unit {0})
unfolding with_config_mut
increment_key_exchange_counter l c = forget_of (with_config_mut count_key_exchange l c)

-- The encryptions, the decryptions and the exchanges.
unfoldable pub get_encryption_count : M FishError ℕ
unfolding with_config
get_encryption_count = with_config (λ cfg. ok cfg.metrics.encryption_count)

unfoldable pub get_decryption_count : M FishError ℕ
unfolding with_config
get_decryption_count = with_config (λ cfg. ok cfg.metrics.decryption_count)

unfoldable pub get_key_exchange_count : M FishError ℕ
unfolding with_config
get_key_exchange_count = with_config (λ cfg. ok cfg.metrics.key_exchange_count)
