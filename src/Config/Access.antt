-- ===== src/Config/Access.antt =====
-- fish_11_dll/src/config/config_access.rs: the configuration behind one RwLock that is not
-- re-entrant, for one thread that runs alone. Each operation is told what the thread holds of the
-- lock, and takes the configuration to an outcome and the configuration left behind; a failed
-- operation keeps the changes that it made in memory. The writing of the file is left out.
pub mod Counters
use fish.Common.{ℕ, ◌+◌, Bool, true, false, Option, none, some, min, ◌^◌, ◌-◌}
use fish.Errors.{Result, ok, err, FishError, DllError, from_fish_error}
use fish.Config.Models.{FishConfig, EncryptionMetrics}

pub data Lock : Type 0 where
  free reading writing : Lock

-- `blocked`: the thread waits for a lock that it holds itself.
pub data Outcome (E : Type 0) (A : Type 0) : Type 0 where
  ret : A → Outcome E A
  fail : E → Outcome E A
  blocked : Outcome E A

abbrev pub M : Type 0 → Type 0 → Type 0
M E A = Lock → FishConfig → Outcome E A × FishConfig

abbrev pub next :
    {E : Type 0} {A : Type 0} {B : Type 0}
    → Outcome E A × FishConfig
    → (A → FishConfig → Outcome E B × FishConfig)
    → Outcome E B × FishConfig
next (ret a, c) k = k a c
next (fail e, c) k = (fail e, c)
next (blocked, c) k = (blocked, c)

infixl 5 ◌>>=◌ ◌>>◌
abbrev pub ◌>>=◌ : {E : Type 0} {A : Type 0} {B : Type 0} → M E A → (A → M E B) → M E B
◌>>=◌ m f l c = next (m l c) (λ a. f a l)

abbrev pub ◌>>◌ : {E : Type 0} {B : Type 0} → M E (Unit {0}) → M E B → M E B
◌>>◌ m k l c = next (m l c) (λ _. k l)

abbrev pub pure : {E : Type 0} {A : Type 0} → A → M E A
pure a l c = (ret a, c)

abbrev pub throw : {E : Type 0} {A : Type 0} → E → M E A
throw e l c = (fail e, c)

-- `?` on a plain result.
abbrev pub lift : {E : Type 0} {A : Type 0} → Result A E → M E A
lift (ok a) = pure a
lift (err e) = throw e

-- `map_err`.
abbrev pub map_err_of :
    {D E : Type 0} {A : Type 0} → (D → E) → Outcome D A × FishConfig → Outcome E A × FishConfig
map_err_of f (ret a, c) = (ret a, c)
map_err_of f (fail e, c) = (fail (f e), c)
map_err_of f (blocked, c) = (blocked, c)

abbrev pub map_err : {D E : Type 0} {A : Type 0} → (D → E) → M D A → M E A
map_err f m l c = map_err_of f (m l c)

-- `.ok()`: the error is thrown away. A thread that waits goes on waiting.
abbrev pub ok_of : {D E A : Type 0} → Outcome D A × FishConfig → Outcome E (Option A) × FishConfig
ok_of (ret a, c) = (ret (some a), c)
ok_of (fail e, c) = (ret none, c)
ok_of (blocked, c) = (blocked, c)

abbrev pub attempt : {D E A : Type 0} → M D A → M E (Option A)
attempt m l c = ok_of (m l c)

-- The same where the value is thrown away too.
abbrev pub forget_of :
    {D E A : Type 0} → Outcome D A × FishConfig → Outcome E (Unit {0}) × FishConfig
forget_of (ret a, c) = (ret tt, c)
forget_of (fail e, c) = (ret tt, c)
forget_of (blocked, c) = (blocked, c)

-- `?` where a FishError becomes a DllError.
abbrev pub into_dll : {A : Type 0} → M FishError A → M DllError A
into_dll m = map_err from_fish_error m

-- A read lock waits for a writer; a second read lock of the same thread does not wait here, since
-- no other thread asks to write.
unfoldable pub with_config : {A : Type 0} → (FishConfig → Result A FishError) → M FishError A
with_config f free c = lift (f c) free c
with_config f reading c = lift (f c) reading c
with_config f writing c = (blocked, c)

-- The closure runs while the write lock is held.
unfoldable pub with_config_mut : {E : Type 0} {A : Type 0} → M E A → M E A
with_config_mut f free c = f writing c
with_config_mut f reading c = (blocked, c)
with_config_mut f writing c = (blocked, c)

-- An early `return Err(e)` where the test fails.
abbrev pub require : {E : Type 0} → Bool → E → M E (Unit {0})
require true e = pure tt
require false e = throw e

-- `ok_or(e)?`.
abbrev pub expect : {E A : Type 0} → Option A → E → M E A
expect none e = throw e
expect (some a) e = pure a
