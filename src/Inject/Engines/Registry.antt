-- ===== src/Inject/Engines/Registry.antt =====
-- fish_11_inject/src/engines.rs: the map of pointers and the two lists agree.
use fish.Common.{
  ℕ, ◌+◌, ◌<◌, ◌==◌, ◌≡◌, refl, arith, List, [], ◌∷◌, ◌++◌, if◌then◌else◌, length, lookup,
  contains_key, nat_eq, lookup-insert, lookup-remove, is_some,
}
use fish.Inject.Engines.{
  FishInjectEngine, SafeEngine, InjectEngines, new_engines, safe_engine, register, retain,
  unregister, get_engines,
}

-- How often an address stands in a list.
unfoldable pub count : ℕ → List SafeEngine → ℕ
count addr [] = 0
count addr (e ∷ es) = (if e.engine_addr == addr then 1 else 0) + count addr es

count-append :
    (addr : ℕ) (es fs : List SafeEngine) → count addr (es ++ fs) ≡ count addr es + count addr fs
unfolding count
count-append addr [] fs = ground arith
count-append addr (e ∷ es) fs = ground (arith, count-append addr es fs)

count-retain :
    (addr a : ℕ) (es : List SafeEngine)
    → count a (retain addr es) ≡ (if addr == a then 0 else count a es)
unfolding count retain
count-retain addr a [] = ground arith
count-retain addr a (e ∷ es) = ground (arith, count-retain addr a es)

length-retain :
    (addr : ℕ) (es : List SafeEngine) → length (retain addr es) + count addr es ≡ length es
unfolding count retain
length-retain addr [] = ground arith
length-retain addr (e ∷ es) = ground (arith, length-retain addr es)

-- An address is registered if it stands in the lists, and then it stands there once.
abbrev pub IsConsistent : InjectEngines → Type 0
IsConsistent engines =
    (addr : ℕ)
    → count addr engines.pre_engines + count addr engines.post_engines
      ≡ (if is_some (lookup addr engines.registered_ptrs) then 1 else 0)

-- The registry starts consistent.
pub new_engines-IsConsistent : IsConsistent new_engines
unfolding new_engines count lookup
new_engines-IsConsistent addr = refl

pub register-IsConsistent :
    (addr : ℕ) (engine : FishInjectEngine) (engines : InjectEngines)
    → IsConsistent engines
    → IsConsistent (register addr engine engines).1
unfolding register safe_engine contains_key count
register-IsConsistent addr engine engines inv a = grind (arith, inv a, count-append, lookup-insert)

pub unregister-IsConsistent :
    (addr : ℕ) (engines : InjectEngines)
    → IsConsistent engines
    → IsConsistent (unregister addr engines).1
unfolding unregister contains_key
unregister-IsConsistent addr engines inv a = grind (arith, inv a, count-retain, lookup-remove)

-- The registries that come about by registering and unregistering, from the empty one.
pub data Registered : InjectEngines → Type 0 where
  none_yet : Registered new_engines
  registered :
      (addr : ℕ) (engine : FishInjectEngine) {engines : InjectEngines}
      → Registered engines
      → Registered (register addr engine engines).1
  unregistered :
      (addr : ℕ) {engines : InjectEngines}
      → Registered engines
      → Registered (unregister addr engines).1

-- After any registrations and removals, successful or not, an address is in the map of pointers
-- exactly if an engine of that address is listed, and then one.
pub Registered-IsConsistent : {engines : InjectEngines} → Registered engines → IsConsistent engines
Registered-IsConsistent none_yet = new_engines-IsConsistent
Registered-IsConsistent (registered addr engine so_far) =
    register-IsConsistent addr engine _ (Registered-IsConsistent so_far)
Registered-IsConsistent (unregistered addr so_far) =
    unregister-IsConsistent addr _ (Registered-IsConsistent so_far)

-- On a consistent registry, unregistering an address that is not null succeeds for the registered
-- addresses alone, and leaves no engine of that address behind.
pub unregister_lem :
    (addr : ℕ) (engines : InjectEngines)
    → 0 < addr
    → IsConsistent engines
    → ((unregister addr engines).0 ≡ is_some (lookup addr engines.registered_ptrs))
      × (count addr (get_engines (unregister addr engines).1) ≡ 0)
unfolding unregister contains_key get_engines
unregister_lem addr engines positive inv = (
  grind (
    arith,
    inv addr,
    length-retain addr engines.pre_engines,
    length-retain addr engines.post_engines,
  ),
  grind (arith, inv addr, count-append, count-retain),
)
