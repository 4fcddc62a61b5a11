-- ===== src/Inject/Engines.antt =====
-- fish_11_inject/src/engines.rs: the engines that other DLLs register, and the lines that go through
-- them. An engine is what its pointer leads to; a callback is a function from the socket and the
-- line to the text that it returns, none for a null pointer.
pub mod Registry
pub mod Pipeline
use fish.Common.{
  ℕ, ◌+◌, ◌-◌, ◌==◌, Bool, true, false, not, ◌||◌, List, [], ◌∷◌, ◌++◌, Option, none, some, Bytes,
  codes, if◌then◌else◌, length, lookup, insert, remove, contains_key, nat_eq, ltb,
}

abbrev pub fish_inject_engine_version : ℕ
fish_inject_engine_version = 1

pub record FishInjectEngine : Type 0 where
  pub version : ℕ
  pub engine_name : Option Bytes
  pub is_postprocessor : Bool
  pub on_outgoing_irc_line : ℕ → Bytes → Option Bytes
  pub on_incoming_irc_line : ℕ → Bytes → Option Bytes

pub record SafeEngine : Type 0 where
  pub engine_addr : ℕ
  pub version : ℕ
  pub engine_name : Bytes
  pub is_postprocessor : Bool
  pub outgoing_line : ℕ → Bytes → Option Bytes
  pub incoming_line : ℕ → Bytes → Option Bytes

-- `SafeEngine::new`, of a pointer that is not null.
unfoldable pub safe_engine : ℕ → FishInjectEngine → Option SafeEngine
safe_engine addr engine =
    if not (engine.version == fish_inject_engine_version)
    then none
    else some (record {
      engine_addr = addr;
      version = engine.version;
      engine_name = elim engine.engine_name [ none ↦ codes "<Unnamed Engine>" | some name ↦ name ];
      is_postprocessor = engine.is_postprocessor;
      outgoing_line = engine.on_outgoing_irc_line;
      incoming_line = engine.on_incoming_irc_line;
    })

pub record InjectEngines : Type 0 where
  pub pre_engines : List SafeEngine
  pub post_engines : List SafeEngine
  pub registered_ptrs : List (ℕ × Bytes)

unfoldable pub new_engines : InjectEngines
new_engines = record { pre_engines = []; post_engines = []; registered_ptrs = [] }

unfoldable pub get_engines : InjectEngines → List SafeEngine
get_engines engines = engines.pre_engines ++ engines.post_engines

unfoldable pub register : ℕ → FishInjectEngine → InjectEngines → Bool × InjectEngines
unfolding safe_engine
register addr engine engines =
    if addr == 0 then (false, engines) else elim (safe_engine addr engine) [
      | none ↦ (false, engines)
      | some safe ↦ if contains_key addr engines.registered_ptrs then (false, engines) else (
        true,
        record engines {
          registered_ptrs = insert addr safe.engine_name engines.registered_ptrs;
          pre_engines =
              if safe.is_postprocessor
              then engines.pre_engines
              else engines.pre_engines ++ (safe ∷ []);
          post_engines =
              if safe.is_postprocessor
              then engines.post_engines ++ (safe ∷ [])
              else engines.post_engines;
        },
      )
    ]

-- `retain(|e| e.engine_addr != engine_addr)`.
unfoldable pub retain : ℕ → List SafeEngine → List SafeEngine
retain addr [] = []
retain addr (e ∷ es) = let rest = retain addr es in if e.engine_addr == addr then rest else e ∷ rest

unfoldable pub unregister : ℕ → InjectEngines → Bool × InjectEngines
unfolding retain
unregister addr engines =
    if addr == 0
    then (false, engines)
    else if not (contains_key addr engines.registered_ptrs)
    then (false, engines)
    else let pre = retain addr engines.pre_engines in
      let post = retain addr engines.post_engines in
      let removed_count =
        (length engines.pre_engines - length pre) + (length engines.post_engines - length post) in
      (
        ltb 0 removed_count,
        record {
          pre_engines = pre;
          post_engines = post;
          registered_ptrs = remove addr engines.registered_ptrs;
        },
      )

-- A line with a NUL cannot be handed over.
unfoldable pub has_nul : Bytes → Bool
has_nul [] = false
has_nul (c ∷ s) = (c == 0) || has_nul s

-- `on_outgoing_irc_line` and `on_incoming_irc_line` of SafeEngine, at the callback: whether the
-- line was modified, and the line.
unfoldable pub call_engine : (ℕ → Bytes → Option Bytes) → ℕ → Bytes → Bool × Bytes
unfolding has_nul
call_engine callback socket line =
    if has_nul line
    then (false, line)
    else elim (callback socket line) [ none ↦ (false, line) | some modified ↦ (true, modified) ]

unfoldable pub run_engines :
    (SafeEngine → ℕ → Bytes → Option Bytes) → ℕ → List SafeEngine → Bool × Bytes → Bool × Bytes
unfolding call_engine
run_engines callback socket [] so_far = so_far
run_engines callback socket (e ∷ es) (modified, line) =
    let (changed, line') = call_engine (callback e) socket line in
    run_engines callback socket es (changed || modified, line')

-- `on_outgoing_irc_line` and `on_incoming_irc_line` of InjectEngines: the pre-processors first.
unfoldable pub on_outgoing_irc_line : ℕ → Bytes → InjectEngines → Bool × Bytes
unfolding run_engines
on_outgoing_irc_line socket line engines =
    let pre = run_engines (λ e. e.outgoing_line) socket engines.pre_engines (false, line) in
    run_engines (λ e. e.outgoing_line) socket engines.post_engines pre

unfoldable pub on_incoming_irc_line : ℕ → Bytes → InjectEngines → Bool × Bytes
unfolding run_engines
on_incoming_irc_line socket line engines =
    let pre = run_engines (λ e. e.incoming_line) socket engines.pre_engines (false, line) in
    run_engines (λ e. e.incoming_line) socket engines.post_engines pre
