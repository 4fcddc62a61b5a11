-- ===== src/Inject/Engines/Pipeline.antt =====
-- fish_11_inject/src/engines.rs: a line on its way through the engines.
use fish.Common.{ℕ, ◌≡◌, refl, sym, arith, Bool, true, false, List, [], ◌∷◌, ◌++◌, Option, Bytes}
use fish.Inject.Engines.{
  SafeEngine, InjectEngines, get_engines, call_engine, run_engines, on_outgoing_irc_line,
  on_incoming_irc_line,
}

module _ (callback : SafeEngine → ℕ → Bytes → Option Bytes) (socket : ℕ) where
  run_engines-append :
      (es fs : List SafeEngine) (so_far : Bool × Bytes)
      → run_engines callback socket (es ++ fs) so_far
        ≡ run_engines callback socket fs (run_engines callback socket es so_far)
  unfolding run_engines
  run_engines-append [] fs so_far = refl
  run_engines-append (e ∷ es) fs (modified, line) = run_engines-append es fs _

  -- The flag is never taken back.
  run_engines_modified :
      (es : List SafeEngine) (line : Bytes) → (run_engines callback socket es (true, line)).0 ≡ true
  unfolding run_engines call_engine
  run_engines_modified [] line = refl
  run_engines_modified (e ∷ es) line = grind (arith, run_engines_modified es)

  run_engines_unmodified :
      (es : List SafeEngine) (line : Bytes)
      → (run_engines callback socket es (false, line)).0 ≡ false
      → (run_engines callback socket es (false, line)).1 ≡ line
  unfolding run_engines call_engine
  run_engines_unmodified [] line same = refl
  run_engines_unmodified (e ∷ es) line same =
      grind (arith, run_engines_unmodified es line, run_engines_modified es)

-- A line goes through the engines in the order in which they are listed, each seeing what the one
-- before it left, in both directions.
pub irc_line_order :
    (socket : ℕ) (line : Bytes) (engines : InjectEngines)
    → (on_outgoing_irc_line socket line engines
        ≡ run_engines (λ e. e.outgoing_line) socket (get_engines engines) (false, line))
      × (on_incoming_irc_line socket line engines
          ≡ run_engines (λ e. e.incoming_line) socket (get_engines engines) (false, line))
unfolding on_outgoing_irc_line on_incoming_irc_line get_engines
irc_line_order socket line engines = (
  sym (run_engines-append (λ e. e.outgoing_line) socket engines.pre_engines engines.post_engines _),
  sym (run_engines-append (λ e. e.incoming_line) socket engines.pre_engines engines.post_engines _),
)

-- Where no engine reports a change to an outgoing line, the line comes out as it went in.
pub on_outgoing_irc_line_unmodified :
    (socket : ℕ) (line : Bytes) (engines : InjectEngines)
    → (on_outgoing_irc_line socket line engines).0 ≡ false
    → (on_outgoing_irc_line socket line engines).1 ≡ line
on_outgoing_irc_line_unmodified socket line engines same =
    let (order, _) = irc_line_order socket line engines in
    let unmodified =
      run_engines_unmodified (λ e. e.outgoing_line) socket (get_engines engines) line in
    rw (order) (unmodified (rw (← order) same))
