-- ===== src/Tests/Inject.antt =====
-- The engines and the pool of buffers, on examples.
use fish.Common.{ℕ, true, [], ◌++◌, none, some, codes, nat_eq}
use fish.Inject.BufferPool.{Buffer, new_pool, drop_smart_buffer}
use fish.Inject.BufferPool.Bounds.{IsPool, dropped, fresh, Pooled-IsPool}
use fish.Inject.Engines.{FishInjectEngine, new_engines, register, unregister}
use fish.Inject.Engines.Registry.{
  IsConsistent, none_yet, registered, unregistered, Registered-IsConsistent,
}

abbrev engine : FishInjectEngine
engine = record {
  version = 1;
  engine_name = some (codes "e");
  is_postprocessor = true;
  on_outgoing_irc_line = λ socket line. none;
  on_incoming_irc_line = λ socket line. some (codes "x" ++ line);
}

abbrev allocated : ℕ → Buffer
allocated n = record { capacity = n; contents = [] }

Registered-IsConsistent_example : IsConsistent (unregister 7 (register 7 engine new_engines).1).1
Registered-IsConsistent_example =
    Registered-IsConsistent (unregistered 7 (registered 7 engine none_yet))

Pooled-IsPool_example : IsPool (drop_smart_buffer (allocated 2048) new_pool)
Pooled-IsPool_example = Pooled-IsPool {with_capacity = allocated} (dropped (allocated 2048) fresh)
