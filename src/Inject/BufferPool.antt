-- ===== src/Inject/BufferPool.antt =====
-- fish_11_inject/src/buffer_pool.rs: the pool of buffers, for one thread that runs alone. Both
-- mutexes of the pool are not re-entrant.
pub mod Bounds
use fish.Common.{
  ℕ, ◌+◌, ◌-◌, ◌==◌, max, Bool, true, false, List, [], ◌∷◌, ◌++◌, Option, none, some, Bytes,
  if◌then◌else◌, length, leb, ltb,
}

-- A BytesMut: its capacity and what is written in it.
pub record Buffer : Type 0 where
  pub capacity : ℕ
  pub contents : Bytes

abbrev pub max_pool_buffer_size : ℕ
max_pool_buffer_size = 16384

abbrev pub max_pooled_buffers : ℕ
max_pooled_buffers = 64

pub record BufferPoolStats : Type 0 where
  pub allocations : ℕ
  pub reuses : ℕ
  pub current_pool_size : ℕ
  pub max_pool_size : ℕ

pub record BufferPool : Type 0 where
  pub pool : List Buffer
  pub stats : BufferPoolStats

unfoldable pub new_pool : BufferPool
new_pool = record {
  pool = [];
  stats = record { allocations = 0; reuses = 0; current_pool_size = 0; max_pool_size = 0 };
}

-- The first buffer that is large enough, and the others.
unfoldable pub take_first : ℕ → List Buffer → Option (Buffer × List Buffer)
take_first min_capacity [] = none
take_first min_capacity (b ∷ bs) =
    let later = take_first min_capacity bs in
    if leb min_capacity b.capacity
    then some (b, bs)
    else elim later [ none ↦ none | some (found, rest) ↦ some (found, b ∷ rest) ]

-- `waits`: the thread locks a mutex that it holds.
pub data Acquired : Type 0 where
  got : Buffer → BufferPool → Acquired
  nothing : Acquired
  waits : Acquired

-- The mutex of the statistics is locked only when a buffer was found.
unfoldable pub try_acquire_from_pool : Bool → ℕ → BufferPool → Acquired
unfolding take_first
try_acquire_from_pool stats_held min_capacity pool = elim (take_first min_capacity pool.pool) [
  | none ↦ nothing
  | some (found, rest) ↦
      if stats_held
      then waits
      else got found (record {
        pool = rest;
        stats = record pool.stats { current_pool_size = pool.stats.current_pool_size - 1 };
      })
]

-- The guard on the statistics is still alive at the call. `with_capacity` is that of BytesMut.
unfoldable pub acquire : (ℕ → Buffer) → ℕ → BufferPool → Acquired
unfolding try_acquire_from_pool
acquire with_capacity min_capacity pool =
    let stats = record pool.stats { allocations = pool.stats.allocations + 1 } in
    let counted = record pool { stats = stats } in
    elim (try_acquire_from_pool true min_capacity counted) [
      | got buffer left ↦
          got buffer (record left { stats = record left.stats { reuses = left.stats.reuses + 1 } })
      | nothing ↦ got (with_capacity (max min_capacity 1024)) counted
      | waits ↦ waits
    ]

unfoldable pub release : Buffer → BufferPool → BufferPool
release buffer pool =
    if ltb max_pool_buffer_size buffer.capacity
    then pool
    else if leb max_pooled_buffers (length pool.pool)
    then pool
    else record {
      pool = pool.pool ++ (record { capacity = buffer.capacity; contents = [] } ∷ []);
      stats = record pool.stats {
        current_pool_size = pool.stats.current_pool_size + 1;
        max_pool_size = max pool.stats.max_pool_size (length pool.pool + 1);
      };
    }

unfoldable pub clear : BufferPool → BufferPool
clear pool = record { pool = []; stats = record pool.stats { current_pool_size = 0 } }

-- `SmartBuffer`'s drop: a buffer that was taken out is empty and without capacity.
unfoldable pub drop_smart_buffer : Buffer → BufferPool → BufferPool
unfolding release
drop_smart_buffer buffer pool =
    if (length buffer.contents == 0)
    then (if (buffer.capacity == 0) then pool else release buffer pool)
    else release buffer pool
