-- ===== src/Inject/BufferPool/Bounds.antt =====
-- fish_11_inject/src/buffer_pool.rs: the bounds of the pool, and who waits.
use fish.Common.{
  ℕ, ◌+◌, ◌≤◌, ◌<◌, ◌≡◌, arith, max, true, false, List, [], ◌∷◌, ◌++◌, some, length, length-append,
  Option-cases, is_some, inl, inr,
}
use fish.Inject.BufferPool.{
  Buffer, BufferPool, take_first, got, waits, try_acquire_from_pool, acquire, release,
  drop_smart_buffer, clear, new_pool,
}

-- The counter agrees with the pool, which holds at most 64 buffers.
abbrev pub IsPool : BufferPool → Type 0
IsPool p =
    (p.stats.current_pool_size ≡ length p.pool)
    × (length p.pool ≤ 64)
    × (length p.pool ≤ p.stats.max_pool_size)

release-IsPool : (buffer : Buffer) (p : BufferPool) → IsPool p → IsPool (release buffer p)
unfolding release
release-IsPool buffer p inv =
    ground (arith, length-append p.pool (record { capacity = buffer.capacity; contents = [] } ∷ []))

length-take_first :
    (n : ℕ) (bs : List Buffer) (r : Buffer × List Buffer)
    → take_first n bs ≡ some r
    → (length bs ≡ length r.1 + 1) × (n ≤ r.0.capacity)
unfolding take_first
length-take_first n [] r found = ground arith
length-take_first n (c ∷ bs) r found = elim (Option-cases (take_first n bs)) [
  | inl none_left ↦ ground arith
  | inr (later, there) ↦ ground (arith, length-take_first n bs later there)
]

-- Where the caller does not hold the lock of the statistics, a buffer that is found in a pool of
-- at most 64 buffers with the right count is large enough, and the pool without it keeps its
-- bounds and its count.
pub try_acquire_from_pool-IsPool :
    (n : ℕ) (p : BufferPool) (buffer : Buffer) (after : BufferPool)
    → IsPool p
    → try_acquire_from_pool false n p ≡ got buffer after
    → IsPool after × (n ≤ buffer.capacity)
unfolding try_acquire_from_pool
try_acquire_from_pool-IsPool n p buffer after inv found =
    elim (Option-cases (take_first n p.pool)) [
      | inl missed ↦ ground arith
      | inr (r, there) ↦ ground (arith, length-take_first n p.pool r there)
    ]

take_first-append :
    (n : ℕ) (bs : List Buffer) (b : Buffer)
    → n ≤ b.capacity
    → is_some (take_first n (bs ++ (b ∷ []))) ≡ true
unfolding take_first
take_first-append n [] b fits = ground arith
take_first-append n (c ∷ bs) b fits = ground (arith, take_first-append n bs b)

-- A thread that gives a buffer back, while the pool has room, and then asks for one that is no
-- larger, waits for ever.
pub acquire-release :
    (with_capacity : ℕ → Buffer) (n : ℕ) (buffer : Buffer) (p : BufferPool)
    → length p.pool < 64
    → n ≤ buffer.capacity
    → buffer.capacity ≤ 16384
    → acquire with_capacity n (release buffer p) ≡ waits
unfolding acquire try_acquire_from_pool release
acquire-release with_capacity n buffer p room fits small =
    ground (
      arith,
      take_first-append n p.pool (record { capacity = buffer.capacity; contents = [] }) fits,
    )

-- A request that is answered is never answered from the pool: the buffer is made for the requested
-- capacity, or for 1024 where that is more, and the pool stays as it was.
pub acquire_lem :
    (with_capacity : ℕ → Buffer) (n : ℕ) (p after : BufferPool) (buffer : Buffer)
    → acquire with_capacity n p ≡ got buffer after
    → (after.pool ≡ p.pool) × (buffer ≡ with_capacity (max n 1024))
unfolding acquire try_acquire_from_pool
acquire_lem with_capacity n p after buffer done = ground arith

drop_smart_buffer-IsPool :
    (buffer : Buffer) (p : BufferPool) → IsPool p → IsPool (drop_smart_buffer buffer p)
unfolding drop_smart_buffer
drop_smart_buffer-IsPool buffer p inv = ground (arith, inv, release-IsPool buffer p inv)

acquire-IsPool :
    (with_capacity : ℕ → Buffer) (n : ℕ) (p after : BufferPool) (buffer : Buffer)
    → IsPool p
    → acquire with_capacity n p ≡ got buffer after
    → IsPool after
unfolding acquire try_acquire_from_pool
acquire-IsPool with_capacity n p after buffer inv done = ground (arith, inv, done)

clear-IsPool : (p : BufferPool) → IsPool p → IsPool (clear p)
unfolding clear
clear-IsPool p inv = ground (arith, inv)

-- The pools that come about from the new one by answered requests, dropped buffers and clearing.
pub data Pooled (with_capacity : ℕ → Buffer) : BufferPool → Type 0 where
  fresh : Pooled with_capacity new_pool
  acquired :
      (n : ℕ) (buffer : Buffer) {p after : BufferPool}
      → Pooled with_capacity p
      → acquire with_capacity n p ≡ got buffer after
      → Pooled with_capacity after
  dropped :
      (buffer : Buffer) {p : BufferPool}
      → Pooled with_capacity p
      → Pooled with_capacity (drop_smart_buffer buffer p)
  cleared : {p : BufferPool} → Pooled with_capacity p → Pooled with_capacity (clear p)

new_pool-IsPool : IsPool new_pool
unfolding new_pool
new_pool-IsPool = ground arith

-- After any answered requests, dropped buffers and clearing, the pool holds at most 64 buffers, no
-- more than its recorded maximum, and as many as its statistics say.
pub Pooled-IsPool :
    {with_capacity : ℕ → Buffer} {p : BufferPool} → Pooled with_capacity p → IsPool p
Pooled-IsPool fresh = new_pool-IsPool
Pooled-IsPool {with_capacity} (acquired n buffer {p} {after} so_far done) =
    acquire-IsPool with_capacity n p after buffer (Pooled-IsPool so_far) done
Pooled-IsPool (dropped buffer {p} so_far) = drop_smart_buffer-IsPool buffer p (Pooled-IsPool so_far)
Pooled-IsPool (cleared {p} so_far) = clear-IsPool p (Pooled-IsPool so_far)
