-- ===== src/BufferPool/Quiet.antt =====
-- Pools of which no buffer is in use (buffer_pool.rs).
use tansiv.Base.{ℕ, ◌≤◌, ◌<◌, ◌≡◌, ap, true, false, arith, count_none, update, ok}
use tansiv.BufferPool.{InnerBuffer, BufferPool, Buffer, allocate_buffer, drop}
use tansiv.BufferPool.Alloc.{busy_count, Served, allocate_buffer_free, allocate_buffer-Served}

module _ (T : InnerBuffer) where
  pub record Quiet (pool : BufferPool T) : Type 0 where
    pub idle : (i : ℕ) → pool.buffer_busy i ≡ false
    pub some_buffer : 0 < pool.num_buffers

  pub busy_count-Quiet : {pool : BufferPool T} → Quiet pool → busy_count T pool ≡ 0
  busy_count-Quiet {pool} q = count_none pool.num_buffers pool.buffer_busy (λ i lt. q.idle i)

  -- A pool that serves a buffer and has it back is quiet again, and has the same sizes.
  pub record Lent (pool : BufferPool T) (size : ℕ) (b : Buffer T) (after : BufferPool T)
      : Type 0 where
    pub served : Served T pool size b after
    pub sized : (drop T after b).buffer_size ≡ pool.buffer_size
    pub back : Quiet (drop T after b)

  pub allocate_buffer-Lent :
      (pool : BufferPool T) (size : ℕ) {b : Buffer T} {after : BufferPool T}
      → Quiet pool
      → allocate_buffer T pool size ≡ ok (b, after)
      → Lent pool size b after
  unfolding drop
  allocate_buffer-Lent pool size {b} {after} q e =
      let s = allocate_buffer-Served T pool size e in
      let flags : after.buffer_busy ≡ update pool.buffer_busy b.index true =
        ap (λ x. x.1.buffer_busy) s.same in
      record {
        served = s;
        sized = ap (λ x. x.1.buffer_size) s.same;
        back = record {
          idle = λ i. rw flags (ground (arith, q.idle i));
          some_buffer = rw (ap (λ x. x.1.num_buffers) s.same) q.some_buffer;
        };
      }

  pub allocate_buffer-Quiet :
      (pool : BufferPool T) (size : ℕ)
      → Quiet pool
      → size ≤ pool.buffer_size
      → (b : Buffer T) × (after : BufferPool T) × (allocate_buffer T pool size ≡ ok (b, after))
        × Lent pool size b after
  allocate_buffer-Quiet pool size q fits =
      let (b, after, e) =
        allocate_buffer_free T pool size fits (omega (arith, busy_count-Quiet q, q.some_buffer)) in
      (b, after, e, allocate_buffer-Lent pool size q e)
