-- ===== src/BufferPool/Alloc.antt =====
-- What `allocate_buffer` and `free_buffer` do to the flags (buffer_pool.rs).
use tansiv.Base.{
  ℕ, zero, suc, ◌+◌, ◌≤◌, ◌<◌, ◌≡◌, refl, true, false, ◌⊎◌, inl, inr, arith, leb, ◌==◌, Bool-cases,
  count, count-update, count_all, ok, err,
}
use tansiv.Error.{no_buffer_available, size_too_big}
use tansiv.BufferPool.{InnerBuffer, BufferPool, Buffer, serve, allocate_from, allocate_buffer, drop}

module _ (T : InnerBuffer) where
  -- `i` is the first slot in `from..to` that is not busy.
  pub record FirstFree (pool : BufferPool T) (from to i : ℕ) : Type 0 where
    pub above : from ≤ i
    pub below : i < to
    pub free : pool.buffer_busy i ≡ false
    pub first : (j : ℕ) → from ≤ j → j < i → pool.buffer_busy j ≡ true

  abbrev pub AllBusy : BufferPool T → ℕ → ℕ → Type 0
  AllBusy pool from to = (j : ℕ) → from ≤ j → j < to → pool.buffer_busy j ≡ true

  allocate_from_lem :
      (k idx to : ℕ) (pool : BufferPool T) (size : ℕ)
      → to ≡ idx + k
      → ((i : ℕ) × FirstFree pool idx to i
          × (allocate_from T k idx pool size ≡ ok (serve T pool size i)))
        ⊎ (AllBusy pool idx to × (allocate_from T k idx pool size ≡ err no_buffer_available))
  unfolding allocate_from
  allocate_from_lem zero idx to pool size e = inr (λ j h l. absurd (omega arith), refl)
  allocate_from_lem (suc k) idx to pool size e = elim (Bool-cases (pool.buffer_busy idx)) [
    | inr free ↦ inl (
      idx,
      record {
        above = omega arith;
        below = omega arith;
        free = free;
        first = λ j h l. absurd (omega arith);
      },
      rw free,
    )
    | inl busy ↦ elim (allocate_from_lem k (idx + 1) to pool size (omega arith)) [
      | inl (i, f, q) ↦ inl (
        i,
        record {
          above = omega (arith, f.above);
          below = f.below;
          free = f.free;
          first = λ j h l. elim (Bool-cases (idx == j)) [
            | inl at ↦ ground arith
            | inr past ↦ f.first j (ground arith) l
          ];
        },
        rw busy q,
      )
      | inr (all, q) ↦ inr (
        (λ j h l. elim (Bool-cases (idx == j)) [
          | inl at ↦ ground arith
          | inr past ↦ all j (ground arith) l
        ]),
        rw busy q,
      )
    ]
  ]

  -- Every outcome of `allocate_buffer`: a size over the pool's is refused; else the first slot that
  -- is not busy is served, with its contents reset and its flag set, and nothing else changed; else
  -- every slot is busy and no buffer is available.
  pub allocate_buffer_cases :
      (pool : BufferPool T) (size : ℕ)
      → ((pool.buffer_size < size) × (allocate_buffer T pool size ≡ err size_too_big))
        ⊎ ((size ≤ pool.buffer_size)
            × ((i : ℕ) × FirstFree pool 0 pool.num_buffers i
                × (allocate_buffer T pool size ≡ ok (serve T pool size i))))
        ⊎ ((size ≤ pool.buffer_size)
            × AllBusy pool 0 pool.num_buffers
            × (allocate_buffer T pool size ≡ err no_buffer_available))
  unfolding allocate_buffer
  allocate_buffer_cases pool size = elim (Bool-cases (leb size pool.buffer_size)) [
    | inr big ↦ inl (ground arith, rw big)
    | inl fits ↦
        elim (allocate_from_lem pool.num_buffers 0 pool.num_buffers pool size (omega arith)) [
          | inl (i, f, q) ↦ inr (inl (ground arith, (i, f, rw fits q)))
          | inr (all, q) ↦ inr (inr (ground arith, all, rw fits q))
        ]
  ]

  abbrev pub busy_count : BufferPool T → ℕ
  busy_count pool = count pool.num_buffers pool.buffer_busy

  -- While a buffer is free, a size that fits is served.
  pub allocate_buffer_free :
      (pool : BufferPool T) (size : ℕ)
      → size ≤ pool.buffer_size
      → busy_count pool < pool.num_buffers
      → (b : Buffer T) × (after : BufferPool T) × (allocate_buffer T pool size ≡ ok (b, after))
  allocate_buffer_free pool size fits room = elim (allocate_buffer_cases pool size) [
    | inl (big, e) ↦ absurd (omega arith)
    | inr (inl (_, (i, f, e))) ↦ (_, _, e)
    | inr (inr (_, all, e)) ↦ absurd (
        omega (arith, count_all pool.num_buffers pool.buffer_busy (λ j lt. all j (omega arith) lt)))
  ]

  -- What a served allocation tells about the pool before and after it.
  pub record Served (pool : BufferPool T) (size : ℕ) (b : Buffer T) (after : BufferPool T)
      : Type 0 where
    pub fits : size ≤ pool.buffer_size
    pub below : b.index < pool.num_buffers
    pub free : pool.buffer_busy b.index ≡ false
    pub same : (b, after) ≡ serve T pool size b.index

  pub allocate_buffer-Served :
      (pool : BufferPool T) (size : ℕ) {b : Buffer T} {after : BufferPool T}
      → allocate_buffer T pool size ≡ ok (b, after)
      → Served pool size b after
  allocate_buffer-Served pool size h = elim (allocate_buffer_cases pool size) [
    | inl (big, q) ↦ cc
    | inr (inl (fits, (i, f, q))) ↦ record {
      fits = fits;
      below = ground (arith, f.below);
      free = ground (arith, f.free);
      same = ground arith;
    }
    | inr (inr (fits, all, q)) ↦ cc
  ]

  -- An allocation sets one more flag.
  pub busy_count-allocate_buffer :
      (pool : BufferPool T) (size : ℕ) {b : Buffer T} {after : BufferPool T}
      → allocate_buffer T pool size ≡ ok (b, after)
      → busy_count after ≡ busy_count pool + 1
  busy_count-allocate_buffer pool size {b} h =
      let s = allocate_buffer-Served pool size h in
      ground
        (arith, s.same, s.free, count-update pool.num_buffers b.index pool.buffer_busy true s.below)

  -- The drop of a buffer that is in use clears one flag.
  pub busy_count-drop :
      (pool : BufferPool T) (b : Buffer T)
      → b.index < pool.num_buffers
      → pool.buffer_busy b.index ≡ true
      → busy_count (drop T pool b) + 1 ≡ busy_count pool
  unfolding drop
  busy_count-drop pool b lt busy =
      ground (arith, count-update pool.num_buffers b.index pool.buffer_busy false lt)
