-- ===== src/BufferPool.antt =====
-- buffer_pool.rs: a pool of equal buffers with a busy flag each. The trait `InnerBuffer` is a
-- record of operations, and what the flags protect, the array of contents, is `buffers`.
pub mod Bytes
pub mod Builders
pub mod Alloc
pub mod Handles
pub mod Accounts
pub mod Quiet
pub mod Threads
use tansiv.Base.{ℕ, zero, suc, ◌+◌, Bool, true, false}
use tansiv.Base.{leb, if◌then◌else◌, update, Result, ok, err}
use tansiv.Error.{PoolError, no_buffer_available, size_too_big}

-- The trait `InnerBuffer`: `Inner` is the implementing type. `get` and `set` read and store through
-- `get` and `get_mut`; the number beside the array is the pool's `buffer_size`.
pub record InnerBuffer : Type 1 where
  pub Array : Type 0
  pub Content : Type 0
  pub Inner : Type 0
  pub calloc : ℕ → ℕ → Array
  pub new : ℕ → ℕ → Inner
  pub get : Inner → ℕ → Array → ℕ → Content
  pub set : Inner → ℕ → Array → ℕ → Content → Array
  pub reset : Inner → ℕ → Array → ℕ → Array

pub record BufferPool (T : InnerBuffer) : Type 0 where
  pub buffer_size : ℕ
  pub num_buffers : ℕ
  pub buffers : T.Array
  pub buffer_busy : ℕ → Bool

pub record Buffer (T : InnerBuffer) : Type 0 where
  pub index : ℕ
  pub inner : T.Inner

module _ (T : InnerBuffer) where
  unfoldable pub new : ℕ → ℕ → BufferPool T
  new buffer_size num_buffers = record {
    buffer_size = buffer_size;
    num_buffers = num_buffers;
    buffers = T.calloc buffer_size num_buffers;
    buffer_busy = λ _. false;
  }

  -- The slot `idx` is swapped to busy, and its contents are reset.
  abbrev pub serve : BufferPool T → ℕ → ℕ → Buffer T × BufferPool T
  serve pool size idx =
      let inner = T.new idx size in
      (
        record { index = idx; inner = inner },
        record pool {
          buffers = T.reset inner pool.buffer_size pool.buffers idx;
          buffer_busy = update pool.buffer_busy idx true;
        },
      )

  -- The loop over the flags: `k` slots are left, from slot `idx` on.
  unfoldable pub allocate_from :
      ℕ → ℕ → BufferPool T → ℕ → Result PoolError (Buffer T × BufferPool T)
  allocate_from zero idx pool size = err no_buffer_available
  allocate_from (suc k) idx pool size =
      let rest = allocate_from k (idx + 1) pool size in
      if pool.buffer_busy idx then rest else ok (serve pool size idx)

  unfoldable pub allocate_buffer : BufferPool T → ℕ → Result PoolError (Buffer T × BufferPool T)
  unfolding allocate_from
  allocate_buffer pool size =
      if leb size pool.buffer_size
      then allocate_from pool.num_buffers 0 pool size
      else err size_too_big

  unfoldable pub free_buffer : BufferPool T → ℕ → BufferPool T
  free_buffer pool index = record pool { buffer_busy = update pool.buffer_busy index false }

  -- `Drop` for `Buffer`
  unfoldable pub drop : BufferPool T → Buffer T → BufferPool T
  unfolding free_buffer
  drop pool b = free_buffer pool b.index

  -- `Deref` and `DerefMut`
  unfoldable pub deref : BufferPool T → Buffer T → T.Content
  deref pool b = T.get b.inner pool.buffer_size pool.buffers b.index

  unfoldable pub deref_mut : BufferPool T → Buffer T → T.Content → BufferPool T
  deref_mut pool b c = record pool {
    buffers = T.set b.inner pool.buffer_size pool.buffers b.index c;
  }
